-- ===== src/Mqtt/Topics.antt =====
-- The topics that esp8266/app/mqtt.cpp publishes to, and what a subscriber has seen of one.
use esp8266_xcode.Base.{
  ℕ, ◌+◌, List, [], ◌∷◌, ◌++◌, Option, none, some, ◌≡◌, refl, sym, ap, ◌∙◌, arith, length,
  length-append, append-nil, if◌then◌else◌,
}
use esp8266_xcode.Base.Strings.{codes}
use esp8266_xcode.Httpd.{text_eq}
use esp8266_xcode.Mqtt.{
  Event, init, init_client, init_last_will, connect, publish, subscribe, arm_timer, mqtt_prefix,
  esp,
}

pub text_eq-append : (t a b : List ℕ) → text_eq (t ++ a) (t ++ b) ≡ text_eq a b
text_eq-append [] a b = refl
text_eq-append (x ∷ t) a b = ground (arith, text_eq-append t a b)

pub length-esp :
    (hostname name : List ℕ) → length (esp hostname name) ≡ length hostname + 5 + length name
unfolding mqtt_prefix
length-esp hostname name = omega (
  arith,
  length-append hostname ((b'/' ∷ codes "ESP") ++ (b'/' ∷ (name ++ []))),
  length-append name [],
)

pub text_eq-esp : (hostname a b : List ℕ) → text_eq (esp hostname a) (esp hostname b) ≡ text_eq a b
unfolding mqtt_prefix
text_eq-esp hostname a b =
    text_eq-append hostname ((b'/' ∷ codes "ESP") ++ (b'/' ∷ (a ++ [])))
      ((b'/' ∷ codes "ESP") ++ (b'/' ∷ (b ++ [])))
    ∙ ap (λ t. text_eq t (b ++ [])) (append-nil a)
    ∙ ap (λ t. text_eq a t) (append-nil b)

abbrev pub later_first : Option (List ℕ) → Option (List ℕ) → Option (List ℕ)
later_first (some v) earlier = some v
later_first none earlier = earlier

-- The last data of a topic.
unfoldable pub shown : List ℕ → List Event → Option (List ℕ)
shown topic [] = none
shown topic (publish t text retain ∷ es) =
    later_first (shown topic es) (if text_eq t topic then some text else none)
shown topic (_ ∷ es) = shown topic es

pub later_first-none : (o : Option (List ℕ)) → later_first o none ≡ o
later_first-none none = refl
later_first-none (some v) = refl

later_first_assoc :
    (a b c : Option (List ℕ)) → later_first (later_first a b) c ≡ later_first a (later_first b c)
later_first_assoc none b c = refl
later_first_assoc (some v) b c = refl

pub shown-append :
    (topic : List ℕ) (xs ys : List Event)
    → shown topic (xs ++ ys) ≡ later_first (shown topic ys) (shown topic xs)
unfolding shown
shown-append topic [] ys = sym (later_first-none (shown topic ys))
shown-append topic (publish t text retain ∷ xs) ys =
    rw (shown-append topic xs ys) (later_first_assoc (shown topic ys) (shown topic xs) _)
shown-append topic (init a n ∷ xs) ys = shown-append topic xs ys
shown-append topic (init_client a ∷ xs) ys = shown-append topic xs ys
shown-append topic (init_last_will a b ∷ xs) ys = shown-append topic xs ys
shown-append topic (connect ∷ xs) ys = shown-append topic xs ys
shown-append topic (subscribe a ∷ xs) ys = shown-append topic xs ys
shown-append topic (arm_timer n ∷ xs) ys = shown-append topic xs ys
