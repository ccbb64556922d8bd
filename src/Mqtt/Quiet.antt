-- ===== src/Mqtt/Quiet.antt =====
-- What esp8266/app/mqtt.cpp publishes for a new connection is not on the topics of `mqtt_loop`.
use esp8266_xcode.Base.{
  ℕ, List, [], ◌∷◌, ◌++◌, Option, none, some, Bool, true, false, ltb, ◌≡◌, refl, ◌∙◌, length,
  if◌then◌else◌, All, All-append,
}
use esp8266_xcode.Base.Int.{ℤ}
use esp8266_xcode.Base.Strings.{codes}
use esp8266_xcode.Httpd.{text_eq}
use esp8266_xcode.Mqtt.{Event, State, mqtt_prefix, esp, mqtt_publish, publish_number}
use esp8266_xcode.Mqtt.Topics.{shown, shown-append, text_eq-append, text_eq-esp}
use esp8266_xcode.Mqtt.Connection.{
  publish_text, all_of, reset_calls, ip_calls, Info, mqtt_information, information_calls,
  connection_calls, on_connected,
}

module _ (hex : ℤ → List ℕ) (hostname : List ℕ) where
  -- Another topic than the three of the loop.
  abbrev pub IsOther : List ℕ → Type 0
  IsOther topic =
      (text_eq topic (esp hostname (codes "Time")) ≡ false)
      × (text_eq topic (esp hostname (codes "FreeHeap")) ≡ false)
      × (text_eq topic (esp hostname (codes "RSSI")) ≡ false)

  -- Nothing is published to the three topics.
  abbrev pub IsQuiet : List Event → Type 0
  IsQuiet events =
      (shown (esp hostname (codes "Time")) events ≡ none)
      × (shown (esp hostname (codes "FreeHeap")) events ≡ none)
      × (shown (esp hostname (codes "RSSI")) events ≡ none)

  -- A call that has a result leaves the state as it is.
  abbrev pub Keeps : State → Option (State × List Event) → Type 0
  Keeps s none = Unit
  Keeps s (some (s', events)) = (s' ≡ s) × IsQuiet events

  IsQuiet-append : (xs ys : List Event) → IsQuiet xs → IsQuiet ys → IsQuiet (xs ++ ys)
  IsQuiet-append xs ys (a, b, c) (a', b', c') = (
    shown-append (esp hostname (codes "Time")) xs ys ∙ rw (a', a),
    shown-append (esp hostname (codes "FreeHeap")) xs ys ∙ rw (b', b),
    shown-append (esp hostname (codes "RSSI")) xs ys ∙ rw (c', c),
  )

  mqtt_publish-IsQuiet :
      (connected : Bool) (topic text : List ℕ) (retain : Bool)
      → IsOther topic
      → IsQuiet (mqtt_publish connected topic text 0 retain)
  unfolding mqtt_publish shown
  mqtt_publish-IsQuiet false topic text retain o = (refl, refl, refl)
  mqtt_publish-IsQuiet true topic text retain (a, b, c) =
      (rw (shown, a), rw (shown, b), rw (shown, c))

  if-Keeps :
      (s : State) (b : Bool) (o : Option (State × List Event))
      → Keeps s o
      → Keeps s (if b then o else none)
  if-Keeps s true o k = k
  if-Keeps s false o k = tt

  publish_text-Keeps :
      (s : State) (topic text : List ℕ) (retain : Bool)
      → IsOther topic
      → Keeps s (publish_text s topic text retain)
  unfolding publish_text
  publish_text-Keeps s topic text retain o =
      if-Keeps s (ltb (length topic) 128) _
        (refl, mqtt_publish-IsQuiet s.connected topic text retain o)

  publish_number-Keeps :
      (s : State) (topic text : List ℕ) (retain : Bool)
      → IsOther topic
      → Keeps s (publish_number s topic text retain)
  unfolding publish_number
  publish_number-Keeps s topic text retain o =
      if-Keeps s (ltb (length topic) 64) _
        (refl, mqtt_publish-IsQuiet s.connected topic text retain o)

  -- The event and what `all_of` gives for the rest.
  cons-Keeps :
      (s : State) (events : List Event) (o : Option (State × List Event))
      → IsQuiet events
      → Keeps s o
      → Keeps s (elim o as (λ o. Option (State × List Event)) [
        | none ↦ none
        | some (s', later) ↦ some (s', events ++ later)
      ])
  cons-Keeps s events none q k = tt
  cons-Keeps s events (some (s', later)) q (e, k) = (e, IsQuiet-append events later q k)

  all_of-Keeps :
      (s : State) (calls : List (Option (State × List Event)))
      → All (Keeps s) calls
      → Keeps s (all_of s calls)
  unfolding all_of shown
  all_of-Keeps s [] k = (refl, (refl, refl, refl))
  all_of-Keeps s (none ∷ rest) k = tt
  all_of-Keeps s (some (s', events) ∷ rest) k =
      cons-Keeps s events (all_of s rest) k.0.1 (all_of-Keeps s rest k.1)

  esp-IsOther :
      (name : List ℕ)
      → text_eq name (codes "Time") ≡ false
      → text_eq name (codes "FreeHeap") ≡ false
      → text_eq name (codes "RSSI") ≡ false
      → IsOther (esp hostname name)
  esp-IsOther name a b c = (
    text_eq-esp hostname name (codes "Time") ∙ a,
    text_eq-esp hostname name (codes "FreeHeap") ∙ b,
    text_eq-esp hostname name (codes "RSSI") ∙ c,
  )

  connected-IsOther : IsOther (mqtt_prefix hostname (codes "connected") [])
  unfolding mqtt_prefix
  connected-IsOther = (
    text_eq-append hostname (codes "/connected") (codes "/ESP/Time"),
    text_eq-append hostname (codes "/connected") (codes "/ESP/FreeHeap"),
    text_eq-append hostname (codes "/connected") (codes "/ESP/RSSI"),
  )

  ip-Keeps : (s : State) (ip : Option (List ℕ)) → All (Keeps s) (ip_calls s hostname ip)
  unfolding ip_calls
  ip-Keeps s none = tt
  ip-Keeps s (some ip) =
      (publish_number-Keeps s _ ip true (esp-IsOther (codes "IP") refl refl refl), tt)

  reset-Keeps :
      (s : State) (reset : Option (ℕ × List ℕ)) → All (Keeps s) (reset_calls s hostname reset)
  unfolding reset_calls
  reset-Keeps s none = tt
  reset-Keeps s (some (reason, detail)) = (
    publish_text-Keeps s _ _ false (esp-IsOther (codes "ResetReason") refl refl refl),
    (publish_text-Keeps s _ _ false (esp-IsOther (codes "ResetInfo") refl refl refl), tt),
  )

  either-Keeps :
      (s : State) (b : Bool) (x y : Option (State × List Event))
      → Keeps s x
      → Keeps s y
      → Keeps s (if b then x else y)
  either-Keeps s true x y k l = k
  either-Keeps s false x y k l = l

  mqtt_information-Keeps : (i : Info) (s : State) → Keeps s (mqtt_information hex hostname i s)
  unfolding mqtt_information information_calls shown
  mqtt_information-Keeps i s =
      either-Keeps s s.connected _ (some (s, []))
        (all_of-Keeps s (information_calls hex hostname i s) (
          publish_text-Keeps s _ i.sdk_version false
              (esp-IsOther (codes "SDK Version") refl refl refl),
          (
            publish_number-Keeps s _ _ false (esp-IsOther (codes "CPU Frequency") refl refl refl),
            (
              publish_text-Keeps s _ i.build_date false
                  (esp-IsOther (codes "Build") refl refl refl),
              (
                publish_text-Keeps s _ i.version true
                    (esp-IsOther (codes "Version") refl refl refl),
                All-append (Keeps s) (ip_calls s hostname i.ip) (reset_calls s hostname i.reset)
                    (ip-Keeps s i.ip) (reset-Keeps s i.reset),
              ),
            ),
          ),
        ))
        (refl, (refl, refl, refl))

  pub on_connected-Keeps :
      (i : Info) (s : State) → Keeps (record s { connected = true }) (on_connected hex hostname i s)
  unfolding on_connected connection_calls shown
  on_connected-Keeps i s =
      let s' : State = record s { connected = true } in
      all_of-Keeps s' (connection_calls hex hostname i s') (
        publish_text-Keeps s' _ (codes "true") true connected-IsOther,
        (
          (refl, (refl, refl, refl)),
          (mqtt_information-Keeps i s', ((refl, (refl, refl, refl)), tt)),
        ),
      )
