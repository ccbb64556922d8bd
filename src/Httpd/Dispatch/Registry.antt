-- ===== src/Httpd/Dispatch/Registry.antt =====
-- What httpd_regist of esp8266/app/httpd.c changes in the choice of a handler.
use esp8266_xcode.Base.{
  ℕ, List, [], ◌∷◌, Option, none, some, Bool, true, false, ◌||◌, if◌then◌else◌, ◌≡◌, refl, ap, sym,
  arith, Bool-cases, inl, inr, ◌∙◌,
}
use esp8266_xcode.Httpd.{Handler, httpd_regist, find_handler, replace, text_eq, starts_with}

pub text_eq_refl : (a : List ℕ) → text_eq a a ≡ true
text_eq_refl [] = refl
text_eq_refl (x ∷ a) = ground (arith, text_eq_refl a)

pub text_eq→≡ : (a b : List ℕ) → text_eq a b ≡ true → a ≡ b
text_eq→≡ [] [] h = refl
text_eq→≡ [] (y ∷ b) h = ground arith
text_eq→≡ (x ∷ a) [] h = ground arith
text_eq→≡ (x ∷ a) (y ∷ b) h = grind (arith, text_eq→≡ a b)

true_not_false : ◌≡◌ {A = Bool} true false → ⊥
true_not_false h = ground (arith, h)

module _ {ℓ} {F : Type ℓ} where
  abbrev pub node_of : List ℕ → Option (List ℕ) → F → Handler F
  node_of url type handler = record { url = url; type = type; handler = handler }

  -- Is exactly this URL registered?
  abbrev pub has : List ℕ → List (Handler F) → Bool
  has url [] = false
  has url (node ∷ nodes) = text_eq node.url url || has url nodes

  -- The new node in place of one with the same URL.
  abbrev pub updated : Handler F → Option (Handler F) → Option (Handler F)
  updated new none = none
  updated new (some node) = some (if text_eq node.url new.url then new else node)

  replace-none :
      (url : List ℕ) (type : Option (List ℕ)) (handler : F) (nodes : List (Handler F))
      → has url nodes ≡ false
      → replace url type handler nodes ≡ none
  unfolding replace
  replace-none url type handler [] h = refl
  replace-none url type handler (node ∷ nodes) h = elim (Bool-cases (text_eq node.url url)) [
    | inl e ↦ absurd (true_not_false (rw e at h))
    | inr e ↦ rw (replace, e, replace-none url type handler nodes (rw e at h))
  ]

  -- What cannot be found has not been replaced.
  updated-find_handler :
      (new : Handler F) (u : List ℕ) (nodes : List (Handler F))
      → starts_with new.url u ≡ false
      → updated new (find_handler u nodes) ≡ find_handler u nodes
  unfolding find_handler
  updated-find_handler new u [] h = refl
  updated-find_handler new u (node ∷ nodes) h = elim (Bool-cases (starts_with node.url u)) [
    | inl s ↦ elim (Bool-cases (text_eq node.url new.url)) [
      | inl e ↦
          absurd
            (true_not_false (sym s ∙ ap (λ x. starts_with x u) (text_eq→≡ node.url new.url e) ∙ h))
      | inr e ↦ rw (s, e)
    ]
    | inr s ↦ rw s (updated-find_handler new u nodes h)
  ]

  find_handler-replace :
      (url : List ℕ) (type : Option (List ℕ)) (handler : F) (nodes : List (Handler F)) (u : List ℕ)
      → has url nodes ≡ true
      → (l : List (Handler F)) × (replace url type handler nodes ≡ some l)
        × (find_handler u l ≡ updated (node_of url type handler) (find_handler u nodes))
  unfolding replace find_handler
  find_handler-replace url type handler [] u h = absurd (true_not_false (sym h))
  find_handler-replace url type handler (node ∷ nodes) u h =
      let new = node_of url type handler in
      elim (Bool-cases (text_eq node.url url)) [
        | inl e ↦
            let same = ap (λ x. starts_with x u) (text_eq→≡ node.url url e) in
            (
              new ∷ nodes,
              rw (replace, e),
              elim (Bool-cases (starts_with url u)) [
                | inl s ↦ rw (find_handler, same, s, e)
                | inr s ↦ rw (find_handler, same, s) (sym (updated-find_handler new u nodes s))
              ],
            )
        | inr e ↦
            let (l, r, q) = find_handler-replace url type handler nodes u (rw e at h) in
            (
              node ∷ l,
              rw (replace, e, r),
              elim (Bool-cases (starts_with node.url u)) [
                | inl s ↦ rw (find_handler, s, e)
                | inr s ↦ rw (find_handler, s) q
              ],
            )
      ]

  -- How httpd_regist changes the handler that a request gets, for every list of nodes and every
  -- URL asked for. Where the URL that is registered has a node, a request that went to a node of
  -- this URL goes to the new type and handler, and every other request goes where it went. Where
  -- it has none, every request whose URL begins with it goes to the new one, and every other
  -- goes where it went.
  pub find_handler-httpd_regist :
      (url : List ℕ) (type : Option (List ℕ)) (handler : F) (nodes : List (Handler F)) (u : List ℕ)
      → let new : Handler F = record { url = url; type = type; handler = handler } in
        find_handler u (httpd_regist url type handler nodes) ≡ (
          if has url nodes
          then updated new (find_handler u nodes)
          else if starts_with url u
          then some new
          else find_handler u nodes)
  unfolding httpd_regist find_handler
  find_handler-httpd_regist url type handler nodes u = elim (Bool-cases (has url nodes)) [
    | inl e ↦
        let (l, r, q) = find_handler-replace url type handler nodes u e in rw (httpd_regist, r, e) q
    | inr e ↦ rw (httpd_regist, replace-none url type handler nodes e, e)
  ]
