-- ===== src/Fota/Find.antt =====
-- Searches in a text that grows, as in esp8266/app/fota.cpp.
use esp8266_xcode.Base.{
  ℕ, zero, suc, ◌+◌, ◌≤◌, ◌<◌, List, [], ◌∷◌, ◌++◌, Option, none, some, Bool, true, false, ◌≡◌,
  refl, ap, ◌∙◌, arith, length, take, if◌then◌else◌, Bool-cases, inl, inr, length-take, ◌⊎◌,
}
use esp8266_xcode.Httpd.{starts_with}
use esp8266_xcode.Fota.{find}

starts_with-append :
    (sub xs ys : List ℕ) → length sub ≤ length xs → starts_with sub (xs ++ ys) ≡ starts_with sub xs
starts_with-append [] xs ys h = refl
starts_with-append (a ∷ sub) [] ys h = absurd (omega arith)
starts_with-append (a ∷ sub) (x ∷ xs) ys h = rw (starts_with-append sub xs ys (omega arith))

starts_with-length : (sub xs : List ℕ) → starts_with sub xs ≡ true → length sub ≤ length xs
starts_with-length [] xs h = omega arith
starts_with-length (a ∷ sub) [] h = ground arith
starts_with-length (a ∷ sub) (x ∷ xs) h = ground (arith, starts_with-length sub xs)

-- The occurrence is here, or it is later.
abbrev Here : List ℕ → ℕ → List ℕ → ℕ → Type 0
Here sub x xs n = (starts_with sub (x ∷ xs) ≡ true) × (n ≡ 0)

abbrev Later : List ℕ → ℕ → List ℕ → ℕ → Type 0
Later sub x xs n =
    (starts_with sub (x ∷ xs) ≡ false) × (m : ℕ) × (find sub xs ≡ some m) × (n ≡ m + 1)

step_cases :
    (b : Bool) (o : Option ℕ) (n : ℕ)
    → (if b then some 0 else elim o as (λ o. Option ℕ) [ none ↦ none | some m ↦ some (m + 1) ])
      ≡ some n
    → ((b ≡ true) × (n ≡ 0)) ⊎ ((b ≡ false) × (m : ℕ) × (o ≡ some m) × (n ≡ m + 1))
step_cases true o n h = inl (refl, ground (arith, h))
step_cases false none n h = ground (arith, h)
step_cases false (some m) n h = inr (refl, m, refl, ground (arith, h))

find-cases :
    (sub : List ℕ) (x : ℕ) (xs : List ℕ) (n : ℕ)
    → find sub (x ∷ xs) ≡ some n
    → Here sub x xs n ⊎ Later sub x xs n
unfolding find
find-cases sub x xs n h = step_cases (starts_with sub (x ∷ xs)) (find sub xs) n h

find_here :
    (sub : List ℕ) (x : ℕ) (xs : List ℕ)
    → starts_with sub (x ∷ xs) ≡ true
    → find sub (x ∷ xs) ≡ some 0
unfolding find
find_here sub x xs h = rw (find, h)

find_later :
    (sub : List ℕ) (x : ℕ) (xs : List ℕ) (n : ℕ)
    → starts_with sub (x ∷ xs) ≡ false
    → find sub xs ≡ some n
    → find sub (x ∷ xs) ≡ some (n + 1)
unfolding find
find_later sub x xs n h e = rw (find, h, e)

find_never :
    (sub : List ℕ) (x : ℕ) (xs : List ℕ)
    → starts_with sub (x ∷ xs) ≡ false
    → find sub xs ≡ none
    → find sub (x ∷ xs) ≡ none
unfolding find
find_never sub x xs h e = rw (find, h, e)

find_nil : (sub : List ℕ) (n : ℕ) → find sub [] ≡ some n → (sub ≡ []) × (n ≡ 0)
unfolding find
find_nil [] n h = (refl, ground (arith, h))
find_nil (a ∷ sub) n h = ground (arith, h)

pub find-length : (sub xs : List ℕ) (n : ℕ) → find sub xs ≡ some n → n + length sub ≤ length xs
find-length sub [] n h = let (e, z) = find_nil sub n h in omega (arith, z, ap length e)
find-length sub (x ∷ xs) n h = elim (find-cases sub x xs n h) [
  | inl here ↦ omega (arith, starts_with-length sub (x ∷ xs) here.0, here.1)
  | inr (before, m, e, k) ↦ omega (arith, find-length sub xs m e, k)
]

find_of_nil : (ys : List ℕ) → find [] ys ≡ some 0
unfolding find
find_of_nil [] = refl
find_of_nil (y ∷ ys) = refl

-- A longer text has the same first position.
pub find-append : (sub xs ys : List ℕ) (n : ℕ) → find sub xs ≡ some n → find sub (xs ++ ys) ≡ some n
find-append sub [] ys n h = let (e, z) = find_nil sub n h in rw (e, z) (find_of_nil ys)
find-append sub (x ∷ xs) ys n h =
    let fits = find-length sub (x ∷ xs) n h in
    let same = starts_with-append sub (x ∷ xs) ys (omega arith) in
    elim (find-cases sub x xs n h) [
      | inl here ↦ rw (here.1) (find_here sub x (xs ++ ys) (same ∙ here.0))
      | inr (before, m, e, k) ↦
          rw k (find_later sub x (xs ++ ys) m (same ∙ before) (find-append sub xs ys m e))
    ]

starts_with-take :
    (sub xs : List ℕ) (k : ℕ) → starts_with sub (take k xs) ≡ true → starts_with sub xs ≡ true
starts_with-take [] xs k h = refl
starts_with-take (a ∷ sub) xs zero h = ground (arith, h)
starts_with-take (a ∷ sub) [] (suc k) h = h
starts_with-take (a ∷ sub) (x ∷ xs) (suc k) h = ground (arith, starts_with-take sub xs k)

not_some :
    (sub xs : List ℕ) (o : Option ℕ)
    → find sub xs ≡ o
    → ((n : ℕ) → find sub xs ≡ some n → ⊥)
    → find sub xs ≡ none
not_some sub xs none e h = e
not_some sub xs (some n) e h = absurd (h n e)

find_short : (sub xs : List ℕ) → length xs < length sub → find sub xs ≡ none
find_short sub xs h =
    not_some sub xs (find sub xs) refl λ n e. absurd (omega (arith, find-length sub xs n e))

-- A text that ends before the end of the first occurrence has none.
pub find-take :
    (sub xs : List ℕ) (n k : ℕ)
    → find sub xs ≡ some n
    → k < n + length sub
    → find sub (take k xs) ≡ none
find-take [] [] n k h lt = absurd (omega (arith, find_nil [] n h))
find-take [] (x ∷ xs) n k h lt = elim (find-cases [] x xs n h) [
  | inl here ↦ absurd (omega (arith, here.1))
  | inr later ↦ ground (arith, later.0)
]
find-take (a ∷ sub) xs n zero h lt = find_short (a ∷ sub) [] (omega arith)
find-take (a ∷ sub) [] n (suc k) h lt = find_short (a ∷ sub) [] (omega arith)
find-take (a ∷ sub) (x ∷ xs) n (suc k) h lt = elim (find-cases (a ∷ sub) x xs n h) [
  | inl here ↦ find_short (a ∷ sub) (x ∷ take k xs) (omega (arith, here.1, length-take k xs))
  | inr (before, m, e, next) ↦
      find_never (a ∷ sub) x (take k xs) (before_take before)
        (find-take (a ∷ sub) xs m k e (omega arith))
]
  where
    before_take :
        starts_with (a ∷ sub) (x ∷ xs) ≡ false → starts_with (a ∷ sub) (x ∷ take k xs) ≡ false
    before_take h = elim (Bool-cases (starts_with (a ∷ sub) (x ∷ take k xs))) [
      | inl found ↦ ground (arith, starts_with-take (a ∷ sub) (x ∷ xs) (suc k) found, h)
      | inr e ↦ e
    ]
