-- ===== src/Base/Slices.antt =====
-- Parts of an array: a copy out of it, and a copy into it (`memcpy`).
use esp8266_xcode.Base.{
  ℕ, zero, suc, ◌+◌, ◌≤◌, List, [], ◌∷◌, ◌++◌, ◌≡◌, refl, sym, ap, ◌∙◌, arith, length, take, drop,
  take-length-append, length-append, length-drop,
}

module _ {ℓ} {A : Type ℓ} where
  -- The `n` elements from index `i` on.
  abbrev pub slice : ℕ → ℕ → List A → List A
  slice i n d = take n (drop i d)

  -- The array after the elements from index `i` on have been overwritten by `s`.
  unfoldable pub splice : ℕ → List A → List A → List A
  splice zero s d = s ++ drop (length s) d
  splice (suc i) s [] = []
  splice (suc i) s (x ∷ d) = x ∷ splice i s d

  pub length-splice :
      (i : ℕ) (s d : List A) → i + length s ≤ length d → length (splice i s d) ≡ length d
  unfolding splice
  length-splice zero s d h =
      omega (arith, length-append s (drop (length s) d), length-drop (length s) d)
  length-splice (suc i) s [] h = absurd (omega arith)
  length-splice (suc i) s (x ∷ d) h = ap suc (length-splice i s d (omega arith))

  -- What stands before the overwritten part, in it, and behind it.
  pub slice-splice_before :
      (i n j : ℕ) (s d : List A) → i + n ≤ j → slice i n (splice j s d) ≡ slice i n d
  unfolding splice
  slice-splice_before i zero j s d h = refl
  slice-splice_before i (suc n) zero s d h = absurd (omega arith)
  slice-splice_before i (suc n) (suc j) s [] h = refl
  slice-splice_before zero (suc n) (suc j) s (x ∷ d) h =
      ap (λ l. x ∷ l) (slice-splice_before zero n j s d (omega arith))
  slice-splice_before (suc i) (suc n) (suc j) s (x ∷ d) h =
      slice-splice_before i (suc n) j s d (omega arith)

  pub slice-splice_self :
      (j : ℕ) (s d : List A) → j ≤ length d → slice j (length s) (splice j s d) ≡ s
  unfolding splice
  slice-splice_self zero s d h = take-length-append s (drop (length s) d)
  slice-splice_self (suc j) s [] h = absurd (omega arith)
  slice-splice_self (suc j) s (x ∷ d) h = slice-splice_self j s d (omega arith)

  pub drop-overwrite :
      (s d : List A) (i : ℕ)
      → length s ≤ i
      → length s ≤ length d
      → drop i (s ++ drop (length s) d) ≡ drop i d
  drop-overwrite [] d i h k = refl
  drop-overwrite (x ∷ s) [] i h k = absurd (omega arith)
  drop-overwrite (x ∷ s) (y ∷ d) zero h k = absurd (omega arith)
  drop-overwrite (x ∷ s) (y ∷ d) (suc i) h k = drop-overwrite s d i (omega arith) (omega arith)

  drop-splice :
      (i j : ℕ) (s d : List A)
      → j + length s ≤ i
      → j + length s ≤ length d
      → drop i (splice j s d) ≡ drop i d
  unfolding splice
  drop-splice i zero s d h k = drop-overwrite s d i (omega arith) (omega arith)
  drop-splice i (suc j) s [] h k = absurd (omega arith)
  drop-splice zero (suc j) s (x ∷ d) h k = absurd (omega arith)
  drop-splice (suc i) (suc j) s (x ∷ d) h k = drop-splice i j s d (omega arith) (omega arith)

  pub slice-splice_after :
      (i n j : ℕ) (s d : List A)
      → j + length s ≤ i
      → j + length s ≤ length d
      → slice i n (splice j s d) ≡ slice i n d
  slice-splice_after i n j s d h k = ap (take n) (drop-splice i j s d h k)

  take-take : (i n : ℕ) (d : List A) → n ≤ i → take n (take i d) ≡ take n d
  take-take i zero d h = refl
  take-take zero (suc n) d h = absurd (omega arith)
  take-take (suc i) (suc n) [] h = refl
  take-take (suc i) (suc n) (x ∷ d) h = ap (λ l. x ∷ l) (take-take i n d (omega arith))

  -- A part of a part.
  slice-take : (i n k : ℕ) (d : List A) → i + n ≤ k → slice i n (take k d) ≡ slice i n d
  slice-take zero n k d h = take-take k n d (omega arith)
  slice-take (suc i) n zero d h = absurd (omega arith)
  slice-take (suc i) n (suc k) [] h = refl
  slice-take (suc i) n (suc k) (x ∷ d) h = slice-take i n k d (omega arith)

  drop-nil : (n : ℕ) → drop {A = A} n [] ≡ []
  drop-nil zero = refl
  drop-nil (suc n) = refl

  drop-drop : (j i : ℕ) (d : List A) → drop i (drop j d) ≡ drop (j + i) d
  drop-drop zero i d = ap (λ k. drop k d) (omega arith)
  drop-drop (suc j) i [] = drop-nil i ∙ sym (drop-nil (suc j + i))
  drop-drop (suc j) i (x ∷ d) =
      drop-drop j i d ∙ ap (λ k. drop k (x ∷ d)) {x = suc (j + i)} {y = suc j + i} (omega arith)

  pub slice-slice :
      (i n j k : ℕ) (d : List A) → i + n ≤ k → slice i n (slice j k d) ≡ slice (j + i) n d
  slice-slice i n j k d h = slice-take i n k (drop j d) h ∙ ap (take n) (drop-drop j i d)
