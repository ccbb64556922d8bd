-- ===== src/Rtc/Checks.antt =====
-- The checks of the two regions of esp8266/app/rtc.c.
use esp8266_xcode.Base.{
  ℕ, ◌+◌, ◌≤◌, List, [], ◌∷◌, Bool, true, false, ◌≡◌, ◌↔◌, ◌⊎◌, inl, inr, refl, sym, ap, ap₂, ◌∙◌,
  if◌then◌else◌, length, length-replicate, arith, Bool-cases,
}
use esp8266_xcode.Base.Slices.{
  slice, splice, length-splice, slice-splice_before, slice-splice_self, slice-splice_after,
}
use esp8266_xcode.Lost.Crc.{lfs_crc}
use esp8266_xcode.Rtc.{
  le32, same_bytes, first_crc, second_crc, with_crcs, check_first, check_second, erased,
}

-- Each region ends with its check.
pub record IsConsistent (d : List ℕ) : Type 0 where
  pub size : length d ≡ 512
  pub first : slice 124 4 d ≡ le32 (first_crc d)
  pub second : slice 508 4 d ≡ le32 (second_crc d)

pub same_bytes_iff : (xs ys : List ℕ) → (same_bytes xs ys ≡ true) ↔ (xs ≡ ys)
same_bytes_iff [] [] = (λ _. refl, λ _. refl)
same_bytes_iff [] (y ∷ ys) = ground arith
same_bytes_iff (x ∷ xs) [] = ground arith
same_bytes_iff (x ∷ xs) (y ∷ ys) = ground (arith, same_bytes_iff xs ys)

-- `rtc_update` changes the two words of the checks, and nothing else.
module _ (d : List ℕ) (size : length d ≡ 512) where
  pub length-with_crcs : length (with_crcs d) ≡ 512
  unfolding with_crcs
  length-with_crcs = length-splice 508 (le32 (second_crc d)) _ (omega (arith, inner)) ∙ inner
    where
      inner : length (splice 124 (le32 (first_crc d)) d) ≡ 512
      inner = length-splice 124 (le32 (first_crc d)) d (omega arith) ∙ size

  pub slice-with_crcs_first : (i n : ℕ) → i + n ≤ 124 → slice i n (with_crcs d) ≡ slice i n d
  unfolding with_crcs
  slice-with_crcs_first i n h =
      slice-splice_before i n 508 _ _ (omega arith) ∙ slice-splice_before i n 124 _ d h

  pub slice-with_crcs_second :
      (i n : ℕ) → 128 ≤ i → i + n ≤ 508 → slice i n (with_crcs d) ≡ slice i n d
  unfolding with_crcs
  slice-with_crcs_second i n h k =
      slice-splice_before i n 508 _ _ k
      ∙ slice-splice_after i n 124 (le32 (first_crc d)) d (omega arith) (omega arith)

  first_crc-with_crcs : first_crc (with_crcs d) ≡ first_crc d
  unfolding first_crc
  first_crc-with_crcs = ap (lfs_crc 0xffffffff) (slice-with_crcs_first 0 124 (omega arith))

  second_crc-with_crcs : second_crc (with_crcs d) ≡ second_crc d
  unfolding second_crc
  second_crc-with_crcs =
      ap (lfs_crc 0xffffffff) (slice-with_crcs_second 128 380 (omega arith) (omega arith))

  pub with_crcs-IsConsistent : IsConsistent (with_crcs d)
  unfolding with_crcs
  with_crcs-IsConsistent = record {
    size = length-with_crcs;
    first =
        slice-splice_before 124 4 508 (le32 (second_crc d)) _ (omega arith)
        ∙ slice-splice_self 124 (le32 (first_crc d)) d (omega arith)
        ∙ sym (ap le32 first_crc-with_crcs);
    second =
        slice-splice_self 508 (le32 (second_crc d)) _
          (omega (arith, length-splice 124 (le32 (first_crc d)) d))
        ∙ sym (ap le32 second_crc-with_crcs);
  }

abbrev pub first_holds : List ℕ → Bool
first_holds d = same_bytes (slice 124 4 d) (le32 (first_crc d))

abbrev pub second_holds : List ℕ → Bool
second_holds d = same_bytes (slice 508 4 d) (le32 (second_crc d))

-- A region whose check fails is filled with 0xff; the other one is left as it is.
abbrev pub kept_or_erased : Bool → ℕ → List ℕ → List ℕ
kept_or_erased holds n region = if holds then region else erased n

pub length-erased : (n : ℕ) → length (erased n) ≡ n
unfolding erased
length-erased n = length-replicate n 0xff

slice-splice-erased :
    (i n : ℕ) (d : List ℕ) → i ≤ length d → slice i n (splice i (erased n) d) ≡ erased n
slice-splice-erased i n d h =
    ap (λ k. slice i k (splice i (erased n) d)) (sym (length-erased n))
    ∙ slice-splice_self i (erased n) d h

-- `rtc_begin` up to its test of `update`.
abbrev pub checked : List ℕ → List ℕ × Bool
checked d = check_second (check_first d)

first_split :
    (d : List ℕ)
    → ((first_holds d ≡ true) × (check_first d ≡ (d, false)))
      ⊎ ((first_holds d ≡ false) × (check_first d ≡ (splice 0 (erased 124) d, true)))
unfolding check_first
first_split d = elim (Bool-cases (first_holds d)) [ inl e ↦ inl (e, rw e) | inr e ↦ inr (e, rw e) ]

second_split :
    (d : List ℕ) (u : Bool)
    → ((second_holds d ≡ true) × (check_second (d, u) ≡ (d, u)))
      ⊎ ((second_holds d ≡ false) × (check_second (d, u) ≡ (splice 128 (erased 380) d, true)))
unfolding check_second
second_split d u = elim (Bool-cases (second_holds d)) [
  | inl e ↦ inl (e, rw e)
  | inr e ↦ inr (e, rw e)
]

module _ (d : List ℕ) (size : length d ≡ 512) where
  after_first : length (splice 0 (erased 124) d) ≡ 512
  after_first = length-splice 0 (erased 124) d (omega (arith, length-erased 124)) ∙ size

  second_part : (i n : ℕ) → 128 ≤ i → slice i n (splice 0 (erased 124) d) ≡ slice i n d
  second_part i n h =
      slice-splice_after i n 0 (erased 124) d (omega (arith, length-erased 124))
        (omega (arith, length-erased 124))

  -- Filling the first region does not change the check of the second.
  second_holds-erased : second_holds (splice 0 (erased 124) d) ≡ second_holds d
  unfolding second_crc
  second_holds-erased =
      ap₂ (λ a b. same_bytes a (le32 (lfs_crc 0xffffffff b))) (second_part 508 4 (omega arith))
        (second_part 128 380 (omega arith))

-- What a test of `rtc_begin` leaves: the data, and whether it has to be written.
pub record Tested (d : List ℕ) (out : List ℕ × Bool) : Type 0 where
  pub size : length out.0 ≡ 512
  pub first : slice 0 124 out.0 ≡ kept_or_erased (first_holds d) 124 (slice 0 124 d)
  pub second : slice 128 380 out.0 ≡ kept_or_erased (second_holds d) 380 (slice 128 380 d)
  pub clean : out.1 ≡ false → (out.0 ≡ d) × (first_holds d ≡ true) × (second_holds d ≡ true)

record Second (d : List ℕ) (u : Bool) (out : List ℕ × Bool) : Type 0 where
  pub size : length out.0 ≡ 512
  pub first : slice 0 124 out.0 ≡ slice 0 124 d
  pub second : slice 128 380 out.0 ≡ kept_or_erased (second_holds d) 380 (slice 128 380 d)
  pub clean : out.1 ≡ false → (out.0 ≡ d) × (u ≡ false) × (second_holds d ≡ true)

check_second-Second : (d : List ℕ) (u : Bool) → length d ≡ 512 → Second d u (check_second (d, u))
check_second-Second d u size = elim (second_split d u) [
  | inl (e, r) ↦
      rw r (record { size = size; first = refl; second = rw e; clean = λ h. (refl, h, e) })
  | inr (e, r) ↦ rw r (record {
    size = length-splice 128 (erased 380) d (omega (arith, length-erased 380)) ∙ size;
    first = slice-splice_before 0 124 128 (erased 380) d (omega arith);
    second = rw e (slice-splice-erased 128 380 d (omega arith));
    clean = λ h. cc;
  })
]

pub checked-Tested : (d : List ℕ) → length d ≡ 512 → Tested d (checked d)
checked-Tested d size = elim (first_split d) [
  | inl (e, r) ↦ rw r (
      let s = check_second-Second d false size in
      record {
        size = s.size;
        first = rw e s.first;
        second = s.second;
        clean = λ h. ((s.clean h).0, e, (s.clean h).2);
      })
  | inr (e, r) ↦ rw r (
      let d' = splice 0 (erased 124) d in
      let s = check_second-Second d' true (after_first d size) in
      record {
        size = s.size;
        first = rw e (s.first ∙ slice-splice-erased 0 124 d (omega arith));
        second =
            s.second
            ∙ ap₂ (λ b l. kept_or_erased b 380 l) (second_holds-erased d size)
                (second_part d size 128 380 (omega arith));
        clean = λ h. cc ((s.clean h).1);
      })
]

pub unchanged : (d : List ℕ) → first_holds d ≡ true → second_holds d ≡ true → checked d ≡ (d, false)
unfolding check_first check_second
unchanged d f s = rw (f, s)

pub holds-IsConsistent :
    (d : List ℕ) → length d ≡ 512 → first_holds d ≡ true → second_holds d ≡ true → IsConsistent d
holds-IsConsistent d size f s = record {
  size = size;
  first = (same_bytes_iff _ _).0 f;
  second = (same_bytes_iff _ _).0 s;
}

-- The store after a start: each region kept where its check held, and erased where it did not.
