-- ===== src/Rtc/Laws.antt =====
-- The checks of esp8266/app/rtc.c: what makes the store consistent, and what keeps it so.
use esp8266_xcode.Base.{
  ℕ, List, Bool, true, false, ◌≡◌, refl, ap, ◌∙◌, if◌then◌else◌, length, arith,
}
use esp8266_xcode.Base.Slices.{slice}
use esp8266_xcode.Rtc.{RtcMemory, with_crcs, rtc_update, rtc_reset, rtc_begin, erased}
use esp8266_xcode.Rtc.Checks.{
  IsConsistent, same_bytes_iff, length-with_crcs, slice-with_crcs_first, slice-with_crcs_second,
  with_crcs-IsConsistent, first_holds, second_holds, kept_or_erased, length-erased, checked, Tested,
  checked-Tested, unchanged, holds-IsConsistent,
}

abbrev pub Started : List ℕ → List ℕ → Type 0
Started d d' =
    IsConsistent d'
    × (slice 0 124 d' ≡ kept_or_erased (first_holds d) 124 (slice 0 124 d))
    × (slice 128 380 d' ≡ kept_or_erased (second_holds d) 380 (slice 128 380 d))

module _ (rtc : RtcMemory) where
  open rtc use {Memory, read, write, read-write, length-read}

  -- What the 512 bytes hold after `rtc_update`.
  pub read-rtc_update :
      (d : List ℕ) (m : Memory) → length d ≡ 512 → read 64 512 (rtc_update rtc d m) ≡ with_crcs d
  unfolding rtc_update
  read-rtc_update d m size = read-write (with_crcs d) m (length-with_crcs d size)

  -- After `rtc_reset` the store is consistent, and both regions hold 0xff.
  pub rtc_reset-IsConsistent :
      (m : Memory)
      → let d = read 64 512 (rtc_reset rtc m) in
        IsConsistent d
        × (slice 0 124 d ≡ slice 0 124 (erased 512))
        × (slice 128 380 d ≡ slice 128 380 (erased 512))
  unfolding rtc_reset
  rtc_reset-IsConsistent m =
      let size = length-erased 512 in
      rw (read-rtc_update (erased 512) m size) (
        with_crcs-IsConsistent (erased 512) size,
        slice-with_crcs_first (erased 512) size 0 124 (omega arith),
        slice-with_crcs_second (erased 512) size 128 380 (omega arith) (omega arith),
      )

  -- What `rtc_begin` leaves in the memory, from its two tests on.
  after_begin : List ℕ × Bool → Memory → Memory
  after_begin (d, update) m = if update then rtc_update rtc d m else m

  rtc_begin-after_begin : (m : Memory) → rtc_begin rtc m ≡ after_begin (checked (read 64 512 m)) m
  unfolding rtc_begin after_begin
  rtc_begin-after_begin m = refl

  after_begin-Started :
      (m : Memory) (out : List ℕ × Bool)
      → Tested (read 64 512 m) out
      → Started (read 64 512 m) (read 64 512 (after_begin out m))
  unfolding after_begin
  after_begin-Started m (d, true) t = rw (read-rtc_update d m t.size) (
    with_crcs-IsConsistent d t.size,
    slice-with_crcs_first d t.size 0 124 (omega arith) ∙ t.first,
    slice-with_crcs_second d t.size 128 380 (omega arith) (omega arith) ∙ t.second,
  )
  after_begin-Started m (d, false) t =
      let (same, f, s) = t.clean refl in
      (holds-IsConsistent (read 64 512 m) (length-read m) f s, rw f, rw s)

  -- After rtc_begin, whatever the memory held before, the store is consistent: each region ends
  -- with its check. A region whose check held has kept its bytes, and any other holds 0xff.
  pub rtc_begin-Started : (m : Memory) → Started (read 64 512 m) (read 64 512 (rtc_begin rtc m))
  rtc_begin-Started m =
      rw (rtc_begin-after_begin m)
        (after_begin-Started m (checked (read 64 512 m)) (checked-Tested _ (length-read m)))

  -- When the store is consistent, rtc_begin leaves the memory as it is.
  pub rtc_begin_of_consistent : (m : Memory) → IsConsistent (read 64 512 m) → rtc_begin rtc m ≡ m
  unfolding after_begin
  rtc_begin_of_consistent m c =
      let d = read 64 512 m in
      let f : first_holds d ≡ true = (same_bytes_iff _ _).1 c.first in
      let s : second_holds d ≡ true = (same_bytes_iff _ _).1 c.second in
      rtc_begin-after_begin m ∙ ap (λ out. after_begin out m) (unchanged d f s)
