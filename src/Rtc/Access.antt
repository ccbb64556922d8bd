-- ===== src/Rtc/Access.antt =====
-- `rtc_read` and `rtc_write` of esp8266/app/rtc.c.
use esp8266_xcode.Base.{
  ℕ, ◌+◌, ◌*◌, ◌/◌, ◌%◌, ◌≤◌, List, ◌≡◌, ◌⊎◌, inl, inr, sym, ap, ◌∙◌, length, arith,
}
use esp8266_xcode.Base.Slices.{
  slice, splice, length-splice, slice-splice_before, slice-splice_self, slice-splice_after,
  slice-slice,
}
use esp8266_xcode.Rtc.{RtcMemory, with_crcs, rtc_read, rtc_write}
use esp8266_xcode.Rtc.Checks.{
  IsConsistent, with_crcs-IsConsistent, slice-with_crcs_first, slice-with_crcs_second,
}
use esp8266_xcode.Rtc.Laws.{read-rtc_update}

-- A range of bytes inside one of the regions, clear of the words that hold the checks.
abbrev pub InRegion : ℕ → ℕ → Type 0
InRegion offset n = (offset + n ≤ 124) ⊎ ((128 ≤ offset) × (offset + n ≤ 508))

slice-with_crcs :
    (d : List ℕ) (i n : ℕ) → length d ≡ 512 → InRegion i n → slice i n (with_crcs d) ≡ slice i n d
slice-with_crcs d i n size (inl h) = slice-with_crcs_first d size i n h
slice-with_crcs d i n size (inr h) = slice-with_crcs_second d size i n h.0 h.1

module _ (rtc : RtcMemory) where
  open rtc use {Memory, read, write, length-read, read_part}

  -- A read inside the 512 bytes copies the bytes at its offset, though the hardware reads whole
  -- words.
  pub rtc_read-slice :
      (offset n : ℕ) (m : Memory)
      → offset + n ≤ 512
      → rtc_read rtc offset n m ≡ slice offset n (read 64 512 m)
  unfolding rtc_read
  rtc_read-slice offset n m h =
      rw (read_part (offset / 4) ((offset % 4 + n + 3) / 4 * 4) m (omega arith)) (
        slice-slice (offset % 4) n (4 * (offset / 4)) ((offset % 4 + n + 3) / 4 * 4) _ (omega arith)
        ∙ ap (λ k. slice k n (read 64 512 m)) (omega arith))

  written : ℕ → List ℕ → Memory → List ℕ
  written offset value m = splice offset value (read 64 512 m)

  length-written :
      (offset : ℕ) (value : List ℕ) (m : Memory)
      → offset + length value ≤ 512
      → length (written offset value m) ≡ 512
  unfolding written
  length-written offset value m h =
      length-splice offset value (read 64 512 m) (omega (arith, length-read m)) ∙ length-read m

  read-rtc_write :
      (offset : ℕ) (value : List ℕ) (m : Memory)
      → offset + length value ≤ 512
      → read 64 512 (rtc_write rtc offset value m) ≡ with_crcs (written offset value m)
  unfolding rtc_write written
  read-rtc_write offset value m h = read-rtc_update rtc _ m (length-written offset value m h)

  -- A write inside the 512 bytes leaves the store consistent: the checks are those of the new
  -- bytes.
  pub rtc_write-IsConsistent :
      (offset : ℕ) (value : List ℕ) (m : Memory)
      → offset + length value ≤ 512
      → IsConsistent (read 64 512 (rtc_write rtc offset value m))
  rtc_write-IsConsistent offset value m h =
      rw (read-rtc_write offset value m h)
        (with_crcs-IsConsistent _ (length-written offset value m h))

  -- A value that was written inside a region is read back.
  pub rtc_read-rtc_write :
      (offset : ℕ) (value : List ℕ) (m : Memory)
      → InRegion offset (length value)
      → rtc_read rtc offset (length value) (rtc_write rtc offset value m) ≡ value
  unfolding written
  rtc_read-rtc_write offset value m h =
      rtc_read-slice offset (length value) _ (fits h)
      ∙ ap (slice offset (length value)) (read-rtc_write offset value m (fits h))
      ∙ slice-with_crcs _ offset (length value) (length-written offset value m (fits h)) h
      ∙ slice-splice_self offset value (read 64 512 m) (omega (arith, length-read m, fits h))
    where
      fits : InRegion offset (length value) → offset + length value ≤ 512
      fits k = omega arith

  -- A write inside the 512 bytes leaves every other byte of the two regions as it was.
  pub rtc_read-rtc_write_ne :
      (offset i n : ℕ) (value : List ℕ) (m : Memory)
      → offset + length value ≤ 512
      → InRegion i n
      → (i + n ≤ offset) ⊎ (offset + length value ≤ i)
      → rtc_read rtc i n (rtc_write rtc offset value m) ≡ rtc_read rtc i n m
  unfolding written
  rtc_read-rtc_write_ne offset i n value m h k apart =
      rtc_read-slice i n _ (omega arith)
      ∙ ap (slice i n) (read-rtc_write offset value m h)
      ∙ slice-with_crcs _ i n (length-written offset value m h) k
      ∙ other apart
      ∙ sym (rtc_read-slice i n m (omega arith))
    where
      other :
          (i + n ≤ offset) ⊎ (offset + length value ≤ i)
          → slice i n (splice offset value (read 64 512 m)) ≡ slice i n (read 64 512 m)
      other (inl p) = slice-splice_before i n offset value (read 64 512 m) p
      other (inr p) =
          slice-splice_after i n offset value (read 64 512 m) p (omega (arith, length-read m))
