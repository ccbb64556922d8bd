-- ===== src/Rtc.antt =====
-- esp8266/app/rtc.c: a store of 512 bytes in the memory of the real-time clock, in two regions,
-- each with its check in its last word.
pub mod Checks
pub mod Laws
pub mod Access
mod Tests
use esp8266_xcode.Base.{
  ℕ, ◌+◌, ◌*◌, ◌/◌, ◌%◌, ◌≤◌, List, [], ◌∷◌, Bool, true, false, ◌==◌, ◌&&◌, ◌||◌, not, ◌≡◌,
  if◌then◌else◌, length, take, replicate,
}
use esp8266_xcode.Base.Slices.{slice, splice}
use esp8266_xcode.Lost.Crc.{lfs_crc}

-- The SDK's `system_rtc_mem_read(block, dst, size)` and `system_rtc_mem_write`: a block is four
-- bytes, and the user's area is the 512 bytes from block 64 on.
pub record RtcMemory : Type 1 where
  pub Memory : Type 0
  pub read : ℕ → ℕ → Memory → List ℕ
  pub write : ℕ → List ℕ → Memory → Memory
  -- What was written to the area is read back.
  pub read-write : (d : List ℕ) (m : Memory) → length d ≡ 512 → read 64 512 (write 64 d m) ≡ d
  pub length-read : (m : Memory) → length (read 64 512 m) ≡ 512
  -- A read of a part of the area gives that part of the whole.
  pub read_part :
      (k n : ℕ) (m : Memory) → 4 * k + n ≤ 512 → read (64 + k) n m ≡ slice (4 * k) n (read 64 512 m)

-- A `uint32_t` in memory.
abbrev pub le32 : ℕ → List ℕ
le32 w = w % 256 ∷ w / 256 % 256 ∷ w / 65536 % 256 ∷ w / 16777216 % 256 ∷ []

-- `os_memcmp(a, b, n) == 0`
abbrev pub same_bytes : List ℕ → List ℕ → Bool
same_bytes [] [] = true
same_bytes [] (y ∷ ys) = false
same_bytes (x ∷ xs) [] = false
same_bytes (x ∷ xs) (y ∷ ys) = (x == y) && same_bytes xs ys

unfoldable pub first_crc : List ℕ → ℕ
first_crc d = lfs_crc 0xffffffff (slice 0 124 d)

unfoldable pub second_crc : List ℕ → ℕ
second_crc d = lfs_crc 0xffffffff (slice 128 380 d)

-- The words 31 and 127 of the data that `rtc_update` writes.
unfoldable pub with_crcs : List ℕ → List ℕ
with_crcs d = splice 508 (le32 (second_crc d)) (splice 124 (le32 (first_crc d)) d)

-- What `os_memset(.., 0xFF, n)` writes.
unfoldable pub erased : ℕ → List ℕ
erased n = replicate n 0xff

-- The two `os_memset` of `rtc_begin`, each under the test of its region.
unfoldable pub check_first : List ℕ → List ℕ × Bool
check_first d =
    if same_bytes (slice 124 4 d) (le32 (first_crc d))
    then (d, false)
    else (splice 0 (erased 124) d, true)

unfoldable pub check_second : List ℕ × Bool → List ℕ × Bool
check_second (d, update) =
    if same_bytes (slice 508 4 d) (le32 (second_crc d))
    then (d, update)
    else (splice 128 (erased 380) d, true)

module _ (rtc : RtcMemory) where
  open rtc use {Memory, read, write}

  unfoldable pub rtc_update : List ℕ → Memory → Memory
  rtc_update d m = write 64 (with_crcs d) m

  unfoldable pub rtc_reset : Memory → Memory
  rtc_reset m = rtc_update (erased 512) m

  unfoldable pub rtc_begin : Memory → Memory
  rtc_begin m =
      let (d, update) = check_second (check_first (read 64 512 m)) in
      if update then rtc_update d m else m

  -- The `size` bytes that are copied to `value`.
  unfoldable pub rtc_read : ℕ → ℕ → Memory → List ℕ
  rtc_read offset size m =
      slice (offset % 4) size (read (64 + offset / 4) ((offset % 4 + size + 3) / 4 * 4) m)

  -- `value` is the `size` bytes that it points to.
  unfoldable pub rtc_write : ℕ → List ℕ → Memory → Memory
  rtc_write offset value m = rtc_update (splice offset value (read 64 512 m)) m
