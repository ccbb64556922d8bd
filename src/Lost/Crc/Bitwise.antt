-- ===== src/Lost/Crc/Bitwise.antt =====
-- The table of `lfs_crc` (esp8266/lost/lfs_util.c) against the bitwise cyclic redundancy check.
use Prim.Native.Nat.{bit_and, bit_xor}
use esp8266_xcode.Base.{
  ℕ, zero, suc, ◌*◌, ◌/◌, ◌%◌, ◌<◌, ◌^◌, List, [], ◌∷◌, ◌++◌, get_or, ◌≡◌, refl, ap, ◌∙◌, sym, ap₂,
  arith, ◌==◌, if◌then◌else◌, All, true, ==_iff, ltb, ltb→lt, Bool-cases, inl, inr,
}
use esp8266_xcode.Base.Bits.{
  bit_xor-half, bit_xor-mod, bit_xor_comm, bit_xor_assoc, bit_xor-lt, bit_and_fifteen,
  bit_xor_fields, bit_xor-sixteenth, bit_xor-mod_sixteen, every, every→test,
}
use esp8266_xcode.Lost.Crc.{rtable, crc_nibble, lfs_crc}

-- One step of the check, for the polynomial 0xedb88320 with its digits reversed.
pub shift_out : ℕ → ℕ
shift_out crc = if crc % 2 == 1 then bit_xor (crc / 2) 0xedb88320 else crc / 2

pub shifts : ℕ → ℕ → ℕ
shifts zero crc = crc
shifts (suc n) crc = shifts n (shift_out crc)

-- The check by its definition: each byte is added and shifted out, a digit at a time.
pub crc_bitwise : ℕ → List ℕ → ℕ
crc_bitwise crc [] = crc
crc_bitwise crc (c ∷ bytes) = crc_bitwise (shifts 8 (bit_xor crc c)) bytes

check_value :
    lfs_crc 0xffffffff (b'1' ∷ b'2' ∷ b'3' ∷ b'4' ∷ b'5' ∷ b'6' ∷ b'7' ∷ b'8' ∷ b'9' ∷ [])
    ≡ 0x340bc6d9
unfolding lfs_crc
check_value = refl

-- A step goes through the sum with an even number.
shift_out-double : (a b : ℕ) → shift_out (bit_xor a (b * 2)) ≡ bit_xor (shift_out a) b
unfolding shift_out
shift_out-double a b = elim (Bool-cases (a % 2 == 1)) [
  | inl odd ↦ rw (half, parity, odd, bit_xor_assoc, bit_xor_comm b 0xedb88320, ← bit_xor_assoc)
  | inr even ↦ rw (half, parity, even)
]
  where
    twice : b * 2 / 2 ≡ b
    twice = omega arith

    half : bit_xor a (b * 2) / 2 ≡ bit_xor (a / 2) b
    half = rw (bit_xor-half, twice)

    parity : bit_xor a (b * 2) % 2 ≡ a % 2
    parity = omega (arith, bit_xor-mod a (b * 2))

shifts-nibble : (a b : ℕ) → shifts 4 (bit_xor a (b * 16)) ≡ bit_xor (shifts 4 a) b
unfolding shifts
shifts-nibble a b =
    rw
      (
        split,
        shift_out-double a (b * 2 * 2 * 2),
        shift_out-double (shift_out a) (b * 2 * 2),
        shift_out-double (shift_out (shift_out a)) (b * 2),
      )
      (shift_out-double (shift_out (shift_out (shift_out a))) b)
  where
    split : b * 16 ≡ b * 2 * 2 * 2 * 2
    split = omega arith

-- The table holds four steps of each of its indices.
table_lem : every (λ r. get_or rtable r 0 == shifts 4 r) 16 ≡ true
unfolding every shifts shift_out
table_lem = refl

crc_nibble-shifts : (crc n : ℕ) → n < 16 → crc_nibble crc n ≡ shifts 4 (bit_xor crc n)
unfolding crc_nibble
crc_nibble-shifts crc n h =
    let x = bit_xor crc n in
    let r = x % 16 in
    let low : get_or rtable r 0 ≡ shifts 4 r =
      (==_iff _ _).0
        (every→test (λ r. get_or rtable r 0 == shifts 4 r) 16 r (omega arith) table_lem) in
    let whole : x ≡ bit_xor r (x / 16 * 16) =
      omega (arith, bit_xor_fields (x / 16) r (omega arith)) in
    sym (
      ap (shifts 4) whole
      ∙ shifts-nibble r (x / 16)
      ∙ ap₂ bit_xor (sym low) (bit_xor-sixteenth crc n h)
      ∙ bit_xor_comm _ _
      ∙ ap (λ k. bit_xor (crc / 16) (get_or rtable k 0)) (sym (bit_and_fifteen x)))

-- Only the low four digits of the byte count.
crc_nibble-low : (crc c : ℕ) → crc_nibble crc c ≡ crc_nibble crc (c % 16)
unfolding crc_nibble
crc_nibble-low crc c =
    ap (λ k. bit_xor (crc / 16) (get_or rtable k 0))
      (bit_and_fifteen _ ∙ bit_xor-mod_sixteen crc c ∙ sym (bit_and_fifteen _))

byte_lem : (crc c : ℕ) → c < 256 → crc_nibble (crc_nibble crc c) (c / 16) ≡ shifts 8 (bit_xor crc c)
byte_lem crc c h = sym (
    shifts_twice (bit_xor crc c)
    ∙ ap (shifts 4) (
        ap (λ k. shifts 4 (bit_xor crc k)) whole
        ∙ ap (shifts 4) (sym (bit_xor_assoc crc (c % 16) (c / 16 * 16)))
        ∙ shifts-nibble (bit_xor crc (c % 16)) (c / 16)
        ∙ ap (λ k. bit_xor k (c / 16)) (sym first))
    ∙ sym (crc_nibble-shifts (crc_nibble crc c) (c / 16) (omega arith)))
  where
    shifts_twice : (x : ℕ) → shifts 8 x ≡ shifts 4 (shifts 4 x)
    shifts_twice x = unfold shifts in refl

    whole : c ≡ bit_xor (c % 16) (c / 16 * 16)
    whole = omega (arith, bit_xor_fields (c / 16) (c % 16) (omega arith))

    first : crc_nibble crc c ≡ shifts 4 (bit_xor crc (c % 16))
    first = crc_nibble-low crc c ∙ crc_nibble-shifts crc (c % 16) (omega arith)

-- For bytes below 256 the table-driven loop computes the cyclic redundancy check of its
-- definition, bit by bit, from every state.
pub lfs_crc-crc_bitwise :
    (bytes : List ℕ) (crc : ℕ)
    → All (λ c. c < 256) bytes
    → lfs_crc crc bytes ≡ crc_bitwise crc bytes
unfolding lfs_crc crc_bitwise
lfs_crc-crc_bitwise [] crc h = refl
lfs_crc-crc_bitwise (c ∷ bytes) crc h = rw (byte_lem crc c h.0) (lfs_crc-crc_bitwise bytes _ h.1)

-- The check of two pieces is that of the second from the state that the first one leaves.
pub lfs_crc-append : (a b : List ℕ) (crc : ℕ) → lfs_crc crc (a ++ b) ≡ lfs_crc (lfs_crc crc a) b
unfolding lfs_crc
lfs_crc-append [] b crc = refl
lfs_crc-append (c ∷ a) b crc = lfs_crc-append a b _

table_in_range : every (λ r. ltb (get_or rtable r 0) (2 ^ 32)) 16 ≡ true
unfolding every
table_in_range = refl

crc_nibble-lt : (crc n : ℕ) → crc < 2 ^ 32 → crc_nibble crc n < 2 ^ 32
unfolding crc_nibble
crc_nibble-lt crc n h =
    let r = bit_and (bit_xor crc n) 15 in
    bit_xor-lt 32 (crc / 16) (get_or rtable r 0) (omega arith) (
      ltb→lt _ _ (
        every→test (λ r. ltb (get_or rtable r 0) (2 ^ 32)) 16 r
          (omega (arith, bit_and_fifteen (bit_xor crc n))) table_in_range))

-- From a state below 2 ^ 32 the check stays below 2 ^ 32.
pub lfs_crc-lt : (bytes : List ℕ) (crc : ℕ) → crc < 2 ^ 32 → lfs_crc crc bytes < 2 ^ 32
unfolding lfs_crc
lfs_crc-lt [] crc h = h
lfs_crc-lt (c ∷ bytes) crc h = lfs_crc-lt bytes _ (crc_nibble-lt _ (c / 16) (crc_nibble-lt crc c h))
