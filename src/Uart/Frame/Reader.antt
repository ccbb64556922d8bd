-- ===== src/Uart/Frame/Reader.antt =====
-- A reader of the line that esp8266/app/uart.c drives.
pub mod RoundTrip
use esp8266_xcode.Base.{
  ℕ, zero, suc, ◌+◌, ◌-◌, ◌*◌, ◌/◌, ◌%◌, ◌^◌, ◌<◌, List, [], ◌∷◌, ◌++◌, Option, none, some, Bool,
  true, false, ◌==◌, not, if◌then◌else◌, length, ◌≡◌, refl, ap, ◌∙◌, arith, All, append_assoc,
  Bool-cases, inl, inr,
}
use esp8266_xcode.Uart.{Uart}
use esp8266_xcode.Uart.Frame.{
  Output, wait_until, level, bit_of, bit_count, popcount, send_bits, send_parity, has_parity,
  send_stop, send_byte, send_loop, uart_send,
}

-- The levels of the line, one for each bit time.
pub levels : List Output → List Bool
levels [] = []
levels (wait_until t ∷ out) = levels out
levels (level b ∷ out) = b ∷ levels out

levels-append : (xs ys : List Output) → levels (xs ++ ys) ≡ levels xs ++ levels ys
unfolding levels
levels-append [] ys = refl
levels-append (wait_until t ∷ xs) ys = levels-append xs ys
levels-append (level b ∷ xs) ys = ap (λ l. b ∷ l) (levels-append xs ys)

-- A reader of frames: a start bit, eight data bits, the lowest first, the parity bit, stop bits.
abbrev byte_of : Bool → Bool → Bool → Bool → Bool → Bool → Bool → Bool → ℕ
byte_of b0 b1 b2 b3 b4 b5 b6 b7 =
    bit_count b0
    + 2 * bit_count b1
    + 4 * bit_count b2
    + 8 * bit_count b3
    + 16 * bit_count b4
    + 32 * bit_count b5
    + 64 * bit_count b6
    + 128 * bit_count b7

abbrev same_bit : Bool → Bool → Bool
same_bit true b = b
same_bit false b = not b

read_stop : ℕ → List Bool → Option (List Bool)
read_stop zero l = some l
read_stop (suc n) [] = none
read_stop (suc n) (true ∷ l) = read_stop n l
read_stop (suc n) (false ∷ l) = none

-- The parity of the data bits with the parity bit is even for `E` and odd for `O`.
read_parity : ℕ → ℕ → List Bool → Option (List Bool)
read_parity parity ones l = elim (has_parity parity) [
  | false ↦ some l
  | true ↦ elim l [
    | [] ↦ none
    | b ∷ l' ↦
        if (ones + bit_count b) % 2 == (if parity == b'E' then 0 else 1) then some l' else none
  ]
]

read_frame : ℕ → ℕ → List Bool → Option (ℕ × List Bool)
read_frame parity stop (false ∷ b0 ∷ b1 ∷ b2 ∷ b3 ∷ b4 ∷ b5 ∷ b6 ∷ b7 ∷ l) =
    elim (read_parity parity
      (bit_count b0
        + bit_count b1
        + bit_count b2
        + bit_count b3
        + bit_count b4
        + bit_count b5
        + bit_count b6
        + bit_count b7)
      l) [
        | none ↦ none
        | some l' ↦ elim (read_stop stop l') [
          | none ↦ none
          | some r ↦ some (byte_of b0 b1 b2 b3 b4 b5 b6 b7, r)
        ]
      ]
read_frame parity stop _ = none

-- `n` frames, and nothing behind them.
pub read_frames : ℕ → ℕ → ℕ → List Bool → Option (List ℕ)
read_frames parity stop zero [] = some []
read_frames parity stop zero (b ∷ l) = none
read_frames parity stop (suc n) l = elim (read_frame parity stop l) [
  | none ↦ none
  | some (c, r) ↦ elim (read_frames parity stop n r) [ none ↦ none | some cs ↦ some (c ∷ cs) ]
]
