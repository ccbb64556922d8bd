-- ===== src/Uart/Frame/Reader/RoundTrip.antt =====
-- A reader of the line gets back what esp8266/app/uart.c sends.
use esp8266_xcode.Base.{
  ℕ, zero, suc, ◌+◌, ◌-◌, ◌/◌, ◌%◌, ◌^◌, ◌<◌, List, [], ◌∷◌, ◌++◌, Option, none, some, Bool, true,
  false, ◌==◌, not, length, ◌≡◌, refl, ap, ◌∙◌, arith, All, append_assoc, Bool-cases, inl, inr,
}
use esp8266_xcode.Uart.{Uart, u32}
use esp8266_xcode.Uart.Frame.{
  Output, wait_until, level, bit_of, bit_count, popcount, send_bits, send_parity, send_stop,
  send_byte, send_loop, uart_send,
}
use esp8266_xcode.Uart.Frame.Reader.{
  levels, levels-append, byte_of, read_stop, read_parity, read_frame, read_frames,
}

read_stop-send_stop :
    (n cycle baud : ℕ) (l : List Bool) → read_stop n (levels (send_stop n cycle baud) ++ l) ≡ some l
unfolding read_stop levels send_stop
read_stop-send_stop zero cycle baud l = refl
read_stop-send_stop (suc n) cycle baud l = read_stop-send_stop n (u32 (cycle + baud)) baud l

parity_digit : (n : ℕ) → bit_count (n % 2 == 1) ≡ n % 2
parity_digit n = ground arith

parity_digit_not : (n : ℕ) → bit_count (not (n % 2 == 1)) ≡ 1 - n % 2
parity_digit_not n = ground arith

even_sum : (n : ℕ) → ((n + bit_count (n % 2 == 1)) % 2 == 0) ≡ true
even_sum n = ground arith

odd_sum : (n : ℕ) → ((n + bit_count (not (n % 2 == 1))) % 2 == 1) ≡ true
odd_sum n = ground arith

send_even :
    (parity c cycle baud : ℕ)
    → (parity == b'E') ≡ true
    → send_parity parity c cycle baud
      ≡ wait_until (u32 (cycle + baud)) ∷ level (popcount c % 2 == 1) ∷ []
unfolding send_parity
send_even parity c cycle baud e = rw e

send_odd :
    (parity c cycle baud : ℕ)
    → (parity == b'E') ≡ false
    → (parity == b'O') ≡ true
    → send_parity parity c cycle baud
      ≡ wait_until (u32 (cycle + baud)) ∷ level (not (popcount c % 2 == 1)) ∷ []
unfolding send_parity
send_odd parity c cycle baud e o = rw (e, o)

send_none :
    (parity c cycle baud : ℕ)
    → (parity == b'E') ≡ false
    → (parity == b'O') ≡ false
    → send_parity parity c cycle baud ≡ []
unfolding send_parity
send_none parity c cycle baud e o = rw (e, o)

read_even :
    (parity ones : ℕ) (b : Bool) (l : List Bool)
    → (parity == b'E') ≡ true
    → ((ones + bit_count b) % 2 == 0) ≡ true
    → read_parity parity ones (b ∷ l) ≡ some l
unfolding read_parity
read_even parity ones b l e s = rw (read_parity, e, e, s)

read_odd :
    (parity ones : ℕ) (b : Bool) (l : List Bool)
    → (parity == b'E') ≡ false
    → (parity == b'O') ≡ true
    → ((ones + bit_count b) % 2 == 1) ≡ true
    → read_parity parity ones (b ∷ l) ≡ some l
unfolding read_parity
read_odd parity ones b l e o s = rw (read_parity, e, o, e, s)

levels_one : (t : ℕ) (b : Bool) (l : List Bool) → levels (wait_until t ∷ level b ∷ []) ++ l ≡ b ∷ l
unfolding levels
levels_one t b l = refl

read_parity-send_parity :
    (parity c cycle baud : ℕ) (l : List Bool)
    → read_parity parity (popcount c) (levels (send_parity parity c cycle baud) ++ l) ≡ some l
unfolding read_parity
read_parity-send_parity parity c cycle baud l = elim (Bool-cases (parity == b'E')) [
  | inl e ↦
      ap (λ o. read_parity parity (popcount c) (levels o ++ l)) (send_even parity c cycle baud e)
      ∙ ap (read_parity parity (popcount c))
          (levels_one (u32 (cycle + baud)) (popcount c % 2 == 1) l)
      ∙ read_even parity (popcount c) (popcount c % 2 == 1) l e (even_sum (popcount c))
  | inr e ↦ elim (Bool-cases (parity == b'O')) [
    | inl o ↦
        ap (λ o. read_parity parity (popcount c) (levels o ++ l)) (send_odd parity c cycle baud e o)
        ∙ ap (read_parity parity (popcount c))
            (levels_one (u32 (cycle + baud)) (not (popcount c % 2 == 1)) l)
        ∙ read_odd parity (popcount c) (not (popcount c % 2 == 1)) l e o (odd_sum (popcount c))
    | inr o ↦
        ap (λ o. read_parity parity (popcount c) (levels o ++ l))
          (send_none parity c cycle baud e o)
        ∙ unfold levels in rw (read_parity, e, o)
  ]
]

byte_of-bit_of :
    (c : ℕ)
    → c < 256
    → byte_of
        (bit_of c 0)
        (bit_of c 1)
        (bit_of c 2)
        (bit_of c 3)
        (bit_of c 4)
        (bit_of c 5)
        (bit_of c 6)
        (bit_of c 7)
      ≡ c
unfolding bit_of
byte_of-bit_of c h = omega (
  arith,
  parity_digit (c / 2 ^ 0),
  parity_digit (c / 2 ^ 1),
  parity_digit (c / 2 ^ 2),
  parity_digit (c / 2 ^ 3),
  parity_digit (c / 2 ^ 4),
  parity_digit (c / 2 ^ 5),
  parity_digit (c / 2 ^ 6),
  parity_digit (c / 2 ^ 7),
)

levels_wait : (t : ℕ) → levels (wait_until t ∷ []) ≡ []
unfolding levels
levels_wait t = refl

levels_tail :
    (parity stop : List Output) (t : ℕ) (l : List Bool)
    → levels (parity ++ (stop ++ (wait_until t ∷ []))) ++ l ≡ levels parity ++ (levels stop ++ l)
levels_tail parity stop t l = simp (levels-append, append_assoc, levels_wait)

abbrev read_rest : ℕ → ℕ → ℕ → ℕ → List Bool → Option (ℕ × List Bool)
read_rest parity stop ones value l = elim (read_parity parity ones l) [
  | none ↦ none
  | some l' ↦ elim (read_stop stop l') [ none ↦ none | some r ↦ some (value, r) ]
]

read_rest_lem :
    (parity stop c value t t' baud : ℕ) (l : List Bool)
    → read_rest parity stop
        (popcount c)
        value
        (levels (send_parity parity c t baud) ++ (levels (send_stop stop t' baud) ++ l))
      ≡ some (value, l)
read_rest_lem parity stop c value t t' baud l =
    rw (read_rest, read_parity-send_parity parity c t baud, read_stop-send_stop stop t' baud l)

read_frame-send_byte :
    (u : Uart) (c cycle : ℕ) (l : List Bool)
    → c < 256
    → read_frame u.parity u.stop (levels (send_byte u c cycle).0 ++ l) ≡ some (c, l)
unfolding read_frame levels send_byte send_bits popcount
read_frame-send_byte u c cycle l h =
    let value = byte_of-bit_of c h in
    ap (read_rest u.parity u.stop (popcount c) _)
      (levels_tail (send_parity u.parity c _ u.baud_cycle) (send_stop u.stop _ u.baud_cycle) _ l)
    ∙ read_rest_lem u.parity u.stop c _ _ _ u.baud_cycle l
    ∙ ap (λ v. some (v, l)) value

read_frames-send_loop :
    (u : Uart) (buffer : List ℕ) (cycle : ℕ)
    → All (λ c. c < 256) buffer
    → read_frames u.parity u.stop (length buffer) (levels (send_loop u buffer cycle)) ≡ some buffer
unfolding read_frames send_loop
read_frames-send_loop u [] cycle h = unfold levels in refl
read_frames-send_loop u (c ∷ buffer) cycle h = rw (
  levels-append (send_byte u c cycle).0,
  read_frames,
  read_frame-send_byte u c cycle _ h.0,
  read_frames-send_loop u buffer (send_byte u c cycle).1 h.1,
)

-- For a buffer of bytes, a reader of the line gets them back, each in a frame with its start
-- bit, its eight data bits, its parity bit, if there is one, and its stop bits; the result of
-- uart_send is their number.
pub read_frames-uart_send :
    (u : Uart) (buffer : List ℕ)
    → All (λ c. c < 256) buffer
    → let (out, n) = uart_send u buffer in read_frames u.parity u.stop n (levels out) ≡ some buffer
unfolding uart_send
read_frames-uart_send u buffer h = read_frames-send_loop u buffer 0 h
