-- ===== src/Uart/Frame.antt =====
-- The sender of esp8266/app/uart.c: what it puts on the line, and when. `cycle` wraps at 2 ^ 32.
pub mod Reader
pub mod Wait
use esp8266_xcode.Base.{
  ℕ, zero, suc, ◌+◌, ◌-◌, ◌*◌, ◌/◌, ◌%◌, ◌^◌, List, [], ◌∷◌, ◌++◌, Option, none, some, Bool, true,
  false, ◌==◌, not, ltb, if◌then◌else◌, length,
}
use esp8266_xcode.Uart.{Uart, u32, sub32}

-- `uart_wait_until(begin, cycle)` and `GPIO_OUTPUT_SET(tx, level)`.
pub data Output : Type 0 where
  wait_until : ℕ → Output
  level : Bool → Output

-- `uart_wait_until`, over what `esp_get_cycle_count` returns: the count at which it ends.
unfoldable pub uart_wait_until : List ℕ → ℕ → ℕ → Option ℕ
uart_wait_until [] begin cycle = none
uart_wait_until (t ∷ counts) begin cycle =
    if ltb (sub32 t begin) cycle then uart_wait_until counts begin cycle else some t

-- c & BIT(i)
unfoldable pub bit_of : ℕ → ℕ → Bool
bit_of c i = c / 2 ^ i % 2 == 1

-- `__builtin_popcount` of a byte.
abbrev pub bit_count : Bool → ℕ
bit_count true = 1
bit_count false = 0

unfoldable pub popcount : ℕ → ℕ
popcount c =
    bit_count (bit_of c 0)
    + bit_count (bit_of c 1)
    + bit_count (bit_of c 2)
    + bit_count (bit_of c 3)
    + bit_count (bit_of c 4)
    + bit_count (bit_of c 5)
    + bit_count (bit_of c 6)
    + bit_count (bit_of c 7)

-- The loop over the bits, `left` rounds from bit `i` on; `cycle` is the time of the last change.
unfoldable pub send_bits : ℕ → ℕ → ℕ → ℕ → ℕ → List Output
send_bits zero i c cycle baud = []
send_bits (suc left) i c cycle baud =
    let next = u32 (cycle + baud) in
    wait_until next ∷ level (bit_of c i) ∷ send_bits left (i + 1) c next baud

-- The parity bit: even, odd, or none.
unfoldable pub send_parity : ℕ → ℕ → ℕ → ℕ → List Output
send_parity parity c cycle baud =
    if parity == b'E'
    then wait_until (u32 (cycle + baud)) ∷ level (popcount c % 2 == 1) ∷ []
    else if parity == b'O'
    then wait_until (u32 (cycle + baud)) ∷ level (not (popcount c % 2 == 1)) ∷ []
    else []

abbrev pub has_parity : ℕ → Bool
has_parity parity = if parity == b'E' then true else parity == b'O'

unfoldable pub send_stop : ℕ → ℕ → ℕ → List Output
send_stop zero cycle baud = []
send_stop (suc n) cycle baud =
    let next = u32 (cycle + baud) in wait_until next ∷ level true ∷ send_stop n next baud

-- One round for a byte, and the time at its end.
unfoldable pub send_byte : Uart → ℕ → ℕ → List Output × ℕ
send_byte u c cycle =
    let baud = u.baud_cycle in
    let after_bits = u32 (cycle + 8 * baud) in
    let after_parity = if has_parity u.parity then u32 (after_bits + baud) else after_bits in
    let end = u32 (after_parity + u.stop * baud + (baud + baud / 2)) in
    (
      level false
          ∷ (send_bits 8 0 c cycle baud
              ++ (send_parity u.parity c after_bits baud
                  ++ (send_stop u.stop after_parity baud ++ (wait_until end ∷ [])))),
      end,
    )

-- The loop over the buffer. The result of `uart_send` is the length of the buffer.
unfoldable pub send_loop : Uart → List ℕ → ℕ → List Output
send_loop u [] cycle = []
send_loop u (c ∷ buffer) cycle =
    let (out, end) = send_byte u c cycle in out ++ send_loop u buffer end

unfoldable pub uart_send : Uart → List ℕ → List Output × ℕ
uart_send u buffer = (send_loop u buffer 0, length buffer)
