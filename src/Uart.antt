-- ===== src/Uart.antt =====
-- esp8266/app/uart.c: the receiver that the pin's interrupt drives, its ring of bytes, and the
-- sender. `uint32_t` cycle counts wrap at 2 ^ 32; `bit == -1` is `none`.
pub mod Valid
pub mod Idle
pub mod Ring
pub mod Frame
pub mod Start
pub mod Loopback
pub mod Silence
mod Tests
use Prim.Native.Nat.{bit_xor}
use esp8266_xcode.Base.{
  ℕ, zero, suc, ◌+◌, ◌-◌, ◌*◌, ◌/◌, ◌%◌, ◌^◌, List, [], ◌∷◌, ◌++◌, Option, none, some, Bool, true,
  false, ◌==◌, ◌&&◌, ◌||◌, not, ltb, leb, if◌then◌else◌, length, get_or, set, replicate,
}

-- `struct uart_context`
pub record Uart : Type 0 where
  pub bit : Option ℕ
  pub head : ℕ
  pub tail : ℕ
  pub parity : ℕ
  pub stop : ℕ
  pub frame : ℕ
  pub baud_cycle : ℕ
  pub last_cycle : ℕ
  pub buffer_size : ℕ
  pub buffer : List ℕ

abbrev pub u32 : ℕ → ℕ
u32 n = n % 2 ^ 32

-- `uint32_t` subtraction
abbrev pub sub32 : ℕ → ℕ → ℕ
sub32 a b = (a + 2 ^ 32 - b) % 2 ^ 32

-- The value of an `int` that a `uint32_t` was assigned to, where it is not negative. Both loops
-- run while a nonnegative count is below it, so that a negative one acts as 0.
abbrev pub nonneg : ℕ → ℕ
nonneg w = if ltb w (2 ^ 31) then w else 0

-- `context->head++`, back to 0 at the end of the buffer; the same for `tail`.
abbrev pub advance : ℕ → ℕ → ℕ
advance i size = if leb size (i + 1) then 0 else i + 1

-- The end of a frame: the next byte of the ring.
abbrev pub next_byte : Uart → Uart
next_byte u = record u { bit = none; head = advance u.head u.buffer_size }

-- BIT(bit) is flipped in the byte at `head`.
abbrev flip : Uart → ℕ → Uart
flip u b = record u { buffer = set u.buffer u.head (bit_xor (get_or u.buffer u.head 0) (2 ^ b)) }

-- One round of the loop of `uart_rx` at bit `b`; `space` says that the line was low.
unfoldable pub rx_bit : Uart → ℕ → Bool → Uart
rx_bit u b space =
    let u' = if ltb b 8 && space then flip u b else u in
    if leb u.frame (b + 1) then next_byte u' else record u' { bit = some (b + 1) }

-- The start of a frame.
unfoldable pub rx_start : Uart → ℕ → Uart
rx_start u cycle = record u {
  bit = some 0;
  last_cycle = u32 (cycle + u.baud_cycle / 2);
  buffer = set u.buffer u.head 0xff;
}

-- The loop of `uart_rx`: `current` is `current_cycle`, and `last` is `last_cycle`. The test
-- `last_cycle < previous_cycle` is `last + baud_cycle < current`, since the loop runs only
-- with `current_cycle` positive. `none`: the fuel has run out.
unfoldable pub rx_loop : ℕ → Uart → Bool → ℕ → ℕ → ℕ → Option Uart
rx_loop zero u up cycle current last = none
rx_loop (suc fuel) u up cycle current last = elim (ltb last current) [
  | false ↦ some (record u { last_cycle = u32 (u.last_cycle + last) })
  | true ↦ elim u.bit [
    | none ↦ some (rx_start u cycle)
    | some b ↦
        rx_loop fuel (rx_bit u b (if ltb (last + u.baud_cycle) current then up else not up)) up
          cycle current (last + u.baud_cycle)
  ]
]

-- Each round adds `baud_cycle` to `last_cycle`.
unfoldable pub uart_rx : Uart → Bool → ℕ → Option Uart
unfolding rx_loop
uart_rx u up cycle =
    let current = nonneg (sub32 cycle u.last_cycle) in rx_loop (suc current) u up cycle current 0

-- The loop of `uart_recv` that ends a frame when the line has been quiet for sixteen bits. `n` is
-- `bit_count`.
unfoldable pub idle_loop : ℕ → Uart → ℕ → ℕ → ℕ → ℕ → Option Uart
idle_loop zero u b n current last = none
idle_loop (suc fuel) u b n current last = elim (ltb last current) [
  | false ↦ some u
  | true ↦ elim (leb u.frame (b + (n + 1))) [
    | true ↦ some (next_byte u)
    | false ↦ idle_loop fuel u b (n + 1) current (last + u.baud_cycle)
  ]
]

unfoldable pub end_idle : Uart → ℕ → Option Uart
unfolding idle_loop
end_idle u cycle = elim u.bit [
  | none ↦ some u
  | some b ↦
      let current = nonneg (sub32 (sub32 cycle u.last_cycle) (u32 (u.baud_cycle * 16))) in
      idle_loop (suc current) u b 0 current 0
]

unfoldable pub available : Uart → ℕ
available u = if leb u.tail u.head then u.head - u.tail else u.head + u.buffer_size - u.tail

-- The copy of `n` bytes out of the ring.
unfoldable pub take_bytes : ℕ → Uart → List ℕ × Uart
take_bytes zero u = ([], u)
take_bytes (suc n) u =
    let (bytes, u') = take_bytes n (record u { tail = advance u.tail u.buffer_size }) in
    (get_or u.buffer u.tail 0 ∷ bytes, u')

-- The receiver by interrupts, with a buffer of `len` bytes, and with a null pointer.
unfoldable pub recv_into : Uart → ℕ → ℕ × List ℕ × Uart
unfolding available take_bytes
recv_into u len =
    let n = if ltb len (available u) then len else available u in
    let (bytes, u') = take_bytes n u in (n, bytes, u')

unfoldable pub uart_recv : Uart → ℕ → Option ℕ → Option (ℕ × List ℕ × Uart)
unfolding end_idle recv_into
uart_recv u cycle len = elim (end_idle u cycle) [
  | none ↦ none
  | some u' ↦ some (elim len [ none ↦ (available u', [], u') | some n ↦ recv_into u' n ])
]

-- The receiver in hardware (`rx == -13`). `fifo` is what the FIFO holds, and each byte that is
-- read leaves it. The result is `recv`, which the loop sets only where it stops early.
unfoldable pub hw_loop : ℕ → ℕ → List ℕ → ℕ × List ℕ
hw_loop i zero fifo = (0, [])
hw_loop i (suc n) [] = (i, [])
hw_loop i (suc n) (c ∷ fifo) = let (r, bytes) = hw_loop (i + 1) n fifo in (r, c ∷ bytes)

unfoldable pub uart_recv_hw : Option ℕ → List ℕ → ℕ × List ℕ
unfolding hw_loop
uart_recv_hw none fifo = (length fifo, [])
uart_recv_hw (some len) fifo = hw_loop 0 len fifo
