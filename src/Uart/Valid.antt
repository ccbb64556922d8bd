-- ===== src/Uart/Valid.antt =====
-- The invariant of esp8266/app/uart.c, and the end of its loops.
use Prim.Native.Nat.{bit_xor}
use mathlib.Core.Path.{subst}
use esp8266_xcode.Base.{
  ℕ, zero, suc, ◌+◌, ◌-◌, ◌*◌, ◌^◌, ◌<◌, Option, none, some, Bool, not, ◌≡◌, refl, arith,
  Bool-cases, inl, inr, ltb, leb, ltb→lt, if◌then◌else◌, length, length-set, get_or,
}
use esp8266_xcode.Uart.{
  Uart, u32, sub32, nonneg, next_byte, rx_bit, rx_start, rx_loop, uart_rx, idle_loop, end_idle,
  take_bytes, recv_into, available,
}

abbrev pub BitIn : Option ℕ → ℕ → Type 0
BitIn none frame = Unit
BitIn (some b) frame = b < frame

-- The indices lie in the buffer, and the bit in the frame.
pub record IsValid (u : Uart) : Type 0 where
  pub head_in : u.head < u.buffer_size
  pub tail_in : u.tail < u.buffer_size
  pub size : length u.buffer ≡ u.buffer_size
  pub bit_in : BitIn u.bit u.frame
  pub frame_pos : 0 < u.frame
  pub baud_pos : 0 < u.baud_cycle

-- A result that is there and valid.
abbrev pub Returns : Option Uart → Type 0
Returns none = ⊥
Returns (some u) = IsValid u

rx_bit-IsValid :
    (u : Uart) (b : ℕ) (space : Bool) → IsValid u → b < u.frame → IsValid (rx_bit u b space)
unfolding rx_bit
rx_bit-IsValid u b space v h =
    ground (arith, length-set u.buffer u.head (bit_xor (get_or u.buffer u.head 0) (2 ^ b)))

baud-rx_bit : (u : Uart) (b : ℕ) (space : Bool) → (rx_bit u b space).baud_cycle ≡ u.baud_cycle
unfolding rx_bit
baud-rx_bit u b space = ground arith

rx_start-IsValid : (u : Uart) (cycle : ℕ) → IsValid u → IsValid (rx_start u cycle)
unfolding rx_start
rx_start-IsValid u cycle v = ground (arith, length-set u.buffer u.head 0xff)

on_bit :
    (o : Option ℕ) (s : Uart) (k : ℕ → Option Uart)
    → IsValid s
    → ((b : ℕ) → o ≡ some b → Returns (k b))
    → Returns (elim o [ none ↦ some s | some b ↦ k b ])
on_bit none s k v h = v
on_bit (some b) s k v h = h b refl

below_frame : (u : Uart) (b : ℕ) → IsValid u → u.bit ≡ some b → b < u.frame
below_frame u b v e = subst (λ o. BitIn o u.frame) e v.bit_in

pub last_cycle-IsValid : (u : Uart) (n : ℕ) → IsValid u → IsValid (record u { last_cycle = n })
last_cycle-IsValid u n v = ground arith

rx_loop-Returns :
    (fuel : ℕ) (u : Uart) (up : Bool) (cycle current last : ℕ)
    → IsValid u
    → current - last < fuel
    → Returns (rx_loop fuel u up cycle current last)
unfolding rx_loop
rx_loop-Returns zero u up cycle current last v h = absurd (omega arith)
rx_loop-Returns (suc fuel) u up cycle current last v h = elim (Bool-cases (ltb last current)) [
  | inr e ↦ rw (Returns, rx_loop, e) (last_cycle-IsValid u _ v)
  | inl e ↦
      rw (Returns, rx_loop, e)
        (on_bit u.bit (rx_start u cycle) _ (rx_start-IsValid u cycle v) λ b eb.
          rx_loop-Returns fuel
            (rx_bit u b (if ltb (last + u.baud_cycle) current then up else not up)) up cycle current
            (last + u.baud_cycle) (rx_bit-IsValid u b _ v (below_frame u b v eb))
            (omega (arith, ltb→lt last current e, v.baud_pos)))
]

-- From a valid receiver the interrupt handler ends, for every level and cycle count, and leaves
-- a valid receiver.
pub uart_rx-Returns : (u : Uart) (up : Bool) (cycle : ℕ) → IsValid u → Returns (uart_rx u up cycle)
unfolding uart_rx
uart_rx-Returns u up cycle v =
    rx_loop-Returns (suc (nonneg (sub32 cycle u.last_cycle))) u up cycle
      (nonneg (sub32 cycle u.last_cycle)) 0 v (omega arith)

pub next_byte-IsValid : (u : Uart) → IsValid u → IsValid (next_byte u)
next_byte-IsValid u v = ground arith

idle_loop-Returns :
    (fuel : ℕ) (u : Uart) (b n current last : ℕ)
    → IsValid u
    → current - last < fuel
    → Returns (idle_loop fuel u b n current last)
unfolding idle_loop
idle_loop-Returns zero u b n current last v h = absurd (omega arith)
idle_loop-Returns (suc fuel) u b n current last v h = elim (Bool-cases (ltb last current)) [
  | inr e ↦ rw (Returns, idle_loop, e) v
  | inl e ↦ elim (Bool-cases (leb u.frame (b + (n + 1)))) [
    | inl d ↦ rw (Returns, idle_loop, e, d) (next_byte-IsValid u v)
    | inr d ↦
        rw (Returns, idle_loop, e, d)
          (idle_loop-Returns fuel u b (n + 1) current (last + u.baud_cycle) v
            (omega (arith, ltb→lt last current e, v.baud_pos)))
  ]
]

pub end_idle-Returns : (u : Uart) (cycle : ℕ) → IsValid u → Returns (end_idle u cycle)
unfolding end_idle
end_idle-Returns u cycle v =
    let current = nonneg (sub32 (sub32 cycle u.last_cycle) (u32 (u.baud_cycle * 16))) in
    on_bit u.bit u _ v (λ b e. idle_loop-Returns (suc current) u b 0 current 0 v (omega arith))

take_bytes-IsValid : (n : ℕ) (u : Uart) → IsValid u → IsValid (take_bytes n u).1
unfolding take_bytes
take_bytes-IsValid zero u v = v
take_bytes-IsValid (suc n) u v = take_bytes-IsValid n _ (ground arith)

pub recv_into-IsValid : (u : Uart) (n : ℕ) → IsValid u → IsValid (recv_into u n).2
unfolding recv_into
recv_into-IsValid u n v = take_bytes-IsValid (if ltb n (available u) then n else available u) u v
