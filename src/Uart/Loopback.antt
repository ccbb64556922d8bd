-- ===== src/Uart/Loopback.antt =====
-- The sender of esp8266/app/uart.c joined to the receiver: what uart_send puts on the line, and
-- `uart_rx`, which the interrupt of the pin calls on each change.
pub mod Rounds
pub mod Bytes
pub mod Track
pub mod Frames
pub mod Paced
pub mod Queue
pub mod Quiet
pub mod Byte
pub mod Delivery
use esp8266_xcode.Base.{
  ℕ, zero, suc, ◌+◌, List, [], ◌∷◌, Option, none, some, Bool, true, false, not, ◌≡◌, if◌then◌else◌,
}
use esp8266_xcode.Uart.{Uart, u32, rx_bit, uart_rx}
use esp8266_xcode.Uart.Frame.{Output, wait_until, level}

-- The time since the first byte, by the sender's plan; the level of the line; the receiver.
pub record Joined : Type 0 where
  pub now : ℕ
  pub line : Bool
  pub uart : Uart

abbrev pub same_level : Bool → Bool → Bool
same_level true b = b
same_level false b = not b

-- `begin` is the cycle count at the start, and `late t` says how much later than planned the
-- receiver sees a change that is planned for `t`.
module _ (begin : ℕ) (late : ℕ → ℕ) where
  -- An output that leaves the level as it is makes no interrupt.
  abbrev pub edge : Joined → Bool → Option Joined
  edge s l =
      if same_level s.line l
      then some s
      else elim (uart_rx s.uart l (u32 (begin + (s.now + late s.now)))) [
        | none ↦ none
        | some u ↦ some (record { now = s.now; line = l; uart = u })
      ]

  unfoldable pub deliver : Joined → List Output → Option Joined
  deliver s [] = some s
  deliver s (wait_until t ∷ out) = deliver (record s { now = t }) out
  deliver s (level l ∷ out) = elim (edge s l) [ none ↦ none | some s' ↦ deliver s' out ]

-- What one bit time at a level does to a receiver in a frame.
pub bit_step : Uart → Bool → Uart
bit_step u l = elim u.bit [ none ↦ u | some b ↦ rx_bit u b (not l) ]

pub fill : ℕ → Bool → Uart → Uart
fill zero l u = u
fill (suc m) l u = bit_step (fill m l u) l

pub steps : Uart → List Bool → Uart
steps u [] = u
steps u (l ∷ ls) = steps (bit_step u l) ls

abbrev pub at_cycle : Uart → ℕ → Uart
at_cycle u n = record u { last_cycle = n }

abbrev pub times : ℕ → ℕ → ℕ
times baud zero = 0
times baud (suc m) = baud + times baud m

-- `m` bit times are left to the end of the frame.
abbrev pub Open : Uart → ℕ → Type 0
Open u zero = u.bit ≡ none
Open u (suc m) = (b : ℕ) × (u.bit ≡ some b) × (b + suc m ≡ u.frame)
