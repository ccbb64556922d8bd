-- ===== src/Gpio.antt =====
-- esp8266/app/gpio.c: the handlers of the pins, and the interrupt that calls them. The registers
-- of the chip are arguments.
pub mod Dispatch
pub mod Pull
pub mod Regist
mod Tests
use esp8266_xcode.Base.{
  ℕ, zero, suc, ◌+◌, ◌-◌, ◌*◌, ◌/◌, ◌%◌, ◌^◌, List, [], ◌∷◌, ◌++◌, Option, none, some, Bool, true,
  false, ◌==◌, if◌then◌else◌, get_or, set,
}

-- `__builtin_ffs` less one, for a status that is not 0: the lowest bit that is set.
unfoldable pub first_bit : ℕ → ℕ → ℕ
first_bit zero status = 0
first_bit (suc fuel) status =
    let rest = first_bit fuel (status / 2) in if status % 2 == 1 then 0 else rest + 1

-- The bits that the loop takes, in order: it ends when none is left.
unfoldable pub status_loop : ℕ → ℕ → List ℕ
status_loop zero status = []
status_loop (suc fuel) status =
    let i = first_bit 32 status in
    let rest = status_loop fuel (status - 2 ^ i) in if status == 0 then [] else i ∷ rest

-- A call of a handler: the pin, its level, and the cycle.
pub record Call {ℓ} (F : Type ℓ) : Type ℓ where
  pub handler : F
  pub up : ℕ
  pub cycle : ℕ

module _ {ℓ} {F : Type ℓ} where
  -- The calls for these bits; `handlers` gives the handler of a pin below 16 with its argument, if
  -- it has one. The array has 16 elements, and the chip sets no bit above them.
  unfoldable pub calls_of : (ℕ → Option F) → ℕ → ℕ → List ℕ → List (Call F)
  calls_of handlers gpio_in cycle [] = []
  calls_of handlers gpio_in cycle (i ∷ bits) =
      let rest = calls_of handlers gpio_in cycle bits in
      elim (handlers i) [
        | none ↦ rest
        | some h ↦ (record { handler = h; up = gpio_in / 2 ^ i % 2; cycle = cycle }) ∷ rest
      ]

  -- A register has 32 bits, so that the loop has at most 32 rounds.
  unfoldable pub gpio_handler : (ℕ → Option F) → ℕ → ℕ → ℕ → List (Call F)
  gpio_handler handlers cycle gpio_in gpio_status =
      calls_of handlers gpio_in cycle (status_loop 32 gpio_status)
