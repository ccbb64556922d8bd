-- ===== src/Gpio/Regist.antt =====
-- `gpio_regist` of esp8266/app/gpio.c. The register of a pin and the macros of the SDK are arguments.
use Prim.Native.Nat.{bit_and, bit_or}
use native.Mathlib.Nat.{pow-suc}
use esp8266_xcode.Base.{
  ℕ, ◌+◌, ◌-◌, ◌≢◌, ◌<◌, ◌/◌, ◌%◌, ap, ap₂, ◌∙◌, zero, suc, ◌≡◌, ◌^◌, List, [], ◌∷◌, Option, none,
  some, Bool, true, false, ◌==◌, ◌||◌, ltb, if◌then◌else◌, get_or, arith, refl,
}
use esp8266_xcode.Base.Int.{ℤ, pos, negsuc}
use esp8266_xcode.Gpio.{Call, calls_of, gpio_handler}
use esp8266_xcode.Gpio.Dispatch.{set_bits, gpio_handler-set_bits}
use esp8266_xcode.Gpio.Pull.{gpio_address}

-- GPIO_PIN_WAKEUP_ENABLE_MASK and the other masks of a pin's register, and what the macros GPIO_PIN_WAKEUP_ENABLE_SET
-- and so on give for GPIO_WAKEUP_DISABLE, GPIO_PIN_INTR_ANYEDGE, GPIO_PIN_INTR_DISABLE, GPIO_PAD_DRIVER_ENABLE,
-- GPIO_PAD_DRIVER_DISABLE and GPIO_AS_PIN_SOURCE.
pub record PinBits : Type 0 where
  pub wakeup_mask : ℕ
  pub int_type_mask : ℕ
  pub pad_driver_mask : ℕ
  pub source_mask : ℕ
  pub wakeup_disable : ℕ
  pub intr_anyedge : ℕ
  pub intr_disable : ℕ
  pub pad_driver_enable : ℕ
  pub pad_driver_disable : ℕ
  pub as_pin_source : ℕ

pub data Access : Type 0 where
  -- PIN_FUNC_SELECT of a register
  pin_func_select : ℕ → ℕ → Access
  disable attach enable : Access
  -- The register of a pin, and GPIO_STATUS_W1TC.
  write_pin : ℕ → ℕ → Access
  clear_status : ℕ → Access

-- The function of a pin that can be registered.
unfoldable pub func_of : ℕ → Option ℕ
func_of gpio =
    if (gpio == 0) || ((gpio == 2) || ((gpio == 4) || (gpio == 5)))
    then some 0
    else if (gpio == 1)
        || ((gpio == 3) || ((gpio == 12) || ((gpio == 13) || ((gpio == 14) || (gpio == 15)))))
    then some 3
    else none

-- pin &= ~mask
abbrev pub clear : ℕ → ℕ → ℕ
clear mask pin = bit_and pin (2 ^ 32 - 1 - mask)

-- The new value of the register.
unfoldable pub pin_value : PinBits → Bool → ℕ → ℕ
pin_value b on pin =
    let cleared =
      clear b.source_mask
        (clear b.pad_driver_mask (clear b.int_type_mask (clear b.wakeup_mask pin))) in
    let woken = bit_or cleared b.wakeup_disable in
    let typed = bit_or woken (if on then b.intr_anyedge else b.intr_disable) in
    let driven = bit_or typed (if on then b.pad_driver_enable else b.pad_driver_disable) in
    bit_or driven b.as_pin_source

abbrev pub has_handler : {H : Type 0} → Option H → Bool
has_handler none = false
has_handler (some h) = true

module _ {H : Type 0} (b : PinBits) (mux_u : ℕ → ℕ) (pin : ℕ → ℕ) where
  -- The handlers with that of one pin.
  abbrev pub put_handler : (ℕ → Option H) → ℕ → Option H → ℕ → Option H
  put_handler handlers gpio h other = if other == gpio then h else handlers other

  regist_pin : (ℕ → Option H) → ℕ → Option H → Option ℕ → (ℕ → Option H) × List Access
  unfolding pin_value gpio_address
  regist_pin handlers gpio h none = (handlers, [])
  regist_pin handlers gpio h (some func) = (
    put_handler handlers gpio h,
    pin_func_select (get_or (gpio_address mux_u) gpio 0) func
        ∷ disable
        ∷ attach
        ∷ enable
        ∷ write_pin gpio (pin_value b (has_handler h) (pin gpio))
        ∷ clear_status (2 ^ gpio)
        ∷ [],
  )

  unfoldable pub gpio_regist : (ℕ → Option H) → ℤ → Option H → (ℕ → Option H) × List Access
  unfolding regist_pin func_of
  gpio_regist handlers (negsuc n) h = (handlers, [])
  gpio_regist handlers (pos gpio) h =
      if ltb 16 gpio then (handlers, []) else regist_pin handlers gpio h (func_of gpio)

-- The calls of one handler, if there is one.
abbrev pub call_of : {H : Type 0} → Option H → ℕ → ℕ → List (Call H)
call_of none up cycle = []
call_of (some f) up cycle = record { handler = f; up = up; cycle = cycle } ∷ []

set_bits_none : (n place : ℕ) → set_bits n place 0 ≡ []
unfolding set_bits
set_bits_none zero place = refl
set_bits_none (suc n) place = set_bits_none n (place + 1)

set_bits-pow : (n place gpio : ℕ) → gpio < n → set_bits n place (2 ^ gpio) ≡ (place + gpio) ∷ []
unfolding set_bits
set_bits-pow zero place gpio h = absurd (omega arith)
set_bits-pow (suc n) place zero h =
    ap₂ (λ x r. x ∷ r) {x = place} {y = place + 0} (omega arith) (set_bits_none n (place + 1))
set_bits-pow (suc n) place (suc gpio) h =
    rw (even, half)
      (set_bits-pow n (place + 1) gpio (omega arith)
        ∙ ap (λ x. x ∷ []) {x = place + 1 + gpio} {y = place + suc gpio} (omega arith))
  where
    even : (2 ^ suc gpio % 2 == 1) ≡ false
    even = ground (arith, pow-suc 2 gpio)

    half : 2 ^ suc gpio / 2 ≡ 2 ^ gpio
    half = omega (arith, pow-suc 2 gpio)

pow_pos : (n : ℕ) → 0 < 2 ^ n
pow_pos zero = omega arith
pow_pos (suc n) = omega (arith, pow-suc 2 n, pow_pos n)

pow_lt : (m n : ℕ) → m < n → 2 ^ m < 2 ^ n
pow_lt m zero h = absurd (omega arith)
pow_lt zero (suc n) h = omega (arith, pow-suc 2 n, pow_pos n)
pow_lt (suc m) (suc n) h = omega (arith, pow-suc 2 m, pow-suc 2 n, pow_lt m n)

no_more : (gpio : ℕ) → gpio < 16 → ltb 16 gpio ≡ false
no_more gpio h = ground arith

calls_of_own :
    {H : Type 0} (gpio : ℕ) (h : Option H) (gpio_in cycle : ℕ) (new : ℕ → Option H)
    → new gpio ≡ h
    → calls_of new gpio_in cycle (gpio ∷ []) ≡ call_of h (gpio_in / 2 ^ gpio % 2) cycle
unfolding calls_of
calls_of_own gpio none gpio_in cycle new e = rw (calls_of, e)
calls_of_own gpio (some f) gpio_in cycle new e = rw (calls_of, e)

func_of-lt : (gpio func : ℕ) → func_of gpio ≡ some func → gpio < 16
unfolding func_of
func_of-lt gpio func e = ground (arith, e)

module _ {H : Type 0} (b : PinBits) (mux_u : ℕ → ℕ) (pin : ℕ → ℕ) where
  -- For a pin that can be registered: after gpio_regist, an interrupt of this pin alone calls
  -- its new handler once, with the level of the pin, or none where it was removed, and every
  -- other pin has the handler that it had.
  pub gpio_handler-gpio_regist :
      (handlers : ℕ → Option H) (gpio func : ℕ) (h : Option H) (cycle gpio_in : ℕ)
      → func_of gpio ≡ some func
      → let new = (gpio_regist b mux_u pin handlers (pos gpio) h).0 in
        (gpio_handler new cycle gpio_in (2 ^ gpio) ≡ call_of h (gpio_in / 2 ^ gpio % 2) cycle)
        × ((other : ℕ) → other ≢ gpio → new other ≡ handlers other)
  unfolding gpio_regist regist_pin
  gpio_handler-gpio_regist handlers gpio func h cycle gpio_in e =
      let small = func_of-lt gpio func e in
      let new = put_handler b mux_u pin handlers gpio h in
      let same : (gpio_regist b mux_u pin handlers (pos gpio) h).0 ≡ new =
        rw (gpio_regist, no_more gpio small, e) in
      rw same (
        gpio_handler-set_bits new cycle gpio_in (2 ^ gpio) (pow_lt gpio 16 small)
            ∙ ap (calls_of new gpio_in cycle) (
                set_bits-pow 16 0 gpio small
                ∙ ap (λ x. x ∷ []) {x = 0 + gpio} {y = gpio} (omega arith))
            ∙ calls_of_own gpio h gpio_in cycle new (own gpio refl),
        λ other ne. if_other other ne,
      )
    where
      new_handlers : ℕ → Option H
      new_handlers = put_handler b mux_u pin handlers gpio h

      own : (other : ℕ) → other ≡ gpio → new_handlers other ≡ h
      own other same = ground (arith, same)

      if_other : (other : ℕ) → other ≢ gpio → new_handlers other ≡ handlers other
      if_other other ne = ground (arith, ne)
