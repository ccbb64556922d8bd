-- ===== src/Gpio/Pull.antt =====
-- The resistors of the pins in esp8266/app/gpio.c.
use esp8266_xcode.Base.{
  ℕ, zero, suc, ◌≤◌, ◌<◌, List, [], ◌∷◌, Option, none, some, Bool, ◌==◌, ltb, if◌then◌else◌,
  get_elem?, length, ◌≢◌, inl, inr, ap, arith, Bool-cases,
}
use esp8266_xcode.Base.Int.{ℤ, pos, negsuc}

-- `PIN_PULLUP_EN` or `PIN_PULLUP_DIS`, and `PIN_PULLDWN_EN` or `PIN_PULLDWN_DIS`, with the register.
pub data Resistor : Type 0 where
  pull_up pull_down : Bool → ℕ → Resistor

-- `gpio_address`; the SDK gives the register of a pin.
unfoldable pub gpio_address : (ℕ → ℕ) → List ℕ
gpio_address mux_u =
    mux_u 0
    ∷ mux_u 1
    ∷ mux_u 2
    ∷ mux_u 3
    ∷ mux_u 4
    ∷ mux_u 5
    ∷ 0
    ∷ 0
    ∷ 0
    ∷ 0
    ∷ 0
    ∷ 0
    ∷ mux_u 12
    ∷ mux_u 13
    ∷ mux_u 14
    ∷ mux_u 15
    ∷ []

-- What is done with the element of the array; `none`: there is none.
abbrev at_mux : (ℕ → Resistor) → Option ℕ → Option (List Resistor)
at_mux f none = none
at_mux f (some mux) = if mux == 0 then some [] else some (f mux ∷ [])

abbrev guarded : (ℕ → ℕ) → (ℕ → Resistor) → ℤ → Option (List Resistor)
guarded mux_u f (negsuc n) = some []
guarded mux_u f (pos n) = if ltb 16 n then some [] else at_mux f (get_elem? (gpio_address mux_u) n)

-- `none`: the code reads behind the array.
unfoldable pub gpio_pullup : (ℕ → ℕ) → ℤ → Bool → Option (List Resistor)
gpio_pullup mux_u gpio pullup = guarded mux_u (pull_up pullup) gpio

unfoldable pub gpio_pulldown : (ℕ → ℕ) → ℤ → Bool → Option (List Resistor)
gpio_pulldown mux_u gpio pulldown = guarded mux_u (pull_down pulldown) gpio

abbrev pub IsSome : {A : Type 0} → Option A → Type 0
IsSome none = ⊥
IsSome (some a) = Unit

at_mux-IsSome : (f : ℕ → Resistor) (o : Option ℕ) → IsSome o → IsSome (at_mux f o)
at_mux-IsSome f none h = h
at_mux-IsSome f (some mux) h = elim (Bool-cases (mux == 0)) [ inl e ↦ rw e tt | inr e ↦ rw e tt ]

get_elem?-IsSome : (l : List ℕ) (n : ℕ) → n < length l → IsSome (get_elem? l n)
get_elem?-IsSome [] n h = absurd (omega arith)
get_elem?-IsSome (x ∷ l) zero h = tt
get_elem?-IsSome (x ∷ l) (suc n) h = get_elem?-IsSome l n (omega arith)

guarded-IsSome :
    (mux_u : ℕ → ℕ) (f : ℕ → Resistor) (gpio : ℤ) → gpio ≢ pos 16 → IsSome (guarded mux_u f gpio)
unfolding gpio_address
guarded-IsSome mux_u f (negsuc n) h = tt
guarded-IsSome mux_u f (pos n) h = elim (Bool-cases (ltb 16 n)) [
  | inl e ↦ rw (guarded, e) tt
  | inr e ↦
      let other : n ≢ 16 = λ q. h (ap pos q) in
      let below : n ≤ 16 = ground (arith, e) in
      rw (guarded, e)
        (at_mux-IsSome f _ (get_elem?-IsSome (gpio_address mux_u) n (omega (arith, other, below))))
]

-- For every pin number but 16, negative ones and larger ones too, gpio_pullup and gpio_pulldown
-- read no element outside their array.
pub gpio_pullup-IsSome :
    (mux_u : ℕ → ℕ) (on : Bool) (gpio : ℤ)
    → gpio ≢ pos 16
    → IsSome (gpio_pullup mux_u gpio on) × IsSome (gpio_pulldown mux_u gpio on)
unfolding gpio_pullup gpio_pulldown
gpio_pullup-IsSome mux_u on gpio h =
    (guarded-IsSome mux_u (pull_up on) gpio h, guarded-IsSome mux_u (pull_down on) gpio h)
