-- ===== src/Gpio/Dispatch.antt =====
-- The order in which the interrupt of esp8266/app/gpio.c takes the pins.
use esp8266_xcode.Base.{
  ℕ, zero, suc, ◌+◌, ◌-◌, ◌*◌, ◌/◌, ◌%◌, ◌^◌, ◌≤◌, ◌<◌, List, [], ◌∷◌, Option, true, false, ◌==◌,
  if◌then◌else◌, ◌≡◌, refl, ap, ap₂, sym, ◌∙◌, arith, map, Bool-cases, inl, inr, ◌≢◌,
}
use native.Mathlib.Nat.{pow-suc}
use native.Mathlib.Numerals.{add-one}
use esp8266_xcode.Gpio.{first_bit, status_loop, gpio_handler, calls_of}

-- The bits of a number, from the lowest on, with their places from `place` on.
unfoldable pub set_bits : ℕ → ℕ → ℕ → List ℕ
set_bits zero place status = []
set_bits (suc n) place status =
    let rest = set_bits n (place + 1) (status / 2) in if status % 2 == 1 then place ∷ rest else rest

even_half : (s : ℕ) → s * 2 / 2 ≡ s
even_half s = omega arith

even_test : (s : ℕ) → (s * 2 % 2 == 1) ≡ false
even_test s = ground arith

odd_test : (s : ℕ) → ((s * 2 + 1) % 2 == 1) ≡ true
odd_test s = ground arith

first_bit-odd : (fuel s : ℕ) → first_bit (suc fuel) (s * 2 + 1) ≡ 0
unfolding first_bit
first_bit-odd fuel s = ground arith

first_bit-even : (fuel s : ℕ) → first_bit (suc fuel) (s * 2) ≡ first_bit fuel s + 1
unfolding first_bit
first_bit-even fuel s = rw (even_test s, even_half s)

first_bit_enough : (fuel s : ℕ) → 0 < s → s < 2 ^ fuel → first_bit (suc fuel) s ≡ first_bit fuel s
unfolding first_bit
first_bit_enough zero s p h = absurd (omega arith)
first_bit_enough (suc fuel) s p h = elim (Bool-cases (s % 2 == 1)) [
  | inl e ↦ rw (first_bit, e)
  | inr e ↦
      let odd : s % 2 ≢ 1 = λ q. absurd (ground (arith, e, q)) in
      rw (first_bit, e)
        (ap (λ i. i + 1)
          (first_bit_enough fuel (s / 2) (omega (arith, odd)) (omega (arith, pow-suc 2 fuel))))
]

status_loop-zero : (fuel : ℕ) → status_loop fuel 0 ≡ []
unfolding status_loop
status_loop-zero zero = refl
status_loop-zero (suc fuel) = refl

not_zero : (s : ℕ) → 0 < s → (s == 0) ≡ false
not_zero s h = ground arith

status_loop_step :
    (fuel s i : ℕ)
    → 0 < s
    → first_bit 32 s ≡ i
    → status_loop (suc fuel) s ≡ i ∷ status_loop fuel (s - 2 ^ i)
unfolding status_loop
status_loop_step fuel s i p e = rw (status_loop, e, not_zero s p)

status_loop-odd : (fuel s : ℕ) → status_loop (suc fuel) (s * 2 + 1) ≡ 0 ∷ status_loop fuel (s * 2)
status_loop-odd fuel s =
    status_loop_step fuel (s * 2 + 1) 0 (omega arith) (first_bit-odd 31 s)
    ∙ ap (λ r. 0 ∷ status_loop fuel r) {x = s * 2 + 1 - 1} {y = s * 2} (omega arith)

-- The bits of an even status are those of its half, one place up.
status_loop-even :
    (fuel s : ℕ) → s < 2 ^ 31 → status_loop fuel (s * 2) ≡ map (λ i. i + 1) (status_loop fuel s)
status_loop-even zero s h = unfold status_loop in refl
status_loop-even (suc fuel) zero h =
    status_loop-zero (suc fuel) ∙ ap (map (λ i. i + 1)) (sym (status_loop-zero (suc fuel)))
status_loop-even (suc fuel) (suc m) h =
    let s = suc m in
    let i = first_bit 32 s in
    let bit : first_bit 32 (s * 2) ≡ i + 1 =
      first_bit-even 31 s ∙ ap (λ j. j + 1) (sym (first_bit_enough 31 s (omega arith) h)) in
    status_loop_step fuel (s * 2) (i + 1) (omega arith) bit
    ∙ ap (λ r. (i + 1) ∷ status_loop fuel r) {x = s * 2 - 2 ^ (i + 1)} {y = (s - 2 ^ i) * 2}
        (omega (arith, pow-suc 2 i, ap (λ j. 2 ^ j) (add-one i)))
    ∙ ap (λ l. (i + 1) ∷ l) (status_loop-even fuel (s - 2 ^ i) (omega arith))
    ∙ ap (map (λ i. i + 1)) (sym (status_loop_step fuel s i (omega arith) refl))

map_shift :
    (place : ℕ) (l : List ℕ)
    → map (λ i. place + i) (map (λ i. i + 1) l) ≡ map (λ i. place + 1 + i) l
map_shift place [] = refl
map_shift place (i ∷ l) =
    ap₂ (λ x r. x ∷ r) {x = place + (i + 1)} {y = place + 1 + i} (omega arith) (map_shift place l)

-- A number by its half and its lowest bit.
data Halves (s : ℕ) : Type 0 where
  even : s ≡ s / 2 * 2 → (s % 2 == 1) ≡ false → Halves s
  odd : s ≡ s / 2 * 2 + 1 → (s % 2 == 1) ≡ true → Halves s

halves : (s : ℕ) → Halves s
halves s = elim (Bool-cases (s % 2 == 1)) [
  | inl e ↦ odd (ground (arith, e)) e
  | inr e ↦ even (ground (arith, e)) e
]

set_bits_lem :
    (n fuel place s : ℕ)
    → n ≤ fuel
    → 2 ^ n ≤ 2 ^ 32
    → s < 2 ^ n
    → map (λ i. place + i) (status_loop fuel s) ≡ set_bits n place s
unfolding set_bits
set_bits_lem zero fuel place s k w h =
    ap (λ r. map (λ i. place + i) (status_loop fuel r)) {x = s} {y = 0} (omega arith)
    ∙ ap (map (λ i. place + i)) (status_loop-zero fuel)
set_bits_lem (suc n) zero place s k w h = absurd (omega arith)
set_bits_lem (suc n) (suc fuel) place s k w h =
    let half : s / 2 < 2 ^ n = omega (arith, pow-suc 2 n) in
    let small : s / 2 < 2 ^ 31 = omega (arith, pow-suc 2 n) in
    elim (halves s) [
      | even q e ↦
          ap (λ r. map (λ i. place + i) (status_loop (suc fuel) r)) q
          ∙ ap (map (λ i. place + i)) (status_loop-even (suc fuel) (s / 2) small)
          ∙ map_shift place (status_loop (suc fuel) (s / 2))
          ∙ set_bits_lem n (suc fuel) (place + 1) (s / 2) (omega arith) (omega (arith, pow-suc 2 n))
              half
          ∙ rw (set_bits, e)
      | odd q e ↦
          ap (λ r. map (λ i. place + i) (status_loop (suc fuel) r)) q
          ∙ ap (map (λ i. place + i))
              (status_loop-odd fuel (s / 2) ∙ ap (λ l. 0 ∷ l) (status_loop-even fuel (s / 2) small))
          ∙ ap₂ (λ x r. x ∷ r) {x = place + 0} {y = place} (omega arith)
              (map_shift place (status_loop fuel (s / 2))
                ∙ set_bits_lem n fuel (place + 1) (s / 2) (omega arith) (omega (arith, pow-suc 2 n))
                    half)
          ∙ rw (set_bits, e)
    ]

map-zero_add : (l : List ℕ) → map (λ i. 0 + i) l ≡ l
map-zero_add [] = refl
map-zero_add (i ∷ l) = ap₂ (λ x r. x ∷ r) {x = 0 + i} {y = i} (omega arith) (map-zero_add l)

module _ {ℓ} {F : Type ℓ} where
  -- For a status below 2 ^ 16 the interrupt calls the handlers of the bits that are set, and of
  -- no other, each once, from the lowest bit on.
  pub gpio_handler-set_bits :
      (handlers : ℕ → Option F) (cycle gpio_in status : ℕ)
      → status < 2 ^ 16
      → gpio_handler handlers cycle gpio_in status
        ≡ calls_of handlers gpio_in cycle (set_bits 16 0 status)
  unfolding gpio_handler
  gpio_handler-set_bits handlers cycle gpio_in status h = ap (calls_of handlers gpio_in cycle) (
      sym (map-zero_add (status_loop 32 status))
      ∙ set_bits_lem 16 32 0 status (omega arith) (omega arith) h)
