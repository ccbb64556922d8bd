-- ===== src/Lost/Number/Laws.antt =====
-- What `strtol` and `atoi` of esp8266/lost/lost.c compute.
use native.Mathlib.Nat.{pow-suc}
use esp8266_xcode.Base.{
  All, All-append, ℕ, ◌==◌, zero, suc, ◌+◌, ◌-◌, ◌*◌, ◌/◌, ◌%◌, ◌<◌, ◌≤◌, ◌^◌, List, [], ◌∷◌, ◌++◌,
  Bool, true, false, ◌≡◌, ◌≢◌, refl, ap, ◌∙◌, if◌then◌else◌, arith, ◌⊎◌, inl, inr, leb, leb→le,
  Bool-cases, append_assoc, length, length-append,
}
use esp8266_xcode.Base.Int.{ℤ, pos, negsuc, IsLong}
use esp8266_xcode.Lost.Number.{scan10, scan16, strtol}

-- The decimal digits of a number, the last one first in the recursion on fuel.
decimal_fuel : ℕ → ℕ → List ℕ
decimal_fuel zero n = []
decimal_fuel (suc f) n =
    let rest = decimal_fuel f (n / 10) in
    if leb n 9 then (b'0' + n) ∷ [] else rest ++ ((b'0' + n % 10) ∷ [])

-- What `%u` prints.
unfoldable pub decimal : ℕ → List ℕ
unfolding decimal_fuel
decimal n = decimal_fuel (n + 1) n

-- What `%d` prints.
unfoldable pub print_int : ℤ → List ℕ
print_int (pos n) = decimal n
print_int (negsuc n) = b'-' ∷ decimal (suc n)

-- A byte at which `strtol` stops.
abbrev pub Stops10 : List ℕ → Type 0
Stops10 [] = Unit
Stops10 (c ∷ _) = (c ≢ b'-') × ((c < b'0') ⊎ (b'9' < c))

scan10_stop :
    (r : List ℕ) (s : Bool) (n : ℕ)
    → Stops10 r
    → scan10 r s n ≡ record { negative = s; result = n; rest = r }
unfolding scan10
scan10_stop [] s n h = refl
scan10_stop (c ∷ r) s n h = ground arith

scan10_digit :
    (d m : ℕ) (r : List ℕ) (s : Bool)
    → d ≤ 9
    → m * 10 + d < 2 ^ 32
    → scan10 ((b'0' + d) ∷ r) s m ≡ scan10 r s (m * 10 + d)
unfolding scan10
scan10_digit d m r s h k = ground (arith, ap (scan10 r s) (digit_value d m k))
  where
    digit_value :
        (d m : ℕ) → m * 10 + d < 2 ^ 32 → (m * 10 + (b'0' + d) - b'0') % 2 ^ 32 ≡ m * 10 + d
    digit_value d m k = omega arith

scan10-decimal :
    (f n : ℕ) (r : List ℕ) (s : Bool)
    → n < f
    → n < 2 ^ 32
    → scan10 (decimal_fuel f n ++ r) s 0 ≡ scan10 r s n
unfolding decimal_fuel
scan10-decimal zero n r s h k = absurd (omega arith)
scan10-decimal (suc f) n r s h k = elim (Bool-cases (leb n 9)) [
  | inl e ↦ rw e (scan10_digit n 0 r s (leb→le n 9 e) (omega arith) ∙ ap (scan10 r s) (omega arith))
  | inr e ↦
      rw (e, append_assoc)
        (scan10-decimal f (n / 10) ((b'0' + n % 10) ∷ r) s (ground arith) (omega arith)
          ∙ scan10_digit (n % 10) (n / 10) r s (omega arith) (omega arith)
          ∙ ap (scan10 r s) (omega arith))
]

minus_step : (d : List ℕ) → scan10 (b'-' ∷ d) false 0 ≡ scan10 d true 0
unfolding scan10
minus_step d = refl

-- In base ten strtol reads back every printed integer between -(2 ^ 31) and 2 ^ 31, both
-- excluded, and stops behind it, where the text behind it does not go on with a digit or a minus
-- sign.
pub strtol-print_int :
    (z : ℤ) (r : List ℕ) → IsLong z → Stops10 r → strtol (print_int z ++ r) 10 ≡ (z, r)
unfolding strtol print_int decimal
strtol-print_int (pos n) r k h =
    rw (scan10-decimal (n + 1) n r false (omega arith) (omega arith), scan10_stop r false n h)
      (ground arith)
strtol-print_int (negsuc n) r k h =
    rw
      (
        minus_step,
        scan10-decimal (suc n + 1) (suc n) r true (omega arith) (omega arith),
        scan10_stop r true (suc n) h,
      )
      (ground arith)

-- The two hexadecimal digits of a byte, as `%02x` prints them.
unfoldable pub hex_digit : ℕ → ℕ
hex_digit d = if leb d 9 then b'0' + d else b'a' + d - 10

unfoldable pub hex_upper : ℕ → ℕ
hex_upper d = if leb d 9 then b'0' + d else b'A' + d - 10

pub strtol-hex :
    (a b : ℕ)
    → a < 16
    → b < 16
    → (strtol (hex_digit a ∷ hex_digit b ∷ []) 16 ≡ (pos (a * 16 + b), []))
      × (strtol (hex_upper a ∷ hex_upper b ∷ []) 16 ≡ (pos (a * 16 + b), []))
unfolding strtol scan16 hex_digit hex_upper
strtol-hex a b ha hb = (ground arith, ground arith)

decimal_fuel_digits : (f n : ℕ) → All (λ c. (b'-' ≤ c) × (c ≤ b'9')) (decimal_fuel f n)
unfolding decimal_fuel
decimal_fuel_digits zero n = tt
decimal_fuel_digits (suc f) n = elim (Bool-cases (leb n 9)) [
  | inl e ↦ rw e ((omega arith, omega (arith, leb→le n 9 e)), tt)
  | inr e ↦ rw e (
      All-append _ (decimal_fuel f (n / 10)) _ (decimal_fuel_digits f (n / 10))
        ((omega arith, omega arith), tt))
]

-- A printed integer holds nothing but digits and a minus sign.
pub print_int_range : (z : ℤ) → All (λ c. (b'-' ≤ c) × (c ≤ b'9')) (print_int z)
unfolding print_int decimal
print_int_range (pos n) = decimal_fuel_digits (n + 1) n
print_int_range (negsuc n) = (omega arith, decimal_fuel_digits (suc n + 1) (suc n))

length-decimal_fuel : (k f n : ℕ) → n < 10 * 10 ^ k → length (decimal_fuel f n) ≤ suc k
unfolding decimal_fuel
length-decimal_fuel k zero n h = omega arith
length-decimal_fuel zero (suc f) n h = let e : leb n 9 ≡ true = ground arith in rw e (omega arith)
length-decimal_fuel (suc k) (suc f) n h = elim (Bool-cases (leb n 9)) [
  | inl e ↦ rw e (omega arith)
  | inr e ↦
      let shorter = length-decimal_fuel k f (n / 10) (omega (arith, pow-suc 10 k)) in
      rw e (omega (arith, shorter, length-append (decimal_fuel f (n / 10)) ((b'0' + n % 10) ∷ [])))
]

-- A number of 32 bits prints in at most eleven bytes.
pub length-print_int : (z : ℤ) → IsLong z → length (print_int z) ≤ 11
unfolding print_int decimal
length-print_int (pos n) h = omega (arith, length-decimal_fuel 9 (n + 1) n (omega arith))
length-print_int (negsuc n) h =
    omega (arith, length-decimal_fuel 9 (suc n + 1) (suc n) (omega arith))

-- `itoa` of esp8266/lost/lost.c; `hex` is what `os_sprintf` prints for `%x`.
unfoldable pub itoa : (ℤ → List ℕ) → ℤ → ℕ → List ℕ
unfolding print_int
itoa hex value base = if base == 16 then hex value else print_int value
