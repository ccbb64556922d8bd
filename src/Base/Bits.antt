-- ===== src/Base/Bits.antt =====
-- Exclusive or and masks at variables: the laws come from the lowest binary digit.
use Prim.Native.Nat.{
  min, digits, bitwise, bit_and, bit_and-bitwise, bit_xor, bit_xor-bitwise, differ,
}
use esp8266_xcode.Base.{
  ◌==◌, ℕ, zero, suc, ◌+◌, ◌*◌, ◌/◌, ◌%◌, ◌≤◌, ◌<◌, ◌^◌, ◌≡◌, refl, sym, ◌∙◌, arith, Bool, true,
  false, if◌then◌else◌, ap, ◌-◌,
}
use native.Mathlib.Nat.{pow-suc}

-- More fuel than the number changes nothing.
module _ (rest : ℕ → ℕ) (op : ℕ → ℕ → ℕ) where
  digits-zero : (fuel y : ℕ) → digits rest op fuel 0 y ≡ rest y
  digits-zero zero y = refl
  digits-zero (suc fuel) y = refl

  digits_surplus :
      (x y fuel surplus : ℕ)
      → x ≤ fuel
      → digits rest op (surplus + fuel) x y ≡ digits rest op fuel x y
  digits_surplus zero y fuel surplus h = digits-zero (surplus + fuel) y ∙ sym (digits-zero fuel y)
  digits_surplus (suc x) y zero surplus h = absurd (omega arith)
  digits_surplus (suc x) y (suc fuel) surplus h =
      ap (λ n. digits rest op n (suc x) y) {x = surplus + suc fuel} {y = suc (surplus + fuel)}
        (omega arith)
      ∙ ap (λ d. d * 2 + op (suc x % 2) (y % 2))
          (digits_surplus (suc x / 2) (y / 2) fuel surplus (omega arith))

  bitwise_halves :
      (x y : ℕ)
      → bitwise rest op (suc x) y ≡ op (suc x % 2) (y % 2) + bitwise rest op (suc x / 2) (y / 2) * 2
  bitwise_halves x y =
      let half = suc x / 2 in
      let enough = digits_surplus half (y / 2) half (x - half) (omega arith) in
      let fuel : x - half + half ≡ x = omega arith in
      omega (arith, enough, ap (λ n. digits rest op n half (y / 2)) fuel)

differ_digits : (x y : ℕ) → x < 2 → y < 2 → differ x y ≡ (x + y) % 2
differ_digits zero y hx hy = omega arith
differ_digits (suc zero) zero hx hy = refl
differ_digits (suc zero) (suc zero) hx hy = refl
differ_digits (suc zero) (suc (suc y)) hx hy = absurd (omega arith)
differ_digits (suc (suc x)) y hx hy = absurd (omega arith)

bit_xor_digit : (a b : ℕ) → bit_xor a b ≡ bit_xor (a / 2) (b / 2) * 2 + (a + b) % 2
bit_xor_digit zero b = simp bit_xor-bitwise (omega arith)
bit_xor_digit (suc a) b = simp bit_xor-bitwise (
    omega (
      arith,
      bitwise_halves (λ y. y) differ a b,
      differ_digits (suc a % 2) (b % 2) (omega arith) (omega arith),
    ))

pub bit_xor-half : (a b : ℕ) → bit_xor a b / 2 ≡ bit_xor (a / 2) (b / 2)
bit_xor-half a b = omega (arith, bit_xor_digit a b)

pub bit_xor-mod : (a b : ℕ) → bit_xor a b % 2 ≡ (a + b) % 2
bit_xor-mod a b = omega (arith, bit_xor_digit a b)

pub zero-bit_xor : (b : ℕ) → bit_xor 0 b ≡ b
zero-bit_xor b = simp bit_xor-bitwise

-- Numbers with the same lowest digit and the same half are equal.
eq_of_digits : (a b : ℕ) → a % 2 ≡ b % 2 → a / 2 ≡ b / 2 → a ≡ b
eq_of_digits a b h k = omega arith

bit_xor-zero_fuel : (n a : ℕ) → a ≤ n → bit_xor a 0 ≡ a
bit_xor-zero_fuel n zero h = zero-bit_xor 0
bit_xor-zero_fuel zero (suc a) h = absurd (omega arith)
bit_xor-zero_fuel (suc n) (suc a) h =
    omega (arith, bit_xor_digit (suc a) 0, bit_xor-zero_fuel n (suc a / 2) (omega arith))

pub bit_xor-zero : (a : ℕ) → bit_xor a 0 ≡ a
bit_xor-zero a = bit_xor-zero_fuel a a (omega arith)

bit_xor_comm_fuel : (n a b : ℕ) → a ≤ n → bit_xor a b ≡ bit_xor b a
bit_xor_comm_fuel n zero b h = zero-bit_xor b ∙ sym (bit_xor-zero b)
bit_xor_comm_fuel zero (suc a) b h = absurd (omega arith)
bit_xor_comm_fuel (suc n) (suc a) b h = omega (
  arith,
  bit_xor_digit (suc a) b,
  bit_xor_digit b (suc a),
  bit_xor_comm_fuel n (suc a / 2) (b / 2) (omega arith),
)

pub bit_xor_comm : (a b : ℕ) → bit_xor a b ≡ bit_xor b a
bit_xor_comm a b = bit_xor_comm_fuel a a b (omega arith)

bit_xor_assoc_low : (a b c : ℕ) → bit_xor (bit_xor a b) c % 2 ≡ bit_xor a (bit_xor b c) % 2
bit_xor_assoc_low a b c = omega (
  arith,
  bit_xor-mod (bit_xor a b) c,
  bit_xor-mod a b,
  bit_xor-mod a (bit_xor b c),
  bit_xor-mod b c,
)

bit_xor_assoc_fuel : (n a b c : ℕ) → a ≤ n → bit_xor (bit_xor a b) c ≡ bit_xor a (bit_xor b c)
bit_xor_assoc_fuel n zero b c h = rw (zero-bit_xor b, zero-bit_xor (bit_xor b c))
bit_xor_assoc_fuel zero (suc a) b c h = absurd (omega arith)
bit_xor_assoc_fuel (suc n) (suc a) b c h = eq_of_digits _ _ (bit_xor_assoc_low (suc a) b c) (
    rw (bit_xor-half, bit_xor-half (suc a) b, bit_xor-half (suc a) (bit_xor b c), bit_xor-half b c)
      (bit_xor_assoc_fuel n (suc a / 2) (b / 2) (c / 2) (omega arith)))

pub bit_xor_assoc : (a b c : ℕ) → bit_xor (bit_xor a b) c ≡ bit_xor a (bit_xor b c)
bit_xor_assoc a b c = bit_xor_assoc_fuel a a b c (omega arith)

pub bit_xor_self : (n a : ℕ) → a ≤ n → bit_xor a a ≡ 0
bit_xor_self n zero h = zero-bit_xor 0
bit_xor_self zero (suc a) h = absurd (omega arith)
bit_xor_self (suc n) (suc a) h =
    omega (arith, bit_xor_digit (suc a) (suc a), bit_xor_self n (suc a / 2) (omega arith))

-- `%` and `/` by a power of two go through exclusive or, one digit at a time.
pub bit_xor-lt : (k a b : ℕ) → a < 2 ^ k → b < 2 ^ k → bit_xor a b < 2 ^ k
bit_xor-lt zero zero zero ha hb = omega arith
bit_xor-lt zero zero (suc b) ha hb = absurd (omega arith)
bit_xor-lt zero (suc a) b ha hb = absurd (omega arith)
bit_xor-lt (suc k) a b ha hb = omega (
  arith,
  pow-suc 2 k,
  bit_xor_digit a b,
  bit_xor-lt k (a / 2) (b / 2) (omega (arith, pow-suc 2 k)) (omega (arith, pow-suc 2 k)),
)

bit_and_digit : (a b : ℕ) → bit_and a b ≡ bit_and (a / 2) (b / 2) * 2 + min (a % 2) (b % 2)
bit_and_digit zero b = simp bit_and-bitwise (omega arith)
bit_and_digit (suc a) b = simp bit_and-bitwise (omega (arith, bitwise_halves (λ y. 0) min a b))

-- The number is below a power of two, and each step takes one digit off.
bit_and-zero : (k x : ℕ) → x < 2 ^ k → bit_and x 0 ≡ 0
bit_and-zero zero x h = ap (λ y. bit_and y 0) {x = x} {y = 0} (omega arith)
bit_and-zero (suc k) x h =
    omega (arith, bit_and_digit x 0, bit_and-zero k (x / 2) (omega (arith, pow-suc 2 k)))

lt_pow : (k : ℕ) → k < 2 ^ k
lt_pow zero = omega arith
lt_pow (suc k) = omega (arith, pow-suc 2 k, lt_pow k)

pub bit_and_fifteen : (a : ℕ) → bit_and a 15 ≡ a % 16
bit_and_fifteen a = omega (
  arith,
  bit_and_digit a 15,
  bit_and_digit (a / 2) 7,
  bit_and_digit (a / 2 / 2) 3,
  bit_and_digit (a / 2 / 2 / 2) 1,
  bit_and-zero (a / 2 / 2 / 2 / 2) (a / 2 / 2 / 2 / 2) (lt_pow _),
)

-- Four digits above `r` are added by exclusive or, and are cut off by a division.
pub bit_xor_fields : (q r : ℕ) → r < 16 → bit_xor r (q * 16) ≡ q * 16 + r
bit_xor_fields q r h = omega (
  arith,
  bit_xor_digit r (q * 16),
  bit_xor_digit (r / 2) (q * 16 / 2),
  bit_xor_digit (r / 2 / 2) (q * 16 / 2 / 2),
  bit_xor_digit (r / 2 / 2 / 2) (q * 16 / 2 / 2 / 2),
  top,
)
  where
    digits_gone : r / 2 / 2 / 2 / 2 ≡ 0
    digits_gone = omega arith

    top : bit_xor (r / 2 / 2 / 2 / 2) (q * 16 / 2 / 2 / 2 / 2) ≡ q
    top = rw (digits_gone, zero-bit_xor) (omega arith)

pub bit_xor-sixteenth : (a n : ℕ) → n < 16 → bit_xor a n / 16 ≡ a / 16
bit_xor-sixteenth a n h = omega (
  arith,
  bit_xor-half a n,
  bit_xor-half (a / 2) (n / 2),
  bit_xor-half (a / 2 / 2) (n / 2 / 2),
  bit_xor-half (a / 2 / 2 / 2) (n / 2 / 2 / 2),
  top,
)
  where
    digits_gone : n / 2 / 2 / 2 / 2 ≡ 0
    digits_gone = omega arith

    top : bit_xor (a / 2 / 2 / 2 / 2) (n / 2 / 2 / 2 / 2) ≡ a / 2 / 2 / 2 / 2
    top = rw (digits_gone, bit_xor-zero)

pub bit_xor-mod_sixteen : (a b : ℕ) → bit_xor a b % 16 ≡ bit_xor a (b % 16) % 16
bit_xor-mod_sixteen a b = omega (
  arith,
  bit_xor_digit a b,
  bit_xor_digit (a / 2) (b / 2),
  bit_xor_digit (a / 2 / 2) (b / 2 / 2),
  bit_xor_digit (a / 2 / 2 / 2) (b / 2 / 2 / 2),
  bit_xor_digit a (b % 16),
  bit_xor_digit (a / 2) (b % 16 / 2),
  bit_xor_digit (a / 2 / 2) (b % 16 / 2 / 2),
  bit_xor_digit (a / 2 / 2 / 2) (b % 16 / 2 / 2 / 2),
)

-- A test of the numbers below `n`, which evaluation decides.
unfoldable pub every : (ℕ → Bool) → ℕ → Bool
every test zero = true
every test (suc n) = if test n then every test n else false

pub every→test : (test : ℕ → Bool) (n i : ℕ) → i < n → every test n ≡ true → test i ≡ true
unfolding every
every→test test zero i k e = absurd (omega arith)
every→test test (suc n) i k e = ground (arith, every→test test n i)

-- The binary digits of a number, the lowest at 0.
unfoldable pub digit : ℕ → ℕ → ℕ
digit zero n = n % 2
digit (suc j) n = digit j (n / 2)

bit_and-le : (k a b : ℕ) → a < 2 ^ k → bit_and a b ≤ a
bit_and-le zero a b h =
    let e : bit_and a b ≡ bit_and 0 b = ap (λ y. bit_and y b) {x = a} {y = 0} (omega arith) in
    let z : bit_and 0 b ≡ 0 = simp bit_and-bitwise (omega arith) in omega (arith, e, z)
bit_and-le (suc k) a b h =
    omega (arith, bit_and_digit a b, bit_and-le k (a / 2) (b / 2) (omega (arith, pow-suc 2 k)))

clear_half : (n p : ℕ) → (n - bit_and n p) / 2 ≡ n / 2 - bit_and (n / 2) (p / 2)
clear_half n p = omega (arith, bit_and_digit n p, bit_and-le (n / 2) (n / 2) (p / 2) (lt_pow _))

clear_low : (n p : ℕ) → (n - bit_and n p) % 2 ≡ (if p % 2 == 1 then 0 else n % 2)
clear_low n p = ground (arith, bit_and_digit n p, bit_and-le (n / 2) (n / 2) (p / 2) (lt_pow _))

-- `n & ~p` loses the digits of `p` and keeps the others.
pub digit-clear :
    (j n p : ℕ) → digit j (n - bit_and n p) ≡ (if digit j p == 1 then 0 else digit j n)
unfolding digit
digit-clear zero n p = clear_low n p
digit-clear (suc j) n p = ap (digit j) (clear_half n p) ∙ digit-clear j (n / 2) (p / 2)
