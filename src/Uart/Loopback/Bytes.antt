-- ===== src/Uart/Loopback/Bytes.antt =====
-- A receiver of esp8266/app/uart.c that is given each bit of a frame in turn.
use Prim.Native.Nat.{bit_xor}
use esp8266_xcode.Base.{
  ℕ, zero, suc, ◌+◌, ◌≤◌, ◌<◌, ◌^◌, List, [], ◌∷◌, ◌++◌, some, Bool, true, false, ◌&&◌, ltb, lt→ltb,
  leb, ◌≡◌, refl, ap, ◌∙◌, arith, Bool-cases, inl, inr, length, set, get_or, ◌==◌, ==_iff,
}
use esp8266_xcode.Uart.{Uart, rx_bit, next_byte}
use esp8266_xcode.Uart.Frame.{bit_of}
use esp8266_xcode.Uart.Loopback.{bit_step, steps}

-- Inside a frame: the next bit, and the value at `head` so far.
abbrev pub slot : Uart → ℕ → ℕ → Uart
slot u v b = record u { bit = some b; buffer = set u.buffer u.head v }

abbrev pub put : ℕ → ℕ → Bool → ℕ
put v b true = v
put v b false = bit_xor v (2 ^ b)

module _ {ℓ} {A : Type ℓ} where
  pub get_or-set : (xs : List A) (i : ℕ) (v d : A) → i < length xs → get_or (set xs i v) i d ≡ v
  get_or-set [] i v d h = elim h [ ]
  get_or-set (x ∷ xs) zero v d h = refl
  get_or-set (x ∷ xs) (suc i) v d h = get_or-set xs i v d (omega arith)

  pub set-set : (xs : List A) (i : ℕ) (v w : A) → set (set xs i v) i w ≡ set xs i w
  set-set [] i v w = refl
  set-set (x ∷ xs) zero v w = refl
  set-set (x ∷ xs) (suc i) v w = ap (λ l. x ∷ l) (set-set xs i v w)

module _ (u : Uart) (h : u.head < length u.buffer) where
  data_bit :
      (v b : ℕ) (l : Bool)
      → b < 8
      → b + 1 < u.frame
      → bit_step (slot u v b) l ≡ slot u (put v b l) (b + 1)
  unfolding bit_step rx_bit
  data_bit v b true k f = let t : leb u.frame (b + 1) ≡ false = ground arith in rw (lt→ltb b 8 k, t)
  data_bit v b false k f =
      let t : leb u.frame (b + 1) ≡ false = ground arith in
      rw (lt→ltb b 8 k, t, set-set u.buffer u.head, get_or-set u.buffer u.head v 0 h)

abbrev pub bits8 : ℕ → List Bool
bits8 c =
    bit_of c 0
    ∷ bit_of c 1
    ∷ bit_of c 2
    ∷ bit_of c 3
    ∷ bit_of c 4
    ∷ bit_of c 5
    ∷ bit_of c 6
    ∷ bit_of c 7
    ∷ []

put_all : ℕ → ℕ → List Bool → ℕ
put_all v b [] = v
put_all v b (l ∷ ls) = put_all (put v b l) (b + 1) ls

both_left : (a b : Bool) → (a && b) ≡ true → a ≡ true
both_left true b h = refl
both_left false b h = h

both_right : (a b : Bool) → (a && b) ≡ true → b ≡ true
both_right true b h = h
both_right false b h = absurd (cc)

-- The values of a byte, one by one.
all_below : ℕ → (ℕ → Bool) → Bool
all_below zero f = true
all_below (suc n) f = f n && all_below n f

all_below_lem : (n : ℕ) (f : ℕ → Bool) (c : ℕ) → all_below n f ≡ true → c < n → f c ≡ true
unfolding all_below
all_below_lem zero f c h k = absurd (omega arith)
all_below_lem (suc n) f c h k = elim (Bool-cases (c == n)) [
  | inl e ↦ ap f ((==_iff c n).0 e) ∙ both_left (f n) (all_below n f) h
  | inr e ↦ all_below_lem n f c (both_right (f n) (all_below n f) h) (ground arith)
]

put_all-bits8 : (c : ℕ) → c < 256 → put_all 0xff 0 (bits8 c) ≡ c
unfolding put_all all_below bit_of
put_all-bits8 c h =
    (==_iff (put_all 0xff 0 (bits8 c)) c).0
      (all_below_lem 256 (λ x. put_all 0xff 0 (bits8 x) == x) c refl h)

steps-append : (u : Uart) (xs ys : List Bool) → steps u (xs ++ ys) ≡ steps (steps u xs) ys
unfolding steps
steps-append u [] ys = refl
steps-append u (x ∷ xs) ys = steps-append (bit_step u x) xs ys

steps_data :
    (u : Uart) (ls : List Bool) (v b : ℕ)
    → u.head < length u.buffer
    → b + length ls ≤ 8
    → 8 < u.frame
    → steps (slot u v b) ls ≡ slot u (put_all v b ls) (b + length ls)
unfolding steps put_all
steps_data u [] v b h k f = ap (slot u v) {x = b} {y = b + 0} (omega arith)
steps_data u (l ∷ ls) v b h k f =
    ap (λ w. steps w ls) (data_bit u h v b l (omega arith) (omega arith))
    ∙ steps_data u ls (put v b l) (b + 1) h (omega arith) f
    ∙ ap (slot u (put_all (put v b l) (b + 1) ls)) {x = b + 1 + length ls} {y = b + suc (length ls)}
        (omega arith)

-- The bits behind the data bits change nothing but the count.
steps_rest :
    (u : Uart) (l : Bool) (ls : List Bool) (b : ℕ)
    → 8 ≤ b
    → b + length (l ∷ ls) ≡ u.frame
    → steps (record u { bit = some b }) (l ∷ ls) ≡ next_byte u
unfolding steps bit_step rx_bit
steps_rest u l [] b k f =
    let t : leb u.frame (b + 1) ≡ true = ground arith in
    let s : ltb b 8 ≡ false = ground arith in rw (s, t)
steps_rest u l (l' ∷ ls) b k f =
    let t : leb u.frame (b + 1) ≡ false = ground arith in
    let s : ltb b 8 ≡ false = ground arith in
    let one : bit_step (record u { bit = some b }) l ≡ record u { bit = some (b + 1) } =
      rw (s, t) in
    ap (λ w. steps w (l' ∷ ls)) one ∙ steps_rest u l' ls (b + 1) (omega arith) (omega arith)

-- The receiver after the frame of a byte.
abbrev pub receive : Uart → ℕ → Uart
receive u c = next_byte (record u { buffer = set u.buffer u.head c })

pub steps_frame :
    (u : Uart) (c : ℕ) (l : Bool) (ls : List Bool)
    → c < 256
    → u.head < length u.buffer
    → 8 + length (l ∷ ls) ≡ u.frame
    → steps (slot u 0xff 0) (bits8 c ++ (l ∷ ls)) ≡ receive u c
steps_frame u c l ls k h f =
    steps-append (slot u 0xff 0) (bits8 c) (l ∷ ls)
    ∙ ap (λ w. steps w (l ∷ ls))
        (steps_data u (bits8 c) 0xff 0 h (omega arith) (omega arith)
          ∙ ap (λ v. slot u v 8) (put_all-bits8 c k))
    ∙ steps_rest (record u { buffer = set u.buffer u.head c }) l ls 8 (omega arith) f
