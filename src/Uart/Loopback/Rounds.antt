-- ===== src/Uart/Loopback/Rounds.antt =====
-- What the loop of uart_rx does with the bit times since the last change.
use esp8266_xcode.Base.{
  ℕ, zero, suc, ◌+◌, ◌≤◌, ◌<◌, none, some, Bool, true, false, not, ltb, lt→ltb, leb, if◌then◌else◌,
  ◌≡◌, refl, ap, ◌∙◌, arith, inl, inr, Option-cases,
}
use esp8266_xcode.Uart.{Uart, u32, rx_bit, rx_start, rx_loop}
use esp8266_xcode.Uart.Loopback.{bit_step, fill, at_cycle, times, Open}

pub fill-bit_step :
    (m : ℕ) (l : Bool) (u : Uart) → fill m l (bit_step u l) ≡ bit_step (fill m l u) l
unfolding fill
fill-bit_step zero l u = refl
fill-bit_step (suc m) l u = ap (λ v. bit_step v l) (fill-bit_step m l u)

pub le-times : (baud m : ℕ) → 0 < baud → m ≤ times baud m
le-times baud zero h = omega arith
le-times baud (suc m) h = omega (arith, le-times baud m h)

-- The state after a bit before the end of the frame.
pub bit-rx_bit :
    (u : Uart) (b : ℕ) (space : Bool)
    → (rx_bit u b space).bit ≡ (if leb u.frame (b + 1) then none else some (b + 1))
unfolding rx_bit
bit-rx_bit u b space = ground arith

pub frame-rx_bit : (u : Uart) (b : ℕ) (space : Bool) → (rx_bit u b space).frame ≡ u.frame
unfolding rx_bit
frame-rx_bit u b space = ground arith

pub baud-rx_bit : (u : Uart) (b : ℕ) (space : Bool) → (rx_bit u b space).baud_cycle ≡ u.baud_cycle
unfolding rx_bit
baud-rx_bit u b space = ground arith

pub last_cycle-rx_bit :
    (u : Uart) (b : ℕ) (space : Bool) → (rx_bit u b space).last_cycle ≡ u.last_cycle
unfolding rx_bit
last_cycle-rx_bit u b space = ground arith

pub bit_step-some :
    (u : Uart) (b : ℕ) (l : Bool) → u.bit ≡ some b → bit_step u l ≡ rx_bit u b (not l)
unfolding bit_step
bit_step-some u b l e = ap (λ o. elim o [ none ↦ u | some k ↦ rx_bit u k (not l) ]) e

not-not : (b : Bool) → not (not b) ≡ b
not-not true = refl
not-not false = refl

-- One round of the loop in a frame: a bit before the change, and the one that starts with it.
round :
    (fuel : ℕ) (u : Uart) (up : Bool) (cycle current last b : ℕ)
    → u.bit ≡ some b
    → last < current
    → rx_loop (suc fuel) u up cycle current last
      ≡ rx_loop fuel
          (rx_bit u b (if ltb (last + u.baud_cycle) current then up else not up))
          up
          cycle
          current
          (last + u.baud_cycle)
unfolding rx_loop
round fuel u up cycle current last b e h =
    rw (rx_loop, lt→ltb last current h)
      (ap
        (λ o. elim o [
          | none ↦ some (rx_start u cycle)
          | some k ↦
              rx_loop fuel (rx_bit u k (if ltb (last + u.baud_cycle) current then up else not up))
                up cycle current (last + u.baud_cycle)
        ])
        e)

pub round_old :
    (fuel : ℕ) (u : Uart) (up : Bool) (cycle current last b : ℕ)
    → u.bit ≡ some b
    → last + u.baud_cycle < current
    → rx_loop (suc fuel) u up cycle current last
      ≡ rx_loop fuel (bit_step u (not up)) up cycle current (last + u.baud_cycle)
round_old fuel u up cycle current last b e h =
    round fuel u up cycle current last b e (omega arith)
    ∙ rw (lt→ltb (last + u.baud_cycle) current h, bit_step-some u b (not up) e, not-not up)

pub round_new :
    (fuel : ℕ) (u : Uart) (up : Bool) (cycle current last b : ℕ)
    → u.bit ≡ some b
    → last < current
    → current ≤ last + u.baud_cycle
    → rx_loop (suc fuel) u up cycle current last
      ≡ rx_loop fuel (bit_step u up) up cycle current (last + u.baud_cycle)
round_new fuel u up cycle current last b e h k =
    let t : ltb (last + u.baud_cycle) current ≡ false = ground arith in
    round fuel u up cycle current last b e h ∙ rw (t, bit_step-some u b up e)

-- The end of the loop.
pub rx_loop_end :
    (fuel : ℕ) (u : Uart) (up : Bool) (cycle current last : ℕ)
    → current ≤ last
    → rx_loop (suc fuel) u up cycle current last
      ≡ some (record u { last_cycle = u32 (u.last_cycle + last) })
unfolding rx_loop
rx_loop_end fuel u up cycle current last h =
    let t : ltb last current ≡ false = ground arith in rw (rx_loop, t)

pub rx_loop_start :
    (fuel : ℕ) (u : Uart) (up : Bool) (cycle current last : ℕ)
    → u.bit ≡ none
    → last < current
    → rx_loop (suc fuel) u up cycle current last ≡ some (rx_start u cycle)
unfolding rx_loop rx_start
rx_loop_start fuel u up cycle current last e h = rw (rx_loop, lt→ltb last current h, e)

bit-bit_step :
    (u : Uart) (b : ℕ) (l : Bool)
    → u.bit ≡ some b
    → b + 1 < u.frame
    → (bit_step u l).bit ≡ some (b + 1)
bit-bit_step u b l e h =
    let t : leb u.frame (b + 1) ≡ false = ground arith in
    ap (λ v. v.bit) (bit_step-some u b l e) ∙ bit-rx_bit u b (not l) ∙ rw t

pub bit_step-none : (u : Uart) (l : Bool) → u.bit ≡ none → bit_step u l ≡ u
unfolding bit_step
bit_step-none u l e = ap (λ o. elim o [ none ↦ u | some k ↦ rx_bit u k (not l) ]) e

pub frame-bit_step : (u : Uart) (l : Bool) → (bit_step u l).frame ≡ u.frame
frame-bit_step u l = elim (Option-cases u.bit) [
  | inl e ↦ ap (λ v. v.frame) (bit_step-none u l e)
  | inr (b, e) ↦ ap (λ v. v.frame) (bit_step-some u b l e) ∙ frame-rx_bit u b (not l)
]

pub baud-bit_step : (u : Uart) (l : Bool) → (bit_step u l).baud_cycle ≡ u.baud_cycle
baud-bit_step u l = elim (Option-cases u.bit) [
  | inl e ↦ ap (λ v. v.baud_cycle) (bit_step-none u l e)
  | inr (b, e) ↦ ap (λ v. v.baud_cycle) (bit_step-some u b l e) ∙ baud-rx_bit u b (not l)
]

pub last_cycle-bit_step : (u : Uart) (l : Bool) → (bit_step u l).last_cycle ≡ u.last_cycle
last_cycle-bit_step u l = elim (Option-cases u.bit) [
  | inl e ↦ ap (λ v. v.last_cycle) (bit_step-none u l e)
  | inr (b, e) ↦ ap (λ v. v.last_cycle) (bit_step-some u b l e) ∙ last_cycle-rx_bit u b (not l)
]

-- A receiver in a frame that has had `m` bit times at the level before the change, and then sees
-- the change, within the bit that starts with it.
pub rx_loop_bits :
    (m fuel : ℕ) (u : Uart) (up : Bool) (cycle current last b baud : ℕ)
    → u.bit ≡ some b
    → u.baud_cycle ≡ baud
    → b + m < u.frame
    → last + times baud m < current
    → current ≤ last + times baud (suc m)
    → suc m < fuel
    → rx_loop fuel u up cycle current last
      ≡ some (
          let w = bit_step (fill m (not up) u) up in
          at_cycle w (u32 (w.last_cycle + (last + times baud (suc m)))))
unfolding fill
rx_loop_bits m zero u up cycle current last b baud e bd f lo hi h = absurd (omega arith)
rx_loop_bits m (suc zero) u up cycle current last b baud e bd f lo hi h = absurd (omega arith)
rx_loop_bits zero (suc (suc fuel)) u up cycle current last b baud e bd f lo hi h =
    let w = bit_step u up in
    round_new (suc fuel) u up cycle current last b e (omega arith) (omega arith)
    ∙ rx_loop_end fuel w up cycle current (last + u.baud_cycle) (omega arith)
    ∙ ap (λ n. some (at_cycle w (u32 (w.last_cycle + n)))) {x = last + u.baud_cycle}
        {y = last + (baud + 0)} (omega arith)
rx_loop_bits (suc m) (suc (suc fuel)) u up cycle current last b baud e bd f lo hi h =
    let v = bit_step u (not up) in
    let p : last + u.baud_cycle + times baud (suc m) ≡ last + times baud (suc (suc m)) =
      omega arith in
    round_old (suc fuel) u up cycle current last b e (omega arith)
    ∙ rx_loop_bits m (suc fuel) v up cycle current (last + u.baud_cycle) (b + 1) baud
        (bit-bit_step u b (not up) e (omega arith)) (baud-bit_step u (not up) ∙ bd)
        (omega (arith, frame-bit_step u (not up))) (omega arith) (omega arith) (omega arith)
    ∙ ap
        (λ n. some (let w = bit_step (fill m (not up) v) up in at_cycle w (u32 (w.last_cycle + n))))
        p
    ∙ ap
        (λ x. some (
          let w = bit_step x up in
          at_cycle w (u32 (w.last_cycle + (last + times baud (suc (suc m)))))))
        (fill-bit_step m (not up) u)

pub Open-bit_step : (m : ℕ) (u : Uart) (l : Bool) → Open u (suc m) → Open (bit_step u l) m
Open-bit_step zero u l (b, e, f) =
    let t : leb u.frame (b + 1) ≡ true = ground arith in
    ap (λ v. v.bit) (bit_step-some u b l e) ∙ bit-rx_bit u b (not l) ∙ rw t
Open-bit_step (suc m) u l (b, e, f) =
    (b + 1, bit-bit_step u b l e (omega arith), omega (arith, frame-bit_step u l))

-- A receiver whose line has been high since it was `m` bits before the end of its frame: the change
-- to low starts the next one.
pub rx_loop_frame :
    (m fuel : ℕ) (u : Uart) (cycle current last baud : ℕ)
    → u.baud_cycle ≡ baud
    → Open u m
    → last + times baud m < current
    → m < fuel
    → rx_loop fuel u false cycle current last ≡ some (rx_start (fill m true u) cycle)
unfolding fill
rx_loop_frame m zero u cycle current last baud bd o lo h = absurd (omega arith)
rx_loop_frame zero (suc fuel) u cycle current last baud bd o lo h =
    rx_loop_start fuel u false cycle current last o (omega arith)
rx_loop_frame (suc m) (suc fuel) u cycle current last baud bd (b, e, f) lo h =
    round_old fuel u false cycle current last b e (omega arith)
    ∙ rx_loop_frame m fuel (bit_step u true) cycle current (last + u.baud_cycle) baud
        (baud-bit_step u true ∙ bd) (Open-bit_step m u true (b, e, f)) (omega arith) (omega arith)
    ∙ ap (λ x. some (rx_start x cycle)) (fill-bit_step m true u)
