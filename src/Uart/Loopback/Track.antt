-- ===== src/Uart/Loopback/Track.antt =====
-- How the receiver of esp8266/app/uart.c keeps up with the line inside a frame.
use mathlib.Core.Path.{subst}
use esp8266_xcode.Base.{
  ℕ, zero, suc, ◌+◌, ◌-◌, ◌/◌, ◌^◌, ◌≤◌, ◌<◌, some, Bool, true, false, not, ltb, leb, ◌≡◌, refl, ap,
  sym, ◌∙◌, arith, Bool-cases, inl, inr, ◌⊎◌, Option-cases, ◌&&◌,
}
use esp8266_xcode.Uart.{Uart, u32, sub32, nonneg, rx_bit, rx_loop, uart_rx}
use esp8266_xcode.Uart.Loopback.{Joined, same_level, edge, bit_step, fill, at_cycle, times, Open}
use esp8266_xcode.Uart.Loopback.Rounds.{
  Open-bit_step, bit_step-some, bit_step-none, frame-bit_step, baud-bit_step, last_cycle-bit_step,
  rx_loop_bits, le-times,
}

-- The cycle count of the last bit does not matter for the bits.
rx_bit-at_cycle :
    (u : Uart) (n b : ℕ) (s : Bool) → rx_bit (at_cycle u n) b s ≡ at_cycle (rx_bit u b s) n
unfolding rx_bit
rx_bit-at_cycle u n b s = elim (Bool-cases (ltb b 8 && s)) [
  | inl e ↦ elim (Bool-cases (leb u.frame (b + 1))) [ inl f ↦ rw (e, f) | inr f ↦ rw (e, f) ]
  | inr e ↦ elim (Bool-cases (leb u.frame (b + 1))) [ inl f ↦ rw (e, f) | inr f ↦ rw (e, f) ]
]

bit_step-at_cycle :
    (u : Uart) (n : ℕ) (l : Bool) → bit_step (at_cycle u n) l ≡ at_cycle (bit_step u l) n
bit_step-at_cycle u n l = elim (Option-cases u.bit) [
  | inl e ↦ bit_step-none (at_cycle u n) l e ∙ ap (λ v. at_cycle v n) (sym (bit_step-none u l e))
  | inr (b, e) ↦
      bit_step-some (at_cycle u n) b l e
      ∙ rx_bit-at_cycle u n b (not l)
      ∙ ap (λ v. at_cycle v n) (sym (bit_step-some u b l e))
]

pub baud-fill : (m : ℕ) (l : Bool) (u : Uart) → (fill m l u).baud_cycle ≡ u.baud_cycle
unfolding fill
baud-fill zero l u = refl
baud-fill (suc m) l u = baud-bit_step (fill m l u) l ∙ baud-fill m l u

pub frame-fill : (m : ℕ) (l : Bool) (u : Uart) → (fill m l u).frame ≡ u.frame
unfolding fill
frame-fill zero l u = refl
frame-fill (suc m) l u = frame-bit_step (fill m l u) l ∙ frame-fill m l u

pub last_cycle-fill : (m : ℕ) (l : Bool) (u : Uart) → (fill m l u).last_cycle ≡ u.last_cycle
unfolding fill
last_cycle-fill zero l u = refl
last_cycle-fill (suc m) l u = last_cycle-bit_step (fill m l u) l ∙ last_cycle-fill m l u

pub Open-fill : (m n j : ℕ) (l : Bool) (u : Uart) → n ≡ m + j → Open u n → Open (fill m l u) j
unfolding fill
Open-fill zero n j l u e o = let p : n ≡ j = omega arith in subst (Open u) p o
Open-fill (suc m) n j l u e o =
    Open-bit_step j (fill m l u) l (Open-fill m n (suc j) l u (omega arith) o)

Open-at_cycle : (j n : ℕ) (u : Uart) → Open u j → Open (at_cycle u n) j
Open-at_cycle zero n u o = o
Open-at_cycle (suc j) n u o = o

pub Open-some :
    (u : Uart) (n : ℕ) → 0 < n → Open u n → (b : ℕ) × (u.bit ≡ some b) × (b + n ≡ u.frame)
Open-some u zero h o = elim h [ ]
Open-some u (suc n) h o = o

pub Open-le : (u : Uart) (n : ℕ) → Open u n → n ≤ u.frame
Open-le u zero o = omega arith
Open-le u (suc n) (b, e, f) = omega arith

pub times-le : (baud m n : ℕ) → m ≤ n → times baud m ≤ times baud n
times-le baud zero n h = omega arith
times-le baud (suc m) zero h = absurd (omega arith)
times-le baud (suc m) (suc n) h = omega (arith, times-le baud m n (omega arith))

pub elapsed :
    (begin x y : ℕ)
    → y ≤ x
    → x < y + 2 ^ 31
    → nonneg (sub32 (u32 (begin + x)) (u32 (begin + y))) ≡ x - y
elapsed begin x y h k = ground arith

level_cases :
    (a b : Bool) → ((same_level a b ≡ true) × (a ≡ b)) ⊎ ((same_level a b ≡ false) × (a ≡ not b))
level_cases true true = inl (refl, refl)
level_cases true false = inr (refl, refl)
level_cases false true = inr (refl, refl)
level_cases false false = inl (refl, refl)

-- In a frame that started late by `start`, with `j` bit times to go: the receiver is `waiting` bit
-- times behind the one, `w`, that is given each bit in turn.
pub record Tracks (begin start baud frame : ℕ) (s : Joined) (w : Uart) (j : ℕ) : Type 0 where
  pub waiting : ℕ
  pub left : ℕ
  pub sampled : ℕ
  pub ideal : at_cycle (fill waiting s.line s.uart) 0 ≡ w
  pub last : s.uart.last_cycle ≡ u32 (begin + sampled)
  pub on_time : sampled + times baud waiting ≡ s.now + start + baud / 2
  pub open_in : Open s.uart left
  pub count : left ≡ waiting + j
  pub speed : s.uart.baud_cycle ≡ baud
  pub size : s.uart.frame ≡ frame

-- The receiver with all its bits, where the change that ends `m` equal ones is seen in time.
uart_rx_bits :
    (u : Uart) (m b baud begin x sampled : ℕ) (l : Bool)
    → u.bit ≡ some b
    → u.baud_cycle ≡ baud
    → b + m < u.frame
    → u.last_cycle ≡ u32 (begin + sampled)
    → sampled + times baud m < x
    → x ≤ sampled + times baud (suc m)
    → times baud (suc m) < 2 ^ 31
    → 0 < baud
    → uart_rx u l (u32 (begin + x))
      ≡ some (
          let v = bit_step (fill m (not l) u) l in
          at_cycle v (u32 (v.last_cycle + (0 + times baud (suc m)))))
unfolding uart_rx
uart_rx_bits u m b baud begin x sampled l e bd f la lo hi short h =
    let p : nonneg (sub32 (u32 (begin + x)) u.last_cycle) ≡ x - sampled =
      ap (λ c. nonneg (sub32 (u32 (begin + x)) c)) la
      ∙ elapsed begin x sampled (omega arith) (omega arith) in
    ap (λ c. rx_loop (suc c) u l (u32 (begin + x)) c 0) p
    ∙ rx_loop_bits m (suc (x - sampled)) u l (u32 (begin + x)) (x - sampled) 0 b baud e bd f
        (omega arith) (omega arith) (omega (arith, le-times baud m h))

module _ (begin start baud frame : ℕ) (late : ℕ → ℕ) (jitter : (t : ℕ) → late t + late t < baud)
    (start_small : start + start < baud) (short : times baud (suc (suc frame)) < 2 ^ 31) where
  abbrev pub Next : Joined → Uart → ℕ → Bool → Type 0
  Next s w j l =
      (s' : Joined) × (edge begin late (record s { now = s.now + baud }) l ≡ some s')
      × Tracks begin start baud frame s' (bit_step w l) j
      × (s'.now ≡ s.now + baud)
      × (s'.line ≡ l)

  track_same :
      (s : Joined) (w : Uart) (j : ℕ)
      → Tracks begin start baud frame s w (suc j)
      → (l : Bool) → same_level s.line l ≡ true
      → s.line ≡ l
      → Next s w j l
  unfolding fill
  track_same s w j t l e q = (
    record s { now = s.now + baud },
    rw e,
    record {
      waiting = suc t.waiting;
      left = t.left;
      sampled = t.sampled;
      ideal =
          sym (bit_step-at_cycle (fill t.waiting s.line s.uart) 0 s.line)
          ∙ ap (λ v. bit_step v s.line) t.ideal
          ∙ ap (bit_step w) q;
      last = t.last;
      on_time = omega (arith, t.on_time);
      open_in = t.open_in;
      count = omega (arith, t.count);
      speed = t.speed;
      size = t.size;
    },
    refl,
    q,
  )

  track_change :
      (s : Joined) (w : Uart) (j : ℕ)
      → Tracks begin start baud frame s w (suc j)
      → (l : Bool) → same_level s.line l ≡ false
      → s.line ≡ not l
      → Next s w j l
  unfolding fill
  track_change s w j t l e q =
      let m = t.waiting in
      let o = Open-some s.uart t.left (omega (arith, t.count)) t.open_in in
      let b = o.0 in
      let now = s.now + baud in
      let fits = times-le baud (suc m) (suc (suc frame)) (omega (arith, t.count, o.2, t.size)) in
      let v = bit_step (fill m (not l) s.uart) l in
      let lc : v.last_cycle ≡ u32 (begin + t.sampled) =
        last_cycle-bit_step (fill m (not l) s.uart) l ∙ last_cycle-fill m (not l) s.uart ∙ t.last in
      let u = at_cycle v (u32 (v.last_cycle + (0 + times baud (suc m)))) in
      let r : uart_rx s.uart l (u32 (begin + (now + late now))) ≡ some u =
        uart_rx_bits s.uart m b baud begin (now + late now) t.sampled l o.1 t.speed
          (omega (arith, t.count, o.2)) t.last (omega (arith, t.on_time, jitter now))
          (omega (arith, t.on_time, jitter now)) (omega (arith, fits))
          (omega (arith, start_small)) in
      (
        record { now = now; line = l; uart = u },
        rw (e, r),
        record {
          waiting = 0;
          left = j;
          sampled = t.sampled + times baud (suc m);
          ideal =
              sym (bit_step-at_cycle (fill m (not l) s.uart) 0 l)
              ∙ ap (λ k. bit_step (at_cycle (fill m k s.uart) 0) l) (sym q)
              ∙ ap (λ x. bit_step x l) t.ideal;
          last = omega (arith, lc);
          on_time = omega (arith, t.on_time);
          open_in = Open-at_cycle j (u32 (v.last_cycle + (0 + times baud (suc m)))) v (
              Open-bit_step j (fill m (not l) s.uart) l
                (Open-fill m t.left (suc j) (not l) s.uart t.count t.open_in));
          count = omega arith;
          speed = baud-bit_step (fill m (not l) s.uart) l ∙ baud-fill m (not l) s.uart ∙ t.speed;
          size = frame-bit_step (fill m (not l) s.uart) l ∙ frame-fill m (not l) s.uart ∙ t.size;
        },
        refl,
        refl,
      )

  pub track_bit :
      (s : Joined) (w : Uart) (j : ℕ)
      → Tracks begin start baud frame s w (suc j)
      → (l : Bool) → Next s w j l
  track_bit s w j t l = elim (level_cases s.line l) [
    | inl (e, q) ↦ track_same s w j t l e q
    | inr (e, q) ↦ track_change s w j t l e q
  ]
