-- ===== src/Uart/Loopback/Frames.antt =====
-- The receiver of esp8266/app/uart.c from the end of one frame to the end of the next.
use mathlib.Core.Path.{subst}
use esp8266_xcode.Base.{
  ℕ, zero, suc, ◌+◌, ◌-◌, ◌/◌, ◌^◌, ◌≤◌, ◌<◌, List, [], ◌∷◌, ◌++◌, Option, none, some, Bool, true,
  false, ◌≡◌, refl, ap, sym, ◌∙◌, arith, length,
}
use esp8266_xcode.Uart.{Uart, u32, sub32, nonneg, rx_start, rx_loop, uart_rx}
use esp8266_xcode.Uart.Frame.{Output, wait_until, level}
use esp8266_xcode.Uart.Loopback.{
  Joined, edge, deliver, bit_step, steps, fill, at_cycle, times, Open,
}
use esp8266_xcode.Uart.Loopback.Rounds.{rx_loop_frame, le-times}
use esp8266_xcode.Uart.Loopback.Bytes.{slot}
use esp8266_xcode.Uart.Loopback.Track.{Tracks, track_bit, baud-fill, frame-fill, times-le, Open-le}

abbrev pub paced : ℕ → ℕ → List Bool → List Output
paced now baud [] = []
paced now baud (l ∷ ls) = wait_until (now + baud) ∷ level l ∷ paced (now + baud) baud ls

abbrev pub last_or : Bool → List Bool → Bool
last_or d [] = d
last_or d (l ∷ ls) = last_or l ls

-- Between two frames: the line is high, and the receiver is `waiting` bit times behind `w`.
pub record Ready (begin baud frame limit : ℕ) (s : Joined) (w : Uart) : Type 0 where
  pub waiting : ℕ
  pub age : ℕ
  pub ideal : at_cycle (fill waiting true s.uart) 0 ≡ w
  pub open_in : Open s.uart waiting
  pub high : s.line ≡ true
  pub word : s.uart.last_cycle < 2 ^ 32
  pub last : u32 (s.uart.last_cycle + age) ≡ u32 (begin + s.now)
  pub old : times baud waiting < age
  pub young : age ≤ limit
  pub speed : s.uart.baud_cycle ≡ baud
  pub size : s.uart.frame ≡ frame

pub aged :
    (begin now l a x : ℕ)
    → u32 (l + a) ≡ u32 (begin + now)
    → l < 2 ^ 32
    → a + x < 2 ^ 31
    → sub32 (u32 (begin + (now + x))) l ≡ a + x
aged begin now l a x e h k = omega arith

pub nonneg_small : (n : ℕ) → n < 2 ^ 31 → nonneg n ≡ n
nonneg_small n h = ground arith

Open-bit : (u : Uart) (n b : ℕ) → 0 < n → u.bit ≡ some b → b + n ≡ u.frame → Open u n
Open-bit u zero b h e f = elim h [ ]
Open-bit u (suc n) b h e f = (b, e, f)

-- A change to low where the time since `last_cycle` is longer than the rest of the frame.
uart_rx_frame :
    (u : Uart) (m baud cycle current : ℕ)
    → u.baud_cycle ≡ baud
    → 0 < baud
    → Open u m
    → nonneg (sub32 cycle u.last_cycle) ≡ current
    → times baud m < current
    → uart_rx u false cycle ≡ some (rx_start (fill m true u) cycle)
unfolding uart_rx
uart_rx_frame u m baud cycle current bd h o p lo =
    ap (λ c. rx_loop (suc c) u false cycle c 0) p
    ∙ rx_loop_frame m (suc current) u cycle current 0 baud bd o (omega arith)
        (omega (arith, le-times baud m h))

module _ (begin baud frame limit : ℕ) (late : ℕ → ℕ) (jitter : (t : ℕ) → late t + late t < baud)
    (frame_pos : 0 < frame) (fits : times baud (suc (suc frame)) ≤ limit)
    (small : limit + baud < 2 ^ 31) where
  pub frame_start :
      (s : Joined) (w : Uart)
      → Ready begin baud frame limit s w
      → (s' : Joined) × (edge begin late s false ≡ some s')
        × Tracks begin (late s.now) baud frame s' (slot w 0xff 0) frame
        × (s'.now ≡ s.now)
  unfolding fill rx_start
  frame_start s w r =
      let m = r.waiting in
      let x = late s.now in
      let cycle = u32 (begin + (s.now + x)) in
      let v = fill m true s.uart in
      let vb : v.baud_cycle ≡ baud = baud-fill m true s.uart ∙ r.speed in
      let e : sub32 cycle s.uart.last_cycle ≡ r.age + x =
        aged begin s.now s.uart.last_cycle r.age x r.last r.word
          (omega (arith, r.young, jitter s.now)) in
      let p : nonneg (sub32 cycle s.uart.last_cycle) ≡ r.age + x =
        ap nonneg e ∙ nonneg_small (r.age + x) (omega (arith, r.young, jitter s.now)) in
      let o : uart_rx s.uart false cycle ≡ some (rx_start v cycle) =
        uart_rx_frame s.uart m baud cycle (r.age + x) r.speed (omega (arith, jitter s.now))
          r.open_in p (omega (arith, r.old)) in
      (
        record { now = s.now; line = false; uart = rx_start v cycle },
        rw (r.high, o),
        record {
          waiting = 0;
          left = frame;
          sampled = s.now + x + baud / 2;
          ideal = ap (λ y. slot y 0xff 0) r.ideal;
          last = omega (arith, vb);
          on_time = omega arith;
          open_in =
              Open-bit (rx_start v cycle) frame 0 frame_pos refl
                (omega (arith, frame-fill m true s.uart, r.size));
          count = omega arith;
          speed = vb;
          size = frame-fill m true s.uart ∙ r.size;
        },
        refl,
      )

  deliver_bit :
      (s s' : Joined) (t : ℕ) (l : Bool) (out : List Output)
      → edge begin late (record s { now = t }) l ≡ some s'
      → deliver begin late s (wait_until t ∷ level l ∷ out) ≡ deliver begin late s' out
  unfolding deliver
  deliver_bit s s' t l out e =
      ap (λ o. elim o as (λ _. Option Joined) [ none ↦ none | some x ↦ deliver begin late x out ]) e

  pub frame_run :
      (start : ℕ)
      → start + start < baud
      → (ls : List Bool) (s : Joined) (w : Uart) → Tracks begin start baud frame s w (length ls)
      → (rest : List Output)
      → (s' : Joined) × (deliver begin late s (paced s.now baud ls ++ rest)
          ≡ deliver begin late s' rest)
        × Tracks begin start baud frame s' (steps w ls) 0
        × (s'.now ≡ s.now + times baud (length ls))
        × (s'.line ≡ last_or s.line ls)
  unfolding steps
  frame_run start k [] s w t rest = (s, refl, t, omega arith, refl)
  frame_run start k (l ∷ ls) s w t rest =
      let (s1, e, t1, n, q) =
        track_bit begin start baud frame late jitter k (omega (arith, fits, small)) s w (length ls)
          t l in
      let (s2, e2, t2, n2, q2) = frame_run start k ls s1 (bit_step w l) t1 rest in
      (
        s2,
        deliver_bit s s1 (s.now + baud) l (paced (s.now + baud) baud ls ++ rest) e
            ∙ ap (λ x. deliver begin late s1 (paced x baud ls ++ rest)) (sym n)
            ∙ e2,
        t2,
        omega (arith, n, n2),
        q2 ∙ ap (λ x. last_or x ls) q,
      )

  pub frame_end :
      (start : ℕ) (s : Joined) (w : Uart)
      → start + start < baud
      → Tracks begin start baud frame s w 0
      → s.line ≡ true
      → Ready begin baud frame limit (record s { now = s.now + (baud + baud / 2) }) w
  frame_end start s w k t h =
      let m = t.waiting in
      let p : t.left ≡ m = omega (arith, t.count) in
      let most =
        times-le baud (suc m) (suc (suc frame))
          (omega (arith, Open-le s.uart t.left t.open_in, t.count, t.size)) in
      record {
        waiting = m;
        age = s.now + (baud + baud / 2) - t.sampled;
        ideal = ap (λ l. at_cycle (fill m l s.uart) 0) (sym h) ∙ t.ideal;
        open_in = subst (Open s.uart) p t.open_in;
        high = h;
        word = omega (arith, t.last);
        last = omega (arith, t.last, t.on_time);
        old = omega (arith, t.on_time);
        young = omega (arith, t.on_time, most, fits);
        speed = t.speed;
        size = t.size;
      }
