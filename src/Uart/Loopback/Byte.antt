-- ===== src/Uart/Loopback/Byte.antt =====
-- One byte of uart_send of esp8266/app/uart.c, as the receiver takes it.
use mathlib.Core.Path.{subst}
use esp8266_xcode.Base.{
  ℕ, zero, suc, ◌+◌, ◌/◌, ◌^◌, ◌≤◌, ◌<◌, List, [], ◌∷◌, ◌++◌, Option, none, some, Bool, true, false,
  if◌then◌else◌, ◌≡◌, refl, ap, sym, ◌∙◌, arith, length, length-append, replicate, length-replicate,
  append_assoc,
}
use esp8266_xcode.Uart.{Uart}
use esp8266_xcode.Uart.Frame.{Output, wait_until, level, has_parity, send_byte}
use esp8266_xcode.Uart.Loopback.{Joined, edge, deliver, steps, times}
use esp8266_xcode.Uart.Loopback.Bytes.{slot, bits8, receive, steps_frame}
use esp8266_xcode.Uart.Loopback.Track.{Tracks, frame-fill}
use esp8266_xcode.Uart.Loopback.Frames.{paced, last_or, Ready, frame_start, frame_run, frame_end}
use esp8266_xcode.Uart.Loopback.Paced.{
  parity_bits, length-parity_bits, frame_bits, end_of, send_byte-paced,
}

last_or-append : (d : Bool) (xs ys : List Bool) → last_or d (xs ++ ys) ≡ last_or (last_or d xs) ys
last_or-append d [] ys = refl
last_or-append d (x ∷ xs) ys = last_or-append x xs ys

last_or-replicate : (n : ℕ) (d : Bool) → 0 < n → last_or d (replicate n true) ≡ true
last_or-replicate zero d h = elim h [ ]
last_or-replicate (suc zero) d h = refl
last_or-replicate (suc (suc n)) d h = last_or-replicate (suc n) true (omega arith)

-- The number of bits of a frame behind the start bit.
abbrev pub frame_size : Uart → ℕ
frame_size v = 8 + (if has_parity v.parity then 1 else 0) + v.stop

rest_size :
    (v : Uart) (c : ℕ) → 8 + length (parity_bits v.parity c ++ replicate v.stop true) ≡ frame_size v
rest_size v c = omega (
  arith,
  length-append (parity_bits v.parity c) (replicate v.stop true),
  length-parity_bits v.parity c,
  length-replicate v.stop true,
)

pub bits_size : (v : Uart) (c : ℕ) → length (frame_bits v c) ≡ frame_size v
bits_size v c = omega (arith, rest_size v c)

steps_rest :
    (w : Uart) (c : ℕ) (ls : List Bool)
    → c < 256
    → w.head < length w.buffer
    → 0 < length ls
    → 8 + length ls ≡ w.frame
    → steps (slot w 0xff 0) (bits8 c ++ ls) ≡ receive w c
steps_rest w c [] k h p f = elim p [ ]
steps_rest w c (l ∷ ls) k h p f = steps_frame w c l ls k h f

module _ (begin limit : ℕ) (late : ℕ → ℕ) (v : Uart)
    (jitter : (t : ℕ) → late t + late t < v.baud_cycle) (stop_pos : 0 < v.stop)
    (fits : times v.baud_cycle (suc (suc (frame_size v))) ≤ limit)
    (small : limit + v.baud_cycle < 2 ^ 31) where
  deliver_first :
      (s s' : Joined) (out : List Output)
      → edge begin late s false ≡ some s'
      → deliver begin late s (level false ∷ out) ≡ deliver begin late s' out
  unfolding deliver
  deliver_first s s' out e =
      ap (λ o. elim o as (λ _. Option Joined) [ none ↦ none | some x ↦ deliver begin late x out ]) e

  -- One byte.
  pub deliver-send_byte :
      (s : Joined) (w : Uart) (c : ℕ) (rest : List Output)
      → Ready begin v.baud_cycle (frame_size v) limit s w
      → w.head < length w.buffer
      → c < 256
      → end_of v c s.now < 2 ^ 32
      → (s' : Joined) × (deliver begin late s ((send_byte v c s.now).0 ++ rest)
          ≡ deliver begin late s' rest)
        × Ready begin v.baud_cycle (frame_size v) limit s' (receive w c)
        × (s'.now ≡ (send_byte v c s.now).1)
        × (s'.now ≡ end_of v c s.now)
  unfolding deliver
  deliver-send_byte s w c rest r h k early =
      let baud = v.baud_cycle in
      let frame = frame_size v in
      let now = s.now in
      let (s1, e1, t1, n1) =
        frame_start begin baud frame limit late jitter (omega arith) fits small s w r in
      let t1' =
        subst (Tracks begin (late now) baud frame s1 (slot w 0xff 0)) (sym (bits_size v c)) t1 in
      let stop = wait_until (end_of v c now) ∷ rest in
      let (s2, e2, t2, n2, q2) =
        frame_run begin baud frame limit late jitter (omega arith) fits small (late now)
          (jitter now) (frame_bits v c) s1 (slot w 0xff 0) t1' stop in
      let high : s2.line ≡ true =
        q2
        ∙ last_or-append s1.line (bits8 c) (parity_bits v.parity c ++ replicate v.stop true)
        ∙ last_or-append (last_or s1.line (bits8 c)) (parity_bits v.parity c)
            (replicate v.stop true)
        ∙ last_or-replicate v.stop _ stop_pos in
      let wf : w.frame ≡ frame =
        sym (ap (λ x. x.frame) r.ideal) ∙ frame-fill r.waiting true s.uart ∙ r.size in
      let moved : s2.now + (baud + baud / 2) ≡ end_of v c now = omega (arith, n1, n2) in
      let r3 =
        frame_end begin baud frame limit late jitter (omega arith) fits small (late now) s2
          (steps (slot w 0xff 0) (frame_bits v c)) (jitter now) t2 high in
      let done : steps (slot w 0xff 0) (frame_bits v c) ≡ receive w c =
        steps_rest w c (parity_bits v.parity c ++ replicate v.stop true) k h
          (omega (arith, rest_size v c, stop_pos)) (omega (arith, rest_size v c, wf)) in
      (
        record s2 { now = end_of v c now },
        ap (λ p. deliver begin late s (p.0 ++ rest)) (send_byte-paced v c now early)
            ∙ deliver_first s s1
                (paced now baud (frame_bits v c) ++ (wait_until (end_of v c now) ∷ []) ++ rest) e1
            ∙ ap (deliver begin late s1) (
                append_assoc (paced now baud (frame_bits v c)) (wait_until (end_of v c now) ∷ [])
                  rest)
            ∙ ap (λ n. deliver begin late s1 (paced n baud (frame_bits v c) ++ stop)) (sym n1)
            ∙ e2,
        subst (λ x. Ready begin baud frame limit (record s2 { now = end_of v c now }) x) done
            (subst
              (λ n.
                Ready begin baud frame limit (record s2 { now = n })
                  (steps (slot w 0xff 0) (frame_bits v c)))
              moved r3),
        sym (ap (λ p. p.1) (send_byte-paced v c now early)),
        refl,
      )
