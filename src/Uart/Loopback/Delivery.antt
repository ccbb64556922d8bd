-- ===== src/Uart/Loopback/Delivery.antt =====
-- What is sent by uart_send of esp8266/app/uart.c is what uart_recv reads.
use mathlib.Core.Path.{subst}
use esp8266_xcode.Base.{
  ℕ, suc, ◌+◌, ◌-◌, ◌*◌, ◌/◌, ◌^◌, ◌≤◌, ◌<◌, List, [], ◌∷◌, ◌++◌, none, some, true, ◌≡◌, refl, ap,
  sym, ◌∙◌, arith, length, All, append_assoc, append-nil, min,
}
use esp8266_xcode.Uart.{Uart, u32, sub32, available, uart_recv, end_idle, recv_into}
use esp8266_xcode.Uart.Valid.{IsValid, last_cycle-IsValid}
use esp8266_xcode.Uart.Ring.{contents, recv_into-Received}
use esp8266_xcode.Uart.Frame.{send_byte, send_loop, uart_send}
use esp8266_xcode.Uart.Loopback.{Joined, deliver, fill, at_cycle, times}
use esp8266_xcode.Uart.Loopback.Bytes.{receive}
use esp8266_xcode.Uart.Loopback.Frames.{Ready}
use esp8266_xcode.Uart.Loopback.Paced.{times-mul, end_of}
use esp8266_xcode.Uart.Loopback.Queue.{receive-IsValid, available-receive, contents-receive}
use esp8266_xcode.Uart.Loopback.Quiet.{Ready-end_idle}
use esp8266_xcode.Uart.Loopback.Byte.{frame_size, bits_size, deliver-send_byte}

module _ (begin limit : ℕ) (late : ℕ → ℕ) (v : Uart)
    (jitter : (t : ℕ) → late t + late t < v.baud_cycle) (stop_pos : 0 < v.stop)
    (fits : times v.baud_cycle (suc (suc (frame_size v))) ≤ limit)
    (small : limit + v.baud_cycle < 2 ^ 31) where
  -- The time from the start of a byte to that of the next.
  abbrev byte_time : ℕ
  byte_time = frame_size v * v.baud_cycle + (v.baud_cycle + v.baud_cycle / 2)

  end_of-byte_time : (c now : ℕ) → end_of v c now ≡ now + byte_time
  end_of-byte_time c now =
      omega (arith, ap (times v.baud_cycle) (bits_size v c), times-mul v.baud_cycle (frame_size v))

  deliver-send_loop :
      (buffer : List ℕ) (s : Joined) (w : Uart)
      → Ready begin v.baud_cycle (frame_size v) limit s w
      → IsValid w
      → available w + length buffer < w.buffer_size
      → All (λ c. c < 256) buffer
      → s.now + times byte_time (length buffer) < 2 ^ 32
      → (s' : Joined) × (w' : Uart) × (deliver begin late s (send_loop v buffer s.now) ≡ some s')
        × Ready begin v.baud_cycle (frame_size v) limit s' w'
        × IsValid w'
        × (contents w' ≡ contents w ++ buffer)
  unfolding send_loop deliver
  deliver-send_loop [] s w r k room h early = (s, w, refl, r, k, sym (append-nil (contents w)))
  deliver-send_loop (c ∷ buffer) s w r k room h early =
      let last = end_of-byte_time c s.now in
      let (s1, e1, r1, n1, now1) =
        deliver-send_byte begin limit late v jitter stop_pos fits small s w c
          (send_loop v buffer (send_byte v c s.now).1) r (omega (arith, k.head_in, k.size)) h.0
          (omega (arith, last)) in
      let one : available w + 1 < w.buffer_size = omega arith in
      let (s2, w2, e2, r2, k2, q2) =
        deliver-send_loop buffer s1 (receive w c) r1 (receive-IsValid w c k)
          (omega (arith, available-receive w c k one)) h.1 (omega (arith, last, now1)) in
      (
        s2,
        w2,
        e1 ∙ ap (λ n. deliver begin late s1 (send_loop v buffer n)) (sym n1) ∙ e2,
        r2,
        k2,
        q2
            ∙ ap (λ l. l ++ buffer) (contents-receive w c k one)
            ∙ append_assoc (contents w) (c ∷ []) buffer,
      )

abbrev pub at_start : Uart → Joined
at_start u = record { now = 0; line = true; uart = u }

-- Only `last_cycle` differs.
same-IsValid : (u w : Uart) → at_cycle u 0 ≡ w → IsValid w → IsValid u
same-IsValid u w e k =
    subst (λ x. IsValid (at_cycle x u.last_cycle)) (sym e) (last_cycle-IsValid w u.last_cycle k)

same-contents : (u w : Uart) → at_cycle u 0 ≡ w → contents u ≡ contents w
unfolding contents available
same-contents u w e = ap contents e

uart_recv_after :
    (u u' : Uart) (cycle len : ℕ) (l : List ℕ)
    → end_idle u cycle ≡ some u'
    → IsValid u'
    → contents u' ≡ l
    → (r : ℕ × List ℕ × Uart) × (uart_recv u cycle (some len) ≡ some r)
      × (r.0 ≡ min len (length l))
      × (length r.1 ≡ r.0)
      × (l ≡ r.1 ++ contents r.2)
unfolding uart_recv
uart_recv_after u u' cycle len l e k q =
    let (n, m, c, _) = recv_into-Received u' len k in
    (recv_into u' len, rw (uart_recv, e), n ∙ ap (λ x. min len (length x)) q, m, sym q ∙ c)

-- What v sends by uart_send is what u reads by uart_recv. For a buffer of bytes: the receiver u
-- is valid and in no frame; its bit time and the length of its frame are those of v, which sends
-- at least one stop bit; it sees each change of the line less than half a bit time late. The
-- rest behind the last byte, quiet, is at least sixteen bit times; the time from last_cycle to
-- the start, which is not 0, and two bits more than a frame are each less than 2 ^ 31 cycles
-- together with it. The bytes fit in the ring behind those that wait there, and all of them
-- together take less than 2 ^ 31 cycles to send. Then all calls of the interrupt handler end;
-- uart_recv returns the number of the bytes that wait, or that fit in its buffer, and these
-- bytes, followed by those that still wait, are the old ones followed by those that were sent.
pub uart_recv-uart_send :
    (u v : Uart) (begin quiet len : ℕ) (late : ℕ → ℕ) (buffer : List ℕ)
    → IsValid u
    → u.bit ≡ none
    → u.last_cycle < 2 ^ 32
    → u.baud_cycle ≡ v.baud_cycle
    → u.frame ≡ frame_size v
    → 0 < v.stop
    → ((t : ℕ) → late t + late t < v.baud_cycle)
    → 0 < sub32 (u32 begin) u.last_cycle
    → sub32 (u32 begin) u.last_cycle + quiet < 2 ^ 31
    → (frame_size v + 2) * v.baud_cycle + quiet < 2 ^ 31
    → v.baud_cycle * 16 ≤ quiet
    → available u + length buffer < u.buffer_size
    → All (λ c. c < 256) buffer
    → length buffer * (frame_size v * v.baud_cycle + (v.baud_cycle + v.baud_cycle / 2)) < 2 ^ 31
    → (s : Joined) × (r : ℕ × List ℕ × Uart) × (deliver begin late
          (at_start u)
          (uart_send v buffer).0
        ≡ some s)
      × (uart_recv s.uart (u32 (begin + (s.now + quiet))) (some len) ≡ some r)
      × (r.0 ≡ min len (length (contents u ++ buffer)))
      × (length r.1 ≡ r.0)
      × (contents u ++ buffer ≡ r.1 ++ contents r.2)
unfolding uart_send fill available contents
uart_recv-uart_send u v begin quiet len late buffer k idle word speed size stop jitter old young
      fits rest room h total =
    let limit = 2 ^ 31 - 1 - quiet in
    let baud = v.baud_cycle in
    let size2 : suc (suc (frame_size v)) ≡ frame_size v + 2 = omega arith in
    let short = times-mul baud (suc (suc (frame_size v))) ∙ ap (λ n. n * baud) size2 in
    let w = at_cycle u 0 in
    let ready : Ready begin baud (frame_size v) limit (at_start u) w = record {
      waiting = 0;
      age = sub32 (u32 begin) u.last_cycle;
      ideal = refl;
      open_in = idle;
      high = refl;
      word = word;
      last = omega arith;
      old = omega arith;
      young = omega arith;
      speed = speed;
      size = size;
    } in
    let (s, w', e, r, k', q) =
      deliver-send_loop begin limit late v jitter stop (omega (arith, short))
        (omega (arith, jitter 0)) buffer (at_start u) w ready (last_cycle-IsValid u 0 k) room h
        (omega (arith, times-mul (frame_size v * baud + (baud + baud / 2)) (length buffer))) in
    let (u', eu, same) =
      Ready-end_idle begin baud (frame_size v) limit quiet s w' r (omega (arith, jitter 0)) rest
        (omega arith) in
    let (x, a, b, c, d) =
      uart_recv_after s.uart u' (u32 (begin + (s.now + quiet))) len (contents u ++ buffer) eu
        (same-IsValid u' w' same k') (same-contents u' w' same ∙ q) in
    (s, x, e, a, b, c, d)
