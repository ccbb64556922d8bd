-- ===== src/Uart/Loopback/Quiet.antt =====
-- How uart_recv of esp8266/app/uart.c ends the last frame when the line stays quiet.
use esp8266_xcode.Base.{
  ℕ, zero, suc, ◌+◌, ◌-◌, ◌*◌, ◌^◌, ◌≤◌, ◌<◌, none, some, Bool, true, false, leb, ltb, lt→ltb,
  if◌then◌else◌, ◌&&◌, ◌≡◌, refl, ap, sym, ◌∙◌, arith,
}
use esp8266_xcode.Uart.{Uart, u32, sub32, nonneg, rx_bit, next_byte, idle_loop, end_idle}
use esp8266_xcode.Uart.Idle.{idle_loop_lem}
use esp8266_xcode.Uart.Loopback.Paced.{times-mul}
use esp8266_xcode.Uart.Loopback.{Joined, fill, at_cycle, times, Open}
use esp8266_xcode.Uart.Loopback.Rounds.{bit_step-some, fill-bit_step}
use esp8266_xcode.Uart.Loopback.Frames.{Ready, aged}

and_false : (b : Bool) → (b && false) ≡ false
and_false true = refl
and_false false = refl

rx_bit_high :
    (u : Uart) (b : ℕ) → b + 1 < u.frame → rx_bit u b false ≡ record u { bit = some (b + 1) }
unfolding rx_bit
rx_bit_high u b h =
    let t : leb u.frame (b + 1) ≡ false = ground arith in rw (and_false (ltb b 8), t)

rx_bit_last : (u : Uart) (b : ℕ) → b + 1 ≡ u.frame → rx_bit u b false ≡ next_byte u
unfolding rx_bit
rx_bit_last u b h = let t : leb u.frame (b + 1) ≡ true = ground arith in rw (and_false (ltb b 8), t)

-- The high bits at the end of a frame change nothing but the count.
fill-next_byte : (m : ℕ) (u : Uart) → Open u (suc m) → fill (suc m) true u ≡ next_byte u
unfolding fill
fill-next_byte zero u (b, e, f) = bit_step-some u b true e ∙ rx_bit_last u b (omega arith)
fill-next_byte (suc m) u (b, e, f) =
    let p = bit_step-some u b true e ∙ rx_bit_high u b (omega arith) in
    sym (fill-bit_step (suc m) true u)
    ∙ ap (fill (suc m) true) p
    ∙ fill-next_byte m (record u { bit = some (b + 1) }) (b + 1, refl, omega arith)

end_idle_frame :
    (m : ℕ) (u : Uart) (cycle current : ℕ)
    → Open u m
    → nonneg (sub32 (sub32 cycle u.last_cycle) (u32 (u.baud_cycle * 16))) ≡ current
    → times u.baud_cycle m < current
    → 0 < u.baud_cycle
    → end_idle u cycle ≡ some (fill m true u)
unfolding end_idle fill
end_idle_frame zero u cycle current o p lo h =
    ap
      (λ o. elim o [
        | none ↦ some u
        | some b ↦
            let current = nonneg (sub32 (sub32 cycle u.last_cycle) (u32 (u.baud_cycle * 16))) in
            idle_loop (suc current) u b 0 current 0
      ])
      o
end_idle_frame (suc m) u cycle current (b, e, f) p lo h =
    ap
      (λ o. elim o [
        | none ↦ some u
        | some b ↦
            let current = nonneg (sub32 (sub32 cycle u.last_cycle) (u32 (u.baud_cycle * 16))) in
            idle_loop (suc current) u b 0 current 0
      ])
      e
    ∙ ap (λ c. idle_loop (suc c) u b 0 c 0) p
    ∙ idle_loop_lem m (suc current) u b 0 current 0 (omega arith) h (omega arith) (omega arith)
    ∙ ap (λ t. some (if t then next_byte u else u))
        (lt→ltb (0 + m * u.baud_cycle) current (omega (arith, times-mul u.baud_cycle m)))
    ∙ ap some (sym (fill-next_byte m u (b, e, f)))

quiet_part :
    (n baud : ℕ) → n < 2 ^ 31 → baud * 16 ≤ n → nonneg (sub32 n (u32 (baud * 16))) ≡ n - baud * 16
quiet_part n baud h k = ground arith

pub Ready-end_idle :
    (begin baud frame limit quiet : ℕ) (s : Joined) (w : Uart)
    → Ready begin baud frame limit s w
    → 0 < baud
    → baud * 16 ≤ quiet
    → limit + quiet < 2 ^ 31
    → (u : Uart) × (end_idle s.uart (u32 (begin + (s.now + quiet))) ≡ some u) × (at_cycle u 0 ≡ w)
Ready-end_idle begin baud frame limit quiet s w r h q k =
    let cycle = u32 (begin + (s.now + quiet)) in
    let e : sub32 cycle s.uart.last_cycle ≡ r.age + quiet =
      aged begin s.now s.uart.last_cycle r.age quiet r.last r.word (omega (arith, r.young)) in
    let p : nonneg (sub32 (sub32 cycle s.uart.last_cycle) (u32 (s.uart.baud_cycle * 16)))
        ≡ r.age + quiet - baud * 16 =
      ap (λ x. nonneg (sub32 x (u32 (s.uart.baud_cycle * 16)))) e
      ∙ ap (λ x. nonneg (sub32 (r.age + quiet) (u32 (x * 16)))) r.speed
      ∙ quiet_part (r.age + quiet) baud (omega (arith, r.young)) (omega arith) in
    let sp = ap (λ b. times b r.waiting) r.speed in
    (
      fill r.waiting true s.uart,
      end_idle_frame r.waiting s.uart cycle (r.age + quiet - baud * 16) r.open_in p
          (omega (arith, sp, r.old)) (omega (arith, r.speed)),
      r.ideal,
    )
