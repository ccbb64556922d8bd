-- ===== src/Uart/Idle.antt =====
-- When uart_recv of esp8266/app/uart.c ends a frame on a quiet line.
use native.Mathlib.Nat.{zero-mul, suc-mul}
use esp8266_xcode.Base.{
  ℕ, zero, suc, ◌+◌, ◌-◌, ◌*◌, ◌<◌, Option, none, some, Bool, true, false, leb, ltb, if◌then◌else◌,
  ◌≡◌, refl, ap, ◌∙◌, arith, Bool-cases, inl, inr,
}
use esp8266_xcode.Uart.{Uart, u32, sub32, nonneg, next_byte, idle_loop, end_idle}
use esp8266_xcode.Uart.Valid.{IsValid, BitIn}

-- The cycles since `last_cycle` beyond sixteen bit times, as the code counts them.
abbrev pub silence : Uart → ℕ → ℕ
silence u cycle = nonneg (sub32 (sub32 cycle u.last_cycle) (u32 (u.baud_cycle * 16)))

-- A frame is open, and more cycles have gone by than its other bits take.
abbrev pub ended : Uart → ℕ → Bool
ended u cycle = elim u.bit [
  | none ↦ false
  | some b ↦ ltb ((u.frame - b - 1) * u.baud_cycle) (silence u cycle)
]

-- `k` rounds before the one that ends the frame.
pub idle_loop_lem :
    (k fuel : ℕ) (u : Uart) (b n current last : ℕ)
    → b + n + suc k ≡ u.frame
    → 0 < u.baud_cycle
    → current < last + fuel
    → 0 < fuel
    → idle_loop fuel u b n current last
      ≡ some (if ltb (last + k * u.baud_cycle) current then next_byte u else u)
unfolding idle_loop
idle_loop_lem k zero u b n current last f h enough p = absurd (omega arith)
idle_loop_lem zero (suc fuel) u b n current last f h enough p =
    let t : leb u.frame (b + (n + 1)) ≡ true = ground arith in
    let z : last + 0 * u.baud_cycle ≡ last = omega (arith, zero-mul u.baud_cycle) in
    elim (Bool-cases (ltb last current)) [
      | inl s ↦ rw (z, idle_loop, s, t)
      | inr s ↦ rw (z, idle_loop, s)
    ]
idle_loop_lem (suc k) (suc fuel) u b n current last f h enough p =
    let t : leb u.frame (b + (n + 1)) ≡ false = ground arith in
    let z : last + suc k * u.baud_cycle ≡ last + u.baud_cycle + k * u.baud_cycle =
      omega (arith, suc-mul k u.baud_cycle) in
    elim (Bool-cases (ltb last current)) [
      | inl s ↦
          rw (z, idle_loop, s, t)
            (idle_loop_lem k fuel u b (n + 1) current (last + u.baud_cycle) (omega arith) h
              (omega arith) (ground arith))
      | inr s ↦
          let later : ltb (last + suc k * u.baud_cycle) current ≡ false = ground arith in
          rw (later, idle_loop, s)
    ]

end_idle_bit :
    (o : Option ℕ) (u : Uart) (current : ℕ)
    → BitIn o u.frame
    → 0 < u.baud_cycle
    → elim o as (λ _. Option Uart) [
      | none ↦ some u
      | some b ↦ idle_loop (suc current) u b 0 current 0
    ]
      ≡ some (
          if elim o [ none ↦ false | some b ↦ ltb ((u.frame - b - 1) * u.baud_cycle) current ]
          then next_byte u
          else u)
end_idle_bit none u current h p = refl
end_idle_bit (some b) u current h p =
    idle_loop_lem (u.frame - b - 1) (suc current) u b 0 current 0 (omega arith) p (omega arith)
      (omega arith)
    ∙ ap (λ n. some (if ltb n current then next_byte u else u))
        {x = 0 + (u.frame - b - 1) * u.baud_cycle} {y = (u.frame - b - 1) * u.baud_cycle}
        (omega arith)

-- end_idle completes the frame just when it has ended.
pub end_idle-ended :
    (u : Uart) (cycle : ℕ)
    → IsValid u
    → end_idle u cycle ≡ some (if ended u cycle then next_byte u else u)
unfolding end_idle
end_idle-ended u cycle v = end_idle_bit u.bit u (silence u cycle) v.bit_in v.baud_pos
