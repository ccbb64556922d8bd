-- ===== src/Uart/Frame/Wait.antt =====
-- When `uart_wait_until` of esp8266/app/uart.c ends.
use esp8266_xcode.Base.{
  ℕ, ◌+◌, ◌^◌, ◌<◌, ◌≤◌, List, [], ◌∷◌, some, map, ltb, ◌≡◌, arith, Bool-cases, inl, inr, All,
}
use esp8266_xcode.Uart.{u32, sub32}
use esp8266_xcode.Uart.Frame.{uart_wait_until}

-- The counter is read at these times, each at most `gap` cycles after the one before, the last
-- of them not before `cycle`.
abbrev pub Polls : ℕ → ℕ → ℕ → List ℕ → Type 0
Polls gap cycle last [] = cycle ≤ last
Polls gap cycle last (t ∷ times) = (t ≤ last + gap) × Polls gap cycle t times

wrapped : (begin t : ℕ) → begin < 2 ^ 32 → t < 2 ^ 32 → sub32 (u32 (begin + t)) begin ≡ t
wrapped begin t w h = omega arith

-- Where the counter is read within gap cycles after the start and after each read, before the
-- counter has run 2 ^ 32 cycles, and the last read is not before cycle, which is not reached at
-- the start: uart_wait_until ends, not before cycle, and less than gap cycles behind it, also
-- where the counter wraps.
pub uart_wait_until-Polls :
    (begin gap cycle last : ℕ) (times : List ℕ)
    → begin < 2 ^ 32
    → last < cycle
    → All (λ t. t < 2 ^ 32) times
    → Polls gap cycle last times
    → (t : ℕ) × (uart_wait_until (map (λ t. u32 (begin + t)) times) begin cycle
        ≡ some (u32 (begin + t)))
      × (cycle ≤ t)
      × (t < cycle + gap)
unfolding uart_wait_until
uart_wait_until-Polls begin gap cycle last [] w h small p = absurd (omega arith)
uart_wait_until-Polls begin gap cycle last (t ∷ times) w h small p =
    let e : sub32 (u32 (begin + t)) begin ≡ t = wrapped begin t w small.0 in
    elim (Bool-cases (ltb t cycle)) [
      | inl b ↦
          let (t', r, lo, hi) =
            uart_wait_until-Polls begin gap cycle t times w (ground arith) small.1 p.1 in
          (t', rw (e, b) r, lo, hi)
      | inr b ↦ (t, rw (e, b), ground arith, ground arith)
    ]
