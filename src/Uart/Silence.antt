-- ===== src/Uart/Silence.antt =====
-- The interrupt handler of esp8266/app/uart.c after a long silence, where `current_cycle`, an
-- `int`, is negative.
use esp8266_xcode.Base.{
  ℕ, ◌+◌, ◌^◌, ◌≤◌, ◌<◌, suc, some, none, Bool, ◌≡◌, ap, ◌∙◌, arith, List, [], ◌∷◌, Option, refl,
  if◌then◌else◌, Bool-cases, inl, inr,
}
use esp8266_xcode.Uart.Frame.{Output, wait_until, level}
use esp8266_xcode.Uart.Loopback.{Joined, same_level, edge, deliver}
use esp8266_xcode.Uart.{Uart, u32, sub32, nonneg, rx_loop, uart_rx}

uart_rx-silent :
    (u : Uart) (up : Bool) (cycle : ℕ)
    → u.last_cycle < 2 ^ 32
    → 2 ^ 31 ≤ sub32 cycle u.last_cycle
    → uart_rx u up cycle ≡ some u
unfolding uart_rx rx_loop
uart_rx-silent u up cycle h k =
    let z : nonneg (sub32 cycle u.last_cycle) ≡ 0 = ground arith in
    let same : u32 (u.last_cycle + 0) ≡ u.last_cycle = omega arith in
    ap (λ c. rx_loop (suc c) u up cycle c 0) z ∙ ap (λ n. some (record u { last_cycle = n })) same

module _ (begin : ℕ) (late : ℕ → ℕ) where
  -- A change that is planned for this time comes 2 ^ 31 cycles or more behind the last one.
  abbrev pub Silent : Uart → ℕ → Type 0
  Silent u t = 2 ^ 31 ≤ sub32 (u32 (begin + (t + late t))) u.last_cycle

  abbrev pub AllSilent : Uart → List Output → Type 0
  AllSilent u [] = Unit
  AllSilent u (wait_until t ∷ out) = Silent u t × AllSilent u out
  AllSilent u (level l ∷ out) = AllSilent u out

  edge-Silent :
      (s : Joined) (l : Bool)
      → s.uart.last_cycle < 2 ^ 32
      → Silent s.uart s.now
      → edge begin late s l ≡ some (record s { line = if same_level s.line l then s.line else l })
  edge-Silent s l h k = elim (Bool-cases (same_level s.line l)) [
    | inl e ↦ rw e
    | inr e ↦ rw (e, uart_rx-silent s.uart l (u32 (begin + (s.now + late s.now))) h k)
  ]

  -- Where every change of the line comes 2 ^ 31 cycles or more, modulo 2 ^ 32, behind the last
  -- one that the receiver has seen: whatever is put on the line, the calls of the interrupt
  -- handler end and leave the receiver as it was, so that all of it is lost.
  pub deliver-AllSilent :
      (out : List Output) (s : Joined)
      → s.uart.last_cycle < 2 ^ 32
      → Silent s.uart s.now
      → AllSilent s.uart out
      → (s' : Joined) × (deliver begin late s out ≡ some s') × (s'.uart ≡ s.uart)
  unfolding deliver
  deliver-AllSilent [] s h k a = (s, refl, refl)
  deliver-AllSilent (wait_until t ∷ out) s h k a =
      deliver-AllSilent out (record s { now = t }) h a.0 a.1
  deliver-AllSilent (level l ∷ out) s h k a =
      let s1 : Joined = record s { line = if same_level s.line l then s.line else l } in
      let (s', e, q) = deliver-AllSilent out s1 h k a in
      (
        s',
        ap (λ o. elim o as (λ _. Option Joined) [ none ↦ none | some x ↦ deliver begin late x out ])
              (edge-Silent s l h k)
            ∙ e,
        q,
      )
