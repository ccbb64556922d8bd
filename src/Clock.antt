-- ===== src/Clock.antt =====
-- esp8266/init.c: the clock of 64 bits over the SDK's counter of 32 bits, and the wait.
pub mod Time
mod Tests
use esp8266_xcode.Base.{
  ℕ, ◌+◌, ◌-◌, ◌*◌, ◌/◌, ◌%◌, ◌^◌, List, [], ◌∷◌, Option, none, some, Bool, true, false, ◌==◌, ltb,
  leb, if◌then◌else◌,
}

-- `system_get_time_overflow_last` and `system_get_time_overflow_count`, of 32 bits.
pub record Clock : Type 0 where
  pub last : ℕ
  pub count : ℕ

abbrev pub initial : Clock
initial = record { last = 0; count = 0 }

-- `time` is what `system_get_time` returns.
unfoldable pub system_get_time_overflow_callback : ℕ → Clock → Clock
system_get_time_overflow_callback time c =
    let count = if ltb time c.last then (c.count + 1) % 2 ^ 32 else c.count in
    record { last = time; count = count }

unfoldable pub system_get_time64 : ℕ → Clock → ℕ
system_get_time64 low c =
    let high = (c.count + (if ltb low c.last then 1 else 0)) % 2 ^ 32 in high * 2 ^ 32 + low

unfoldable pub system_get_time_ms : ℕ → Clock → ℕ
unfolding system_get_time64
system_get_time_ms low c = system_get_time64 low c / 1000 % 2 ^ 32

-- The loop of `delay`, over what `system_get_time_ms` returns in each round, once the tasks that
-- are ready have run. `none`: it is still waiting.
unfoldable pub delay_loop : ℕ → ℕ → List ℕ → Option (List ℕ)
delay_loop ms start [] = none
delay_loop ms start (now ∷ times) =
    if leb ms ((now + 2 ^ 32 - start) % 2 ^ 32) then some times else delay_loop ms start times

-- A wait of 0 reads no time: it runs the tasks that are ready, once.
unfoldable pub delay : ℕ → List ℕ → Option (List ℕ)
delay ms times =
    if ms == 0
    then some times
    else elim times [ [] ↦ none | start ∷ rest ↦ delay_loop ms start rest ]
