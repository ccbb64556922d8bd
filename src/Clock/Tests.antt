-- ===== src/Clock/Tests.antt =====
-- Runs of the clock of esp8266/init.c.
use esp8266_xcode.Base.{ℕ, ◌%◌, ◌^◌, List, [], ◌∷◌, ◌≡◌, arith, map, some}
use esp8266_xcode.Clock.{initial, system_get_time64, delay}
use esp8266_xcode.Clock.Time.{ticks, system_get_time64-ticks, delay-lem}

-- The counter has wrapped twice.
abbrev times : List ℕ
times = 4000000000 ∷ 8000000000 ∷ []

system_get_time64-ticks_example :
    system_get_time64 (9000000000 % 2 ^ 32) (ticks times initial) ≡ 9000000000 % 2 ^ 64
system_get_time64-ticks_example =
    system_get_time64-ticks times 9000000000
      (omega arith, omega arith, (omega arith, omega arith, (omega arith, omega arith)))

delay-lem_example :
    delay 5 (map (λ t. t % 2 ^ 32) (4294967295 ∷ 4294967298 ∷ 4294967300 ∷ []))
    ≡ some (map (λ t. t % 2 ^ 32) [])
delay-lem_example =
    delay-lem 5 4294967295 (4294967298 ∷ []) 4294967300 [] (omega arith) (omega arith)
      ((omega arith, omega arith), tt) (omega arith) (omega arith)
