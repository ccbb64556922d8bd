-- ===== src/Clock/Time.antt =====
-- The clock of esp8266/init.c against the time since the start.
use esp8266_xcode.Base.{
  ℕ, ◌+◌, ◌/◌, ◌%◌, ◌^◌, ◌≤◌, ◌<◌, List, [], ◌∷◌, ◌++◌, some, ◌≡◌, refl, arith, All, map,
}
use esp8266_xcode.Clock.{
  Clock, initial, system_get_time_overflow_callback, system_get_time64, system_get_time_ms,
  delay_loop, delay,
}

-- The clock was last set at the time `t`, in microseconds since the start.
record IsSetAt (t : ℕ) (c : Clock) : Type 0 where
  last_eq : c.last ≡ t % 2 ^ 32
  count_eq : c.count ≡ t / 2 ^ 32 % 2 ^ 32

-- The timer runs its callback at these times, one after the other.
pub ticks : List ℕ → Clock → Clock
ticks [] c = c
ticks (t ∷ times) c = ticks times (system_get_time_overflow_callback (t % 2 ^ 32) c)

-- Each time is less than 2 ^ 32 microseconds (71 minutes) after the one before; the timer is set
-- to one minute. The last of them comes with `now`.
abbrev pub Within : ℕ → List ℕ → ℕ → Type 0
Within t [] now = (t ≤ now) × (now < t + 2 ^ 32)
Within t (t' ∷ times) now = (t ≤ t') × (t' < t + 2 ^ 32) × Within t' times now

callback-IsSetAt :
    (t t' : ℕ) (c : Clock)
    → IsSetAt t c
    → t ≤ t'
    → t' < t + 2 ^ 32
    → IsSetAt t' (system_get_time_overflow_callback (t' % 2 ^ 32) c)
unfolding system_get_time_overflow_callback
callback-IsSetAt t t' c v a b = ground arith

time64-IsSetAt :
    (t now : ℕ) (c : Clock)
    → IsSetAt t c
    → t ≤ now
    → now < t + 2 ^ 32
    → system_get_time64 (now % 2 ^ 32) c ≡ now % 2 ^ 64
unfolding system_get_time64
time64-IsSetAt t now c v a b = ground arith

time64-ticks :
    (times : List ℕ) (t now : ℕ) (c : Clock)
    → IsSetAt t c
    → Within t times now
    → system_get_time64 (now % 2 ^ 32) (ticks times c) ≡ now % 2 ^ 64
unfolding ticks
time64-ticks [] t now c v w = time64-IsSetAt t now c v w.0 w.1
time64-ticks (t' ∷ times) t now c v w =
    time64-ticks times t' now _ (callback-IsSetAt t t' c v w.0 w.1) w.2

-- However often the counter of 32 bits has wrapped, the clock gives the microseconds since the
-- start, modulo 2 ^ 64, where fewer than 2 ^ 32 microseconds lie between the start, each run of
-- the timer and now.
pub system_get_time64-ticks :
    (times : List ℕ) (now : ℕ)
    → Within 0 times now
    → system_get_time64 (now % 2 ^ 32) (ticks times initial) ≡ now % 2 ^ 64
system_get_time64-ticks times now w =
    time64-ticks times 0 now initial (record { last_eq = refl; count_eq = refl }) w

-- Where fewer than 2 ^ 32 microseconds lie between the start, each run of the timer and now, and
-- fewer than 2 ^ 32 milliseconds have passed, system_get_time_ms gives the milliseconds since
-- the start.
pub system_get_time_ms-ticks :
    (times : List ℕ) (now : ℕ)
    → Within 0 times now
    → now / 1000 < 2 ^ 32
    → system_get_time_ms (now % 2 ^ 32) (ticks times initial) ≡ now / 1000
unfolding system_get_time_ms
system_get_time_ms-ticks times now w h = omega (arith, system_get_time64-ticks times now w)

-- A round that leaves the loop of `delay` early: less than `ms` have passed.
abbrev Early : ℕ → ℕ → ℕ → Type 0
Early ms start now = (start ≤ now) × (now < start + ms)

delay_loop-lem :
    (ms start : ℕ) (early : List ℕ) (now : ℕ) (rest : List ℕ)
    → ms < 2 ^ 32
    → All (Early ms start) early
    → start + ms ≤ now
    → now < start + 2 ^ 32
    → delay_loop ms (start % 2 ^ 32) (map (λ t. t % 2 ^ 32) (early ++ (now ∷ rest)))
      ≡ some (map (λ t. t % 2 ^ 32) rest)
unfolding delay_loop
delay_loop-lem ms start [] now rest m h a b = ground arith
delay_loop-lem ms start (t ∷ early) now rest m h a b =
    ground (arith, delay_loop-lem ms start early now rest m h.1 a b)

-- For a positive number of milliseconds below 2 ^ 32, where each round before has read an
-- earlier time, delay ends in the first round that reads a time so many milliseconds or more
-- after the start, less than 2 ^ 32 after it, also where the count wraps.
pub delay-lem :
    (ms start : ℕ) (early : List ℕ) (now : ℕ) (rest : List ℕ)
    → 0 < ms
    → ms < 2 ^ 32
    → All (Early ms start) early
    → start + ms ≤ now
    → now < start + 2 ^ 32
    → delay ms (map (λ t. t % 2 ^ 32) (start ∷ (early ++ (now ∷ rest))))
      ≡ some (map (λ t. t % 2 ^ 32) rest)
unfolding delay
delay-lem ms start early now rest p m h a b =
    ground (arith, delay_loop-lem ms start early now rest m h a b)
