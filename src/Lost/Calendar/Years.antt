-- ===== src/Lost/Calendar/Years.antt =====
-- The days of whole years and of months, as esp8266/lost/lost.c counts them.
use esp8266_xcode.Base.{
  ℕ, zero, suc, ◌+◌, ◌-◌, ◌*◌, ◌/◌, ◌%◌, ◌≤◌, ◌<◌, List, [], ◌∷◌, Bool, some, ◌==◌, ◌&&◌, ◌||◌, not,
  ltb, if◌then◌else◌, get_elem?, take, ◌≡◌, refl, ap, arith,
}
use esp8266_xcode.Base.Int.{pos, ◌+ℤ◌, ◌-ℤ◌, ◌*ℤ◌, pos-+}
use esp8266_xcode.Lost.Calendar.{
  add_years, days_in_year, days_before_month, is_leap, os_mktime, other_years, mktime, out_of_range,
  day_of_year, finish, week_day,
}

moon_landing :
    os_mktime (pos 2000) (pos 3) (pos 1) (pos 12) (pos 30) (pos 15) ≡ some (pos 951913815)
unfolding os_mktime mktime out_of_range day_of_year finish other_years add_years days_in_year
    is_leap week_day ◌+ℤ◌ ◌-ℤ◌ ◌*ℤ◌
moon_landing = refl

-- The Gregorian rule for a year of our era.
abbrev pub leap : ℕ → Bool
leap y = (y % 4 == 0) && (not (y % 100 == 0) || (y % 400 == 0))

-- The days from 1 January of year 1 to 1 January of year `y`.
unfoldable pub days_before : ℕ → ℕ
days_before y = let p = y - 1 in p * 365 + p / 4 - p / 100 + p / 400

-- The length of the months of a year, January first.
abbrev month_lengths : ℕ → List ℕ
month_lengths y =
    31 ∷ (if leap y then 29 else 28) ∷ 31 ∷ 30 ∷ 31 ∷ 30 ∷ 31 ∷ 31 ∷ 30 ∷ 31 ∷ 30 ∷ 31 ∷ []

abbrev sum : List ℕ → ℕ
sum [] = 0
sum (n ∷ l) = n + sum l

-- The days of a year before the first of month `m` (1 to 12).
unfoldable pub days_before_first : ℕ → ℕ → ℕ
days_before_first y m = sum (take (m - 1) (month_lengths y))

-- The seconds from the start of 1970 to a moment of the calendar.
unfoldable pub unix_time : ℕ → ℕ → ℕ → ℕ → ℕ → ℕ → ℕ
unix_time y m d hour minute sec =
    (days_before y + days_before_first y m + d - 1 - days_before 1970) * 86400
    + hour * 3600
    + minute * 60
    + sec

days_before-suc :
    (y : ℕ) → days_before (1900 + y + 1) ≡ days_before (1900 + y) + days_in_year (pos y)
unfolding days_before days_in_year is_leap ◌+ℤ◌
days_before-suc y = ground arith

days_before_mono : (r y : ℕ) → days_before (1900 + y) ≤ days_before (1900 + (y + r))
unfolding days_before
days_before_mono r y = omega arith

add_years_lem :
    (r y d : ℕ)
    → add_years r y (pos d) ≡ pos (d + (days_before (1900 + (y + r)) - days_before (1900 + y)))
unfolding add_years
add_years_lem zero y d = ap pos (let e : y + 0 ≡ y = omega arith in rw e (omega arith))
add_years_lem (suc r) y d =
    rw (pos-+, add_years_lem r (y + 1) (d + days_in_year (pos y)))
      (ap pos (omega (arith, same, next, days_before-suc y, below)))
  where
    same : days_before (1900 + (y + suc r)) ≡ days_before (1900 + (y + 1 + r))
    same = ap (λ k. days_before (1900 + k)) (omega arith)

    next : days_before (1900 + y + 1) ≡ days_before (1900 + (y + 1))
    next = ap days_before (omega arith)

    below : days_before (1900 + (y + 1)) ≤ days_before (1900 + (y + 1 + r))
    below = days_before_mono r (y + 1)

abbrev pub leap_day : ℕ → ℕ → ℕ
leap_day y m = if ltb 1 m && leap y then 1 else 0

pub month_table :
    (y m : ℕ)
    → m < 12
    → (b : ℕ) × (get_elem? days_before_month m ≡ some b)
      × (b + leap_day y m ≡ days_before_first y (m + 1))
unfolding days_before_first
month_table y zero h = (0, refl, ground arith)
month_table y (suc zero) h = (31, refl, ground arith)
month_table y (suc (suc zero)) h = (59, refl, ground arith)
month_table y (suc (suc (suc zero))) h = (90, refl, ground arith)
month_table y (suc (suc (suc (suc zero)))) h = (120, refl, ground arith)
month_table y (suc (suc (suc (suc (suc zero))))) h = (151, refl, ground arith)
month_table y (suc (suc (suc (suc (suc (suc zero)))))) h = (181, refl, ground arith)
month_table y (suc (suc (suc (suc (suc (suc (suc zero))))))) h = (212, refl, ground arith)
month_table y (suc (suc (suc (suc (suc (suc (suc (suc zero)))))))) h = (243, refl, ground arith)
month_table y (suc (suc (suc (suc (suc (suc (suc (suc (suc zero))))))))) h =
    (273, refl, ground arith)
month_table y (suc (suc (suc (suc (suc (suc (suc (suc (suc (suc zero)))))))))) h =
    (304, refl, ground arith)
month_table y (suc (suc (suc (suc (suc (suc (suc (suc (suc (suc (suc zero))))))))))) h =
    (334, refl, ground arith)
month_table y (suc (suc (suc (suc (suc (suc (suc (suc (suc (suc (suc (suc m)))))))))))) h =
    absurd (omega arith)

pub days_in_year_lem : (y : ℕ) → (days_in_year (pos y) == 366) ≡ leap (1900 + y)
unfolding days_in_year is_leap ◌+ℤ◌
days_in_year_lem y = ground arith

pub other_years_lem :
    (r d : ℕ)
    → other_years (pos (70 + r)) (pos d) ≡ pos (d + (days_before (1970 + r) - days_before 1970))
unfolding other_years
other_years_lem zero d = ap pos (omega arith)
other_years_lem (suc r) d = ground (
  arith,
  add_years_lem (suc r) 70 d,
  ap (λ k. add_years k 70 (pos d)) (shift r),
  ap days_before (assoc r),
)
  where
    shift : (r : ℕ) → 70 + suc r - 70 ≡ suc r
    shift r = omega arith

    assoc : (r : ℕ) → 1900 + (70 + suc r) ≡ 1970 + suc r
    assoc r = omega arith
