-- ===== src/Lost/Calendar.antt =====
-- `mktime` of esp8266/lost/lost.c and `os_mktime` of esp8266/lost/crypto.c. `long` and
-- `time_t` have 32 bits, and the sum of the seconds wraps, as on the machine; C leaves it undefined.
-- The count of the days stays far inside 32 bits for every day of a month and year that is let in.
pub mod Years
pub mod Days
use esp8266_xcode.Base.{
  ℕ, zero, suc, ◌+◌, ◌-◌, ◌*◌, ◌/◌, ◌%◌, List, [], ◌∷◌, Bool, true, false, Option, none, some, ◌==◌,
  ◌&&◌, ◌||◌, not, ltb, leb, if◌then◌else◌, get_elem?,
}
use esp8266_xcode.Base.Int.{ℤ, pos, negsuc, pos_part, neg_part, ◌+ℤ◌, ◌-ℤ◌, ◌*ℤ◌, ltb_ℤ, wrap32}

-- `struct tm`, with the fields that `mktime` reads or writes.
pub record Tm : Type 0 where
  pub tm_sec : ℤ
  pub tm_min : ℤ
  pub tm_hour : ℤ
  pub tm_mday : ℤ
  pub tm_mon : ℕ
  pub tm_year : ℤ
  pub tm_wday : ℤ
  pub tm_yday : ℤ
  pub tm_isdst : ℤ

abbrev pub days_before_month : List ℕ
days_before_month = 0 ∷ 31 ∷ 59 ∷ 90 ∷ 120 ∷ 151 ∷ 181 ∷ 212 ∷ 243 ∷ 273 ∷ 304 ∷ 334 ∷ []

-- `z % n == 0` in C: the sign does not matter.
abbrev divides : ℕ → ℤ → Bool
divides n z = (pos_part z + neg_part z) % n == 0

-- `_ISLEAP` of a year counted from 1900.
unfoldable pub is_leap : ℤ → Bool
is_leap y = divides 4 y && (not (divides 100 y) || divides 400 (y +ℤ pos 1900))

pub days_in_year : ℤ → ℕ
days_in_year y = if is_leap y then 366 else 365

-- for (year = 70; year < tm_year; year++) days += ...: `rounds` years from `year` on.
pub add_years : ℕ → ℕ → ℤ → ℤ
add_years zero year days = days
add_years (suc rounds) year days =
    add_years rounds (year + 1) (days +ℤ pos (days_in_year (pos year)))

-- for (year = 69; year > tm_year; year--) days -= ...: `rounds` years from `year` down.
sub_years : ℕ → ℤ → ℤ → ℤ
sub_years zero year days = days
sub_years (suc rounds) year days =
    sub_years rounds (year -ℤ pos 1) (days -ℤ pos (days_in_year year))

-- The days of the other years: `days` plus those from 1970 on, or less those before it.
pub other_years : ℤ → ℤ → ℤ
other_years year days =
    if ltb_ℤ (pos 70) year
    then add_years (pos_part year - 70) 70 days
    else if ltb_ℤ year (pos 70)
    then sub_years (pos_part (pos 69 -ℤ year)) (pos 69) days -ℤ pos (days_in_year year)
    else days

-- `(days + 4) % 7`, made nonnegative as the code does; C's `%` has the sign of its left side.
week_day : ℤ → ℤ
week_day days =
    let d = days +ℤ pos 4 in
    let r = pos (pos_part d % 7) -ℤ pos (neg_part d % 7) in
    if ltb_ℤ r (pos 0) then r +ℤ pos 7 else r

day_of_year : Tm → ℕ → ℤ
day_of_year t before =
    t.tm_mday
    -ℤ pos 1
    +ℤ pos before
    +ℤ (if ltb 1 t.tm_mon && (days_in_year t.tm_year == 366) then pos 1 else pos 0)

finish : Tm → ℤ → ℤ → ℤ × Tm
finish t yday days = (
  wrap32 (t.tm_sec +ℤ t.tm_min *ℤ pos 60 +ℤ t.tm_hour *ℤ pos 3600 +ℤ days *ℤ pos 86400),
  record t { tm_yday = yday; tm_isdst = pos 0; tm_wday = week_day days },
)

-- The time and `*tim_p` after the call. `none`: a month out of the table is a read out of bounds.
pub mktime : Tm → Option (ℤ × Tm)
mktime t = elim (get_elem? days_before_month t.tm_mon) [
  | none ↦ none
  | some before ↦
      let yday = day_of_year t before in
      if ltb_ℤ (pos 10000) t.tm_year || ltb_ℤ t.tm_year (negsuc 9999)
      then some (negsuc 0, record t { tm_yday = yday })
      else some (finish t yday (other_years t.tm_year yday))
]

-- The test of the arguments, which may be negative.
pub out_of_range : ℤ → ℤ → ℤ → ℤ → ℤ → ℤ → Bool
out_of_range year month day hour min sec =
    ltb_ℤ year (pos 1970)
    || ltb_ℤ month (pos 1)
    || ltb_ℤ (pos 12) month
    || ltb_ℤ day (pos 1)
    || ltb_ℤ (pos 31) day
    || ltb_ℤ hour (pos 0)
    || ltb_ℤ (pos 23) hour
    || ltb_ℤ min (pos 0)
    || ltb_ℤ (pos 59) min
    || ltb_ℤ sec (pos 0)
    || ltb_ℤ (pos 60) sec

abbrev pub time_fields : ℤ → ℤ → ℤ → ℤ → ℤ → ℤ → Tm
time_fields year month day hour min sec = record {
  tm_sec = sec;
  tm_min = min;
  tm_hour = hour;
  tm_mday = day;
  tm_mon = pos_part (month -ℤ pos 1);
  tm_year = year -ℤ pos 1900;
  tm_wday = pos 0;
  tm_yday = pos 0;
  tm_isdst = pos 0;
}

-- `*t` when the call returns 0, and `none` when it returns -1.
pub os_mktime : ℤ → ℤ → ℤ → ℤ → ℤ → ℤ → Option ℤ
os_mktime year month day hour min sec =
    if out_of_range year month day hour min sec
    then none
    else elim (mktime (time_fields year month day hour min sec)) [ none ↦ none | some r ↦ some r.0 ]
