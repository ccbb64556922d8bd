-- ===== src/Lost/Calendar/Days.antt =====
-- The days that `mktime` of esp8266/lost/lost.c counts, against the Gregorian calendar.
use esp8266_xcode.Base.{
  ℕ, ◌+◌, ◌-◌, ◌*◌, ◌≤◌, ◌<◌, ◌^◌, false, some, ◌||◌, ◌≡◌, refl, ap, arith, ◌∙◌,
}
use esp8266_xcode.Base.Int.{ℤ, pos, negsuc, ltb_ℤ, pos-+, pos--, pos-*, wrap32}
use esp8266_xcode.Lost.Calendar.{
  os_mktime, other_years, mktime, time_fields, out_of_range, day_of_year, finish, Tm,
}
use esp8266_xcode.Lost.Calendar.Years.{
  days_before, days_before_first, unix_time, leap_day, month_table, days_in_year_lem,
  other_years_lem,
}

day_of_year_lem :
    (t : Tm) (y d b : ℕ)
    → t.tm_year ≡ pos y
    → t.tm_mday ≡ pos d
    → 1 ≤ d
    → day_of_year t b ≡ pos (d - 1 + b + leap_day (1900 + y) t.tm_mon)
unfolding day_of_year
day_of_year_lem t y d b ey ed h =
    rw (ey, ed, pos-- d 1 h, pos-+, days_in_year_lem)
      (ground (arith, pos-+ (d - 1 + b) 1, pos-+ (d - 1 + b) 0))

wrap32_small : (n : ℕ) → n < 2 ^ 31 → wrap32 (pos n) ≡ pos n
wrap32_small n h = ground arith

finish_lem :
    (t : Tm) (yday : ℤ) (days s m h : ℕ)
    → t.tm_sec ≡ pos s
    → t.tm_min ≡ pos m
    → t.tm_hour ≡ pos h
    → s + m * 60 + h * 3600 + days * 86400 < 2 ^ 31
    → (finish t yday (pos days)).0 ≡ pos (s + m * 60 + h * 3600 + days * 86400)
unfolding finish
finish_lem t yday days s m h es em eh k =
    rw (es, em, eh, pos-*, pos-*, pos-*, pos-+, pos-+, pos-+)
      (wrap32_small (s + m * 60 + h * 3600 + days * 86400) k)

in_range :
    (z : ℤ) (r : ℕ)
    → z ≡ pos (70 + r)
    → r ≤ 9930
    → (ltb_ℤ (pos 10000) z || ltb_ℤ z (negsuc 9999)) ≡ false
in_range z r e h = rw e (ground arith)

-- The days that `mktime` counts from a table entry on.
days_lem :
    (t : Tm) (r d b : ℕ)
    → t.tm_year ≡ pos (70 + r)
    → t.tm_mday ≡ pos d
    → 1 ≤ d
    → b + leap_day (1970 + r) t.tm_mon ≡ days_before_first (1970 + r) (t.tm_mon + 1)
    → other_years t.tm_year (day_of_year t b)
      ≡ pos (
          days_before (1970 + r)
          + days_before_first (1970 + r) (t.tm_mon + 1)
          + d
          - 1
          - days_before 1970)
days_lem t r d b ey ed hd total =
    rw (day_of_year_lem t (70 + r) d b ey ed hd, ey, other_years_lem)
      (ap pos (omega (arith, total, later, same)))
  where
    later : days_before 1970 ≤ days_before (1970 + r)
    later = unfold days_before in omega arith

    years : 1900 + (70 + r) ≡ 1970 + r
    years = omega arith

    same : leap_day (1900 + (70 + r)) t.tm_mon ≡ leap_day (1970 + r) t.tm_mon
    same = rw years

mktime_lem :
    (t : Tm) (r d hour minute sec : ℕ)
    → t.tm_year ≡ pos (70 + r)
    → r ≤ 9930
    → t.tm_mon < 12
    → t.tm_mday ≡ pos d
    → 1 ≤ d
    → t.tm_hour ≡ pos hour
    → t.tm_min ≡ pos minute
    → t.tm_sec ≡ pos sec
    → unix_time (1970 + r) (t.tm_mon + 1) d hour minute sec < 2 ^ 31
    → (u : Tm) × (mktime t ≡ some (pos (unix_time (1970 + r) (t.tm_mon + 1) d hour minute sec), u))
unfolding mktime
mktime_lem t r d hour minute sec ey hr hm ed hd eh emi es bound =
    let (b, eb, total) = month_table (1970 + r) t.tm_mon hm in
    let yday = day_of_year t b in
    let u = (finish t yday (other_years t.tm_year yday)).1 in
    (u, rw (eb, in_range t.tm_year r ey hr) (ap (λ z. some (z, u)) (time b total)))
  where
    time :
        (b : ℕ)
        → b + leap_day (1970 + r) t.tm_mon ≡ days_before_first (1970 + r) (t.tm_mon + 1)
        → (finish t (day_of_year t b) (other_years t.tm_year (day_of_year t b))).0
          ≡ pos (unix_time (1970 + r) (t.tm_mon + 1) d hour minute sec)
    time b total = rw (days_lem t r d b ey ed hd total) (
        finish_lem t (day_of_year t b)
          (days_before (1970 + r)
            + days_before_first (1970 + r) (t.tm_mon + 1)
            + d
            - 1
            - days_before 1970)
          sec minute hour es emi eh (unfold unix_time in omega (arith, bound))
        ∙ ap pos (unfold unix_time in omega arith))

accepted :
    (y m d hour minute sec : ℕ)
    → 1970 ≤ y
    → (1 ≤ m) × (m ≤ 12)
    → (1 ≤ d) × (d ≤ 31)
    → hour ≤ 23
    → minute ≤ 59
    → sec ≤ 60
    → out_of_range (pos y) (pos m) (pos d) (pos hour) (pos minute) (pos sec) ≡ false
unfolding out_of_range
accepted y m d hour minute sec hy hm hd hh hmi hs = ground arith

early : (y m d hour minute sec : ℕ) → unix_time y m d hour minute sec < 2 ^ 31 → y - 1970 ≤ 9930
unfolding unix_time days_before
early y m d hour minute sec h = omega arith

-- For a year from 1970 on, a month from 1 to 12, a day from 1 to 31, an hour up to 23, a minute
-- up to 59 and a second up to 60, of a moment less than 2 ^ 31 seconds after the start of 1970,
-- os_mktime gives the seconds since 1970 by the leap years of the Gregorian calendar.
pub os_mktime-unix_time :
    (y m d hour minute sec : ℕ)
    → 1970 ≤ y
    → (1 ≤ m) × (m ≤ 12)
    → (1 ≤ d) × (d ≤ 31)
    → hour ≤ 23
    → minute ≤ 59
    → sec ≤ 60
    → unix_time y m d hour minute sec < 2 ^ 31
    → os_mktime (pos y) (pos m) (pos d) (pos hour) (pos minute) (pos sec)
      ≡ some (pos (unix_time y m d hour minute sec))
unfolding os_mktime
os_mktime-unix_time y m d hour minute sec hy hm hd hh hmi hs bound =
    let (u, e) =
      mktime_lem (time_fields (pos y) (pos m) (pos d) (pos hour) (pos minute) (pos sec)) (y - 1970)
        d hour minute sec (pos-- y 1900 (omega arith) ∙ ap pos (omega arith))
        (early y m d hour minute sec bound) (rw (pos-- m 1 hm.0) (omega arith)) refl hd.0 refl refl
        refl (rw (pos-- m 1 hm.0, year, month) bound) in
    rw (accepted y m d hour minute sec hy hm hd hh hmi hs, e, pos-- m 1 hm.0)
      (rw (year, month) refl)
  where
    year : 1970 + (y - 1970) ≡ y
    year = omega arith

    month : m - 1 + 1 ≡ m
    month = omega arith
