-- ===== src/Lost/Tests.antt =====
-- Runs of the functions of esp8266/lost on small inputs.
use esp8266_xcode.Base.{false, if◌then◌else◌, ap, ◌∙◌}
use esp8266_xcode.Base.Int.{ℤ, ◌+ℤ◌, ◌-ℤ◌, ◌*ℤ◌, pos-*, pos-+}
use esp8266_xcode.Lost.Double.{Double, strtod}
use esp8266_xcode.Lost.Double.Laws.{scan_exact, strtod-strtol}
use esp8266_xcode.Base.{ℕ, ◌+◌, ◌*◌, ◌^◌, ◌<◌, List, [], ◌∷◌, ◌++◌, ◌≡◌, refl, some, arith}
use esp8266_xcode.Base.Int.{pos, negsuc, sub_ℕ}
use esp8266_xcode.Lost.Number.{strtol, atoi}
use esp8266_xcode.Lost.Number.Laws.{print_int, strtol-print_int, strtol-hex, hex_digit, hex_upper}
use esp8266_xcode.Lost.Calendar.{os_mktime}
use esp8266_xcode.Lost.Calendar.Years.{unix_time, days_before, days_before_first}
use esp8266_xcode.Lost.Calendar.Days.{os_mktime-unix_time}
use esp8266_xcode.Lost.Crc.{lfs_crc}
use esp8266_xcode.Lost.Crc.Bitwise.{crc_bitwise, lfs_crc-crc_bitwise}

abbrev key_value : List ℕ
key_value = b'k' ∷ b'=' ∷ b'v' ∷ []

strtol-print_int_example : strtol (print_int (negsuc 11) ++ (b' ' ∷ [])) 10 ≡ (negsuc 11, b' ' ∷ [])
strtol-print_int_example =
    strtol-print_int (negsuc 11) (b' ' ∷ []) (omega arith, omega arith) (omega arith)

strtol-hex_example :
    (strtol (hex_digit 2 ∷ hex_digit 15 ∷ []) 16 ≡ (pos (2 * 16 + 15), []))
    × (strtol (hex_upper 2 ∷ hex_upper 15 ∷ []) 16 ≡ (pos (2 * 16 + 15), []))
strtol-hex_example = strtol-hex 2 15 (omega arith) (omega arith)

-- A minus sign is taken wherever it stands.
minus_inside : atoi (b'1' ∷ b'-' ∷ b'2' ∷ []) ≡ negsuc 11
unfolding atoi
minus_inside = refl

os_mktime-unix_time_example :
    os_mktime (pos 2024) (pos 2) (pos 29) (pos 23) (pos 59) (pos 59)
    ≡ some (pos (unix_time 2024 2 29 23 59 59))
os_mktime-unix_time_example =
    os_mktime-unix_time 2024 2 29 23 59 59 (omega arith) (omega arith) (omega arith) (omega arith)
      (omega arith) (omega arith) early
  where
    early : unix_time 2024 2 29 23 59 59 < 2 ^ 31
    early = unfold unix_time days_before days_before_first in omega arith

lfs_crc-crc_bitwise_example : lfs_crc 0xffffffff (1 ∷ 2 ∷ []) ≡ crc_bitwise 0xffffffff (1 ∷ 2 ∷ [])
lfs_crc-crc_bitwise_example = lfs_crc-crc_bitwise (1 ∷ 2 ∷ []) 0xffffffff (omega arith)

-- Whole numbers for `double`; the tenth is 0.
numbers : Double
numbers = record {
  D = ℤ;
  of_nat = pos;
  plus = ◌+ℤ◌;
  times = ◌*ℤ◌;
  negate = λ z. pos 0 -ℤ z;
  ten = pos 10;
  tenth = pos 0;
  exact = λ n d h. ap (λ z. z +ℤ pos d) (pos-* n 10) ∙ pos-+ (n * 10) d;
}

abbrev minus_twelve : List ℕ
minus_twelve = b'-' ∷ b'1' ∷ b'2' ∷ b' ' ∷ []

strtod-strtol_example :
    let s = scan_exact minus_twelve false 0 in
    (strtod numbers minus_twelve ≡ (
      (if s.negative then numbers.negate (numbers.of_nat s.result) else numbers.of_nat s.result),
      s.rest,
    ))
    × (strtol minus_twelve 10 ≡ ((if s.negative then sub_ℕ 0 s.result else pos s.result), s.rest))
unfolding scan_exact
strtod-strtol_example = strtod-strtol numbers minus_twelve (omega arith) (omega arith)
