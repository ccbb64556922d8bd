-- ===== src/Lost/Number.antt =====
-- `strtol` and `atoi` of esp8266/lost/lost.c. The loops end at a NUL or at a byte that they do not
-- read. `long` has 32 bits, and sums wrap, as on the machine; C leaves a sum out of
-- its range undefined.
pub mod Laws
use esp8266_xcode.Base.{
  ℕ, ◌+◌, ◌-◌, ◌*◌, ◌%◌, ◌^◌, List, [], ◌∷◌, Bool, true, false, ◌==◌, ◌&&◌, leb, if◌then◌else◌,
}
use esp8266_xcode.Base.Int.{ℤ, int32}

-- The variables of the loops: `negative`, the word `result`, and the text from `str` on.
pub record Scan : Type 0 where
  pub negative : Bool
  pub result : ℕ
  pub rest : List ℕ

abbrev pub between : ℕ → ℕ → ℕ → Bool
between lo hi c = leb lo c && leb c hi

unfoldable pub scan16 : List ℕ → Bool → ℕ → Scan
scan16 [] negative result = record { negative = negative; result = result; rest = [] }
scan16 (c ∷ str) negative result =
    let minus = scan16 str true result in
    let lower = scan16 str negative ((result * 16 + c - b'a' + 10) % 2 ^ 32) in
    let upper = scan16 str negative ((result * 16 + c - b'A' + 10) % 2 ^ 32) in
    let digit = scan16 str negative ((result * 16 + c - b'0') % 2 ^ 32) in
    if c == 0
    then record { negative = negative; result = result; rest = c ∷ str }
    else if c == b'-'
    then minus
    else if between b'a' b'f' c
    then lower
    else if between b'A' b'F' c
    then upper
    else if between b'0' b'9' c
    then digit
    else record { negative = negative; result = result; rest = c ∷ str }

unfoldable pub scan10 : List ℕ → Bool → ℕ → Scan
scan10 [] negative result = record { negative = negative; result = result; rest = [] }
scan10 (c ∷ str) negative result =
    let minus = scan10 str true result in
    let digit = scan10 str negative ((result * 10 + c - b'0') % 2 ^ 32) in
    if c == 0
    then record { negative = negative; result = result; rest = c ∷ str }
    else if c == b'-'
    then minus
    else if between b'0' b'9' c
    then digit
    else record { negative = negative; result = result; rest = c ∷ str }

abbrev pub signed : Scan → ℤ × List ℕ
signed s = (int32 (if s.negative then (2 ^ 32 - s.result) % 2 ^ 32 else s.result), s.rest)

-- The result and `*str_end`.
unfoldable pub strtol : List ℕ → ℕ → ℤ × List ℕ
unfolding scan16 scan10
strtol str base = if base == 16 then signed (scan16 str false 0) else signed (scan10 str false 0)

unfoldable pub atoi : List ℕ → ℤ
unfolding strtol
atoi str = (strtol str 10).0
