-- ===== src/Httpd/Params.antt =====
-- `httpd_parameter_parse` of esp8266/app/httpd.c. A pointer into the copy of the URL is the memory
-- from it on, as in `Lost.Text`; the escapes are undone in place.
pub mod Escapes
pub mod RoundTrip
use esp8266_xcode.Base.{
  ℕ, zero, suc, ◌+◌, ◌-◌, ◌%◌, List, [], ◌∷◌, ◌++◌, Option, none, some, Bool, true, false, ◌==◌,
  if◌then◌else◌, length, drop, map,
}
use esp8266_xcode.Base.Int.{ℤ, pos, negsuc}
use esp8266_xcode.Lost.Text.{c_str, strsep, strdup}
use esp8266_xcode.Lost.Number.{strtol}

-- The calls of `parser`, in order; `overrun` is a read behind the end of the copy.
pub data Parsed : Type 0 where
  calls : List (List ℕ × List ℕ) → Parsed
  overrun : Parsed
  no_fuel : Parsed

abbrev pub separators : List ℕ
separators = b'?' ∷ b'=' ∷ b'&' ∷ []

-- The conversion of a `long` to a `char`.
abbrev to_char : ℤ → ℕ
to_char (pos n) = n % 256
to_char (negsuc n) = 255 - n % 256

unfoldable pub from_hex : List ℕ → ℕ
from_hex temp = to_char (strtol temp 16).0

abbrev pub keep : ℕ → Option (List ℕ) → Option (List ℕ)
keep c none = none
keep c (some out) = some (c ∷ out)

-- The bytes that the loop over `value` writes from `value[0]` on, its last NUL included. The list
-- is what it has not read yet; `l` stays behind `r`, so that it reads no byte that it has written.
-- `none`: it reads behind the last NUL of the copy.
unfoldable pub unescape : List ℕ → Option (List ℕ)
unfolding from_hex
unescape [] = some (0 ∷ [])
unescape (c ∷ []) =
    if c == b'%' then some (0 ∷ []) else if c == 0 then some (0 ∷ []) else some (c ∷ 0 ∷ [])
unescape (c ∷ a ∷ []) =
    let next = keep c (unescape (a ∷ [])) in
    if c == b'%'
    then (if from_hex (a ∷ []) == 0 then some (0 ∷ []) else none)
    else if c == 0
    then some (0 ∷ [])
    else next
unescape (c ∷ a ∷ b ∷ m) =
    let h = from_hex (a ∷ b ∷ []) in
    let escaped = keep h (unescape m) in
    let next = keep c (unescape (a ∷ b ∷ m)) in
    if c == b'%'
    then (if h == 0 then some (0 ∷ []) else escaped)
    else if c == 0
    then some (0 ∷ [])
    else next

-- `value` and `token` after the loop over `value`: both point into the memory that it changed.
unfoldable pub in_place : List ℕ → List ℕ → List ℕ → List ℕ × List ℕ
in_place value token out =
    let value' = out ++ drop (length out) value in
    (c_str value', drop (length value - length token) value')

abbrev pub add_call : List ℕ → List ℕ → Parsed → Parsed
add_call key value (calls l) = calls ((key, value) ∷ l)
add_call key value overrun = overrun
add_call key value no_fuel = no_fuel

abbrev pub token_of : Option (List ℕ) → List ℕ
token_of none = []
token_of (some m) = m

-- One round of the loop, from the two calls of `strsep` on; `next` is the rest of the loop.
parse_round : Option (List ℕ) → Option (List ℕ) → List ℕ → (List ℕ → Parsed) → Parsed
parse_round none value token next = calls []
parse_round (some k) none token next = add_call (c_str k) [] (next token)
parse_round (some k) (some v) token next = elim (unescape v) [
  | none ↦ overrun
  | some out ↦ add_call (c_str k) (in_place v token out).0 (next (in_place v token out).1)
]

-- `while (path)`: one round for each key. `token` is not null in the loop.
unfoldable pub parse_loop : ℕ → List ℕ → Parsed
unfolding parse_round in_place
parse_loop zero token = no_fuel
parse_loop (suc fuel) token =
    let (key, t1) = strsep (some token) separators in
    let (value, t2) = strsep t1 separators in parse_round key value (token_of t2) (parse_loop fuel)

-- `while (path)`, with the result of the first `strsep`.
abbrev parse_from : ℕ → Option (List ℕ) × Option (List ℕ) → Parsed
parse_from fuel (none, token) = calls []
parse_from fuel (some path, token) = parse_loop fuel (token_of token)

-- Each round takes a byte of the token at least, so that the length of the URL is enough fuel.
unfoldable pub httpd_parameter_parse : List ℕ → Parsed
unfolding parse_loop
httpd_parameter_parse url = parse_from (suc (length url)) (strsep (some (strdup url)) separators)
