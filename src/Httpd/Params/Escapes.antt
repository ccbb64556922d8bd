-- ===== src/Httpd/Params/Escapes.antt =====
-- The escapes of a URL: the in-place loop of `httpd_parameter_parse` (esp8266/app/httpd.c) undoes them.
use esp8266_xcode.Base.{
  ℕ, ◌+◌, ◌-◌, ◌/◌, ◌%◌, ◌<◌, ◌≤◌, List, [], ◌∷◌, ◌++◌, some, Bool, true, false, ◌≡◌, ◌≢◌, refl,
  sym, ap, ap₂, ◌∙◌, if◌then◌else◌, length, length-append, drop, All, All-append, drop-length,
  drop-length-append, arith, append_assoc, Bool-cases, inl, inr,
}
use native.Mathlib.Decide.{dec_lt}
use esp8266_xcode.Base.Slices.{drop-overwrite}
use esp8266_xcode.Lost.Text.{at_nul, c_str}
use esp8266_xcode.Lost.Text.Laws.{IsFree, IsText, c_str-append-nul}
use esp8266_xcode.Lost.Number.Laws.{hex_upper, strtol-hex}
use esp8266_xcode.Httpd.Params.{separators, from_hex, unescape, keep, in_place}

-- What a browser makes of a byte of a value; `quote` says which bytes it writes as an escape.
unfoldable pub encode : (ℕ → Bool) → ℕ → List ℕ
encode quote c = if quote c then b'%' ∷ hex_upper (c / 16) ∷ hex_upper (c % 16) ∷ [] else c ∷ []

unfoldable pub encode_text : (ℕ → Bool) → List ℕ → List ℕ
unfolding encode
encode_text quote [] = []
encode_text quote (c ∷ v) = encode quote c ++ encode_text quote v

-- The separators and the percent sign are always escaped.
abbrev pub Quotes : (ℕ → Bool) → Type 0
Quotes quote = (c : ℕ) → quote c ≡ false → (c ≢ b'%') × (c ≢ b'?') × (c ≢ b'=') × (c ≢ b'&')

abbrev pub IsByte : ℕ → Type 0
IsByte c = (0 < c) × (c < 256)

abbrev pub Free : ℕ → Type 0
Free = IsFree separators

plain_step : (c : ℕ) (m : List ℕ) → c ≢ b'%' → c ≢ 0 → unescape (c ∷ m) ≡ keep c (unescape m)
unfolding unescape
plain_step c [] h k = ground arith
plain_step c (a ∷ []) h k = ground arith
plain_step c (a ∷ b ∷ m) h k = ground arith

from_hex_lem : (c : ℕ) → IsByte c → from_hex (hex_upper (c / 16) ∷ hex_upper (c % 16) ∷ []) ≡ c
unfolding from_hex
from_hex_lem c h = rw ((strtol-hex (c / 16) (c % 16) (omega arith) (omega arith)).1) (omega arith)

escape_step :
    (c : ℕ) (m : List ℕ)
    → IsByte c
    → unescape (b'%' ∷ hex_upper (c / 16) ∷ hex_upper (c % 16) ∷ m) ≡ keep c (unescape m)
unfolding unescape
escape_step c m h = rw (from_hex_lem c h) (ground arith)

pub unescape-zero : (r : List ℕ) → unescape (0 ∷ r) ≡ some (0 ∷ [])
unfolding unescape
unescape-zero [] = refl
unescape-zero (a ∷ []) = refl
unescape-zero (a ∷ b ∷ r) = refl

module _ (quote : ℕ → Bool) (quotes : Quotes quote) where
  encode_step :
      (c : ℕ) (m : List ℕ) → IsByte c → unescape (encode quote c ++ m) ≡ keep c (unescape m)
  unfolding encode
  encode_step c m h = elim (Bool-cases (quote c)) [
    | inl e ↦ rw e (escape_step c m h)
    | inr e ↦ rw e (plain_step c m (quotes c e).0 (omega arith))
  ]

  -- The in-place loop undoes the escapes, up to the NUL behind the value.
  pub unescape-encode_text :
      (v m : List ℕ)
      → All IsByte v
      → unescape m ≡ some (0 ∷ [])
      → unescape (encode_text quote v ++ m) ≡ some (v ++ (0 ∷ []))
  unfolding encode_text
  unescape-encode_text [] m h e = e
  unescape-encode_text (c ∷ v) m h e =
      rw (append_assoc, encode_step c _ h.0, unescape-encode_text v m h.1 e)

  encode-Free : (c : ℕ) → IsByte c → All Free (encode quote c)
  unfolding encode hex_upper c_str
  encode-Free c h = ground (arith, quotes c)

  pub encode_text-Free : (v : List ℕ) → All IsByte v → All Free (encode_text quote v)
  unfolding encode_text
  encode_text-Free [] h = tt
  encode_text-Free (c ∷ v) h =
      All-append Free (encode quote c) _ (encode-Free c h.0) (encode_text-Free v h.1)

  pub length-encode_text : (v : List ℕ) → length v ≤ length (encode_text quote v)
  unfolding encode_text encode
  length-encode_text [] = omega arith
  length-encode_text (c ∷ v) = ground (arith, length-encode_text v)

-- The value that the in-place loop leaves.
c_str-written : (v m : List ℕ) → IsText v → c_str ((v ++ (0 ∷ [])) ++ m) ≡ v
c_str-written v m h = rw (append_assoc v (0 ∷ []) m) (c_str-append-nul v m h)

length-written : (v : List ℕ) → length (v ++ (0 ∷ [])) ≡ length v + 1
length-written v = length-append v (0 ∷ [])

drop-token : (e r : List ℕ) → drop (length e + 1) (e ++ (0 ∷ r)) ≡ r
drop-token e r =
    ap₂ drop (sym (length-written e)) (sym (append_assoc e (0 ∷ []) r))
    ∙ drop-length-append (e ++ (0 ∷ [])) r

-- The value and the token after the loop over a value that a separator ended.
pub in_place_lem :
    (e v r : List ℕ)
    → IsText v
    → length v ≤ length e
    → in_place (e ++ (0 ∷ r)) r (v ++ (0 ∷ [])) ≡ (v, r)
unfolding in_place
in_place_lem e v r h k =
    ap₂ (λ a b. (a, b)) (c_str-written v _ h)
      (drop-overwrite (v ++ (0 ∷ [])) (e ++ (0 ∷ r)) _
          (omega (arith, length-written v, length-append e (0 ∷ r)))
          (omega (arith, length-written v, length-append e (0 ∷ r)))
        ∙ ap (λ n. drop n (e ++ (0 ∷ r))) {y = length e + 1}
            (omega (arith, length-append e (0 ∷ r)))
        ∙ drop-token e r)

-- The same for the last value: what is left of the token is at its end.
at_nul-last :
    (e v : List ℕ)
    → length v ≤ length e
    → at_nul (drop (length e - 0) ((v ++ (0 ∷ [])) ++ drop (length (v ++ (0 ∷ []))) e)) ≡ true
at_nul-last e v k = elim (dec_lt (length v) (length e)) [
  | yes p ↦ ap at_nul (
      drop-overwrite (v ++ (0 ∷ [])) e (length e - 0) (omega (arith, length-written v))
        (omega (arith, length-written v))
      ∙ ap (λ n. drop n e) {y = length e} (omega arith)
      ∙ drop-length e)
  | no p ↦
      ap at_nul
        (ap₂ drop {y = length v} (omega arith) (append_assoc v (0 ∷ []) _) ∙ drop-length-append v _)
]

pub in_place_last :
    (e v : List ℕ)
    → IsText v
    → length v ≤ length e
    → ((in_place e [] (v ++ (0 ∷ []))).0 ≡ v) × (at_nul (in_place e [] (v ++ (0 ∷ []))).1 ≡ true)
unfolding in_place
in_place_last e v h k = (c_str-written v _ h, at_nul-last e v k)
