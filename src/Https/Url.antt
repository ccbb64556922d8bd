-- ===== src/Https/Url.antt =====
-- How `https_connect` of esp8266/app/https.c cuts a URL.
use esp8266_xcode.Base.{
  ℕ, List, [], ◌∷◌, ◌++◌, some, ◌≡◌, ◌≢◌, ◌⊎◌, inl, inr, refl, sym, ap, ap₂, ◌∙◌, arith, All,
  All-append,
}
use esp8266_xcode.Base.Strings.{codes}
use esp8266_xcode.Lost.Text.{c_str, strsep, strdup}
use esp8266_xcode.Lost.Text.Laws.{IsFree, IsText, strsep-append, c_str-token, c_str_of_text}
use esp8266_xcode.Https.{gethostbyname, separators, url_parts, https_connect, checked, connect_to}

abbrev pub IsSeparator : ℕ → Type 0
IsSeparator c = (c ≡ b':') ⊎ (c ≡ b'/')

abbrev pub IsHost : List ℕ → Type 0
IsHost host = All (IsFree separators) host

abbrev https_text : List ℕ
https_text = codes "https"

at_separator : (c : ℕ) → IsSeparator c → ¬ (All (λ x. x ≢ c) (c_str separators))
unfolding c_str
at_separator c (inl e) h = h.0 (sym e)
at_separator c (inr e) h = h.1.0 (sym e)

strsep_at :
    (t r : List ℕ) (c : ℕ)
    → IsHost t
    → IsSeparator c
    → strsep (some (t ++ (c ∷ r))) separators ≡ (some (t ++ (0 ∷ r)), some r)
strsep_at t r c free (inl e) =
    strsep-append t c r separators free (omega arith) (at_separator c (inl e))
strsep_at t r c free (inr e) =
    strsep-append t c r separators free (omega arith) (at_separator c (inr e))

https-IsHost : IsHost https_text
unfolding c_str
https-IsHost = ground arith

no_nul : (t : List ℕ) → IsHost t → IsText t
no_nul [] h = tt
no_nul (b ∷ t) h = (h.0.0, no_nul t h.1)

url-IsText :
    (host path : List ℕ) (c : ℕ)
    → IsHost host
    → IsSeparator c
    → IsText path
    → IsText (codes "https://" ++ (host ++ (c ∷ path)))
url-IsText host path c free sep text =
    let behind : IsText (host ++ (c ∷ path)) =
      All-append (λ b. b ≢ 0) host (c ∷ path) (no_nul host free) ((ground arith), text) in
    (
      (λ e. absurd (omega arith)),
      (
        (λ e. absurd (omega arith)),
        (
          (λ e. absurd (omega arith)),
          (
            (λ e. absurd (omega arith)),
            (
              (λ e. absurd (omega arith)),
              (
                (λ e. absurd (omega arith)),
                ((λ e. absurd (omega arith)), ((λ e. absurd (omega arith)), behind)),
              ),
            ),
          ),
        ),
      ),
    )

url_parts_lem :
    (host path : List ℕ) (c : ℕ)
    → IsHost host
    → IsSeparator c
    → IsText path
    → url_parts (codes "https://" ++ (host ++ (c ∷ path))) ≡ (
      some (https_text ++ (0 ∷ b'/' ∷ b'/' ∷ (host ++ (c ∷ path)))),
      some (host ++ (0 ∷ path)),
      some path,
    )
unfolding url_parts strdup
url_parts_lem host path c free sep text = rw (
  url_parts,
  c_str_of_text (codes "https://" ++ (host ++ (c ∷ path))) (url-IsText host path c free sep text),
  strsep_at https_text (b'/' ∷ b'/' ∷ (host ++ (c ∷ path))) b':' https-IsHost (inl refl),
  strsep_at [] (b'/' ∷ (host ++ (c ∷ path))) b'/' tt (inr refl),
  strsep_at [] (host ++ (c ∷ path)) b'/' tt (inr refl),
  strsep_at host path c free sep,
)

-- For a host with no NUL, colon or slash, and a path with no NUL: https_connect cuts the URL at
-- the first colon or slash behind the host. What follows it is the path, also behind a colon.
pub https_connect_lem :
    (host path : List ℕ) (c : ℕ)
    → IsHost host
    → IsSeparator c
    → IsText path
    → https_connect (codes "https://" ++ (host ++ (c ∷ path)))
      ≡ some (some (record { host = host; path = path }), gethostbyname host ∷ [])
unfolding https_connect checked connect_to strdup
https_connect_lem host path c free sep text =
    ap checked (url_parts_lem host path c free sep text)
    ∙ ap₂ (λ h p. some (some (record { host = h; path = p }), gethostbyname h ∷ []))
        (c_str-token host path separators free) (c_str_of_text path text)
