-- ===== src/Lost/Text/Laws.antt =====
-- What the string functions of esp8266/lost/lost.c compute.
use esp8266_xcode.Base.{
  ℕ, ◌+◌, List, [], ◌∷◌, ◌++◌, none, some, false, ◌==◌, ◌≡◌, ◌≢◌, ◌⊎◌, ◌↔◌, refl, ap, length, take,
  drop, drop-length-append, take-length-append, drop-length, All, arith, append-nil, Bool-cases,
  inl, inr,
}
use esp8266_xcode.Lost.Text.{c_str, at_nul, strcspn, strsep, scan_set}

-- A byte of a text that is no separator.
abbrev pub IsFree : List ℕ → ℕ → Type 0
IsFree sep b = (b ≢ 0) × All (λ c. c ≢ b) (c_str sep)

abbrev pub IsText : List ℕ → Type 0
IsText = All (λ b. b ≢ 0)

pub c_str-IsText : (s : List ℕ) → IsText (c_str s)
unfolding c_str
c_str-IsText [] = tt
c_str-IsText (b ∷ s) = ground (arith, c_str-IsText s)

pub c_str_of_text : (s : List ℕ) → IsText s → c_str s ≡ s
unfolding c_str
c_str_of_text [] h = refl
c_str_of_text (b ∷ s) h = ground (arith, c_str_of_text s h.1)

pub c_str-append-nul : (s r : List ℕ) → IsText s → c_str (s ++ (0 ∷ r)) ≡ s
unfolding c_str
c_str-append-nul [] r h = refl
c_str-append-nul (b ∷ s) r h = ground (arith, c_str-append-nul s r h.1)

scan_set_iff : (b : ℕ) (sep : List ℕ) → b ≢ 0 → (scan_set b sep ≡ 0) ↔ All (λ c. c ≢ b) (c_str sep)
unfolding scan_set c_str
scan_set_iff b [] h = (λ _. tt, λ _. refl)
scan_set_iff b (c ∷ sep) h = ground (arith, scan_set_iff b sep h)

b_ne_zero : (b : ℕ) → (b == 0) ≡ false → b ≢ 0
b_ne_zero b h = ground arith

-- Where `strcspn` stops: at the end of the text or at a separator.
abbrev pub StopsAt : List ℕ → List ℕ → Type 0
StopsAt sep [] = Unit
StopsAt sep (c ∷ _) = (c ≡ 0) ⊎ (¬ (All (λ x. x ≢ c) (c_str sep)))

strcspn-IsFree : (s sep : List ℕ) → All (IsFree sep) (take (strcspn s sep) s)
unfolding strcspn
strcspn-IsFree [] sep = tt
strcspn-IsFree (b ∷ s) sep = elim (Bool-cases (b == 0)) [
  | inl e ↦ rw e tt
  | inr ne ↦ elim (Bool-cases (scan_set b sep == 0)) [
    | inl e ↦
        rw (ne, e)
          (
            (
              λ z. absurd (omega (arith, b_ne_zero b ne, z)),
              (scan_set_iff b sep (b_ne_zero b ne)).0 (ground arith),
            ),
            strcspn-IsFree s sep,
          )
    | inr e ↦ rw (ne, e) tt
  ]
]

strcspn_stops : (s sep : List ℕ) → StopsAt sep (drop (strcspn s sep) s)
unfolding strcspn
strcspn_stops [] sep = tt
strcspn_stops (b ∷ s) sep = elim (Bool-cases (b == 0)) [
  | inl e ↦ rw e (inl (ground arith))
  | inr ne ↦ elim (Bool-cases (scan_set b sep == 0)) [
    | inl e ↦ rw (ne, e) (strcspn_stops s sep)
    | inr e ↦ rw (ne, e) (inr (ground (arith, scan_set_iff b sep)))
  ]
]

strcspn-append :
    (t r sep : List ℕ) → All (IsFree sep) t → strcspn (t ++ r) sep ≡ length t + strcspn r sep
unfolding strcspn
strcspn-append [] r sep h = omega arith
strcspn-append (b ∷ t) r sep h =
    ground (arith, strcspn-append t r sep h.1, scan_set_iff b sep h.0.0)

strcspn-nil : (sep : List ℕ) → strcspn [] sep ≡ 0
unfolding strcspn
strcspn-nil sep = refl

-- strcspn is the length of the longest start of the text that holds no NUL and no byte of the
-- set.
pub strcspn_lem :
    (s sep : List ℕ)
    → All (IsFree sep) (take (strcspn s sep) s) × StopsAt sep (drop (strcspn s sep) s)
strcspn_lem s sep = (strcspn-IsFree s sep, strcspn_stops s sep)

strcspn_at_sep :
    (c : ℕ) (r sep : List ℕ) → c ≢ 0 → ¬ (All (λ x. x ≢ c) (c_str sep)) → strcspn (c ∷ r) sep ≡ 0
unfolding strcspn
strcspn_at_sep c r sep h in_sep = ground (arith, scan_set_iff c sep h)

at_nul-append :
    (t : List ℕ) (c : ℕ) (r sep : List ℕ)
    → All (IsFree sep) t
    → c ≢ 0
    → at_nul (t ++ (c ∷ r)) ≡ false
at_nul-append [] c r sep free h = ground arith
at_nul-append (b ∷ t) c r sep free h = ground arith

-- A token, with no separator and no NUL in it, that a separator ends is cut there, and the
-- pointer moves behind the separator.
pub strsep-append :
    (t : List ℕ) (c : ℕ) (r sep : List ℕ)
    → All (IsFree sep) t
    → c ≢ 0
    → ¬ (All (λ x. x ≢ c) (c_str sep))
    → strsep (some (t ++ (c ∷ r))) sep ≡ (some (t ++ (0 ∷ r)), some r)
unfolding strsep
strsep-append t c r sep free h in_sep =
    let stop : strcspn (t ++ (c ∷ r)) sep ≡ length t =
      omega (arith, strcspn-append t (c ∷ r) sep free, strcspn_at_sep c r sep h in_sep) in
    rw
      (
        at_nul-append t c r sep free h,
        stop,
        drop-length-append t (c ∷ r),
        take-length-append t (c ∷ r),
      )
      (ground arith)

at_nul_of_free : (t sep : List ℕ) → t ≢ [] → All (IsFree sep) t → at_nul t ≡ false
at_nul_of_free [] sep h free = absurd (h refl)
at_nul_of_free (b ∷ t) sep h free = ground arith

-- The last token, when it is not empty, is the rest of the text.
pub strsep_last :
    (t sep : List ℕ) → t ≢ [] → All (IsFree sep) t → strsep (some t) sep ≡ (some t, some [])
unfolding strsep
strsep_last t sep h free =
    let stop : strcspn t sep ≡ length t = omega (
      arith,
      ap (λ l. strcspn l sep) (append-nil t),
      strcspn-append t [] sep free,
      strcspn-nil sep,
    ) in
    rw (at_nul_of_free t sep h free, stop, drop-length t)

-- At the end of the text there is no token.
pub strsep-nil : (sep : List ℕ) → strsep (some []) sep ≡ (none, some [])
unfolding strsep
strsep-nil sep = refl

-- The bytes before a token's end come back as a text.
pub c_str-token : (t r sep : List ℕ) → All (IsFree sep) t → c_str (t ++ (0 ∷ r)) ≡ t
unfolding c_str
c_str-token [] r sep free = refl
c_str-token (b ∷ t) r sep free = ground (arith, c_str-token t r sep free.1)
