-- ===== src/Lost/Double/Laws.antt =====
-- `strtod` of esp8266/lost/lost.c on whole numbers.
use esp8266_xcode.Base.{
  ℕ, ◌+◌, ◌-◌, ◌*◌, ◌^◌, ◌%◌, ◌<◌, ◌≤◌, List, [], ◌∷◌, Bool, true, false, ◌==◌, if◌then◌else◌, ◌≡◌,
  ◌≢◌, refl, ap, ◌∙◌, arith, Bool-cases, inl, inr,
}
use esp8266_xcode.Lost.Number.{Scan, between, scan10, signed, strtol}
use esp8266_xcode.Base.Int.{pos, sub_ℕ}
use esp8266_xcode.Lost.Double.{Double, whole, fraction, finish, strtod}

-- The loop of strtol in base ten with numbers of any size.
unfoldable pub scan_exact : List ℕ → Bool → ℕ → Scan
scan_exact [] negative result = record { negative = negative; result = result; rest = [] }
scan_exact (c ∷ str) negative result =
    let minus = scan_exact str true result in
    let digit = scan_exact str negative (result * 10 + c - b'0') in
    if c == 0
    then record { negative = negative; result = result; rest = c ∷ str }
    else if c == b'-'
    then minus
    else if between b'0' b'9' c
    then digit
    else record { negative = negative; result = result; rest = c ∷ str }

scan_exact_grows : (str : List ℕ) (s : Bool) (n : ℕ) → n ≤ (scan_exact str s n).result
unfolding scan_exact
scan_exact_grows [] s n = omega arith
scan_exact_grows (c ∷ str) s n =
    ground (arith, scan_exact_grows str true n, scan_exact_grows str s (n * 10 + c - b'0'))

-- A number that stays below 2 ^ 32 does not wrap.
scan10_exact :
    (str : List ℕ) (s : Bool) (n : ℕ)
    → (scan_exact str s n).result < 2 ^ 32
    → scan10 str s n ≡ scan_exact str s n
unfolding scan10 scan_exact
scan10_exact [] s n h = refl
scan10_exact (c ∷ str) s n h = elim (Bool-cases (c == 0)) [
  | inl z ↦ rw z
  | inr z ↦ elim (Bool-cases (c == b'-')) [
    | inl m ↦ rw (z, m) (scan10_exact str true n (rw (z, m) at h))
    | inr m ↦ elim (Bool-cases (between b'0' b'9' c)) [
      | inl d ↦
          let h' : (scan_exact str s (n * 10 + c - b'0')).result < 2 ^ 32 = rw (z, m, d) at h in
          let small : (n * 10 + c - b'0') % 2 ^ 32 ≡ n * 10 + c - b'0' =
            omega (arith, scan_exact_grows str s (n * 10 + c - b'0')) in
          rw (z, m, d) (ap (scan10 str s) small ∙ scan10_exact str s (n * 10 + c - b'0') h')
      | inr d ↦ rw (z, m, d)
    ]
  ]
]

-- The byte at the end is no digit and no minus sign.
abbrev pub Ends : List ℕ → Type 0
Ends [] = Unit
Ends (c ∷ _) = (c ≢ b'-') × (between b'0' b'9' c ≡ false)

scan_exact-Ends : (str : List ℕ) (s : Bool) (n : ℕ) → Ends (scan_exact str s n).rest
unfolding scan_exact
scan_exact-Ends [] s n = tt
scan_exact-Ends (c ∷ str) s n = elim (Bool-cases (c == 0)) [
  | inl z ↦ rw z (ground arith)
  | inr z ↦ elim (Bool-cases (c == b'-')) [
    | inl m ↦ rw (z, m) (scan_exact-Ends str true n)
    | inr m ↦ elim (Bool-cases (between b'0' b'9' c)) [
      | inl d ↦ rw (z, m, d) (scan_exact-Ends str s (n * 10 + c - b'0'))
      | inr d ↦ rw (z, m, d) ((ground arith, d))
    ]
  ]
]

signed_lem :
    (s : Scan)
    → s.result < 2 ^ 31
    → signed s ≡ ((if s.negative then sub_ℕ 0 s.result else pos s.result), s.rest)
signed_lem s h = ap (λ z. (z, s.rest)) (ground arith)

-- No decimal point goes on here.
abbrev pub NoPoint : List ℕ → Type 0
NoPoint [] = Unit
NoPoint (c ∷ _) = c ≢ b'.'

module _ (double : Double) where
  open double use {D, of_nat, plus, times, negate, ten, exact}

  abbrev read : Scan → Bool × D × List ℕ
  read s = (s.negative, of_nat s.result, s.rest)

  whole-scan_exact :
      (str : List ℕ) (s : Bool) (n : ℕ)
      → (scan_exact str s n).result < 2 ^ 53
      → whole double str s (of_nat n) ≡ read (scan_exact str s n)
  unfolding whole scan_exact
  whole-scan_exact [] s n h = refl
  whole-scan_exact (c ∷ str) s n h = elim (Bool-cases (c == 0)) [
    | inl z ↦ rw z
    | inr z ↦ elim (Bool-cases (c == b'-')) [
      | inl m ↦ rw (z, m) (whole-scan_exact str true n (rw (z, m) at h))
      | inr m ↦ elim (Bool-cases (between b'0' b'9' c)) [
        | inl d ↦
            let p : (c == b'.') ≡ false = ground arith in
            let h' : (scan_exact str s (n * 10 + c - b'0')).result < 2 ^ 53 = rw (z, m, d) at h in
            let low : b'0' ≤ c = ground arith in
            let v : n * 10 + (c - b'0') ≡ n * 10 + c - b'0' = omega arith in
            let small : n * 10 + (c - b'0') < 2 ^ 53 =
              omega (arith, scan_exact_grows str s (n * 10 + c - b'0')) in
            rw (z, m, p, d)
              (ap (whole double str s) (exact n (c - b'0') small ∙ ap of_nat v)
                ∙ whole-scan_exact str s (n * 10 + c - b'0') h')
        | inr d ↦ elim (Bool-cases (c == b'.')) [
          | inl p ↦ rw (z, m, p, d)
          | inr p ↦ rw (z, m, p, d)
        ]
      ]
    ]
  ]

  fraction-Ends : (r : List ℕ) (x y : D) → Ends r → NoPoint r → fraction double r x y ≡ (x, r)
  unfolding fraction
  fraction-Ends [] x y e p = refl
  fraction-Ends (c ∷ r) x y e p =
      let dot : (c == b'.') ≡ false = ground arith in
      let minus : (c == b'-') ≡ false = ground arith in
      elim (Bool-cases (c == 0)) [ inl z ↦ rw z | inr z ↦ rw (z, minus, dot, e.1) ]

  -- Where the digits that a scan in base ten with numbers of any size reads, over the minus
  -- signs among them, are a number below 2 ^ 31, and no decimal point follows: strtod gives the
  -- double of this number and strtol the number, both negative where there was a minus sign, and
  -- both stop where the scan does.
  pub strtod-strtol :
      (str : List ℕ)
      → let s = scan_exact str false 0 in
        s.result < 2 ^ 31
        → NoPoint s.rest
        → (strtod double str
            ≡ ((if s.negative then negate (of_nat s.result) else of_nat s.result), s.rest))
          × (strtol str 10 ≡ ((if s.negative then sub_ℕ 0 s.result else pos s.result), s.rest))
  unfolding strtod strtol
  strtod-strtol str h p =
      let s = scan_exact str false 0 in
      (
        ap (finish double) (whole-scan_exact str false 0 (omega arith))
            ∙ ap (λ r. ((if s.negative then negate r.0 else r.0), r.1))
                (fraction-Ends s.rest (of_nat s.result) (of_nat 1) (scan_exact-Ends str false 0) p),
        ap signed (scan10_exact str false 0 (omega arith)) ∙ signed_lem s h,
      )
