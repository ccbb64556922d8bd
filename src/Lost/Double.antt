-- ===== src/Lost/Double.antt =====
-- `strtod` of esp8266/lost/lost.c. The arithmetic of `double` is the interface Double.
pub mod Laws
use esp8266_xcode.Base.{
  ℕ, zero, suc, ◌+◌, ◌-◌, ◌*◌, ◌^◌, ◌<◌, ◌≤◌, List, [], ◌∷◌, Bool, true, false, ◌==◌, ◌&&◌, leb,
  if◌then◌else◌, ◌≡◌, ◌≢◌, refl, ap, ◌∙◌, sym, arith, Bool-cases, inl, inr,
}
use esp8266_xcode.Base.Int.{ℤ, pos}
use esp8266_xcode.Lost.Number.{Scan, between, scan10, signed, strtol}

-- `of_nat` is the conversion of an `int`; the constants are 10.0 and 0.1. The whole numbers below
-- 2 ^ 53 are exact.
pub record Double : Type 1 where
  pub D : Type 0
  pub of_nat : ℕ → D
  pub plus : D → D → D
  pub times : D → D → D
  pub negate : D → D
  pub ten : D
  pub tenth : D
  pub exact :
      (n d : ℕ) → n * 10 + d < 2 ^ 53 → plus (times (of_nat n) ten) (of_nat d) ≡ of_nat (n * 10 + d)

module _ (double : Double) where
  open double use {D, of_nat, plus, times, negate, ten, tenth}

  -- The first loop: `negative`, `result`, and the text from `str` on.
  pub whole : List ℕ → Bool → D → Bool × D × List ℕ
  whole [] negative result = (negative, result, [])
  whole (c ∷ str) negative result =
      let minus = whole str true result in
      let digit = whole str negative (plus (times result ten) (of_nat (c - b'0'))) in
      if c == 0
      then (negative, result, c ∷ str)
      else if c == b'-'
      then minus
      else if c == b'.'
      then (negative, result, c ∷ str)
      else if between b'0' b'9' c
      then digit
      else (negative, result, c ∷ str)

  -- The second loop: `result`, and the text from `str` on.
  pub fraction : List ℕ → D → D → D × List ℕ
  fraction [] result point = (result, [])
  fraction (c ∷ str) result point =
      let skip = fraction str result point in
      let point' = times point tenth in
      let digit = fraction str (plus result (times (of_nat (c - b'0')) point')) point' in
      if c == 0
      then (result, c ∷ str)
      else if c == b'-'
      then (result, c ∷ str)
      else if c == b'.'
      then skip
      else if between b'0' b'9' c
      then digit
      else (result, c ∷ str)

  -- What follows the first loop: the result and `*str_end`.
  pub finish : Bool × D × List ℕ → D × List ℕ
  unfolding fraction
  finish (negative, w, rest) =
      let (result, end) = fraction rest w (of_nat 1) in
      (if negative then negate result else result, end)

  pub strtod : List ℕ → D × List ℕ
  unfolding whole finish
  strtod str = finish (whole str false (of_nat 0))
