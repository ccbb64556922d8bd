-- ===== src/Rtc/Tests.antt =====
-- Runs of esp8266/app/rtc.c on a memory that holds the 512 bytes of the store.
use mathlib.Core.Logic.{dite, dif_pos}
use native.Mathlib.Nat.{ℕ_set}
use native.Mathlib.Decide.{ℕ_discrete}
use esp8266_xcode.Base.{
  ℕ, ◌-◌, ◌*◌, List, [], ◌∷◌, ◌≡◌, sym, ap, ◌∙◌, arith, length, take, take-length,
}
use esp8266_xcode.Base.Slices.{slice}
use esp8266_xcode.Rtc.{RtcMemory, rtc_read, rtc_write, rtc_begin, erased}
use esp8266_xcode.Rtc.Checks.{length-erased}
use esp8266_xcode.Rtc.Laws.{Started, rtc_begin-Started}
use esp8266_xcode.Rtc.Access.{rtc_read-rtc_write, rtc_read-rtc_write_ne}

abbrev Store : Type 0
Store = (d : List ℕ) × (length d ≡ 512)

put : List ℕ → Store → Store
put d m = dite (ℕ_discrete (length d) 512) (λ h. (d, h)) (λ _. m)

put-first : (d : List ℕ) (m : Store) → length d ≡ 512 → (put d m).0 ≡ d
unfolding put
put-first d m h =
    ap (λ s. s.0) (dif_pos (ℕ_discrete (length d) 512) (ℕ_set _ _) h (λ h. (d, h)) (λ _. m))

whole : (m : Store) → slice 0 512 m.0 ≡ m.0
whole (d, h) = ap (λ n. take n d) (sym h) ∙ take-length d

abbrev store : RtcMemory
store = record {
  Memory = Store;
  read = λ b n m. slice (4 * (b - 64)) n m.0;
  write = λ b d m. put d m;
  read-write = λ d m h. whole (put d m) ∙ put-first d m h;
  length-read = λ m. ap length (whole m) ∙ m.1;
  read_part =
      λ k n m h. ap (λ i. slice i n m.0) (omega arith) ∙ ap (slice (4 * k) n) (sym (whole m));
}

abbrev blank : Store
blank = (erased 512, length-erased 512)

-- Two bytes that cross a word, in the second region.
rtc_read-rtc_write_example :
    rtc_read store 131 2 (rtc_write store 131 (7 ∷ 9 ∷ []) blank) ≡ 7 ∷ 9 ∷ []
rtc_read-rtc_write_example = rtc_read-rtc_write store 131 (7 ∷ 9 ∷ []) blank (omega arith)

rtc_read-rtc_write_ne_example :
    rtc_read store 4 4 (rtc_write store 131 (7 ∷ 9 ∷ []) blank) ≡ rtc_read store 4 4 blank
rtc_read-rtc_write_ne_example =
    rtc_read-rtc_write_ne store 131 4 4 (7 ∷ 9 ∷ []) blank (omega arith) (omega arith) (omega arith)

rtc_begin-Started_example : Started (slice 0 512 blank.0) (slice 0 512 (rtc_begin store blank).0)
rtc_begin-Started_example = rtc_begin-Started store blank
