-- ===== src/Lost/Text.antt =====
-- The string functions of esp8266/lost/lost.c. A pointer is the memory from it on; a NUL byte ends
-- a string, and the end of the list stands for the last NUL of an allocation. `pgm_read_byte` is
-- a plain read of one byte.
pub mod Laws
use esp8266_xcode.Base.{
  ℕ, zero, suc, ◌+◌, ◌%◌, List, [], ◌∷◌, ◌++◌, Option, none, some, Bool, true, false, ◌==◌, ◌&&◌,
  not, if◌then◌else◌, length, take, drop,
}

-- The text that a pointer stands for: the bytes before the first NUL.
unfoldable pub c_str : List ℕ → List ℕ
c_str [] = []
c_str (b ∷ m) = if b == 0 then [] else b ∷ c_str m

-- Does the pointer stand at a NUL?
abbrev pub at_nul : List ℕ → Bool
at_nul [] = true
at_nul (b ∷ _) = b == 0

-- `memchr` reads `length` bytes, NULs included; the list holds at least so many.
pub memchr : List ℕ → ℕ → ℕ → Option (List ℕ)
memchr src c zero = none
memchr [] c (suc n) = none
memchr (b ∷ src) c (suc n) = if b == c % 256 then some (b ∷ src) else memchr src c n

-- The text that `strcat` leaves in `s1`, which has room for both.
pub strcat : List ℕ → List ℕ → List ℕ
unfolding c_str
strcat s1 s2 = c_str s1 ++ c_str s2

pub strchr : List ℕ → ℕ → Option (List ℕ)
strchr [] chr = if chr % 256 == 0 then some [] else none
strchr (b ∷ str) chr =
    if not (b == 0) && not (b == chr % 256)
    then strchr str chr
    else if b == chr % 256
    then some (b ∷ str)
    else none

-- The inner loop of `strcspn` and `strspn`: the byte at which it stops, 0 when `b` is not in `spn`.
scan_set : ℕ → List ℕ → ℕ
scan_set b [] = 0
scan_set b (c ∷ p) = if c == 0 then 0 else if b == c then c else scan_set b p

unfoldable pub strcspn : List ℕ → List ℕ → ℕ
unfolding scan_set
strcspn [] spn = 0
strcspn (b ∷ str) spn =
    if b == 0 then 0 else if scan_set b spn == 0 then suc (strcspn str spn) else 0

pub strspn : List ℕ → List ℕ → ℕ
unfolding scan_set
strspn [] spn = 0
strspn (b ∷ str) spn = if b == 0 then 0 else if scan_set b spn == 0 then 0 else suc (strspn str spn)

-- The new allocation.
unfoldable pub strdup : List ℕ → List ℕ
unfolding c_str
strdup str = c_str str

-- `len` bytes are copied, also those behind a NUL; the source holds so many.
unfoldable pub strndup : List ℕ → ℕ → List ℕ
strndup str len = take len str

-- The stop of the token: `s + strcspn(s, sep)` is `p`; a separator there is overwritten by NUL.
abbrev cut_at : List ℕ → ℕ → List ℕ → Option (List ℕ) × Option (List ℕ)
cut_at s n [] = (some s, some [])
cut_at s n (c ∷ p) = if c == 0 then (some s, some (c ∷ p)) else (some (take n s ++ (0 ∷ p)), some p)

-- The token and the new `*sp`; `none` is a null pointer.
unfoldable pub strsep : Option (List ℕ) → List ℕ → Option (List ℕ) × Option (List ℕ)
unfolding strcspn
strsep none sep = (none, none)
strsep (some s) sep =
    if at_nul s then (none, some s) else (let n = strcspn s sep in cut_at s n (drop n s))

-- `strcasecmp` is os_strcmp of the SDK, and `qsort` leaves the elements as they are.
pub strcasecmp : {R : Type 0} → (List ℕ → List ℕ → R) → List ℕ → List ℕ → R
strcasecmp os_strcmp s1 s2 = os_strcmp s1 s2

pub qsort : {A : Type 0} → List A → List A
qsort base = base
