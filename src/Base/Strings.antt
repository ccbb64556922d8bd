-- ===== src/Base/Strings.antt =====
-- Literal texts as bytes.
use Prim.Native.Char.{code}
use Prim.Native.String.{String}
use esp8266_xcode.Base.{ℕ, List, [], ◌∷◌}

-- The bytes of an ASCII text. `String` has its own `[]` and `∷`.
abbrev pub codes : String → List ℕ
codes String.[] = []
codes (String.◌∷◌ c s) = code c ∷ codes s
