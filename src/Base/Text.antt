-- ===== src/Base/Text.antt =====
-- The bytes of an ASCII string literal.
use Prim.Native.Nat.{ℕ}
use Prim.Native.Char.{code}
use Prim.Native.String.{String}
use mathlib.Core.List.{List, [], ◌∷◌}

abbrev pub codes : String → List ℕ
codes String.[] = []
codes (String.◌∷◌ c s) = code c ∷ codes s
