-- ===== src/Base/Text.antt =====
-- Text as the list of its code points.
use Prim.Native.Char.{code}
use Prim.Native.Nat.{ℕ}
use Prim.Native.String.{String}
use mathlib.Core.List.{List, [], ◌∷◌}

abbrev pub Str : Type 0
Str = List ℕ

-- Shut, so that a literal stays one unknown in proofs; a test unfolds it.
unfoldable pub codes : String → Str
codes String.[] = []
codes (String.◌∷◌ c s) = code c ∷ codes s
