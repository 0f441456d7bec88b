-- ===== src/Prelude/Texts.antt =====
-- `format!`: the pieces of a text put one behind the other.
use Prim.Native.String.{String, ◌++◌ as str_append}
use mathlib.Core.List.{List, [], ◌∷◌}

abbrev pub format : List String → String
format [] = ""
format (s ∷ []) = s
format (s ∷ t ∷ rest) = str_append s (format (t ∷ rest))
