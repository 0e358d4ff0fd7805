-- ===== src/Prelude/Text.antt =====
-- Text: concatenation, the parts that `str` methods give, over the characters of a text.
use Prim.Native.String
use Prim.Native.String.{String}
use mathlib.Core.Bool.{Bool, false, ◌||◌}
use mathlib.Core.List.{List, [], ◌∷◌}
use text.Mathlib.Text.{◌==◌}
use text.Mathlib.TextLemmas.{append-eq-nil_iff}
use mathlib.Core.Logic.{◌≢◌}

-- `format!("{}{}", s, t)`
infixr 65 ◌<>◌
abbrev pub ◌<>◌ : String → String → String
s <> t = String.◌++◌ s t

-- `contains` of a set or slice of texts.
unfoldable pub contains : List String → String → Bool
contains [] s = false
contains (x ∷ xs) s = x == s || contains xs s

abbrev pub is_empty_text : String → Bool
is_empty_text s = s == ""

pub append-ne-empty : (s t : String) → s ≢ "" → s <> t ≢ ""
append-ne-empty s t h e = h ((append-eq-nil_iff {p = s} {q = t}).0 e).0
