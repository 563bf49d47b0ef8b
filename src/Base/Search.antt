-- ===== src/Base/Search.antt =====
-- `strings.HasPrefix`, `strings.HasSuffix`, `strings.TrimPrefix` and `strings.Contains`.
use Prim.Native.Char.{code}
use Prim.Native.String.{String}
use mathlib.Core.Path.{◌≡◌, refl}
use mathlib.Core.Bool.{Bool, true, false, ◌||◌}
use mathlib.Core.Option.{Option, none, some}
use db2rest_bridge.Base.Tests.{◌==◌}
use db2rest_bridge.Base.Text.{str_eq}

-- What follows a prefix
unfoldable pub cut_prefix : String → String → Option String
cut_prefix s String.[] = some s
cut_prefix String.[] (String.◌∷◌ d p) = none
cut_prefix (String.◌∷◌ c s) (String.◌∷◌ d p) = elim (code c == code d) [
  | true ↦ cut_prefix s p
  | false ↦ none
]

unfoldable pub has_prefix : String → String → Bool
unfolding cut_prefix
has_prefix s p = elim (cut_prefix s p) [ none ↦ false | some rest ↦ true ]

unfoldable pub trim_prefix : String → String → String
unfolding cut_prefix
trim_prefix s p = elim (cut_prefix s p) [ none ↦ s | some rest ↦ rest ]

unfoldable pub has_suffix : String → String → Bool
has_suffix String.[] p = str_eq "" p
has_suffix (String.◌∷◌ c s) p = str_eq (String.◌∷◌ c s) p || has_suffix s p

unfoldable pub contains : String → String → Bool
unfolding has_prefix
contains String.[] p = has_prefix "" p
contains (String.◌∷◌ c s) p = has_prefix (String.◌∷◌ c s) p || contains s p

contains_test : contains "application/json; charset=utf-8" "json" ≡ true
unfolding contains
contains_test = refl

has_suffix_test : has_suffix "http://localhost/" "/" ≡ true
unfolding has_suffix
has_suffix_test = refl
