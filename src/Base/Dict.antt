-- ===== src/Base/Dict.antt =====
-- Go maps as association lists. The order of the entries is that in which `range` yields them,
-- which Go leaves open: what is computed from a map is sorted, or is stated for every order.
use Prim.Native.String.{String}
use mathlib.Core.Path.{◌≡◌, refl}
use mathlib.Core.Option.{Option, none, some}
use mathlib.Core.List.{List, [], ◌∷◌}
use db2rest_bridge.Base.Tests.{if◌then◌else◌}
use db2rest_bridge.Base.Text.{str_eq, str_lt}

abbrev pub Dict {ℓ} : Type ℓ → Type ℓ
Dict V = List (String × V)

module _ {ℓ} {V : Type ℓ} where
  -- `m[key]` with the flag that tells whether it is there
  unfoldable pub lookup : String → Dict V → Option V
  lookup key [] = none
  lookup key ((k, v) ∷ m) = if str_eq k key then some v else lookup key m

  -- `m[key] = v`
  unfoldable pub insert : String → V → Dict V → Dict V
  insert key v [] = (key, v) ∷ []
  insert key v ((k, w) ∷ m) = if str_eq k key then (key, v) ∷ m else (k, w) ∷ insert key v m

  -- `lo.Keys`
  abbrev pub keys : Dict V → List String
  keys [] = []
  keys ((k, v) ∷ m) = k ∷ keys m

-- `slices.Sort` of texts
abbrev insert_sorted : String → List String → List String
insert_sorted s [] = s ∷ []
insert_sorted s (t ∷ ts) = if str_lt t s then t ∷ insert_sorted s ts else s ∷ t ∷ ts

unfoldable pub sort : List String → List String
sort [] = []
sort (s ∷ ss) = insert_sorted s (sort ss)

sort_test : sort ("name" ∷ "age" ∷ "nam" ∷ []) ≡ "age" ∷ "nam" ∷ "name" ∷ []
unfolding sort
sort_test = refl
