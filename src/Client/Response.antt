-- ===== src/Client/Response.antt =====
-- The helpers on properties and on responses (pkg/client/misc.go).
use db2rest_bridge.Base.{
  ℕ, ◌==◌, String, Bool, true, false, not, List, [], ◌∷◌, none, any, str_eq, if◌then◌else◌,
  show_nat, ◌<>◌, ok, err, ◌≡◌, refl, ap, ◌∙◌, arith,
}
use text.Mathlib.TextEquality.{eq_iff}
use db2rest_bridge.Base.Dict.{Dict, lookup}
use db2rest_bridge.Types.Errors.{Error, Go, new_error_with_status}

-- `slices.Contains`
abbrev pub contains : List String → String → Bool
contains props key = any (str_eq key) props

-- `lo.OmitBy`, with a test on the key
abbrev omit_by : {V : Type 0} → (String → Bool) → Dict V → Dict V
omit_by test [] = []
omit_by test ((k, v) ∷ m) = let rest = omit_by test m in if test k then rest else (k, v) ∷ rest

unfoldable pub exclude_props : {V : Type 0} → Dict V → List String → Dict V
exclude_props dto props = omit_by (contains props) dto

unfoldable pub only_props : {V : Type 0} → Dict V → List String → Dict V
only_props dto props = omit_by (λ key. not (contains props key)) dto

-- `ensureResponseCode`, of the status of the response and the text of its body, with the space around
-- it trimmed. The error carries the code that was wanted.
unfoldable pub ensure_response_code : ℕ → ℕ → String → Go (Unit {0})
unfolding new_error_with_status show_nat
ensure_response_code status code body =
    if status == code
    then ok tt
    else err (
        new_error_with_status
          ("unexpected error code: "
            <> show_nat status
            <> ", wanted: "
            <> show_nat code
            <> ", body: "
            <> body)
          code)

unfoldable pub error_from_response_with_msg : ℕ → String → Error
unfolding new_error_with_status
error_from_response_with_msg status msg = new_error_with_status msg status

unfoldable pub error_from_response : ℕ → Error
unfolding error_from_response_with_msg show_nat
error_from_response status =
    error_from_response_with_msg status ("unexpected error code: " <> show_nat status)

if_not : {A : Type 0} (b : Bool) (x y : A) → (if not b then x else y) ≡ (if b then y else x)
if_not true x y = refl
if_not false x y = refl

same_test : (test : String → Bool) (k key : String) → str_eq k key ≡ true → test k ≡ test key
same_test test k key h = ap test ((eq_iff k key).0 h)

module _ {V : Type 0} (test : String → Bool) (key : String) where
  -- An omitted key is gone, and any other is as it was.
  lookup-omit_by :
      (m : Dict V) → lookup key (omit_by test m) ≡ (if test key then none else lookup key m)
  unfolding lookup
  lookup-omit_by [] = ground arith
  lookup-omit_by ((k, v) ∷ m) =
      let ih = lookup-omit_by m in let agree = same_test test k key in ground (arith, ih, agree)

module _ {V : Type 0} (dto : Dict V) (props : List String) (key : String) where
  -- Of an object, excludeProps drops the properties named and onlyProps drops the others, and both
  -- leave the values of those that stay as they were.
  lookup-props :
      (lookup key (exclude_props dto props) ≡ (if contains props key then none else lookup key dto))
      × (lookup key (only_props dto props) ≡ (if contains props key then lookup key dto else none))
  unfolding exclude_props only_props
  lookup-props = (
    lookup-omit_by (contains props) key dto,
    lookup-omit_by (λ k. not (contains props k)) key dto ∙ if_not (contains props key) none _,
  )
