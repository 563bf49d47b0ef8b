-- ===== src/Query/Decode.antt =====
-- Filters read back from JSON (pkg/query/codec.go): `DecodeFilter` and its helpers.
use db2rest_bridge.Base.{
  ℕ, zero, suc, String, Option, none, some, ok, err, panic, out_of_fuel, ◌>>=◌,
}
use Prim.Native.Nat.{max}
use db2rest_bridge.Types.Errors.{Go, json}
use db2rest_bridge.Query.Value.{
  Floats, Value, Values, Fields, null, bool, int, float, str, arr, obj, no_values, value, no_fields,
  field, get_field, field_or_nil, show,
}
use db2rest_bridge.Query.Filter.{
  FilterExpression, Operands, nil_expr, simple_expr, junction_expr, not_expr, in_expr, un_expr,
  between_expr, no_operands, operand,
}

-- How deep objects and arrays are nested.
unfoldable mutual
  pub depth : {F : Type 0} → Value F → ℕ
  depth null = 0
  depth (bool b) = 0
  depth (int i) = 0
  depth (float x) = 0
  depth (str s) = 0
  depth (arr vs) = suc (depth_values vs)
  depth (obj fs) = suc (depth_fields fs)

  pub depth_values : {F : Type 0} → Values F → ℕ
  depth_values no_values = 0
  depth_values (value v vs) = max (depth v) (depth_values vs)

  pub depth_fields : {F : Type 0} → Fields F → ℕ
  depth_fields no_fields = 0
  depth_fields (field k v fs) = max (depth v) (depth_fields fs)

-- `v.(map[string]interface{})` with the flag
abbrev pub as_map : {F : Type 0} → Value F → Option (Fields F)
as_map (obj fs) = some fs
as_map _ = none

-- `hasSubMap`
unfoldable pub has_sub_map : {F : Type 0} → String → Fields F → Option (Fields F)
unfolding get_field
has_sub_map key m = elim (get_field key m) [ none ↦ none | some v ↦ as_map v ]

-- `if sub, ok = …; ok { return f(sub) }`, and otherwise what follows
abbrev pub on_some {ℓ κ} : {A : Type ℓ} {B : Type κ} → Option A → (A → B) → B → B
on_some (some a) f rest = f a
on_some none f rest = rest

-- `v.(string)` and `v.([]interface{})` without the flag panic on another type.
abbrev pub must_text : {F : Type 0} → Value F → Go String
must_text (str s) = ok s
must_text _ = panic

abbrev pub must_list : {F : Type 0} → Value F → Go (Values F)
must_list (arr vs) = ok vs
must_list _ = panic

module _ {F : Type 0} ⦃fl : Floats F⦄ where
  unfoldable pub simple_expr_from_map : Fields F → Go (FilterExpression F)
  unfolding field_or_nil
  simple_expr_from_map m = do
    op ← must_text (field_or_nil "op" m)
    ok (simple_expr (show (field_or_nil "name" m)) op (str (show (field_or_nil "val" m))))

  unfoldable pub in_expr_from_map : Fields F → Go (FilterExpression F)
  unfolding field_or_nil
  in_expr_from_map m = do
    vals ← must_list (field_or_nil "val" m)
    ok (in_expr (show (field_or_nil "name" m)) (some vals))

  unfoldable pub un_expr_from_map : Fields F → Go (FilterExpression F)
  unfolding field_or_nil
  un_expr_from_map m = do
    op ← must_text (field_or_nil "op" m)
    ok (un_expr (show (field_or_nil "name" m)) op)

  unfoldable between_expr_from_map : Fields F → FilterExpression F
  unfolding field_or_nil
  between_expr_from_map m =
      between_expr (show (field_or_nil "name" m)) (field_or_nil "left" m) (field_or_nil "right" m)

  -- The `lo.Map` of `junctionExprFromMap`; an item that is no object panics.
  unfoldable pub decode_items : (Fields F → Go (FilterExpression F)) → Values F → Go (Operands F)
  decode_items decode no_values = ok no_operands
  decode_items decode (value (obj m) vs) = do
    e ← decode m
    es ← decode_items decode vs
    ok (operand e es)
  decode_items decode (value v vs) = panic

  unfoldable pub junction_expr_from_map :
      (Fields F → Go (FilterExpression F)) → Fields F → Go (FilterExpression F)
  unfolding decode_items field_or_nil
  junction_expr_from_map decode m = do
    op ← must_text (field_or_nil "op" m)
    sub ← must_list (field_or_nil "sub" m)
    es ← decode_items decode sub
    ok (junction_expr op es)

  unfoldable pub not_expr_from_map :
      (Fields F → Go (FilterExpression F)) → Fields F → Go (FilterExpression F)
  not_expr_from_map decode m = do e ← decode m; ok (not_expr e)

  -- `decodeExprFromMap`: the first of six keys that holds an object decides; with none it is nil.
  -- The first argument bounds the nesting.
  unfoldable pub decode_expr_from_map : ℕ → Fields F → Go (FilterExpression F)
  unfolding has_sub_map simple_expr_from_map in_expr_from_map un_expr_from_map between_expr_from_map
      junction_expr_from_map not_expr_from_map
  decode_expr_from_map zero m = out_of_fuel
  decode_expr_from_map (suc fuel) m = on_some (has_sub_map "simple" m) simple_expr_from_map (
      on_some (has_sub_map "junction" m) (junction_expr_from_map (decode_expr_from_map fuel)) (
        on_some (has_sub_map "not" m) (not_expr_from_map (decode_expr_from_map fuel)) (
          on_some (has_sub_map "in" m) in_expr_from_map (
            on_some (has_sub_map "un" m) un_expr_from_map (
              on_some (has_sub_map "between" m) (λ sub. ok (between_expr_from_map sub))
                (ok nil_expr))))))

-- A text handed to the JSON decoder: one that is malformed, or the value that is read first.
pub data Document (F : Type 0) : Type 0 where
  malformed : Document F
  document : Value F → Document F

module _ {F : Type 0} ⦃fl : Floats F⦄ where
  -- `DecodeFilter`. The JSON null leaves the map nil, and then the filter is nil; another value that
  -- is no object is an error.
  unfoldable pub decode_filter : Document F → Go (FilterExpression F)
  unfolding decode_expr_from_map depth
  decode_filter malformed = err json
  decode_filter (document null) = ok nil_expr
  decode_filter (document (obj m)) = decode_expr_from_map (suc (depth_fields m)) m
  decode_filter (document v) = err json
