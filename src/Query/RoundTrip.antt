-- ===== src/Query/RoundTrip.antt =====
-- What is left of a filter after the way over JSON: `MarshalJSON` and then `DecodeFilter`.
use db2rest_bridge.Base.{ℕ, zero, suc, ◌≤◌, none, some, ◌≡◌, refl, ap, arith, ok, panic}
use db2rest_bridge.Types.Errors.{Go}
use db2rest_bridge.Query.Value.{Floats, Value, Fields, str, arr, obj, wire, wire_values, show}
use db2rest_bridge.Query.Filter.{
  FilterExpression, Operands, nil_expr, simple_expr, junction_expr, not_expr, in_expr, un_expr,
  between_expr, nil_operands, no_operands, operand,
}
use db2rest_bridge.Query.Json.{marshal_json, marshal_operands, marshal_items}
use db2rest_bridge.Query.Decode.{
  depth, depth_fields, depth_values, decode_items, decode_expr_from_map, document, decode_filter,
}

-- No expression and no slice inside is nil.
abbrev mutual
  pub IsWhole : {F : Type 0} → FilterExpression F → Type 0
  IsWhole nil_expr = ⊥
  IsWhole (simple_expr name op v) = Unit
  IsWhole (junction_expr op sub) = IsWholeSlice sub
  IsWhole (not_expr e) = IsWhole e
  IsWhole (in_expr name none) = ⊥
  IsWhole (in_expr name (some vals)) = Unit
  IsWhole (un_expr name op) = Unit
  IsWhole (between_expr name left right) = Unit

  IsWholeSlice : {F : Type 0} → Operands F → Type 0
  IsWholeSlice nil_operands = ⊥
  IsWholeSlice no_operands = Unit
  IsWholeSlice (operand e es) = IsWhole e × IsWholeSlice es

module _ {F : Type 0} ⦃fl : Floats F⦄ where
  -- The filter that arrives: the value of a simple expression has become its `%v` text, and every
  -- other number a `float64`.
  unfoldable mutual
    pub received : FilterExpression F → FilterExpression F
    received nil_expr = nil_expr
    received (simple_expr name op v) = simple_expr name op (str (show (wire v)))
    received (junction_expr op sub) = junction_expr op (received_operands sub)
    received (not_expr e) = not_expr (received e)
    received (in_expr name none) = in_expr name none
    received (in_expr name (some vals)) = in_expr name (some (wire_values vals))
    received (un_expr name op) = un_expr name op
    received (between_expr name left right) = between_expr name (wire left) (wire right)

    received_operands : Operands F → Operands F
    received_operands nil_operands = nil_operands
    received_operands no_operands = no_operands
    received_operands (operand e es) = operand (received e) (received_operands es)

  abbrev decode_object : ℕ → Value F → Go (FilterExpression F)
  decode_object fuel (obj m) = decode_expr_from_map fuel m
  decode_object fuel v = panic

  marshal_json-obj :
      (e : FilterExpression F) → IsWhole e → (m : Fields F) × (marshal_json e ≡ obj m)
  unfolding marshal_json
  marshal_json-obj nil_expr w = absurd w
  marshal_json-obj (simple_expr name op v) w = (_, refl)
  marshal_json-obj (junction_expr op sub) w = (_, refl)
  marshal_json-obj (not_expr e) w = (_, refl)
  marshal_json-obj (in_expr name vals) w = (_, refl)
  marshal_json-obj (un_expr name op) w = (_, refl)
  marshal_json-obj (between_expr name left right) w = (_, refl)

  marshal_operands-arr :
      (es : Operands F) → IsWholeSlice es → marshal_operands es ≡ arr (marshal_items es)
  unfolding marshal_json
  marshal_operands-arr nil_operands w = absurd w
  marshal_operands-arr no_operands w = refl
  marshal_operands-arr (operand e es) w = refl

  mutual
    unfolding marshal_json decode_expr_from_map depth received show

    decode_object-marshal :
        (fuel : ℕ) (e : FilterExpression F)
        → IsWhole e
        → depth (marshal_json e) ≤ fuel
        → decode_object fuel (marshal_json e) ≡ ok (received e)
    decode_object-marshal fuel nil_expr w h = absurd w
    decode_object-marshal zero (simple_expr name op v) w h = absurd (omega arith)
    decode_object-marshal (suc fuel) (simple_expr name op v) w h = refl
    decode_object-marshal zero (junction_expr op sub) w h = absurd (omega arith)
    decode_object-marshal (suc fuel) (junction_expr op sub) w h =
        let whole = marshal_operands-arr sub w in
        let items = decode_items-marshal fuel sub w (omega (arith, ap depth whole)) in
        rw (whole, items)
    decode_object-marshal zero (not_expr e) w h = absurd (omega arith)
    decode_object-marshal (suc fuel) (not_expr e) w h =
        let (m, is_obj) = marshal_json-obj e w in
        let inner = decode_object-marshal fuel e w (omega arith) in
        rw is_obj (rw (rw is_obj at inner))
    decode_object-marshal fuel (in_expr name none) w h = absurd w
    decode_object-marshal zero (in_expr name (some vals)) w h = absurd (omega arith)
    decode_object-marshal (suc fuel) (in_expr name (some vals)) w h = refl
    decode_object-marshal zero (un_expr name op) w h = absurd (omega arith)
    decode_object-marshal (suc fuel) (un_expr name op) w h = refl
    decode_object-marshal zero (between_expr name left right) w h = absurd (omega arith)
    decode_object-marshal (suc fuel) (between_expr name left right) w h = refl

    decode_items-marshal :
        (fuel : ℕ) (es : Operands F)
        → IsWholeSlice es
        → depth_values (marshal_items es) ≤ fuel
        → decode_items (decode_expr_from_map fuel) (marshal_items es) ≡ ok (received_operands es)
    decode_items-marshal fuel nil_operands w h = absurd w
    decode_items-marshal fuel no_operands w h = refl
    decode_items-marshal fuel (operand e es) w h =
        let (m, is_obj) = marshal_json-obj e w.0 in
        let first = decode_object-marshal fuel e w.0 (omega arith) in
        let others = decode_items-marshal fuel es w.1 (omega arith) in
        rw is_obj (rw (rw is_obj at first, others))

  -- A filter without nil parts that goes through its JSON text is decoded, and is the one sent but
  -- for the values: that of a simple expression has become its %v text, and other numbers are
  -- float64.
  pub decode_filter-marshal_json :
      (e : FilterExpression F)
      → IsWhole e
      → decode_filter (document (marshal_json e)) ≡ ok (received e)
  unfolding decode_filter
  decode_filter-marshal_json e w =
      let (m, is_obj) = marshal_json-obj e w in
      let whole =
        decode_object-marshal (suc (depth_fields m)) e w
          (unfold depth in omega (arith, ap depth is_obj)) in
      rw is_obj (rw is_obj at whole)
