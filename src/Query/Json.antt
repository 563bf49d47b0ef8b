-- ===== src/Query/Json.antt =====
-- The methods `MarshalJSON` of filters (pkg/query/filter.go) and `EncodeFilter` (pkg/query/codec.go).
-- A JSON text is represented by what `json.Unmarshal` reads from it.
use db2rest_bridge.Base.{String, Option, none, some}
use db2rest_bridge.Query.Value.{
  Floats, Value, Values, null, str, arr, obj, no_values, value, no_fields, field, wire, wire_values,
}
use db2rest_bridge.Query.Filter.{
  FilterExpression, Operands, nil_expr, simple_expr, junction_expr, not_expr, in_expr, un_expr,
  between_expr, nil_operands, no_operands, operand,
}

abbrev one_field : {F : Type 0} → String → Value F → Value F
one_field key v = obj (field key v no_fields)

module _ {F : Type 0} ⦃fl : Floats F⦄ where
  -- A nil slice is the JSON null.
  abbrev slice_json : Option (Values F) → Value F
  slice_json none = null
  slice_json (some vs) = arr (wire_values vs)

  unfoldable mutual
    pub marshal_json : FilterExpression F → Value F
    marshal_json nil_expr = null
    marshal_json (simple_expr name op v) =
        one_field "simple"
          (obj (field "name" (str name) (field "op" (str op) (field "val" (wire v) no_fields))))
    marshal_json (junction_expr op sub) =
        one_field "junction"
          (obj (field "op" (str op) (field "sub" (marshal_operands sub) no_fields)))
    marshal_json (not_expr e) = one_field "not" (marshal_json e)
    marshal_json (in_expr name vals) =
        one_field "in" (obj (field "name" (str name) (field "val" (slice_json vals) no_fields)))
    marshal_json (un_expr name op) =
        one_field "un" (obj (field "name" (str name) (field "op" (str op) no_fields)))
    marshal_json (between_expr name left right) = one_field "between" (
        obj (
          field "left" (wire left)
            (field "name" (str name) (field "right" (wire right) no_fields))))

    pub marshal_operands : Operands F → Value F
    marshal_operands nil_operands = null
    marshal_operands no_operands = arr no_values
    marshal_operands (operand e es) = arr (value (marshal_json e) (marshal_items es))

    pub marshal_items : Operands F → Values F
    marshal_items nil_operands = no_values
    marshal_items no_operands = no_values
    marshal_items (operand e es) = value (marshal_json e) (marshal_items es)
