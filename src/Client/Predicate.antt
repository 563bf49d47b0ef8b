-- ===== src/Client/Predicate.antt =====
-- Filters as predicates on items (pkg/client/filter.go).
use db2rest_bridge.Base.{
  String, Bool, true, false, not, Option, none, some, ◌||◌, str_eq, if◌then◌else◌,
}
use db2rest_bridge.Base.Maybe.{◌>>=◌}
use db2rest_bridge.Query.Value.{Value, Values, null, no_values, value}
use db2rest_bridge.Query.Filter.{
  FilterExpression, Operands, nil_expr, simple_expr, junction_expr, not_expr, in_expr, un_expr,
  between_expr, nil_operands, no_operands, operand, op_and, op_or, op_eq,
}

-- What is used of the packages dom and cmp: the child of an item's node by its name, whether a node is
-- a leaf, the value of a leaf, and the equality of values.
pub record Nodes (F T : Type 0) : Type 1 where
  pub Node : Type 0
  pub child : T → String → Option Node
  pub is_leaf : Node → Bool
  pub leaf_value : Node → Value F
  pub equal : Value F → Value F → Bool

module _ {F T : Type 0} (nodes : Nodes F T) where
  open nodes use {Node, child, is_leaf, leaf_value, equal}

  -- `extractItemProperty`
  unfoldable pub extract_item_property : String → T → Value F
  extract_item_property prop item = elim (child item prop) [
    | none ↦ null
    | some node ↦ if is_leaf node then leaf_value node else null
  ]

  abbrev any_equal : Value F → Values F → Bool
  any_equal v no_values = false
  any_equal v (value w vs) = equal w v || any_equal v vs

  abbrev pub in_slice : Value F → Option (Values F) → Bool
  in_slice v none = false
  in_slice v (some vs) = any_equal v vs

  -- `SimpleExpressionPredicate`; another operator panics: `none`
  unfoldable pub simple_predicate : String → Value F → Value F → Option Bool
  simple_predicate op w v =
      if str_eq op op_eq
      then some (equal w v)
      else if str_eq op "!=" || str_eq op "<>"
      then some (not (equal w v))
      else none

  -- `out && …` and `out || …`, where the right side is evaluated only if it is needed
  abbrev and_then : Bool → Option Bool → Option Bool
  and_then true m = m
  and_then false m = some false

  abbrev or_then : Bool → Option Bool → Option Bool
  or_then true m = some true
  or_then false m = m

  -- `FilterExpressionAsPredicate`, with the loops of `JunctionExpressionPredicate`; unary and between
  -- expressions panic.
  unfoldable mutual
    unfolding simple_predicate extract_item_property

    pub as_predicate : FilterExpression F → T → Option Bool
    as_predicate nil_expr item = some true
    as_predicate (simple_expr name op w) item =
        simple_predicate op w (extract_item_property name item)
    as_predicate (junction_expr op sub) item =
        let conj = and_loop true sub item in
        let disj = or_loop false sub item in
        if str_eq op op_and then conj else if str_eq op op_or then disj else none
    as_predicate (not_expr e) item = do b ← as_predicate e item; some (not b)
    as_predicate (in_expr name vals) item = some (in_slice (extract_item_property name item) vals)
    as_predicate (un_expr name op) item = none
    as_predicate (between_expr name left right) item = none

    pub and_loop : Bool → Operands F → T → Option Bool
    and_loop out nil_operands item = some out
    and_loop out no_operands item = some out
    and_loop out (operand e es) item = do
      out' ← and_then out (as_predicate e item)
      and_loop out' es item

    pub or_loop : Bool → Operands F → T → Option Bool
    or_loop out nil_operands item = some out
    or_loop out no_operands item = some out
    or_loop out (operand e es) item = do
      out' ← or_then out (as_predicate e item)
      or_loop out' es item
