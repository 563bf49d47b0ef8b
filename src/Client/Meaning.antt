-- ===== src/Client/Meaning.antt =====
-- What the predicate of a filter (pkg/client/filter.go) decides.
use db2rest_bridge.Base.{
  String, Bool, true, false, not, some, ◌≡◌, refl, ◌⊎◌, ◌&&◌, ◌||◌, str_eq, if◌then◌else◌, arith,
}
use text.Mathlib.TextEquality.{eq_iff}
use db2rest_bridge.Query.Value.{Value}
use db2rest_bridge.Query.Filter.{
  FilterExpression, Operands, nil_expr, simple_expr, junction_expr, not_expr, in_expr, un_expr,
  between_expr, nil_operands, no_operands, operand, op_and, op_or, op_eq,
}
use db2rest_bridge.Client.Predicate.{
  Nodes, extract_item_property, in_slice, simple_predicate, as_predicate, and_loop, or_loop,
}

abbrev IsComparison : String → Type 0
IsComparison op = (op ≡ op_eq) ⊎ (op ≡ "!=") ⊎ (op ≡ "<>")

abbrev IsJunction : String → Type 0
IsJunction op = (op ≡ op_and) ⊎ (op ≡ op_or)

-- Comparisons are equalities, junctions are AND or OR, and no unary or between expression occurs.
abbrev mutual
  pub IsSupported : {F : Type 0} → FilterExpression F → Type 0
  IsSupported nil_expr = Unit
  IsSupported (simple_expr name op v) = IsComparison op
  IsSupported (junction_expr op sub) = IsJunction op × AllSupported sub
  IsSupported (not_expr e) = IsSupported e
  IsSupported (in_expr name vals) = Unit
  IsSupported (un_expr name op) = ⊥
  IsSupported (between_expr name left right) = ⊥

  AllSupported : {F : Type 0} → Operands F → Type 0
  AllSupported nil_operands = Unit
  AllSupported no_operands = Unit
  AllSupported (operand e es) = IsSupported e × AllSupported es

module _ {F T : Type 0} (nodes : Nodes F T) where
  open nodes use {equal}

  -- The truth of a filter at an item, by its structure: AND is all, OR is any, NOT the complement.
  unfoldable mutual
    pub holds : FilterExpression F → T → Bool
    holds nil_expr item = true
    holds (simple_expr name op w) item =
        let same = equal w (extract_item_property nodes name item) in
        if str_eq op op_eq then same else not same
    holds (junction_expr op sub) item =
        let conj = all_hold sub item in
        let disj = any_holds sub item in if str_eq op op_and then conj else disj
    holds (not_expr e) item = not (holds e item)
    holds (in_expr name vals) item = in_slice nodes (extract_item_property nodes name item) vals
    holds (un_expr name op) item = false
    holds (between_expr name left right) item = false

    all_hold : Operands F → T → Bool
    all_hold nil_operands item = true
    all_hold no_operands item = true
    all_hold (operand e es) item = holds e item && all_hold es item

    any_holds : Operands F → T → Bool
    any_holds nil_operands item = false
    any_holds no_operands item = false
    any_holds (operand e es) item = holds e item || any_holds es item

  simple_predicate_lem :
      (op : String) (w v : Value F)
      → IsComparison op
      → simple_predicate nodes op w v
        ≡ some (if str_eq op op_eq then equal w v else not (equal w v))
  unfolding simple_predicate
  simple_predicate_lem op w v h = ground (arith, eq_iff op op_eq, eq_iff op "!=", eq_iff op "<>")

  mutual
    unfolding as_predicate holds

    as_predicate-holds :
        (e : FilterExpression F) (item : T)
        → IsSupported e
        → as_predicate nodes e item ≡ some (holds e item)
    as_predicate-holds nil_expr item h = refl
    as_predicate-holds (simple_expr name op w) item h = simple_predicate_lem op w _ h
    as_predicate-holds (junction_expr op sub) item h = ground (
      arith,
      eq_iff op op_and,
      eq_iff op op_or,
      and_loop-all_hold true sub item h.1,
      or_loop-any_holds false sub item h.1,
    )
    as_predicate-holds (not_expr e) item h = rw (as_predicate-holds e item h)
    as_predicate-holds (in_expr name vals) item h = refl
    as_predicate-holds (un_expr name op) item h = absurd h
    as_predicate-holds (between_expr name left right) item h = absurd h

    and_loop-all_hold :
        (out : Bool) (es : Operands F) (item : T)
        → AllSupported es
        → and_loop nodes out es item ≡ some (out && all_hold es item)
    and_loop-all_hold out nil_operands item h = ground arith
    and_loop-all_hold out no_operands item h = ground arith
    and_loop-all_hold true (operand e es) item h =
        rw (as_predicate-holds e item h.0) (and_loop-all_hold (holds e item) es item h.1)
    and_loop-all_hold false (operand e es) item h = and_loop-all_hold false es item h.1

    or_loop-any_holds :
        (out : Bool) (es : Operands F) (item : T)
        → AllSupported es
        → or_loop nodes out es item ≡ some (out || any_holds es item)
    or_loop-any_holds out nil_operands item h = ground arith
    or_loop-any_holds out no_operands item h = ground arith
    or_loop-any_holds true (operand e es) item h = or_loop-any_holds true es item h.1
    or_loop-any_holds false (operand e es) item h =
        rw (as_predicate-holds e item h.0) (or_loop-any_holds (holds e item) es item h.1)

  -- On a filter whose comparisons are equalities or inequalities and which has no unary or between
  -- expression, the predicate does not panic and decides what the filter's structure says: AND is
  -- all, OR is any, NOT the complement.
  pub as_predicate_lem :
      (e : FilterExpression F) (item : T)
      → IsSupported e
      → as_predicate nodes e item ≡ some (holds e item)
  as_predicate_lem = as_predicate-holds
