-- ===== src/Query/Wrapper.antt =====
-- The structs that filters are written as in JSON bodies, `FilterExpressionWrapper` and its parts
-- (pkg/query/filter.go), and the filters that they stand for.
use db2rest_bridge.Base.{String, Option, none, some, ◌≡◌, refl}
use db2rest_bridge.Query.Value.{Value, Values}
use db2rest_bridge.Query.Filter.{
  FilterExpression, Operands, nil_expr, simple_expr, junction_expr, not_expr, in_expr, un_expr,
  between_expr, nil_operands, no_operands, operand,
}

pub record FilterSimpleExpression (F : Type 0) : Type 0 where
  pub name : String
  pub op : String
  pub val : Value F

pub record FilterInExpression (F : Type 0) : Type 0 where
  pub name : String
  pub val : Option (Values F)

pub record FilterBetweenExpression (F : Type 0) : Type 0 where
  pub left : Value F
  pub name : String
  pub right : Value F

pub record FilterUnExpression : Type 0 where
  pub name : String
  pub op : String

-- The fields in the order in which they are looked at: simple, junction, not, in, between, un. Those of
-- a junction and of a negation hold wrappers again; `no_junction` and `no_not` are nil.
mutual
  pub data FilterExpressionWrapper (F : Type 0) : Type 0 where
    wrapper :
        Option (FilterSimpleExpression F)
        → FilterJunctionExpression F
        → FilterNotExpression F
        → Option (FilterInExpression F)
        → Option (FilterBetweenExpression F)
        → Option FilterUnExpression
        → FilterExpressionWrapper F

  pub data FilterJunctionExpression (F : Type 0) : Type 0 where
    no_junction : FilterJunctionExpression F
    junction_of : String → Wrappers F → FilterJunctionExpression F

  pub data FilterNotExpression (F : Type 0) : Type 0 where
    no_not : FilterNotExpression F
    not_of : FilterExpressionWrapper F → FilterNotExpression F

  pub data Wrappers (F : Type 0) : Type 0 where
    no_wrappers : Wrappers F
    wrapper_and : FilterExpressionWrapper F → Wrappers F → Wrappers F

module _ {F : Type 0} where
  abbrev un_filter : Option FilterUnExpression → FilterExpression F
  un_filter (some e) = un_expr e.name e.op
  un_filter none = nil_expr

  abbrev between_filter :
      Option (FilterBetweenExpression F) → FilterExpression F → FilterExpression F
  between_filter (some e) rest = between_expr e.name e.left e.right
  between_filter none rest = rest

  abbrev in_filter : Option (FilterInExpression F) → FilterExpression F → FilterExpression F
  in_filter (some e) rest = in_expr e.name e.val
  in_filter none rest = rest

  -- The methods `AsFilterExpression`: the first field that is not nil decides.
  unfoldable mutual
    pub as_filter_expression : FilterExpressionWrapper F → FilterExpression F
    as_filter_expression (wrapper (some e) j n i b u) = simple_expr e.name e.op e.val
    as_filter_expression (wrapper none (junction_of op sub) n i b u) =
        junction_expr op (as_operands sub)
    as_filter_expression (wrapper none no_junction (not_of w) i b u) =
        not_expr (as_filter_expression w)
    as_filter_expression (wrapper none no_junction no_not i b u) =
        in_filter i (between_filter b (un_filter u))

    pub as_operands : Wrappers F → Operands F
    as_operands no_wrappers = no_operands
    as_operands (wrapper_and w ws) = operand (as_filter_expression w) (as_operands ws)

  -- The wrapper that has one field, that of the filter, and none for the nil filter.
  abbrev mutual
    pub wrapper_of : FilterExpression F → FilterExpressionWrapper F
    wrapper_of nil_expr = wrapper none no_junction no_not none none none
    wrapper_of (simple_expr name op v) =
        wrapper (some (record { name = name; op = op; val = v })) no_junction no_not none none none
    wrapper_of (junction_expr op sub) =
        wrapper none (junction_of op (wrappers_of sub)) no_not none none none
    wrapper_of (not_expr e) = wrapper none no_junction (not_of (wrapper_of e)) none none none
    wrapper_of (in_expr name vals) =
        wrapper none no_junction no_not (some (record { name = name; val = vals })) none none
    wrapper_of (un_expr name op) =
        wrapper none no_junction no_not none none (some (record { name = name; op = op }))
    wrapper_of (between_expr name left right) =
        wrapper none no_junction no_not none
          (some (record { left = left; name = name; right = right })) none

    pub wrappers_of : Operands F → Wrappers F
    wrappers_of nil_operands = no_wrappers
    wrappers_of no_operands = no_wrappers
    wrappers_of (operand e es) = wrapper_and (wrapper_of e) (wrappers_of es)

  -- No junction inside has a nil slice.
  abbrev mutual
    pub IsSliced : FilterExpression F → Type 0
    IsSliced (junction_expr op sub) = AreSliced sub
    IsSliced (not_expr e) = IsSliced e
    IsSliced _ = Unit

    pub AreSliced : Operands F → Type 0
    AreSliced nil_operands = ⊥
    AreSliced no_operands = Unit
    AreSliced (operand e es) = IsSliced e × AreSliced es

  mutual
    unfolding as_filter_expression

    unwrap_filter : (e : FilterExpression F) → IsSliced e → as_filter_expression (wrapper_of e) ≡ e
    unwrap_filter nil_expr h = refl
    unwrap_filter (simple_expr name op v) h = refl
    unwrap_filter (junction_expr op sub) h = rw (unwrap_operands sub h)
    unwrap_filter (not_expr e) h = rw (unwrap_filter e h)
    unwrap_filter (in_expr name vals) h = refl
    unwrap_filter (un_expr name op) h = refl
    unwrap_filter (between_expr name left right) h = refl

    unwrap_operands : (es : Operands F) → AreSliced es → as_operands (wrappers_of es) ≡ es
    unwrap_operands nil_operands h = absurd h
    unwrap_operands no_operands h = refl
    unwrap_operands (operand e es) h = rw (unwrap_filter e h.0) (rw (unwrap_operands es h.1))

  -- A filter in which no junction has a nil slice is what its wrapper stands for, the one with the
  -- field of its kind, and none for nil.
  pub as_filter_expression-wrapper_of :
      (e : FilterExpression F) → IsSliced e → as_filter_expression (wrapper_of e) ≡ e
  as_filter_expression-wrapper_of = unwrap_filter
