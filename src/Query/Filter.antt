-- ===== src/Query/Filter.antt =====
-- Filter expressions (pkg/query/filter.go) and their SQL text.
use db2rest_bridge.Base.{String, List, [], ◌∷◌, Option, none, some, ◌<>◌, join}
use db2rest_bridge.Base.Maybe.{◌>>=◌}
use db2rest_bridge.Query.Value.{Value, Values, str, no_values, value}
use db2rest_bridge.Query.Value.{Floats, show}

-- A value of the interface `FilterExpression`: nil, or a pointer to one of the six structs. The
-- operator is the text of type `Op`. `Operands` is the slice of a junction: `nil_operands` stands
-- for a whole slice that is nil, and so does `none` for that of an IN expression.
mutual
  pub data FilterExpression (F : Type 0) : Type 0 where
    nil_expr : FilterExpression F
    simple_expr : String → String → Value F → FilterExpression F
    junction_expr : String → Operands F → FilterExpression F
    not_expr : FilterExpression F → FilterExpression F
    in_expr : String → Option (Values F) → FilterExpression F
    un_expr : String → String → FilterExpression F
    between_expr : String → Value F → Value F → FilterExpression F

  pub data Operands (F : Type 0) : Type 0 where
    nil_operands : Operands F
    no_operands : Operands F
    operand : FilterExpression F → Operands F → Operands F

abbrev pub op_and : String
op_and = "AND"

abbrev pub op_or : String
op_or = "OR"

abbrev pub op_eq : String
op_eq = "="

-- A text is put between two copies of the quote; any other value stays as it is.
unfoldable wrap_str : {F : Type 0} → Value F → String → Value F
wrap_str (str s) q = str (q <> s <> q)
wrap_str v q = v

module _ {F : Type 0} ⦃fl : Floats F⦄ where
  unfoldable quoted : Value F → String
  unfolding wrap_str show
  quoted v = show (wrap_str v "'")

  abbrev quoted_values : Values F → List String
  quoted_values no_values = []
  quoted_values (value v vs) = quoted v ∷ quoted_values vs

  abbrev quoted_slice : Option (Values F) → List String
  quoted_slice none = []
  quoted_slice (some vs) = quoted_values vs

  -- The methods `String`. A call on a nil expression panics: `none`.
  unfoldable mutual
    unfolding quoted

    pub to_string : FilterExpression F → Option String
    to_string nil_expr = none
    to_string (simple_expr name op v) = some (name <> " " <> op <> " " <> quoted v)
    to_string (junction_expr op sub) = do
      texts ← operand_strings sub
      some ("(" <> join (" " <> op <> " ") texts <> ")")
    to_string (not_expr e) = do s ← to_string e; some ("NOT (" <> s <> ")")
    to_string (in_expr name vals) = some (name <> " IN (" <> join "," (quoted_slice vals) <> ")")
    to_string (un_expr name op) = some (name <> " " <> op)
    to_string (between_expr name left right) =
        some (name <> " BETWEEN " <> quoted left <> " AND " <> quoted right)

    -- The texts of the operands, each in parentheses.
    operand_strings : Operands F → Option (List String)
    operand_strings nil_operands = some []
    operand_strings no_operands = some []
    operand_strings (operand e es) = do
      s ← to_string e
      ss ← operand_strings es
      some (("(" <> s <> ")") ∷ ss)
