-- ===== src/Query/Samples.antt =====
-- Filters of the program's own tests, with whole numbers in place of `float64`.
use db2rest_bridge.Base.Int.{ℤ, pos, show_int}
use db2rest_bridge.Query.Value.{Floats, int, str}
use db2rest_bridge.Query.Filter.{FilterExpression, simple_expr, junction_expr, operand, no_operands}

instance abbrev pub whole : Floats ℤ
whole = record { of_int = λ i. i; show_float = show_int }

abbrev pub john : FilterExpression ℤ
john = junction_expr "AND" (
    operand (simple_expr "name" "=" (str "John"))
      (operand (simple_expr "age" "=" (int (pos 53))) no_operands))
