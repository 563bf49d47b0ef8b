-- ===== src/Query/Tests.antt =====
-- The theorems of Query at concrete queries, and inputs of the program's own tests.
use db2rest_bridge.Base.{false, [], ◌∷◌, ◌≡◌, ◌≢◌, refl, arith, some, ok, out_of_fuel}
use db2rest_bridge.Base.Int.{ℤ, pos, show_int}
use db2rest_bridge.Query.Value.{wire, show, str, null, obj, field, no_fields}
use db2rest_bridge.Query.Filter.{simple_expr, junction_expr, operand, no_operands, to_string}
use db2rest_bridge.Query.Order.{Order}
use db2rest_bridge.Query.Json.{marshal_json}
use db2rest_bridge.Query.Decode.{Document, decode_filter, document}
use db2rest_bridge.Query.Data.{QryData}
use db2rest_bridge.Query.Params.{to_params, from_params}
use db2rest_bridge.Query.RoundTrip.{received, decode_filter-marshal_json}
use db2rest_bridge.Query.Total.{decode_filter-ne-out_of_fuel}
use db2rest_bridge.Query.Travel.{received_query, from_params-to_params}
use db2rest_bridge.Query.Wrapper.{as_filter_expression, wrapper_of, as_filter_expression-wrapper_of}
use db2rest_bridge.Query.Samples.{whole, john}

john_text : to_string john ≡ some "((name = 'John') AND (age = 53))"
unfolding to_string show_int
john_text = refl

-- The number 53 arrives as a text.
john_back :
    decode_filter (document (marshal_json john))
    ≡ ok (
        junction_expr "AND" (
          operand
            (simple_expr "name" "=" (str "John"))
            (operand (simple_expr "age" "=" (str "53")) no_operands)))
unfolding marshal_json decode_filter show_int wire show
john_back = refl

decode_filter-marshal_json_example :
    decode_filter (document (marshal_json john)) ≡ ok (received john)
decode_filter-marshal_json_example = decode_filter-marshal_json john (tt, (tt, tt))

abbrev simple_null : Document ℤ
simple_null = document (obj (field "simple" null no_fields))

decode_filter-ne-out_of_fuel_example : decode_filter simple_null ≢ out_of_fuel
decode_filter-ne-out_of_fuel_example = decode_filter-ne-out_of_fuel simple_null

abbrev by_age : Order
by_age = record { name = "age"; asc = false }

abbrev johns : QryData ℤ
johns = record {
  orders = by_age ∷ [];
  paging = some (record { offset = 40; size = pos 10 });
  filter = john;
}

from_params-to_params_example :
    from_params
      (to_params johns).page_offset
      (to_params johns).page_size
      (to_params johns).order
      (to_params johns).filter
    ≡ ok (received_query johns)
from_params-to_params_example = from_params-to_params johns (record {
  named = ((omega arith, (omega arith, (omega arith, tt))), tt);
  whole = (tt, (tt, tt));
  in_range = omega arith;
})

as_filter_expression-wrapper_of_example : as_filter_expression (wrapper_of john) ≡ john
as_filter_expression-wrapper_of_example = as_filter_expression-wrapper_of john (tt, (tt, tt))
