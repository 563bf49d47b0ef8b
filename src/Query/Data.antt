-- ===== src/Query/Data.antt =====
-- Queries (`qryData` of pkg/query/query.go) and their builder (pkg/query/builder.go).
use db2rest_bridge.Base.{String, Bool, List, [], ◌∷◌, ◌++◌, Option, none, some, ◌<>◌}
use db2rest_bridge.Base.Int.{ℤ, uint64}
use db2rest_bridge.Base.Maybe.{◌>>=◌}
use db2rest_bridge.Query.Value.{Floats}
use db2rest_bridge.Query.Filter.{FilterExpression, nil_expr, to_string}
use db2rest_bridge.Query.Order.{Order, orders_string}
use db2rest_bridge.Query.Page.{
  Page, page_string, default_paging, default_page_offset, default_page_size,
}

-- `none` in place of the paging is the nil interface. (A nil and an empty slice of orders behave
-- alike.)
pub record QryData (F : Type 0) : Type 0 where
  pub orders : List Order
  pub paging : Option Page
  pub filter : FilterExpression F

abbrev pub default_query : {F : Type 0} → QryData F
default_query = record { orders = []; paging = some default_paging; filter = nil_expr }

module _ {F : Type 0} ⦃fl : Floats F⦄ where
  -- " WHERE …" of a filter that is not nil; `none` if its text panics
  unfoldable pub where_clause : FilterExpression F → Option String
  unfolding to_string
  where_clause nil_expr = some ""
  where_clause e = do s ← to_string e; some (" WHERE " <> s)

abbrev pub order_clause : List Order → String
order_clause [] = ""
order_clause os = " ORDER BY " <> orders_string os

abbrev pub limit_clause : Option Page → String
limit_clause none = ""
limit_clause (some p) = " LIMIT " <> page_string p

module _ {F : Type 0} ⦃fl : Floats F⦄ where
  -- `(*qryData).String`
  unfoldable pub query_string : QryData F → Option String
  unfolding where_clause orders_string page_string
  query_string q = do
    s ← where_clause q.filter
    some (s <> order_clause q.orders <> limit_clause q.paging)

pub record Builder (F : Type 0) : Type 0 where
  pub ords : List Order
  pub fe : FilterExpression F
  pub pg : Page

unfoldable pub new_builder : {F : Type 0} → Builder F
unfolding uint64
new_builder = record {
  ords = [];
  fe = nil_expr;
  pg = record { offset = uint64 default_page_offset; size = default_page_size };
}

unfoldable pub order_by : {F : Type 0} → String → Bool → Builder F → Builder F
order_by name asc b = record b { ords = b.ords ++ record { name = name; asc = asc } ∷ [] }

-- The offset is converted to `uint64`.
unfoldable pub set_paging : {F : Type 0} → ℤ → ℤ → Builder F → Builder F
unfolding uint64
set_paging offset size b = record b { pg = record { offset = uint64 offset; size = size } }

unfoldable pub set_filter : {F : Type 0} → FilterExpression F → Builder F → Builder F
set_filter fe b = record b { fe = fe }

unfoldable pub build : {F : Type 0} → Builder F → QryData F
build b = record { orders = b.ords; paging = some b.pg; filter = b.fe }
