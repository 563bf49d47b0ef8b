-- ===== src/Query/Encode.antt =====
-- `EncodeRequest` of pkg/query/codec.go: a query as the query string of a request.
use db2rest_bridge.Base.{String, List, [], ◌∷◌, ◌++◌, Option, none, some, ◌<>◌, show_nat}
use db2rest_bridge.Base.Int.{show_int}
use db2rest_bridge.Base.Dict.{Dict, insert, lookup}
use db2rest_bridge.Query.Value.{Floats}
use db2rest_bridge.Query.Filter.{FilterExpression, nil_expr}
use db2rest_bridge.Query.Json.{marshal_json}
use db2rest_bridge.Query.Decode.{Document, document}
use db2rest_bridge.Query.Order.{Order, marshal_text}
use db2rest_bridge.Query.Page.{Page}
use db2rest_bridge.Query.Data.{QryData}

-- `url.Values`
abbrev UrlValues : Type 0
UrlValues = Dict (List String)

-- The methods `Set` and `Add`
abbrev set_value : String → String → UrlValues → UrlValues
set_value key v q = insert key (v ∷ []) q

abbrev add_value : String → String → UrlValues → UrlValues
add_value key v q = elim (lookup key q) [
  | none ↦ insert key (v ∷ []) q
  | some vs ↦ insert key (vs ++ v ∷ []) q
]

abbrev add_orders : List Order → UrlValues → UrlValues
add_orders [] q = q
add_orders (o ∷ os) q = add_orders os (add_value "order[]" (marshal_text o) q)

abbrev set_page : Option Page → UrlValues → UrlValues
set_page none q = q
set_page (some p) q =
    set_value "page-size" (show_int p.size) (set_value "page-offset" (show_nat p.offset) q)

-- `json_text` writes a document; the encoder ends it with a line feed.
abbrev set_filter_text :
    {F : Type 0} ⦃fl : Floats F⦄
    → (Document F → String)
    → FilterExpression F
    → UrlValues
    → UrlValues
set_filter_text json_text nil_expr q = q
set_filter_text json_text e q = set_value "filter" (json_text (document (marshal_json e)) <> "\n") q

abbrev raw_query : (UrlValues → String) → UrlValues → String → String
raw_query encode [] raw = raw
raw_query encode q raw = encode q

-- The raw query of the request afterwards. `q` is the query that it has, `raw` its text; `encode` is the
-- method `Encode` of `url.Values`.
unfoldable encode_request :
    {F : Type 0} ⦃fl : Floats F⦄
    → (Document F → String)
    → (UrlValues → String)
    → QryData F
    → UrlValues
    → String
    → String
unfolding marshal_text marshal_json insert lookup show_nat show_int
encode_request json_text encode qry q raw =
    raw_query encode
      (set_filter_text json_text qry.filter (add_orders qry.orders (set_page qry.paging q))) raw
