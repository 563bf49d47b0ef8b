-- ===== src/Query/Params.antt =====
-- Queries as request parameters (pkg/query/codec.go): `ToParams` and `FromParams`.
use db2rest_bridge.Base.{String, List, [], ◌∷◌, map, Option, none, some, ok, ◌>>=◌}
use db2rest_bridge.Base.Int.{ℤ, uint64, int_of}
use db2rest_bridge.Types.Errors.{Go}
use db2rest_bridge.Query.Value.{Floats}
use db2rest_bridge.Query.Filter.{FilterExpression, nil_expr}
use db2rest_bridge.Query.Json.{marshal_json}
use db2rest_bridge.Query.Decode.{Document, document, decode_filter}
use db2rest_bridge.Query.Order.{Order, marshal_text, unmarshal_text}
use db2rest_bridge.Query.Page.{Page, default_page_offset, default_page_size}
use db2rest_bridge.Query.Data.{QryData}

-- `api.ListItemsParams`; a pointer is an `Option`.
pub record ListItemsParams (F : Type 0) : Type 0 where
  pub page_offset : Option ℤ
  pub page_size : Option ℤ
  pub order : Option (List String)
  pub filter : Option (Document F)

abbrev pub offset_param : Option Page → Option ℤ
offset_param none = none
offset_param (some p) = some (int_of p.offset)

abbrev pub size_param : Option Page → Option ℤ
size_param none = none
size_param (some p) = some p.size

-- Set only if there are orders.
abbrev pub order_param : List Order → Option (List String)
order_param [] = none
order_param (o ∷ os) = some (map marshal_text (o ∷ os))

abbrev pub or_default : Option ℤ → ℤ → ℤ
or_default none d = d
or_default (some i) d = i

abbrev pub orders_from : Option (List String) → List Order
orders_from none = []
orders_from (some texts) = map unmarshal_text texts

module _ {F : Type 0} ⦃fl : Floats F⦄ where
  abbrev pub filter_param : FilterExpression F → Option (Document F)
  filter_param nil_expr = none
  filter_param e = some (document (marshal_json e))

  -- `ToParams`. Marshalling cannot fail on the values of this model.
  unfoldable pub to_params : QryData F → ListItemsParams F
  unfolding marshal_json marshal_text int_of
  to_params q = record {
    page_offset = offset_param q.paging;
    page_size = size_param q.paging;
    order = order_param q.orders;
    filter = filter_param q.filter;
  }

  abbrev pub filter_from : Option (Document F) → Go (FilterExpression F)
  filter_from none = ok nil_expr
  filter_from (some d) = decode_filter d

  -- `FromParams`
  unfoldable pub from_params :
      Option ℤ → Option ℤ → Option (List String) → Option (Document F) → Go (QryData F)
  unfolding unmarshal_text decode_filter uint64
  from_params p_page_offset p_page_size p_orders p_filter = do
    filter ← filter_from p_filter
    ok (record {
      orders = orders_from p_orders;
      paging = some (record {
        offset = uint64 (or_default p_page_offset default_page_offset);
        size = or_default p_page_size default_page_size;
      });
      filter = filter;
    })
