-- ===== src/Query/Travel.antt =====
-- `ToParams` and then `FromParams` (pkg/query/codec.go).
use db2rest_bridge.Base.{◌<◌, List, [], ◌∷◌, map, Option, none, some, ◌≡◌, refl, ok, Lacks, All}
use db2rest_bridge.Base.Int.{u64_mod, uint64, int_of, uint64-int_of}
use db2rest_bridge.Query.Value.{Floats}
use db2rest_bridge.Query.Filter.{FilterExpression, nil_expr}
use db2rest_bridge.Query.Order.{Order, marshal_text, unmarshal_text, unmarshal_text-marshal_text}
use db2rest_bridge.Query.Page.{Page, default_paging, default_page_offset, default_page_size}
use db2rest_bridge.Query.Data.{QryData}
use db2rest_bridge.Query.Params.{
  offset_param, size_param, order_param, filter_param, or_default, orders_from, filter_from,
  to_params, from_params,
}
use db2rest_bridge.Query.RoundTrip.{IsWhole, received, decode_filter-marshal_json}

-- The names of the orders lack the equals sign, the filter is nil or has no nil part, and the offset
-- is a `uint64`.
abbrev IsSendableFilter : {F : Type 0} → FilterExpression F → Type 0
IsSendableFilter nil_expr = Unit
IsSendableFilter e = IsWhole e

abbrev IsSendablePaging : Option Page → Type 0
IsSendablePaging none = Unit
IsSendablePaging (some p) = p.offset < u64_mod

pub record IsSendable {F : Type 0} (q : QryData F) : Type 0 where
  pub named : All (λ o. Lacks b'=' o.name) q.orders
  pub whole : IsSendableFilter q.filter
  pub in_range : IsSendablePaging q.paging

abbrev pub paging_or_default : Option Page → Page
paging_or_default none = default_paging
paging_or_default (some p) = p

map-unmarshal_text :
    (os : List Order)
    → All (λ o. Lacks b'=' o.name) os
    → map unmarshal_text (map marshal_text os) ≡ os
map-unmarshal_text [] h = refl
map-unmarshal_text (o ∷ os) h =
    rw (unmarshal_text-marshal_text o h.0) (rw (map-unmarshal_text os h.1))

orders_from-order_param :
    (os : List Order) → All (λ o. Lacks b'=' o.name) os → orders_from (order_param os) ≡ os
orders_from-order_param [] h = refl
orders_from-order_param (o ∷ os) h = map-unmarshal_text (o ∷ os) h

page_round :
    (p : Page)
    → p.offset < u64_mod
    → ◌≡◌ {A = Page} record { offset = uint64 (int_of p.offset); size = p.size } p
page_round p h = rw (uint64-int_of p.offset h)

paging_round :
    (paging : Option Page)
    → IsSendablePaging paging
    → record {
      offset = uint64 (or_default (offset_param paging) default_page_offset);
      size = or_default (size_param paging) default_page_size;
    }
      ≡ paging_or_default paging
unfolding uint64
paging_round none h = refl
paging_round (some p) h = page_round p h

module _ {F : Type 0} ⦃fl : Floats F⦄ where
  filter_from-filter_param :
      (e : FilterExpression F) → IsSendableFilter e → filter_from (filter_param e) ≡ ok (received e)
  unfolding received
  filter_from-filter_param nil_expr h = refl
  filter_from-filter_param e h = decode_filter-marshal_json e h

  -- The query that arrives.
  abbrev pub received_query : QryData F → QryData F
  received_query q = record {
    orders = q.orders;
    paging = some (paging_or_default q.paging);
    filter = received q.filter;
  }

  -- A query whose order names lack the equals sign, whose filter is nil or has no nil part and
  -- whose offset is a uint64, sent as request parameters, is read with the same orders, the same
  -- paging (the default one if there is none) and the filter that its JSON text carries.
  pub from_params-to_params :
      (q : QryData F)
      → IsSendable q
      → from_params
          (to_params q).page_offset
          (to_params q).page_size
          (to_params q).order
          (to_params q).filter
        ≡ ok (received_query q)
  unfolding from_params to_params
  from_params-to_params q s =
      rw (filter_from-filter_param q.filter s.whole)
        (rw (orders_from-order_param q.orders s.named) (rw (paging_round q.paging s.in_range)))
