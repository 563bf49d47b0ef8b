-- ===== src/Client/LoadAll.antt =====
-- `LoadAll` and `LoadAllInBatch` (pkg/client/misc.go).
use db2rest_bridge.Base.{
  ℕ, zero, suc, ◌+◌, ◌==◌, Bool, false, List, [], ◌∷◌, ◌++◌, length, if◌then◌else◌, Outcome, ok,
  err, panic, out_of_fuel,
}
use db2rest_bridge.Base.Int.{ℤ, pos, negsuc}
use db2rest_bridge.Query.Order.{Order}
use db2rest_bridge.Query.Filter.{FilterExpression}
use db2rest_bridge.Query.Data.{
  QryData, Builder, new_builder, order_by, set_paging, set_filter, build,
}

-- `loaded == total`
abbrev pub is_total : ℕ → ℤ → Bool
is_total n (pos m) = n == m
is_total n (negsuc m) = false

unfoldable pub order_all : {F : Type 0} → List Order → Builder F → Builder F
unfolding order_by
order_all [] b = b
order_all (o ∷ os) b = order_all os (order_by o.name o.asc b)

-- The query of one round
unfoldable pub round_query : {F : Type 0} → FilterExpression F → ℤ → List Order → ℕ → QryData F
unfolding new_builder set_paging set_filter order_all build
round_query fe batch orders loaded =
    build (order_all orders (set_paging (pos loaded) batch (set_filter fe new_builder)))

-- `list` is the client's `List`, with the state it works on.
module _ {F A E S : Type 0} (list : QryData F → S → Outcome E (List A × ℤ) × S) where
  -- The loop, with the rounds left, what is loaded and its number
  unfoldable pub load_rounds :
      ℕ → FilterExpression F → ℤ → List Order → ℕ → List A → S → Outcome E (List A) × S
  unfolding round_query
  load_rounds zero fe batch orders loaded results s = (out_of_fuel, s)
  load_rounds (suc fuel) fe batch orders loaded results s =
      let r = list (round_query fe batch orders loaded) s in
      elim r.0 [
        | ok page ↦
            let now = loaded + length page.0 in
            let more = load_rounds fuel fe batch orders now (results ++ page.0) r.1 in
            if is_total now page.1 then (ok (results ++ page.0), r.1) else more
        | err e ↦ (err e, r.1)
        | panic ↦ (panic, r.1)
        | out_of_fuel ↦ (out_of_fuel, r.1)
      ]

  unfoldable pub load_all_in_batch :
      ℕ → FilterExpression F → ℤ → List Order → S → Outcome E (List A) × S
  unfolding load_rounds
  load_all_in_batch fuel fe batch orders s = load_rounds fuel fe batch orders 0 [] s

  unfoldable load_all : ℕ → FilterExpression F → List Order → S → Outcome E (List A) × S
  unfolding load_all_in_batch
  load_all fuel fe orders s = load_all_in_batch fuel fe (pos 20) orders s
