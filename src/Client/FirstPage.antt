-- ===== src/Client/FirstPage.antt =====
-- `List` of the in-memory client (pkg/client/inmemory.go), alone and under `LoadAllInBatch`.
use db2rest_bridge.Base.{
  ℕ, suc, ◌+◌, ◌≤◌, ◌<◌, Bool, List, [], ◌∷◌, Option, none, some, panic, ◌≡◌, refl, ap, ◌∙◌, arith,
  length, take, drop, keep, ok,
}
use db2rest_bridge.Base.Maybe.{◌>>=◌}
use db2rest_bridge.Base.Int.{ℤ, pos, int_max}
use db2rest_bridge.Query.Filter.{FilterExpression}
use db2rest_bridge.Query.Order.{Order}
use db2rest_bridge.Query.Page.{Page}
use db2rest_bridge.Query.Data.{QryData}
use db2rest_bridge.Client.Predicate.{Nodes, as_predicate}
use db2rest_bridge.Client.Meaning.{IsSupported, holds, as_predicate_lem}
use db2rest_bridge.Client.Paging.{apply_paging}
use db2rest_bridge.Client.Slices.{apply_paging_within}
use db2rest_bridge.Client.InMemory.{Store, filter_by, list}
use db2rest_bridge.Client.LoadAll.{round_query, load_all_in_batch}
use db2rest_bridge.Client.Complete.{load_all_in_batch_first_page, query_filter, query_paging}

filter_by-keep :
    {A : Type 0} (p : A → Option Bool) (q : A → Bool)
    → ((x : A) → p x ≡ some (q x))
    → (xs : List A) → filter_by p xs ≡ some (keep q xs)
filter_by-keep p q h [] = refl
filter_by-keep p q h (x ∷ xs) = rw (h x) (rw (filter_by-keep p q h xs))

module _ {F T : Type 0} (nodes : Nodes F T) (spare : List ℕ → List ℕ) (s : Store T) where
  -- The items for which a filter holds
  abbrev selected : FilterExpression F → List ℕ
  selected fe = keep (λ a. holds nodes fe (s.heap a)) s.items

  -- For a supported filter and a page that lies within the items for which it holds, List of the
  -- in-memory client returns that page of them, and the length of the page as the total.
  pub list-selected :
      {E : Type 0} (q : QryData F) (fe : FilterExpression F) (o n : ℕ)
      → q.filter ≡ fe
      → q.paging ≡ some (record { offset = o; size = pos n })
      → IsSupported fe
      → o + n ≤ length (selected fe)
      → o < int_max
      → list nodes spare {E = E} q s
        ≡ ok (take n (drop o (selected fe)), pos (length (take n (drop o (selected fe)))))
  unfolding list
  list-selected q fe o n filter paging supported inside small =
      ap (λ r. elim r [ some p ↦ ok p | none ↦ panic ])
        (ap (λ r. r >>= after_filter) filtered
          ∙ ap (λ r. r >>= after_page) paging
          ∙ ap (λ r. r >>= after_cut)
              (apply_paging_within (selected fe) (spare (selected fe)) o n inside small))
    where
      filtered :
          filter_by (λ a. as_predicate nodes q.filter (s.heap a)) s.items ≡ some (selected fe)
      filtered =
          filter_by-keep _ _
            (λ a.
              ap (λ e. as_predicate nodes e (s.heap a)) filter
              ∙ as_predicate_lem nodes fe (s.heap a) supported)
            s.items

      after_cut : List ℕ → Option (List ℕ × ℤ)
      after_cut page = some (page, pos (length page))

      after_page : Page → Option (List ℕ × ℤ)
      after_page p = apply_paging (selected fe) (spare (selected fe)) p >>= after_cut

      after_filter : List ℕ → Option (List ℕ × ℤ)
      after_filter out = q.paging >>= λ p. apply_paging out (spare out) p >>= after_cut

  -- Over the in-memory client, for a supported filter that holds for at least a batch of items,
  -- the loop that loads all ends after one round with the first batch.
  load_all_in_batch-list :
      {E : Type 0} (fe : FilterExpression F) (orders : List Order) (n fuel : ℕ)
      → IsSupported fe
      → n ≤ length (selected fe)
      → load_all_in_batch (λ q t. (list nodes spare {E = E} q t, t)) (suc fuel) fe (pos n) orders s
        ≡ (ok (take n (selected fe)), s)
  load_all_in_batch-list {E = E} fe orders n fuel supported inside =
      load_all_in_batch_first_page (λ q t. (list nodes spare {E = E} q t, t)) fe orders
        (take n (selected fe)) (pos n) fuel s
        (list-selected (round_query fe (pos n) orders 0) fe 0 n (query_filter fe (pos n) orders 0)
          (query_paging fe (pos n) orders 0 (omega arith)) supported (omega arith) (omega arith))
