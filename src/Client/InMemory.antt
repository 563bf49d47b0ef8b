-- ===== src/Client/InMemory.antt =====
-- The in-memory client (pkg/client/inmemory.go).
use db2rest_bridge.Base.{
  ℕ, ◌==◌, String, Bool, not, List, [], ◌∷◌, ◌++◌, Option, none, some, length, find, keep,
  if◌then◌else◌, Outcome, ok, panic,
}
use db2rest_bridge.Base.Int.{ℤ, pos}
use db2rest_bridge.Base.Maybe.{◌>>=◌}
use db2rest_bridge.Query.Data.{QryData}
use db2rest_bridge.Api.Types.{PagedResult}
use db2rest_bridge.Client.Predicate.{Nodes, as_predicate}
use db2rest_bridge.Client.Paging.{apply_paging}

-- The items are pointers: `items` holds addresses, `heap` what stands there.
pub record Store (T : Type 0) : Type 0 where
  pub heap : ℕ → T
  pub items : List ℕ

-- `*p = t`
unfoldable pub set_at : {T : Type 0} → ℕ → T → Store T → Store T
set_at a t s = record s { heap = λ b. if b == a then t else s.heap b }

-- `lo.Filter` with a test that may panic
abbrev pub filter_by : {A : Type 0} → (A → Option Bool) → List A → Option (List A)
filter_by p [] = some []
filter_by p (x ∷ xs) = do b ← p x; rest ← filter_by p xs; some (if b then x ∷ rest else rest)

unfoldable pub create : {T : Type 0} → ℕ → Store T → Store T
create a s = record s { items = s.items ++ a ∷ [] }

-- The operations that are not implemented
unfoldable bulk_update : {T E : Type 0} → List T → String → Store T → Outcome E (Unit {0}) × Store T
bulk_update objs mode s = (panic, s)

unfoldable query :
    {F V T E : Type 0}
    → String
    → QryData F
    → List String
    → Store T
    → Outcome E (Option (PagedResult V)) × Store T
query name q args s = (panic, s)

module _ {T : Type 0} (is_key : String → T → Bool) where
  abbrev pub has_key : String → Store T → ℕ → Bool
  has_key key s a = is_key key (s.heap a)

  -- The address of the first item with the key; nil and no error if there is none
  unfoldable pub get : String → Store T → Option ℕ
  get key s = find (has_key key s) s.items

  unfoldable pub delete : String → Store T → Store T
  delete key s = record s { items = keep (λ a. not (has_key key s a)) s.items }

  unfoldable pub update : String → T → Store T → Store T
  unfolding set_at
  update key t s = elim (find (has_key key s) s.items) [ some a ↦ set_at a t s | none ↦ s ]

-- `spare` is what the array behind the filtered slice holds after it. A query without paging panics.
module _ {F T : Type 0} (nodes : Nodes F T) (spare : List ℕ → List ℕ) where
  abbrev list_some : QryData F → Store T → Option (List ℕ × ℤ)
  list_some q s = do
    out ← filter_by (λ a. as_predicate nodes q.filter (s.heap a)) s.items
    p ← q.paging
    page ← apply_paging out (spare out) p
    some (page, pos (length page))

  unfoldable pub list : {E : Type 0} → QryData F → Store T → Outcome E (List ℕ × ℤ)
  unfolding as_predicate apply_paging
  list q s = elim (list_some q s) [ some r ↦ ok r | none ↦ panic ]
