-- ===== src/Crud/Reads.antt =====
-- `Exists` and `Get` of pkg/crud/impl.go, compared.
use db2rest_bridge.Base.{
  String, Bool, true, false, List, [], ◌∷◌, Option, none, some, ◌≡◌, refl, sym, ap, ◌∙◌, ok, err,
  panic, out_of_fuel, arith,
}
use db2rest_bridge.Base.Results
use db2rest_bridge.Base.Dict.{Dict}
use db2rest_bridge.Types.Errors.{Go, wrap_error}
use db2rest_bridge.Types.Config.{BackendConfig, id_column}
use db2rest_bridge.Crud.Driver.{Cells, Rows, Db, Driver, map_error, pure, lift, go_on, ◌>>=◌}
use db2rest_bridge.Crud.Rows.{get_row_metadata, map_entity, first_row, is_some}
use db2rest_bridge.Crud.Ops.{fetch_one_item, exists, get}

-- A result that, if there is one, is not nil.
abbrev IsPresent : {A : Type 0} → Go (Option A) → Type 0
IsPresent {A} r = (o : Option A) → r ≡ ok o → is_some o ≡ true

bind-IsPresent :
    {A B : Type 0} (m : Go A) (f : A → Go (Option B))
    → ((a : A) → IsPresent (f a))
    → IsPresent (Results.◌>>=◌ m f)
bind-IsPresent (ok a) f h o eq = h a o eq
bind-IsPresent (err e) f h o eq = cc
bind-IsPresent panic f h o eq = cc
bind-IsPresent out_of_fuel f h o eq = cc

module _ {V S : Type 0} (cells : Cells V) (db : Driver V S) (be : BackendConfig) where
  row-IsPresent :
      (rows : Rows V) (row : Go (List V)) (rs : List (Go (List V)))
      → IsPresent (first_row cells true rows (row ∷ rs))
  unfolding first_row
  row-IsPresent rows row rs =
      bind-IsPresent (map_error (wrap_error "failed to get row metadata") (get_row_metadata rows)) _
        λ meta. bind-IsPresent (map_entity cells row meta.0 meta.1) _ λ e o h. ground arith

  -- What a fetch that retrieves the entity has found is found by the one that does not.
  abbrev SeenToo : Option (Dict V) → S → Db S (Option (Dict V)) → S → Type 0
  SeenToo o t m s = (p : Option (Dict V)) × (m s ≡ (ok p, t)) × (is_some p ≡ is_some o)

  row-seen :
      (rows : Rows V) (rs : List (Go (List V))) (o : Option (Dict V)) (s t : S)
      → lift (first_row cells true rows rs) s ≡ (ok o, t)
      → SeenToo o t (lift (first_row cells false rows rs)) s
  row-seen rows [] o s t h =
      (none, unfold first_row in ground arith, unfold first_row in ground arith)
  row-seen rows (row ∷ rs) o s t h =
      let there = row-IsPresent rows row rs o (ap (λ (x : Go (Option (Dict V)) × S). x.0) h) in
      (some [], unfold first_row in ground arith, sym there)

  query-seen :
      (q : Go (Rows V)) (o : Option (Dict V)) (s t : S)
      → go_on q (λ rows. lift (first_row cells true rows rows.rows)) s ≡ (ok o, t)
      → SeenToo o t (go_on q (λ rows. lift (first_row cells false rows rows.rows))) s
  query-seen (ok rows) o s t h = row-seen rows rows.rows o s t h
  query-seen (err e) o s t h = cc
  query-seen panic o s t h = cc
  query-seen out_of_fuel o s t h = cc

  fetch-seen :
      (entity id : String) (c : Go String) (o : Option (Dict V)) (s t : S)
      → id_column be entity ≡ c
      → fetch_one_item cells db be entity id true s ≡ (ok o, t)
      → SeenToo o t (fetch_one_item cells db be entity id false) s
  unfolding fetch_one_item
  fetch-seen entity id (ok col) o s t e h = rw e (query-seen _ o _ t (rw e at h))
  fetch-seen entity id (err f) o s t e h = cc (rw e at h)
  fetch-seen entity id panic o s t e h = cc (rw e at h)
  fetch-seen entity id out_of_fuel o s t e h = cc (rw e at h)

  abbrev answer_at : S → Bool → Go Bool × S
  answer_at t b = (ok b, t)

  present-answer :
      (m : Db S (Option (Dict V))) (p : Option (Dict V)) (s t : S)
      → m s ≡ (ok p, t)
      → (m >>= λ r. pure (is_some r)) s ≡ answer_at t (is_some p)
  present-answer m p s t e = rw e

  -- With reading allowed, where Get ends with an entity or with none, Exists ends in the same
  -- state with the answer whether there is one.
  pub exists-get :
      (entity id : String) (o : Option (Dict V)) (s t : S)
      → be.read ≡ some true
      → get cells db be entity id s ≡ (ok o, t)
      → exists cells db be entity id s ≡ (ok (is_some o), t)
  unfolding get exists
  exists-get entity id o s t on h =
      let fetched : fetch_one_item cells db be entity id true s ≡ (ok o, t) = simp on at h in
      let (p, seen, same) = fetch-seen entity id _ o s t refl fetched in
      simp on (
        present-answer (fetch_one_item cells db be entity id false) p s t seen
        ∙ ap (answer_at t) same)
