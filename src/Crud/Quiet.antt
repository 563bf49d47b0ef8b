-- ===== src/Crud/Quiet.antt =====
-- The operations of pkg/crud/impl.go that read, and those that are not allowed, as seen from outside.
use db2rest_bridge.Base.{
  zero, suc, String, Bool, true, false, List, [], Option, none, some, ◌≡◌, refl, ◌∙◌, ok, err,
  panic, out_of_fuel,
}
use db2rest_bridge.Base.Int.{ℤ, pos, negsuc}
use db2rest_bridge.Types.Errors.{Error, Go}
use db2rest_bridge.Types.Config.{BackendConfig, id_column}
use db2rest_bridge.Query.Value.{Floats}
use db2rest_bridge.Query.Data.{QryData}
use db2rest_bridge.Crud.Driver.{Cells, Metadata, Db, Driver, lift, go_on, ◌>>=◌, ◌>>◌, on_error}
use db2rest_bridge.Crud.Ops.{
  check_allowed, fetch_one_item, fetch_rows, exists, get, list_entities, list_items, query_named,
  page_rows,
}

-- What is relied on of the reading calls, with `seen` what others see of a state: queries and counts
-- leave it alone, and a lookup in the cache changes no more than its loader does.
pub record Reads {V S D : Type 0} (seen : S → D) (db : Driver V S) : Type 0 where
  pub query_keeps : (qry : String) (args : List V) (s : S) → seen (db.query qry args s).1 ≡ seen s
  pub scan_count_keeps :
      (qry : String) (args : List V) (s : S) → seen (db.scan_count qry args s).1 ≡ seen s
  pub cached_keeps :
      (loader : String → S → Option Metadata × S)
      → ((key : String) (s : S) → seen (loader key s).1 ≡ seen s)
      → (key : String) (s : S) → seen (db.cached loader key s).1 ≡ seen s

module _ {S D : Type 0} (seen : S → D) where
  -- The action leaves what is seen as it was.
  abbrev pub Keeps : {A : Type 0} → Db S A → Type 0
  Keeps m = (s : S) → seen (m s).1 ≡ seen s

  go_on-Keeps :
      {A B : Type 0} (r : Go A) (f : A → Db S B) → ((a : A) → Keeps (f a)) → Keeps (go_on r f)
  go_on-Keeps (ok a) f h s = h a s
  go_on-Keeps (err e) f h s = refl
  go_on-Keeps panic f h s = refl
  go_on-Keeps out_of_fuel f h s = refl

  pub bind-Keeps :
      {A B : Type 0} (m : Db S A) (f : A → Db S B)
      → Keeps m
      → ((a : A) → Keeps (f a))
      → Keeps (m >>= f)
  bind-Keeps m f hm hf s = go_on-Keeps (m s).0 f hf (m s).1 ∙ hm s

  pub allowed-Keeps :
      {A : Type 0} (flag : Option Bool) (e : Error) (m : Db S A)
      → Keeps m
      → Keeps (check_allowed flag e >> m)
  allowed-Keeps none e m h s = refl
  allowed-Keeps (some true) e m h s = h s
  allowed-Keeps (some false) e m h s = refl

module _ {V S D : Type 0} (seen : S → D) (cells : Cells V) (db : Driver V S) (be : BackendConfig)
    (reads : Reads seen db) where
  open reads use {query_keeps, scan_count_keeps}

  fetch_one_item-Keeps :
      (entity id : String) (retrieve : Bool)
      → Keeps seen (fetch_one_item cells db be entity id retrieve)
  unfolding fetch_one_item
  fetch_one_item-Keeps entity id retrieve =
      bind-Keeps seen (lift (id_column be entity)) _ (λ s. refl)
        λ col. bind-Keeps seen (on_error _ (db.query _ _)) _ (query_keeps _ _) λ rows s. refl

  fetch_rows-Keeps : (qry : String) (args : List V) → Keeps seen (fetch_rows cells db be qry args)
  unfolding fetch_rows
  fetch_rows-Keeps qry args =
      bind-Keeps seen (db.query qry args) _ (query_keeps qry args) λ rows s. refl

  pub exists-Keeps : (entity id : String) → Keeps seen (exists cells db be entity id)
  unfolding exists
  exists-Keeps entity id = allowed-Keeps seen be.read _ _ (
      bind-Keeps seen (fetch_one_item cells db be entity id false) _
        (fetch_one_item-Keeps entity id false) λ r s. refl)

  pub get-Keeps : (entity id : String) → Keeps seen (get cells db be entity id)
  unfolding get
  get-Keeps entity id = allowed-Keeps seen be.read _ _ (fetch_one_item-Keeps entity id true)

  pub list_entities-Keeps : Keeps seen (list_entities cells db be)
  unfolding list_entities
  list_entities-Keeps =
      allowed-Keeps seen be.read _ _ (
        bind-Keeps seen (on_error _ (db.query "SHOW TABLES" [])) _ (query_keeps _ _) λ rows s. refl)

  module _ {F : Type 0} ⦃fl : Floats F⦄ where
    page_rows-Keeps :
        (n : ℤ) (entity : String) (q : QryData F) → Keeps seen (page_rows cells db be n entity q)
    page_rows-Keeps (pos zero) entity q = λ s. refl
    page_rows-Keeps (negsuc n) entity q = λ s. refl
    page_rows-Keeps (pos (suc n)) entity q =
        bind-Keeps seen (lift _) _ (λ s. refl) λ text. fetch_rows-Keeps _ []

    pub list_items-Keeps :
        (entity : String) (q : Option (QryData F)) → Keeps seen (list_items cells db be entity q)
    unfolding list_items
    list_items-Keeps entity q = allowed-Keeps seen be.read _ _ (
        bind-Keeps seen (on_error _ (db.scan_count _ [])) _ (scan_count_keeps _ []) λ cnt.
          bind-Keeps seen (page_rows cells db be cnt entity _) _ (page_rows-Keeps cnt entity _)
            λ res. bind-Keeps seen (lift _) _ (λ s. refl) λ paging s. refl)

    pub query_named-Keeps :
        (name : String) (q : Option (QryData F)) (args : List V)
        → Keeps seen (query_named cells db be name q args)
    unfolding query_named
    query_named-Keeps name q args = allowed-Keeps seen be.read _ _ (
        bind-Keeps seen (lift _) _ (λ s. refl)
          λ saved.
            bind-Keeps seen (on_error _ (db.scan_count _ args)) _ (scan_count_keeps _ args) λ cnt.
              bind-Keeps seen (on_error _ (fetch_rows cells db be _ args)) _
                (fetch_rows-Keeps _ args) λ items s. refl)
