-- ===== src/Crud/Atomic.antt =====
-- The bulk operations of pkg/crud/impl.go, as transactions.
use db2rest_bridge.Base.{
  String, Bool, true, List, [], ◌∷◌, ◌++◌, none, some, ◌≡◌, ◌∙◌, ap, sym, append-nil,
}
use db2rest_bridge.Base.Dict.{Dict}
use db2rest_bridge.Types.Config.{BackendConfig}
use db2rest_bridge.Crud.Driver.{Cells, Driver}
use db2rest_bridge.Crud.Batch.{
  update_one, update_each, multi_update, create_one, create_each, multi_create,
}
use db2rest_bridge.Crud.Transactions.{
  Statement, Transactional, Ends, Commits, Ends-map, after_one-Ends, transaction-Commits,
}
use db2rest_bridge.Crud.Written.{Each, IsUpdateOf, IsCreateOf, update_one-Ends, create_one-Ends}

module _ {V S : Type 0} (cells : Cells V) (db : Driver V S) (be : BackendConfig)
    (tx : Transactional db) where
  open tx use {Data, seen, query_keeps, cached_keeps}

  pub Each-cons :
      (P : Dict V → Statement V → Type 0) (obj : Dict V) (objs : List (Dict V))
      (new more : List (Statement V))
      → Each P (obj ∷ []) new
      → Each P objs more
      → Each P (obj ∷ objs) (new ++ more)
  Each-cons P obj objs [] more p rest = absurd p
  Each-cons P obj objs (st ∷ []) more (p, none_left) rest = (p, rest)
  Each-cons P obj objs (st ∷ st₂ ∷ new) more (p, many) rest = absurd many

  update_each-Ends :
      (d : Data) (sts : List (Statement V)) (entity : String) (objs : List (Dict V)) (s : S)
      → seen s ≡ (d, some sts)
      → Ends db tx
          (Each (IsUpdateOf cells be entity) objs)
          d
          sts
          (update_each cells db be entity objs s)
  unfolding update_each
  update_each-Ends d sts entity [] s h = ([], tt, h ∙ ap (λ l. (d, some l)) (sym (append-nil sts)))
  update_each-Ends d sts entity (obj ∷ objs) s h =
      let P : Dict V → Statement V → Type 0 = IsUpdateOf cells be entity in
      let r = update_one cells db be entity obj s in
      after_one-Ends db tx (Each P (obj ∷ [])) (Each P (obj ∷ objs)) d sts r.0 r.1
        (update_each cells db be entity objs) (update_one-Ends cells db be tx d sts entity obj s h)
        λ new p e.
          Ends-map db tx (Each P objs) _ d (sts ++ new) (update_each cells db be entity objs r.1)
            (λ more q. Each-cons P obj objs new more p q)
            (update_each-Ends d (sts ++ new) entity objs r.1 e)

  create_each-Ends :
      (d : Data) (sts : List (Statement V)) (entity : String) (replace : Bool)
      (objs : List (Dict V)) (s : S)
      → seen s ≡ (d, some sts)
      → Ends db tx
          (Each (IsCreateOf cells be entity replace) objs)
          d
          sts
          (create_each cells db be entity replace objs s)
  unfolding create_each
  create_each-Ends d sts entity replace [] s h =
      ([], tt, h ∙ ap (λ l. (d, some l)) (sym (append-nil sts)))
  create_each-Ends d sts entity replace (obj ∷ objs) s h =
      let P : Dict V → Statement V → Type 0 = IsCreateOf cells be entity replace in
      let r = create_one cells db be entity replace obj s in
      after_one-Ends db tx (Each P (obj ∷ [])) (Each P (obj ∷ objs)) d sts r.0 r.1
        (create_each cells db be entity replace objs)
        (create_one-Ends cells db be tx d sts entity replace obj s h)
        λ new p e.
          Ends-map db tx (Each P objs) _ d (sts ++ new)
            (create_each cells db be entity replace objs r.1)
            (λ more q. Each-cons P obj objs new more p q)
            (create_each-Ends d (sts ++ new) entity replace objs r.1 e)

  -- Over a database whose transactions behave as documented, from a state with no open
  -- transaction, an allowed bulk update that succeeds has applied to the committed data exactly
  -- one UPDATE for each object, in their order, each of the object or of what metadata converts it
  -- to, with its ID, a text, as the last argument. If it ends with an error, a failing commit
  -- included, nothing is applied. In both cases no transaction is left open. If it panics, nothing
  -- is applied.
  pub multi_update_atomic :
      (d : Data) (entity : String) (objs : List (Dict V)) (s : S)
      → be.update ≡ some true
      → seen s ≡ (d, none)
      → Commits db tx
          (Each (IsUpdateOf cells be entity) objs)
          d
          (multi_update cells db be entity objs s)
  unfolding multi_update
  multi_update_atomic d entity objs s on h = simp on (
      transaction-Commits db tx (Each (IsUpdateOf cells be entity) objs) d s
        (update_each cells db be entity objs) h (λ t. update_each-Ends d [] entity objs t))

  -- Over a database whose transactions behave as documented, from a state with no open
  -- transaction, an allowed bulk insert or replace that succeeds has applied to the committed data
  -- exactly one INSERT or REPLACE, as asked, for each object, in their order, each of the object
  -- or of what metadata converts it to. If it ends with an error, a failing commit included,
  -- nothing is applied. In both cases no transaction is left open. If it panics, nothing is
  -- applied.
  pub multi_create_atomic :
      (d : Data) (entity : String) (replace : Bool) (objs : List (Dict V)) (s : S)
      → be.create ≡ some true
      → seen s ≡ (d, none)
      → Commits db tx
          (Each (IsCreateOf cells be entity replace) objs)
          d
          (multi_create cells db be entity replace objs s)
  unfolding multi_create
  multi_create_atomic d entity replace objs s on h = simp on (
      transaction-Commits db tx (Each (IsCreateOf cells be entity replace) objs) d s
        (create_each cells db be entity replace objs) h
        (λ t. create_each-Ends d [] entity replace objs t))
