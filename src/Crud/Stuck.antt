-- ===== src/Crud/Stuck.antt =====
-- A bulk update of pkg/crud/impl.go that panics inside its transaction.
use db2rest_bridge.Base.{
  String, true, List, [], ◌∷◌, ◌++◌, none, some, ◌≡◌, refl, ◌∙◌, ap, sym, subst, append-nil,
  append_assoc, ok, err, panic, out_of_fuel, All,
}
use db2rest_bridge.Base.Int.{ℤ}
use db2rest_bridge.Base.Dict.{Dict}
use db2rest_bridge.Types.Errors.{Error, Go}
use db2rest_bridge.Types.Config.{BackendConfig, id_column}
use db2rest_bridge.Crud.Driver.{Cells, Driver, go_on, ◌>>◌}
use db2rest_bridge.Crud.Sql.{value_of}
use db2rest_bridge.Crud.Writes.{after_exec, tx_step}
use db2rest_bridge.Crud.Batch.{update_tx, update_one, update_each, multi_update}
use db2rest_bridge.Crud.Writes.{remapped}
use db2rest_bridge.Crud.Transactions.{Statement, Transactional, Ends, seen_begun}
use db2rest_bridge.Crud.Written.{Each, IsUpdateOf, update_one-Ends}
use db2rest_bridge.Crud.Atomic.{Each-cons}

-- The ID of the object is a text.
abbrev HasTextId : {V : Type 0} → Cells V → String → Dict V → Type 0
HasTextId cells col obj =
    (id : String) × (cells.as_text (value_of cells.nil_value obj col) ≡ some id)

-- A panic, in a transaction that is still open. To its statements `sts` those of the objects `done` have
-- been added, and nothing is committed.
abbrev pub IsStuck :
    {V S : Type 0} (cells : Cells V) (be : BackendConfig) {db : Driver V S} (tx : Transactional db)
    (entity : String) (d : tx.Data)
    → List (Statement V)
    → List (Dict V)
    → Go (Unit {0}) × S
    → Type 0
IsStuck {V} cells be tx entity d sts done r =
    (new : List (Statement V)) × Each (IsUpdateOf cells be entity) done new
    × (r.0 ≡ panic)
    × (tx.seen r.1 ≡ (d, some (sts ++ new)))

module _ {V S : Type 0} (cells : Cells V) (db : Driver V S) (be : BackendConfig)
    (tx : Transactional db) (entity col : String) (is_col : id_column be entity ≡ ok col)
    (runs : (qry : String) (args : List V) (s : S)
      → (res : Go ℤ) × ((db.tx_exec qry args s).0 ≡ ok res)) where
  open tx use {Data, seen, begin_lem}

  tx_step_ok :
      (wrap : Error → Error) (qry : String) (args : List V) (s : S)
      → (tx_step db wrap qry args s).0 ≡ ok tt
  unfolding tx_step
  tx_step_ok wrap qry args s =
      let (res, e) = runs qry args s in
      ap (λ r. (after_exec db wrap r (db.tx_exec qry args s).1).0) e

  update_one_ok :
      (obj : Dict V) (s : S)
      → HasTextId cells col obj
      → (update_one cells db be entity obj s).0 ≡ ok tt
  unfolding update_one update_tx remapped
  update_one_ok obj s (id, is_text) = rw is_col (rw is_text (tx_step_ok _ _ _ _))

  update_one_panic :
      (obj : Dict V) (s : S)
      → cells.as_text (value_of cells.nil_value obj col) ≡ none
      → update_one cells db be entity obj s ≡ (panic, s)
  unfolding update_one
  update_one_panic obj s no_text = rw is_col (rw no_text refl)

  update_each-IsStuck :
      (d : Data) (sts : List (Statement V)) (done : List (Dict V)) (obj : Dict V)
      (rest : List (Dict V)) (s : S)
      → All (HasTextId cells col) done
      → cells.as_text (value_of cells.nil_value obj col) ≡ none
      → seen s ≡ (d, some sts)
      → IsStuck cells be tx entity d sts done
          (update_each cells db be entity (done ++ obj ∷ rest) s)
  unfolding update_each
  update_each-IsStuck d sts [] obj rest s texts no_text h =
      let e =
        ap (λ r. go_on r.0 (λ u. update_each cells db be entity rest) r.1)
          (update_one_panic obj s no_text) in
      (
        [],
        tt,
        ap (λ r. r.0) e,
        ap (λ r. seen r.1) e ∙ h ∙ ap (λ l. (d, some l)) (sym (append-nil sts)),
      )
  update_each-IsStuck d sts (o ∷ done) obj rest s (text, texts) no_text h =
      let P = IsUpdateOf cells be entity in
      let r = update_one cells db be entity o s in
      let (new, p, e) =
        subst (λ q. Ends db tx (Each P (o ∷ [])) d sts (q, r.1)) (update_one_ok o s text)
          (update_one-Ends cells db be tx d sts entity o s h) in
      let (more, ps, stuck, e') =
        update_each-IsStuck d (sts ++ new) done obj rest r.1 texts no_text e in
      let gone =
        ap (λ q. go_on q (λ u. update_each cells db be entity (done ++ obj ∷ rest)) r.1)
          (update_one_ok o s text) in
      (
        new ++ more,
        Each-cons cells db be tx P o done new more p ps,
        ap (λ x. x.0) gone ∙ stuck,
        ap (λ x. seen x.1) gone ∙ e' ∙ ap (λ l. (d, some l)) (append_assoc sts new more),
      )

  uncommitted :
      (d : Data) (sts : List (Statement V)) (done : List (Dict V)) (q : Go (Unit {0})) (t : S)
      → IsStuck cells be tx entity d sts done (q, t)
      → IsStuck cells be tx entity d sts done (go_on q (λ u. db.commit) t)
  uncommitted d sts done (ok u) t (new, p, stuck, e) = absurd (cc)
  uncommitted d sts done (err f) t (new, p, stuck, e) = absurd (cc)
  uncommitted d sts done panic t k = k
  uncommitted d sts done out_of_fuel t (new, p, stuck, e) = absurd (cc)

  -- Over a database whose transactions behave as documented, and in which beginning a transaction
  -- and every statement of it succeed, from a state with no open transaction: an allowed bulk
  -- update in which an object, at any place, has an ID that is no text, while the objects before
  -- it have text IDs, panics. The UPDATEs of exactly the objects before it have run, and their
  -- transaction is left open, neither committed nor rolled back.
  pub multi_update_panic :
      (d : Data) (done : List (Dict V)) (obj : Dict V) (rest : List (Dict V)) (s : S)
      → be.update ≡ some true
      → seen s ≡ (d, none)
      → (db.begin_tx s).0 ≡ ok tt
      → All (HasTextId cells col) done
      → cells.as_text (value_of cells.nil_value obj col) ≡ none
      → IsStuck cells be tx entity d [] done
          (multi_update cells db be entity (done ++ obj ∷ rest) s)
  unfolding multi_update
  multi_update_panic d done obj rest s on h begun texts no_text = simp on (
      let t = (db.begin_tx s).1 in
      let each = update_each cells db be entity (done ++ obj ∷ rest) in
      let opened : seen t ≡ (d, some []) = begin_lem d s h ∙ ap (λ q. seen_begun q d) begun in
      subst (IsStuck cells be tx entity d [] done)
        (sym (ap (λ q. go_on q (λ u. each >> db.commit) t) begun))
        (uncommitted d [] done (each t).0 (each t).1
          (update_each-IsStuck d [] done obj rest t texts no_text opened)))
