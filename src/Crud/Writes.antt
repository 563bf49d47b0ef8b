-- ===== src/Crud/Writes.antt =====
-- The operations that write (pkg/crud/impl.go): Delete, Update, Create and the bulk operations.
use db2rest_bridge.Base.{
  String, true, List, [], ◌∷◌, ◌++◌, Option, none, some, ok, err, panic, out_of_fuel, length,
}
use db2rest_bridge.Base.Int.{ℤ, show_int}
use db2rest_bridge.Base.Dict.{Dict}
use db2rest_bridge.Types.Errors.{Error, Go, plain, join_one, join_two, wrap_error}
use db2rest_bridge.Types.Config.{BackendConfig, id_column}
use db2rest_bridge.Crud.Driver.{Cells, Db, Driver, pure, fail, lift, ◌>>=◌, ◌>>◌, on_error}
use db2rest_bridge.Crud.Rows.{remap_body}
use db2rest_bridge.Crud.Sql.{
  create_single_delete_query, create_multi_delete_query, create_update_query, create_insert_query,
}
use db2rest_bridge.Crud.Ops.{
  check_allowed, err_create_not_allowed, err_update_not_allowed, err_delete_not_allowed, load,
  fetch_one_item,
}

abbrev err_no_obj : Error
err_no_obj = plain "require at least one object"

-- `errors.Join(e, …)` with the error of a rollback, or with nil
abbrev pub join_rollback : Error → Go (Unit {0}) → Go (Unit {0})
join_rollback e (ok done) = err (join_one e)
join_rollback e (err f) = err (join_two e f)
join_rollback e panic = panic
join_rollback e out_of_fuel = out_of_fuel

module _ {V S : Type 0} (db : Driver V S) where
  abbrev pub after_exec : (Error → Error) → Go (Go ℤ) → Db S (Unit {0})
  after_exec wrap (ok res) s = (ok tt, s)
  after_exec wrap (err e) s =
      let (rolled, s') = db.rollback s in (join_rollback (wrap e) rolled, s')
  after_exec wrap panic s = (panic, s)
  after_exec wrap out_of_fuel s = (out_of_fuel, s)

  -- A statement inside the transaction; after an error the transaction is rolled back.
  unfoldable pub tx_step : (Error → Error) → String → List V → Db S (Unit {0})
  tx_step wrap qry values s = let (r, s') = db.tx_exec qry values s in after_exec wrap r s'

module _ {V S : Type 0} (cells : Cells V) (db : Driver V S) (be : BackendConfig) where
  -- The body, with its values converted by the cached metadata, if there is any.
  unfoldable pub remapped : String → Dict V → Db S (Dict V)
  unfolding remap_body
  remapped entity body s =
      let (md, s') = db.cached (load cells db be) entity s in
      (ok (elim md [ none ↦ body | some m ↦ remap_body cells m body ]), s')

  -- `Delete`
  unfoldable pub delete : String → String → Db S (Unit {0})
  unfolding id_column create_single_delete_query
  delete entity id = do
    check_allowed be.delete err_delete_not_allowed
    col ← lift (id_column be entity)
    r ← db.exec (create_single_delete_query entity col) (cells.text id ∷ [])
    pure tt

  -- `Update`
  unfoldable pub update : String → String → Dict V → Db S (Option (Dict V))
  unfolding remapped id_column create_update_query wrap_error fetch_one_item
  update entity id body = do
    check_allowed be.update err_update_not_allowed
    body' ← remapped entity body
    col ← lift (id_column be entity)
    let stmt = create_update_query cells.nil_value body' entity col
    r ←
        on_error (wrap_error "failed to update entity")
          (db.exec stmt.0 (stmt.1 ++ cells.text id ∷ []))
    fetch_one_item cells db be entity id true

  -- `Create`. An error of the statement is returned as it is.
  unfoldable pub create : String → Dict V → Db S (Option (Dict V))
  unfolding remapped create_insert_query wrap_error show_int fetch_one_item
  create entity body = do
    check_allowed be.create err_create_not_allowed
    body' ← remapped entity body
    let stmt = create_insert_query cells.nil_value body' entity
    res ← db.exec stmt.0 stmt.1
    id ← on_error (wrap_error "failed to retrieve last insert ID") (lift res)
    fetch_one_item cells db be entity (show_int id) true

  -- `MultiDelete`
  unfoldable pub multi_delete : String → List V → Db S (Unit {0})
  unfolding delete id_column create_multi_delete_query
  multi_delete entity [] = do check_allowed be.delete err_delete_not_allowed; fail err_no_obj
  multi_delete entity (id ∷ []) = do
    check_allowed be.delete err_delete_not_allowed
    delete entity (cells.show id)
  multi_delete entity (id ∷ id₂ ∷ ids) = do
    check_allowed be.delete err_delete_not_allowed
    col ← lift (id_column be entity)
    r ← db.exec (create_multi_delete_query entity col (length (id ∷ id₂ ∷ ids))) (id ∷ id₂ ∷ ids)
    pure tt
