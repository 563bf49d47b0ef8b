-- ===== src/Crud/Batch.antt =====
-- The operations that write several objects in one transaction (pkg/crud/impl.go).
use db2rest_bridge.Base.{String, Bool, List, [], ◌∷◌, ◌++◌, ◌<>◌, if◌then◌else◌}
use db2rest_bridge.Base.Dict.{Dict}
use db2rest_bridge.Types.Errors.{wrap_error_with_status, status_internal_server_error}
use db2rest_bridge.Types.Config.{BackendConfig, id_column}
use db2rest_bridge.Crud.Driver.{Cells, Db, Driver, pure, lift, ◌>>=◌, ◌>>◌}
use db2rest_bridge.Crud.Sql.{
  value_of, create_update_query, create_insert_query, create_replace_query,
}
use db2rest_bridge.Crud.Ops.{
  check_allowed, err_create_not_allowed, err_update_not_allowed, must_string,
}
use db2rest_bridge.Crud.Writes.{remapped, tx_step}

module _ {V S : Type 0} (cells : Cells V) (db : Driver V S) (be : BackendConfig) where
  unfoldable pub update_tx : String → String → String → Dict V → Db S (Unit {0})
  unfolding create_update_query tx_step
  update_tx entity id_col id obj =
      let stmt = create_update_query cells.nil_value obj entity id_col in
      tx_step db (λ e. e) stmt.0 (stmt.1 ++ cells.text id ∷ [])

  -- One round of the loop of `MultiUpdate`. An ID that is no text panics.
  unfoldable pub update_one : String → Dict V → Db S (Unit {0})
  unfolding id_column remapped update_tx
  update_one entity obj = do
    id_col ← lift (id_column be entity)
    id ← lift (must_string (cells.as_text (value_of cells.nil_value obj id_col)))
    obj' ← remapped cells db be entity obj
    update_tx entity id_col id obj'

  unfoldable pub update_each : String → List (Dict V) → Db S (Unit {0})
  update_each entity [] = pure tt
  update_each entity (obj ∷ objs) = do update_one entity obj; update_each entity objs

  -- `MultiUpdate`
  unfoldable pub multi_update : String → List (Dict V) → Db S (Unit {0})
  multi_update entity objs = do
    check_allowed be.update err_update_not_allowed
    db.begin_tx
    update_each entity objs
    db.commit

  unfoldable pub create_tx : String → Bool → Dict V → Db S (Unit {0})
  unfolding create_insert_query create_replace_query tx_step wrap_error_with_status
  create_tx entity replace obj =
      let stmt =
        if replace
        then create_replace_query cells.nil_value obj entity
        else create_insert_query cells.nil_value obj entity in
      tx_step db
        (λ e. wrap_error_with_status ("query failed: " <> stmt.0) e status_internal_server_error)
        stmt.0 stmt.1

  -- One round of the loop of `MultiCreate`.
  unfoldable pub create_one : String → Bool → Dict V → Db S (Unit {0})
  unfolding remapped create_tx
  create_one entity replace obj = do
    obj' ← remapped cells db be entity obj
    create_tx entity replace obj'

  unfoldable pub create_each : String → Bool → List (Dict V) → Db S (Unit {0})
  create_each entity replace [] = pure tt
  create_each entity replace (obj ∷ objs) = do
    create_one entity replace obj
    create_each entity replace objs

  -- `MultiCreate`
  unfoldable pub multi_create : String → Bool → List (Dict V) → Db S (Unit {0})
  multi_create entity replace objs = do
    check_allowed be.create err_create_not_allowed
    db.begin_tx
    create_each entity replace objs
    db.commit
