-- ===== src/Crud/Gates.antt =====
-- The operations of pkg/crud/impl.go that the configuration does not allow.
use db2rest_bridge.Base.{String, Bool, false, List, [], ◌∷◌, Option, some, ◌≡◌, err}
use db2rest_bridge.Base.Dict.{Dict}
use db2rest_bridge.Types.Config.{BackendConfig}
use db2rest_bridge.Query.Value.{Floats}
use db2rest_bridge.Query.Data.{QryData}
use db2rest_bridge.Crud.Driver.{Cells, Driver}
use db2rest_bridge.Crud.Ops.{
  err_create_not_allowed, err_read_not_allowed, err_update_not_allowed, err_delete_not_allowed,
  exists, get, list_entities, list_items, query_named,
}
use db2rest_bridge.Crud.Writes.{delete, update, create, multi_delete}
use db2rest_bridge.Crud.Batch.{multi_update, multi_create}

module _ {V S F : Type 0} ⦃fl : Floats F⦄ (cells : Cells V) (db : Driver V S)
    (be : BackendConfig) where
  -- With reading not allowed, each of the five reading operations returns the read error and
  -- leaves the state of the environment as it was.
  pub reads_refused :
      (entity id : String) (q : Option (QryData F)) (args : List V) (s : S)
      → be.read ≡ some false
      → (exists cells db be entity id s ≡ (err err_read_not_allowed, s))
        × (get cells db be entity id s ≡ (err err_read_not_allowed, s))
        × (list_entities cells db be s ≡ (err err_read_not_allowed, s))
        × (list_items cells db be entity q s ≡ (err err_read_not_allowed, s))
        × (query_named cells db be entity q args s ≡ (err err_read_not_allowed, s))
  unfolding exists get list_entities list_items query_named
  reads_refused entity id q args s off = (rw off, rw off, rw off, rw off, rw off)

module _ {V S : Type 0} (cells : Cells V) (db : Driver V S) (be : BackendConfig) where
  -- With deleting not allowed, Delete and MultiDelete return the delete error and leave the state
  -- of the environment as it was.
  pub deletes_refused :
      (entity id : String) (ids : List V) (s : S)
      → be.delete ≡ some false
      → (delete cells db be entity id s ≡ (err err_delete_not_allowed, s))
        × (multi_delete cells db be entity ids s ≡ (err err_delete_not_allowed, s))
  unfolding delete multi_delete
  deletes_refused entity id [] s off = (rw off, rw off)
  deletes_refused entity id (i ∷ []) s off = (rw off, rw off)
  deletes_refused entity id (i ∷ j ∷ ids) s off = (rw off, rw off)

  -- With updating not allowed, Update and MultiUpdate return the update error and leave the state
  -- of the environment as it was.
  pub updates_refused :
      (entity id : String) (body : Dict V) (objs : List (Dict V)) (s : S)
      → be.update ≡ some false
      → (update cells db be entity id body s ≡ (err err_update_not_allowed, s))
        × (multi_update cells db be entity objs s ≡ (err err_update_not_allowed, s))
  unfolding update multi_update
  updates_refused entity id body objs s off = (rw off, rw off)

  -- With creating not allowed, Create and MultiCreate return the create error and leave the state
  -- of the environment as it was.
  pub creates_refused :
      (entity : String) (replace : Bool) (body : Dict V) (objs : List (Dict V)) (s : S)
      → be.create ≡ some false
      → (create cells db be entity body s ≡ (err err_create_not_allowed, s))
        × (multi_create cells db be entity replace objs s ≡ (err err_create_not_allowed, s))
  unfolding create multi_create
  creates_refused entity replace body objs s off = (rw off, rw off)
