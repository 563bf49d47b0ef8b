-- ===== src/Server/Bulk.antt =====
-- `BulkUpdate` (pkg/server/ops.go) and `extractIds` (pkg/server/misc.go).
use db2rest_bridge.Base.{
  String, true, false, List, [], ◌∷◌, none, some, str_eq, if◌then◌else◌, ok, err, panic,
  out_of_fuel, ◌<>◌,
}
use db2rest_bridge.Base.Results
use db2rest_bridge.Base.Dict.{Dict, lookup}
use db2rest_bridge.Types.Errors.{Go, plain}
use db2rest_bridge.Types.Config.{BackendConfig, id_column, deref}
use db2rest_bridge.Crud.Driver.{Db, pure, lift, ◌>>=◌}
use db2rest_bridge.Api.Types.{BulkUpdateRequest}
use db2rest_bridge.Server.Reply.{Reply, silent}
use db2rest_bridge.Server.Interface.{Interface}
use db2rest_bridge.Server.Handlers.{or_send}

-- `extractIds`, for one object and for all; `show` writes an object into the message.
unfoldable pub id_of : {V : Type 0} → (Dict V → String) → String → Dict V → Go V
unfolding lookup
id_of show id_col dto = elim (lookup id_col dto) [
  | some v ↦ ok v
  | none ↦ err (plain ("can't extract ID column (" <> id_col <> ") value from object " <> show dto))
]

unfoldable pub extract_ids : {V : Type 0} → (Dict V → String) → List (Dict V) → String → Go (List V)
unfolding id_of
extract_ids show [] id_col = ok []
extract_ids show (dto ∷ objs) id_col =
    Results.◌>>=◌ (id_of show id_col dto)
      λ id. Results.◌>>=◌ (extract_ids show objs id_col) λ ids. ok (id ∷ ids)

module _ {V F S : Type 0} (show : Dict V → String) where
  -- The switch on the mode: an unknown one does nothing.
  unfoldable pub bulk_step :
      String → String → BulkUpdateRequest V → Interface V F S → Db S (Unit {0})
  unfolding extract_ids
  bulk_step entity id_col body c =
      if str_eq body.mode "DELETE"
      then (lift (extract_ids show body.objects id_col) >>= λ ids. c.multi_delete entity ids)
      else if str_eq body.mode "UPDATE"
      then c.multi_update entity body.objects
      else if str_eq body.mode "REPLACE"
      then c.multi_create entity true body.objects
      else if str_eq body.mode "INSERT"
      then c.multi_create entity false body.objects
      else pure tt

  -- `BulkUpdate`. The configuration is read at the backend; one that is not there panics.
  unfoldable pub bulk_update :
      Dict BackendConfig
      → String
      → String
      → Go (BulkUpdateRequest V)
      → Interface V F S
      → Db S (Reply V)
  unfolding lookup id_column bulk_step
  bulk_update backends backend entity request c = or_send 400 (lift request) λ body s.
      elim (Results.◌>>=◌ (deref (lookup backend backends)) λ be. id_column be entity) [
        | ok id_col ↦ or_send 500 (bulk_step entity id_col body c) (λ done. pure silent) s
        | err e ↦ (err e, s)
        | panic ↦ (panic, s)
        | out_of_fuel ↦ (out_of_fuel, s)
      ]
