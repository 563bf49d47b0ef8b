-- ===== src/Server/Tests.antt =====
-- The theorems of Server at a concrete environment.
use db2rest_bridge.Base.{Option, none, inl, ℕ, String, true, false, [], ◌∷◌, ◌≡◌, refl, ok}
use db2rest_bridge.Base.Int.{ℤ}
use db2rest_bridge.Base.Dict.{Dict, lookup}
use db2rest_bridge.Types.Errors.{Error}
use db2rest_bridge.Query.Samples.{whole}
use db2rest_bridge.Types.Config.{id_column}
use db2rest_bridge.Crud.Ops.{load}
use db2rest_bridge.Crud.Driver.{Driver}
use db2rest_bridge.Crud.Quiet.{Reads}
use db2rest_bridge.Api.Wrapper.{Incoming}
use db2rest_bridge.Api.Operation.{Operation, bulk, call_of}
use db2rest_bridge.Server.Backends.{Impl}
use db2rest_bridge.Server.Rest.{Decoders, rest_server}
use db2rest_bridge.Server.Run.{server_over}
use db2rest_bridge.Server.Permitted.{call_of-Keeps}
use db2rest_bridge.Crud.Writes.{remapped}
use db2rest_bridge.Crud.Samples.{
  Cell, World, word, cells, start, running, duplicate, backend, person,
}
use db2rest_bridge.Server.Reply.{mysql_error_status, silent}
use db2rest_bridge.Server.Interface.{impl}
use db2rest_bridge.Server.Handlers.{create_item, update_item_by_id}
use db2rest_bridge.Api.Types.{VersionInfo, BulkUpdateRequest, is_valid}
use db2rest_bridge.Server.Bulk.{extract_ids, bulk_update}
use db2rest_bridge.Server.Ids.{extract_ids_all, bulk_update_unknown}
use db2rest_bridge.Server.Statuses.{Answers, update_item_by_id_unreadable, create_item-mysql}

abbrev status_given : Error → ℕ → ℕ
status_given e status = status

abbrev any_driver : Option (Unit {0}) → Driver Cell World
any_driver o = running

abbrev show_none : Dict Cell → String
show_none dto = ""

extract_ids_all_example :
    extract_ids show_none (person ∷ person ∷ []) "id" ≡ ok (word "1" ∷ word "1" ∷ [])
unfolding lookup
extract_ids_all_example =
    extract_ids_all show_none "id" (person ∷ person ∷ []) (word "1" ∷ word "1" ∷ []) refl

abbrev upsert : BulkUpdateRequest Cell
upsert = record { mode = "UPSERT"; objects = person ∷ [] }

bulk_update_unknown_example :
    bulk_update show_none
      (("db", backend true) ∷ [])
      "db"
      "people"
      (ok upsert)
      (impl {F = ℤ} cells running (backend true))
      start
    ≡ (ok silent, start)
unfolding lookup id_column is_valid
bulk_update_unknown_example =
    bulk_update_unknown show_none (("db", backend true) ∷ []) "db" "people" "id" (backend true)
      upsert (impl {F = ℤ} cells running (backend true)) start refl refl refl

committed-Reads : (o : Option (Unit {0})) → Reads (λ w. w.committed) (any_driver o)
committed-Reads o = record {
  query_keeps = λ qry args w. refl;
  scan_count_keeps = λ qry args w. refl;
  cached_keeps = λ loader keeps key w. keeps key w;
}

abbrev removal : BulkUpdateRequest Cell
removal = record { mode = "DELETE"; objects = person ∷ [] }

abbrev as_sent : Decoders Cell (BulkUpdateRequest Cell)
as_sent = record { decode_dto = λ b. ok person; decode_bulk = λ b. ok b }

abbrev version_info : VersionInfo
version_info = record { build_time = ""; build_user = ""; revision = ""; version = "1" }

abbrev read_only : Dict (Impl (Unit {0}) World)
read_only =
    ("db", record { closer = none; config = record { config = backend false; db = none } }) ∷ []

abbrev removing : Incoming (Unit {0}) (BulkUpdateRequest Cell)
removing = record { method = "POST"; url = tt; body = removal; vars = λ name. "" }

abbrev removal_sent : Operation ℤ (BulkUpdateRequest Cell)
removal_sent = bulk "db" "people" "application/json" removal

call_of-Keeps_example :
    (call_of
      (rest_server cells as_sent show_none version_info (server_over cells any_driver read_only))
      removal_sent
      removing
      start).1.committed
    ≡ []
call_of-Keeps_example =
    call_of-Keeps (λ w. w.committed) cells any_driver committed-Reads as_sent show_none version_info
      read_only removal_sent removing start ((refl, refl, refl), tt)

update_item_by_id_unreadable_example :
    Answers status_given
      (update_item_by_id {F = ℤ} "people" "1"
        (ok person)
        (impl cells running (backend false))
        start)
      405
      start
update_item_by_id_unreadable_example =
    update_item_by_id_unreadable ℤ cells running (backend false) status_given "people" "1" person
      start refl

create_item-mysql_example :
    Answers status_given
      (create_item {F = ℤ} "people" (ok person) (impl cells duplicate (backend true)) start)
      409
      start
unfolding remapped load mysql_error_status
create_item-mysql_example =
    create_item-mysql ℤ cells duplicate (backend true) status_given "people" "Duplicate entry" 1062
      409 person person start start start refl refl refl (inl (refl, refl))
