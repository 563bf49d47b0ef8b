-- ===== src/Crud/Tests.antt =====
-- The theorems of Crud at a concrete environment.
use db2rest_bridge.Base.{String, List, true, [], ◌∷◌, none, some, ◌≡◌, refl, ok, err}
use db2rest_bridge.Base.Int.{ℤ, pos}
use db2rest_bridge.Base.Dict.{sort, lookup}
use db2rest_bridge.Types.Config.{id_column}
use db2rest_bridge.Query.Samples.{whole}
use db2rest_bridge.Crud.Samples.{
  word, cells, start, running, transactional, Cell, World, backend, person, numbered,
}
use db2rest_bridge.Crud.Sql.{
  create_insert_or_replace_query, create_update_query, create_multi_delete_query,
}
use db2rest_bridge.Crud.Statements.{
  create_insert_or_replace_query_lem, create_update_query_lem, create_multi_delete_query_lem,
}
use db2rest_bridge.Crud.Driver.{Driver}
use db2rest_bridge.Crud.Ops.{load, exists, get}
use db2rest_bridge.Crud.Batch.{update_one, update_each, multi_update, multi_create}
use db2rest_bridge.Crud.Transactions.{Statement, Commits}
use db2rest_bridge.Crud.Written.{Each, IsUpdateOf, IsCreateOf}
use db2rest_bridge.Crud.Atomic.{multi_update_atomic, multi_create_atomic}
use db2rest_bridge.Crud.Stuck.{IsStuck, multi_update_panic}
use db2rest_bridge.Types.Errors.{Go, mysql, join_one}
use db2rest_bridge.Crud.Reads.{exists-get}

create_insert_or_replace_query_lem_example :
    create_insert_or_replace_query (word "") person "INSERT" "people"
    ≡ ("INSERT INTO `people` (`id`,`name`) VALUES(?,?)", word "1" ∷ word "Ann" ∷ [])
unfolding sort lookup
create_insert_or_replace_query_lem_example =
    create_insert_or_replace_query_lem (word "") person "INSERT" "people"

create_update_query_lem_example : create_update_query (word "") person "people" "id" ≡ (
  "UPDATE `people` SET `id` = ?, `name` = ? WHERE `id` = ? LIMIT 1",
  word "1" ∷ word "Ann" ∷ [],
)
unfolding sort lookup
create_update_query_lem_example = create_update_query_lem (word "") person "people" "id"

create_multi_delete_query_lem_example :
    create_multi_delete_query "people" "id" 3 ≡ "DELETE FROM `people` WHERE `id` IN (?,?,?)"
create_multi_delete_query_lem_example = create_multi_delete_query_lem "people" "id" 2

runs :
    (qry : String) (args : List Cell) (s : World)
    → (res : Go ℤ) × ((running.tx_exec qry args s).0 ≡ ok res)
runs qry args s = (ok (pos 1), refl)

multi_update_atomic_example :
    Commits running transactional
      (Each (IsUpdateOf cells (backend true) "people") (person ∷ person ∷ []))
      []
      (multi_update cells running (backend true) "people" (person ∷ person ∷ []) start)
multi_update_atomic_example =
    multi_update_atomic cells running (backend true) transactional [] "people"
      (person ∷ person ∷ []) start refl refl

multi_create_atomic_example :
    Commits running transactional
      (Each (IsCreateOf cells (backend true) "people" true) (person ∷ numbered ∷ []))
      []
      (multi_create cells running (backend true) "people" true (person ∷ numbered ∷ []) start)
multi_create_atomic_example =
    multi_create_atomic cells running (backend true) transactional [] "people" true
      (person ∷ numbered ∷ []) start refl refl

multi_update_panic_example :
    IsStuck cells
      (backend true)
      transactional
      "people"
      []
      []
      (person ∷ [])
      (multi_update cells running (backend true) "people" (person ∷ numbered ∷ []) start)
unfolding id_column
multi_update_panic_example =
    multi_update_panic cells running (backend true) transactional "people" "id" refl runs []
      (person ∷ []) numbered [] start refl refl refl (("1", refl), tt) refl

exists-get_example : exists cells running (backend true) "people" "1" start ≡ (ok true, start)
unfolding get
exists-get_example =
    exists-get cells running (backend true) "people" "1"
      (some (("id", word "1") ∷ ("name", word "Ann") ∷ [])) start start refl refl

abbrev one_update : Statement Cell
one_update = (
  "UPDATE `people` SET `id` = ?, `name` = ? WHERE `id` = ? LIMIT 1",
  word "1" ∷ word "Ann" ∷ word "1" ∷ [],
)

abbrev two_updates : List (Statement Cell)
two_updates = one_update ∷ one_update ∷ []

-- Two updates are two statements, committed at once.
multi_update_test :
    multi_update cells running (backend true) "people" (person ∷ person ∷ []) start
    ≡ (ok tt, record { committed = two_updates; pending = none })
unfolding multi_update update_each update_one load
multi_update_test = refl

abbrev failing : Driver Cell World
failing = record running { tx_exec = λ qry args w. (err (mysql 1062 "Duplicate entry"), w) }

-- A statement that fails is rolled back, and the error is returned.
multi_update_failed_test :
    multi_update cells failing (backend true) "people" (person ∷ []) start
    ≡ (err (join_one (mysql 1062 "Duplicate entry")), start)
unfolding multi_update update_each update_one load
multi_update_failed_test = refl
