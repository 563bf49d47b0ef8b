-- ===== src/Server/Statuses.antt =====
-- The statuses that the handlers (pkg/server/ops.go) answer with, over the implementation of package
-- crud.
use db2rest_bridge.Base.{
  ℕ, String, true, false, [], Option, none, some, ◌≡◌, refl, ap, ◌∙◌, ok, err, ◌⊎◌, ◌≢◌, arith,
}
use db2rest_bridge.Base.Int.{ℤ, show_int}
use db2rest_bridge.Base.Dict.{Dict}
use db2rest_bridge.Types.Errors.{Error, Go, mysql, wrap_error}
use db2rest_bridge.Types.Config.{BackendConfig}
use db2rest_bridge.Query.Value.{Floats}
use db2rest_bridge.Crud.Driver.{Cells, Db, Driver, lift, go_on, ◌>>=◌, on_error}
use db2rest_bridge.Crud.Ops.{
  check_allowed, fetch_one_item, err_read_not_allowed, err_create_not_allowed,
  err_delete_not_allowed,
}
use db2rest_bridge.Crud.Writes.{remapped, create}
use db2rest_bridge.Crud.Sql.{create_insert_query}
use db2rest_bridge.Crud.Gates.{reads_refused, deletes_refused}
use db2rest_bridge.Server.Reply.{Reply, send_error, mysql_error_status, reply_status}
use db2rest_bridge.Server.Interface.{impl}
use db2rest_bridge.Server.Handlers.{create_item, update_item_by_id, delete_item_by_id}
use db2rest_bridge.Server.Answers.{create_item-err, update_item_by_id-err, delete_item_by_id-err}

-- The handler answers with `status`, and the state of the environment ends as `s`.
abbrev pub Answers : {V S : Type 0} → (Error → ℕ → ℕ) → Go (Reply V) × S → ℕ → S → Type 0
Answers {V} unmapped r status s =
    (reply : Reply V) × (r ≡ (ok reply, s)) × (reply_status unmapped reply ≡ status)

-- A duplicate key and a broken foreign key are conflicts, a missing value is a bad request, and any other
-- error is one of the server.
abbrev IsMysqlStatus : ℕ → ℕ → Type 0
IsMysqlStatus number status =
    ((number ≡ 1062) × (status ≡ 409))
    ⊎ (((number ≡ 1451) ⊎ (number ≡ 1452)) × (status ≡ 409))
    ⊎ ((number ≡ 1364) × (status ≡ 400))
    ⊎ ((number ≢ 1062) × (number ≢ 1451) × (number ≢ 1452) × (number ≢ 1364) × (status ≡ 500))

mysql_error_status-eq :
    (number status : ℕ) → IsMysqlStatus number status → mysql_error_status number ≡ status
unfolding mysql_error_status
mysql_error_status-eq number status h = ground arith

create-err :
    {V S : Type 0} (cells : Cells V) (db : Driver V S) (be : BackendConfig) (entity : String)
    (e : Error) (body b : Dict V) (s t u : S)
    → be.create ≡ some true
    → remapped cells db be entity body s ≡ (ok b, t)
    → (let stmt = create_insert_query cells.nil_value b entity in
        db.exec stmt.0 stmt.1 t ≡ (err e, u))
    → create cells db be entity body s ≡ (err e, u)
unfolding create
create-err {V = V} {S = S} cells db be entity e body b s t u on body_eq refused =
    ap (λ f. (check_allowed f err_create_not_allowed >>= λ x. rest) s) on
    ∙ ap (λ r. go_on r.0 insert_it r.1) body_eq
    ∙ ap (λ r. go_on r.0 fetch_it r.1) refused
  where
    fetch_it : Go ℤ → Db S (Option (Dict V))
    fetch_it res = on_error (wrap_error "failed to retrieve last insert ID") (lift res) >>= λ id.
        fetch_one_item cells db be entity (show_int id) true

    insert_it : Dict V → Db S (Option (Dict V))
    insert_it b' =
        let stmt = create_insert_query cells.nil_value b' entity in
        db.exec stmt.0 stmt.1 >>= fetch_it

    rest : Db S (Option (Dict V))
    rest = remapped cells db be entity body >>= insert_it

module _ {V S : Type 0} (F : Type 0) ⦃fl : Floats F⦄ (cells : Cells V) (db : Driver V S)
    (be : BackendConfig) (unmapped : Error → ℕ → ℕ) where
  -- With reading not allowed, an update whose body is well-formed is answered with 405 and leaves
  -- the state of the environment as it was, even if updating is allowed.
  pub update_item_by_id_unreadable :
      (entity id : String) (body : Dict V) (s : S)
      → be.read ≡ some false
      → Answers unmapped (update_item_by_id {F = F} entity id (ok body) (impl cells db be) s) 405 s
  unfolding update_item_by_id impl reply_status
  update_item_by_id_unreadable entity id body s off = (
    send_error err_read_not_allowed 500,
    update_item_by_id-err (impl {F = F} cells db be) entity id body
        ((reads_refused {F = F} cells db be entity id none [] s off).0),
    refl,
  )

  -- With deleting not allowed, a DELETE is answered with 405 and leaves the state of the
  -- environment as it was.
  delete_item_by_id_refused :
      (entity id : String) (s : S)
      → be.delete ≡ some false
      → Answers unmapped (delete_item_by_id {F = F} entity id (impl cells db be) s) 405 s
  unfolding delete_item_by_id impl reply_status
  delete_item_by_id_refused entity id s off = (
    send_error err_delete_not_allowed 500,
    delete_item_by_id-err (impl {F = F} cells db be) entity id
        ((deletes_refused cells db be entity id [] s off).0),
    refl,
  )

  -- With creating allowed, if the INSERT fails with a MySQL error, the handler answers in the
  -- state that the statement left: with 409 for a duplicate key (1062) or a foreign key (1451,
  -- 1452), with 400 for a field without a default value (1364), and with 500 for any other number.
  pub create_item-mysql :
      (entity msg : String) (number status : ℕ) (body b : Dict V) (s t u : S)
      → be.create ≡ some true
      → remapped cells db be entity body s ≡ (ok b, t)
      → (let stmt = create_insert_query cells.nil_value b entity in
          db.exec stmt.0 stmt.1 t ≡ (err (mysql number msg), u))
      → IsMysqlStatus number status
      → Answers unmapped (create_item {F = F} entity (ok body) (impl cells db be) s) status u
  unfolding create_item impl reply_status
  create_item-mysql entity msg number status body b s t u on body_eq refused known = (
    send_error (mysql number msg) 500,
    create_item-err (impl {F = F} cells db be) entity entity body
        (create-err cells db be entity (mysql number msg) body b s t u on body_eq refused),
    mysql_error_status-eq number status known,
  )
