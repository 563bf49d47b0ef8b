-- ===== src/Crud/Ops.antt =====
-- The operations that read (pkg/crud/impl.go): ListItems, QueryNamed, ListEntities, Exists and Get,
-- with the loader of the metadata cache.
use db2rest_bridge.Base.{
  ℕ, suc, String, Bool, true, false, List, [], ◌∷◌, Option, none, some, ok, err, panic, ◌<>◌,
}
use db2rest_bridge.Base.Int.{ℤ, pos}
use db2rest_bridge.Base.Float32.{float32}
use db2rest_bridge.Base.Dict.{Dict, lookup, insert}
use db2rest_bridge.Types.Errors.{Error, Go, with_status, new_error_with_status, wrap_error}
use db2rest_bridge.Types.Config.{BackendConfig, deref, id_column}
use db2rest_bridge.Query.Value.{Floats}
use db2rest_bridge.Query.Filter.{FilterExpression, nil_expr, to_string}
use db2rest_bridge.Query.Page.{Page, page_string}
use db2rest_bridge.Query.Data.{QryData, default_query, query_string}
use db2rest_bridge.Crud.Driver.{
  Cells, Metadata, Db, Driver, pure, fail, lift, ◌>>=◌, ◌>>◌, on_error,
}
use db2rest_bridge.Crud.Rows.{
  get_row_metadata, metadata_of, first_row, map_rows, scan_names, or_else, is_some,
}
use db2rest_bridge.Crud.Sql.{create_single_select_query}

abbrev status_method_not_allowed : ℕ
status_method_not_allowed = 405

abbrev not_allowed : String → Error
not_allowed op = with_status status_method_not_allowed (op <> " op is not allowed by configuration")

abbrev pub err_create_not_allowed : Error
err_create_not_allowed = not_allowed "create"

abbrev pub err_read_not_allowed : Error
err_read_not_allowed = not_allowed "read"

abbrev pub err_update_not_allowed : Error
err_update_not_allowed = not_allowed "update"

abbrev pub err_delete_not_allowed : Error
err_delete_not_allowed = not_allowed "delete"

-- `if !*flag { return …, e }`
abbrev pub check_allowed : {S : Type 0} → Option Bool → Error → Db S (Unit {0})
check_allowed none e = lift panic
check_allowed (some true) e = pure tt
check_allowed (some false) e = fail e

-- `api.PagedResult`. The offset is the whole number that the `float32` stands for.
pub record PagedResult (V : Type 0) : Type 0 where
  pub items : List (Dict V)
  pub total_count : ℤ
  pub offset : ℕ

-- What `Sprintf` with `%v` writes for a filter: it catches a panic of the method `String`.
abbrev sprintf_v : Option String → String
sprintf_v (some s) = s
sprintf_v none =
    "%!v(PANIC=String method: runtime error: invalid memory address or nil pointer dereference)"

-- A text that panics where it is called directly.
abbrev pub must_string : Option String → Go String
must_string none = panic
must_string (some s) = ok s

abbrev limit_text : Option Page → String
limit_text none = ""
limit_text (some p) = " LIMIT " <> page_string p

abbrev offset_of : Option Page → ℕ
offset_of none = 0
offset_of (some p) = p.offset

module _ {V S : Type 0} (cells : Cells V) (db : Driver V S) (be : BackendConfig) where
  -- `Load`, the loader of the cache. (Logging and the closing of rows are left out here and below; a
  -- panic in the loader is not told from an error.)
  unfoldable pub load : String → S → Option Metadata × S
  unfolding id_column create_single_select_query get_row_metadata insert
  load key s =
      let (r, s') =
        (do
          col ← lift (id_column be key)
          db.query (create_single_select_query key col) (cells.text "0" ∷ []))
          s in
      (metadata_of r, s')

  -- `fetchOneItem`: `none` is the nil map.
  unfoldable pub fetch_one_item : String → String → Bool → Db S (Option (Dict V))
  unfolding id_column create_single_select_query first_row wrap_error
  fetch_one_item entity id retrieve = do
    col ← lift (id_column be entity)
    rows ←
        on_error (wrap_error "failed to fetch single row")
          (db.query (create_single_select_query entity col) (cells.text id ∷ []))
    lift (first_row cells retrieve rows rows.rows)

  -- `fetchRows`. The error that the rows report at their end is not asked for.
  unfoldable pub fetch_rows : String → List V → Db S (List (Dict V))
  unfolding map_rows
  fetch_rows qry args = do rows ← db.query qry args; lift (map_rows cells rows)

  -- `Exists`
  unfoldable pub exists : String → String → Db S Bool
  unfolding fetch_one_item
  exists entity id = do
    check_allowed be.read err_read_not_allowed
    r ← fetch_one_item entity id false
    pure (is_some r)

  -- `Get`
  unfoldable pub get : String → String → Db S (Option (Dict V))
  unfolding fetch_one_item
  get entity id = do check_allowed be.read err_read_not_allowed; fetch_one_item entity id true

  -- `ListEntities`
  unfoldable pub list_entities : Db S (List String)
  unfolding scan_names wrap_error
  list_entities = do
    check_allowed be.read err_read_not_allowed
    rows ← on_error (wrap_error "failed to list entity tables") (db.query "SHOW TABLES" [])
    lift (scan_names db.scan_name rows.rows)

  module _ {F : Type 0} ⦃fl : Floats F⦄ where
    abbrev count_where : FilterExpression F → String
    count_where nil_expr = ""
    count_where e = " WHERE " <> sprintf_v (to_string e)

    -- The rows of a page, if the count is positive.
    abbrev pub page_rows : ℤ → String → QryData F → Db S (List (Dict V))
    page_rows (pos (suc n)) entity qe = do
      s ← lift (must_string (query_string qe))
      on_error (wrap_error "failed to fetch rows")
          (fetch_rows ("SELECT * FROM `" <> entity <> "`" <> s) [])
    page_rows _ entity qe = pure []

    -- `ListItems`; `none` in place of the query is nil. Without paging the last step panics.
    unfoldable pub list_items : String → Option (QryData F) → Db S (PagedResult V)
    unfolding to_string query_string fetch_rows wrap_error float32
    list_items entity q = do
      check_allowed be.read err_read_not_allowed
      let qe = or_else q default_query
      cnt ←
          on_error (wrap_error "failed to determine resultset size")
            (db.scan_count ("SELECT COUNT(1) FROM `" <> entity <> "`" <> count_where qe.filter) [])
      res ← page_rows cnt entity qe
      paging ← lift (deref qe.paging)
      pure (record { items = res; total_count = cnt; offset = float32 paging.offset })

    -- `QueryNamed`
    unfoldable pub query_named : String → Option (QryData F) → List V → Db S (PagedResult V)
    unfolding lookup fetch_rows wrap_error page_string float32 new_error_with_status
    query_named name q args = do
      check_allowed be.read err_read_not_allowed
      let qry = or_else q default_query
      saved_qry ← lift (elim (lookup name be.queries) [
        | some text ↦ ok text
        | none ↦ err (new_error_with_status ("no such query: " <> name) 404)
      ])
      cnt ←
          on_error (wrap_error "failed to determine resultset size")
            (db.scan_count ("SELECT COUNT(1) FROM (" <> saved_qry <> ") AS wrapper") args)
      items ←
          on_error (wrap_error ("failed to execute query " <> name))
            (fetch_rows (saved_qry <> limit_text qry.paging) args)
      pure (record { items = items; total_count = cnt; offset = float32 (offset_of qry.paging) })
