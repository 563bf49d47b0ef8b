-- ===== src/Crud/Sql.antt =====
-- The SQL statements (pkg/crud/misc.go). A body is a map from columns to values.
use db2rest_bridge.Base.{
  ℕ, ◌+◌, ◌-◌, String, List, [], ◌∷◌, ◌++◌, none, some, ◌<>◌, repeat, length, ltb, if◌then◌else◌,
}
use db2rest_bridge.Base.Dict.{Dict, lookup, keys, sort}

-- `createSingleItemFilter`
unfoldable create_single_item_filter : String → String
create_single_item_filter id_column = "WHERE " <> "`" <> id_column <> "`" <> " = ?" <> " LIMIT 1"

-- `createMultiItemFilter`. `strings.Repeat` panics on a negative count; the caller gives at least 1.
unfoldable create_multi_item_filter : String → ℕ → String
create_multi_item_filter id_column ids_count =
    "WHERE " <> "`" <> id_column <> "`" <> " IN (" <> repeat (ids_count - 1) "?," <> "?)"

unfoldable pub create_single_select_query : String → String → String
unfolding create_single_item_filter
create_single_select_query entity id_column =
    "SELECT * FROM `" <> entity <> "` " <> create_single_item_filter id_column

unfoldable create_delete_query_prefix : String → String
create_delete_query_prefix entity = "DELETE FROM `" <> entity <> "` "

unfoldable pub create_single_delete_query : String → String → String
unfolding create_delete_query_prefix create_single_item_filter
create_single_delete_query entity id_column =
    create_delete_query_prefix entity <> create_single_item_filter id_column

unfoldable pub create_multi_delete_query : String → String → ℕ → String
unfolding create_delete_query_prefix create_multi_item_filter
create_multi_delete_query entity id_column ids_count =
    create_delete_query_prefix entity <> create_multi_item_filter id_column ids_count

abbrev pub backquoted : String → String
backquoted col = "`" <> col <> "`"

abbrev pub assignment : String → String
assignment col = "`" <> col <> "` = ?"

-- `nil_value` is the nil that a Go map gives for a missing key.
module _ {V : Type 0} (nil_value : V) (body : Dict V) where
  abbrev pub value_of : String → V
  value_of col = elim (lookup col body) [ none ↦ nil_value | some v ↦ v ]

  -- The loop of `createInsertOrReplaceQuery` over the columns from index `i` on: the builders of the
  -- columns and of the placeholders, and the values.
  unfoldable pub insert_loop :
      ℕ → ℕ → List String → String → String → List V → String × String × List V
  insert_loop col_count i [] csb vsb values = (csb, vsb, values)
  insert_loop col_count i (col ∷ cols) csb vsb values =
      let sep = if ltb i (col_count - 1) then "," else "" in
      insert_loop col_count (i + 1) cols (csb <> "`" <> col <> "`" <> sep) (vsb <> "?" <> sep)
        (values ++ value_of col ∷ [])

  unfoldable pub create_insert_or_replace_query : String → String → String × List V
  unfolding insert_loop sort
  create_insert_or_replace_query verb entity =
      let cols = sort (keys body) in
      let (csb, vsb, values) = insert_loop (length cols) 0 cols "(" " VALUES(" [] in
      (verb <> " INTO `" <> entity <> "` " <> (csb <> ")") <> (vsb <> ")"), values)

  unfoldable pub create_replace_query : String → String × List V
  unfolding create_insert_or_replace_query
  create_replace_query entity = create_insert_or_replace_query "REPLACE" entity

  unfoldable pub create_insert_query : String → String × List V
  unfolding create_insert_or_replace_query
  create_insert_query entity = create_insert_or_replace_query "INSERT" entity

  -- The loop of `createUpdateQuery`.
  unfoldable pub update_loop : ℕ → ℕ → List String → String → List V → String × List V
  update_loop col_count i [] sb values = (sb, values)
  update_loop col_count i (col ∷ cols) sb values =
      let sep = if ltb i (col_count - 1) then ", " else "" in
      update_loop col_count (i + 1) cols (sb <> "`" <> col <> "` = ?" <> sep)
        (values ++ value_of col ∷ [])

  unfoldable pub create_update_query : String → String → String × List V
  unfolding update_loop sort create_single_item_filter
  create_update_query entity id_column =
      let cols = sort (keys body) in
      let (sb, values) = update_loop (length cols) 0 cols ("UPDATE `" <> entity <> "` SET ") [] in
      (sb <> " " <> create_single_item_filter id_column, values)
