-- ===== src/Crud/Rows.antt =====
-- Rows as entities (pkg/crud/misc.go), and the values of a body by the types of their columns
-- (`remapValue` and `remapBody` of pkg/crud/impl.go).
use db2rest_bridge.Base.{
  String, Bool, true, false, List, [], ◌∷◌, Option, none, some, ok, panic, ◌>>=◌, str_eq, any,
  if◌then◌else◌,
}
use db2rest_bridge.Base.Dict.{Dict, lookup, insert}
use db2rest_bridge.Types.Errors.{Go, wrap_error}
use db2rest_bridge.Crud.Driver.{Cells, ColumnType, Rows, Metadata, map_error}

abbrev pub is_some : {A : Type 0} → Option A → Bool
is_some none = false
is_some (some a) = true

abbrev pub or_else {ℓ} : {A : Type ℓ} → Option A → A → A
or_else none d = d
or_else (some a) d = a

abbrev is_one_of : String → List String → Bool
is_one_of s ts = any (str_eq s) ts

-- `getRowMetadata`
unfoldable pub get_row_metadata : {V : Type 0} → Rows V → Go (List String × List ColumnType)
get_row_metadata rows = do cols ← rows.columns; col_types ← rows.column_types; ok (cols, col_types)

abbrev associate : List ColumnType → Metadata → Metadata
associate [] md = md
associate (ct ∷ cts) md = associate cts (insert ct.name ct md)

-- The metadata of an answer, or nil after an error.
abbrev pub metadata_of : {V : Type 0} → Go (Rows V) → Option Metadata
metadata_of (ok rows) = elim (get_row_metadata rows) [
  | ok (cols, col_types) ↦ some (associate col_types [])
  | _ ↦ none
]
metadata_of _ = none

module _ {V : Type 0} (cells : Cells V) where
  -- A value that does not scan stays as the driver gave it.
  unfoldable map_value : ColumnType → V → V
  map_value ct val =
      if is_one_of ct.database_type_name ("DATETIME" ∷ "TIMESTAMP" ∷ [])
      then or_else (cells.scan_time val) val
      else if is_one_of ct.database_type_name ("DECIMAL" ∷ [])
      then or_else (cells.scan_float val) val
      else if is_one_of ct.database_type_name ("VARCHAR" ∷ "ENUM" ∷ "CHAR" ∷ "TEXT" ∷ [])
      then or_else (cells.scan_string val) val
      else val

  -- The loop of `mapEntity`; an index out of range panics.
  unfoldable map_columns : Dict V → List String → List ColumnType → List V → Go (Dict V)
  unfolding map_value insert
  map_columns res [] types values = ok res
  map_columns res (column ∷ columns) (ct ∷ types) (v ∷ values) =
      map_columns (insert column (map_value ct v) res) columns types values
  map_columns res (column ∷ columns) _ _ = panic

  unfoldable pub map_entity : Go (List V) → List String → List ColumnType → Go (Dict V)
  unfolding map_columns
  map_entity row columns types = do values ← row; map_columns [] columns types values

  -- `time.RFC3339` and `time.DateOnly`
  abbrev date_time_layouts : List String
  date_time_layouts = "2006-01-02T15:04:05Z07:00" ∷ "2006-01-02" ∷ []

  abbrev first_time : List String → String → V → V
  first_time [] s v = v
  first_time (layout ∷ layouts) s v = or_else (cells.parse_time layout s) (first_time layouts s v)

  abbrev remap_text : String → V → ColumnType → V
  remap_text s v ct =
      if is_one_of ct.database_type_name ("DATETIME" ∷ "TIMESTAMP" ∷ "DATE" ∷ [])
      then first_time date_time_layouts s v
      else if is_one_of ct.database_type_name ("BLOB" ∷ [])
      then or_else (cells.decode_base64 s) v
      else v

  unfoldable remap_value : V → ColumnType → V
  remap_value v ct = elim (cells.as_text v) [ none ↦ v | some s ↦ remap_text s v ct ]

  unfoldable pub remap_body : Metadata → Dict V → Dict V
  unfolding remap_value lookup
  remap_body md [] = []
  remap_body md ((key, val) ∷ body) =
      (key, elim (lookup key md) [ none ↦ val | some ct ↦ remap_value val ct ]) ∷ remap_body md body

  -- Whether there is a row, and which entity it holds; without `retrieve` an empty one.
  unfoldable pub first_row : Bool → Rows V → List (Go (List V)) → Go (Option (Dict V))
  unfolding get_row_metadata map_entity wrap_error
  first_row retrieve rows [] = ok none
  first_row false rows (row ∷ more) = ok (some [])
  first_row true rows (row ∷ more) = do
    (cols, types) ← map_error (wrap_error "failed to get row metadata") (get_row_metadata rows)
    e ← map_entity row cols types
    ok (some e)

  -- The loop of `fetchRows`.
  unfoldable map_row_list : List (Go (List V)) → List String → List ColumnType → Go (List (Dict V))
  unfolding map_entity wrap_error
  map_row_list [] cols types = ok []
  map_row_list (row ∷ rows) cols types = do
    item ← map_error (wrap_error "failed to map row to entity") (map_entity row cols types)
    items ← map_row_list rows cols types
    ok (item ∷ items)

  unfoldable pub map_rows : Rows V → Go (List (Dict V))
  unfolding get_row_metadata map_row_list
  map_rows rows = do
    (cols, types) ← map_error (wrap_error "failed to get row metadata") (get_row_metadata rows)
    map_row_list rows.rows cols types

-- The loop of `ListEntities`.
unfoldable pub scan_names :
    {V : Type 0} → (Go (List V) → Go String) → List (Go (List V)) → Go (List String)
unfolding wrap_error
scan_names scan [] = ok []
scan_names scan (row ∷ rows) = do
  t ← map_error (wrap_error "failed to scan table name") (scan row)
  ts ← scan_names scan rows
  ok (t ∷ ts)
