-- ===== src/Crud/Driver.antt =====
-- What package crud uses of its environment: the values of type `interface{}`, the database behind
-- database/sql, and the metadata cache. None of it is code of the repository.
use db2rest_bridge.Base.{String, List, Option, some, ◌≡◌, ok, err, panic, out_of_fuel}
use db2rest_bridge.Base.Int.{ℤ}
use db2rest_bridge.Base.Dict.{Dict}
use db2rest_bridge.Types.Errors.{Error, Go}

-- Values of type `interface{}`: nil, texts, the type test for a text, the `%v` text, and the
-- conversions of time.Parse (by a layout), base64.StdEncoding and the `Scan` methods of sql.NullTime,
-- sql.NullFloat64 and sql.NullString.
pub record Cells (V : Type 0) : Type 0 where
  pub nil_value : V
  pub text : String → V
  pub as_text : V → Option String
  pub show : V → String
  pub parse_time : String → String → Option V
  pub decode_base64 : String → Option V
  pub scan_time : V → Option V
  pub scan_float : V → Option V
  pub scan_string : V → Option V
  pub as_text-text : (s : String) → as_text (text s) ≡ some s

-- The two methods of `*sql.ColumnType` that are called.
pub record ColumnType : Type 0 where
  pub name : String
  pub database_type_name : String

-- `*sql.Rows`: what `Columns` and `ColumnTypes` return, the rows that `Next` steps through, each with
-- what `Scan` does there, and the error that `Err` would report at the end.
pub record Rows (V : Type 0) : Type 0 where
  pub columns : Go (List String)
  pub column_types : Go (List ColumnType)
  pub rows : List (Go (List V))
  pub failure : Option Error

-- The metadata of an entity: its columns by name.
abbrev pub Metadata : Type 0
Metadata = Dict ColumnType

-- An action on the environment, whose state is an `S`.
abbrev pub Db : Type 0 → Type 0 → Type 0
Db S A = S → Go A × S

-- The calls. `scan_count` is a `QueryRowContext` with a `Scan` into an integer, `scan_name` a `Scan`
-- of a row into a text. `exec` returns what `LastInsertId` would. `cached` is `Get` of the cache with
-- its loader.
pub record Driver (V S : Type 0) : Type 0 where
  pub query : String → List V → Db S (Rows V)
  pub scan_count : String → List V → Db S ℤ
  pub scan_name : Go (List V) → Go String
  pub exec : String → List V → Db S (Go ℤ)
  pub begin_tx : Db S (Unit {0})
  pub tx_exec : String → List V → Db S (Go ℤ)
  pub commit : Db S (Unit {0})
  pub rollback : Db S (Unit {0})
  pub cached : (String → S → Option Metadata × S) → String → S → Option Metadata × S

abbrev pub pure : {S A : Type 0} → A → Db S A
pure a s = (ok a, s)

abbrev pub fail : {S A : Type 0} → Error → Db S A
fail e s = (err e, s)

abbrev pub lift : {S A : Type 0} → Go A → Db S A
lift r s = (r, s)

-- After a result, go on with its value; stop at an error or a panic.
abbrev pub go_on : {S A B : Type 0} → Go A → (A → Db S B) → Db S B
go_on (ok a) f s = f a s
go_on (err e) f s = (err e, s)
go_on panic f s = (panic, s)
go_on out_of_fuel f s = (out_of_fuel, s)

infixl 5 ◌>>=◌ ◌>>◌
abbrev pub ◌>>=◌ : {S A B : Type 0} → Db S A → (A → Db S B) → Db S B
◌>>=◌ m f s = let (r, s') = m s in go_on r f s'

abbrev pub ◌>>◌ : {S B : Type 0} → Db S (Unit {0}) → Db S B → Db S B
m >> k = m >>= λ _. k

-- `if err != nil { return …, f(err) }`
abbrev pub map_error : {A : Type 0} → (Error → Error) → Go A → Go A
map_error f (ok a) = ok a
map_error f (err e) = err (f e)
map_error f panic = panic
map_error f out_of_fuel = out_of_fuel

abbrev pub on_error : {S A : Type 0} → (Error → Error) → Db S A → Db S A
on_error f m s = let (r, s') = m s in (map_error f r, s')
