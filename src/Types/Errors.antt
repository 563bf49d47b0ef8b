-- ===== src/Types/Errors.antt =====
-- Errors with an HTTP status (pkg/types/types.go), and the other errors that meet them: those of the
-- MySQL driver, plain ones, and the results of `errors.Join`.
use db2rest_bridge.Base.{ℕ, String, Option, none, some, Outcome}

-- `with_status` is an `ErrorWithStatus` with no wrapped error, `wrapping` one that has a wrapped
-- error. `json` is an error of encoding/json. `join_one` and `join_two` are what `errors.Join(a, b)` makes of a nil and a non-nil `b`.
pub data Error : Type 0 where
  plain : String → Error
  with_status : ℕ → String → Error
  wrapping : ℕ → String → Error → Error
  mysql : ℕ → String → Error
  json : Error
  join_one : Error → Error
  join_two : Error → Error → Error

-- What a Go function that returns `(A, error)` does.
abbrev pub Go : Type 0 → Type 0
Go A = Outcome Error A

abbrev pub status_internal_server_error : ℕ
status_internal_server_error = 500

unfoldable pub new_error_with_status : String → ℕ → Error
new_error_with_status msg status = with_status status msg

unfoldable pub wrap_error : String → Error → Error
wrap_error msg e = wrapping status_internal_server_error msg e

unfoldable pub wrap_error_with_status : String → Error → ℕ → Error
wrap_error_with_status msg e status = wrapping status msg e

abbrev first_of_two {ℓ} : {A : Type ℓ} → Option A → Option A → Option A
first_of_two (some a) b = some a
first_of_two none b = b

-- `errors.AsType[*mysql.MySQLError]`: the first such error on the way through the wrapped ones.
unfoldable pub as_mysql : Error → Option (ℕ × String)
as_mysql (plain msg) = none
as_mysql (with_status status msg) = none
as_mysql (wrapping status msg e) = as_mysql e
as_mysql (mysql number msg) = some (number, msg)
as_mysql json = none
as_mysql (join_one e) = as_mysql e
as_mysql (join_two e f) = first_of_two (as_mysql e) (as_mysql f)

-- `errors.AsType[*types.ErrorWithStatus]`: its status and message.
unfoldable pub as_status : Error → Option (ℕ × String)
as_status (plain msg) = none
as_status (with_status status msg) = some (status, msg)
as_status (wrapping status msg e) = some (status, msg)
as_status (mysql number msg) = none
as_status json = none
as_status (join_one e) = as_status e
as_status (join_two e f) = first_of_two (as_status e) (as_status f)
