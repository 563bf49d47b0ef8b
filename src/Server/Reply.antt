-- ===== src/Server/Reply.antt =====
-- What a handler answers, and how an error becomes a status (pkg/server/server.go).
use db2rest_bridge.Base.{ℕ, zero, suc, String, List, Option, none, some, ◌==◌, if◌then◌else◌}
use db2rest_bridge.Base.Dict.{Dict}
use db2rest_bridge.Types.Errors.{Error, as_mysql, as_status}
use db2rest_bridge.Crud.Ops.{PagedResult}
use db2rest_bridge.Api.Types.{VersionInfo}

-- The values sent: names, an object (`none` is the nil map), a page, an `ErrorObject` with its message,
-- and the version.
pub data Payload (V : Type 0) : Type 0 where
  names : List String → Payload V
  object : Option (Dict V) → Payload V
  page : PagedResult V → Payload V
  error_object : String → Payload V
  version_info : VersionInfo → Payload V

-- The call that ends a handler: `out.SendWithStatus` with a value or with an error, `WriteHeader`,
-- `http.Error`, or no call at all.
pub data Reply (V : Type 0) : Type 0 where
  send : Payload V → ℕ → Reply V
  send_error : Error → ℕ → Reply V
  write_header : ℕ → Reply V
  http_error : String → ℕ → Reply V
  silent : Reply V

-- `mysqlError2status`, and 500 for the numbers that it lacks
unfoldable pub mysql_error_status : ℕ → ℕ
mysql_error_status number =
    if number == 1062
    then 409
    else if number == 1364
    then 400
    else if number == 1451
    then 409
    else if number == 1452
    then 409
    else 500

-- What a write sends when no header was written.
abbrev status_or_ok : ℕ → ℕ
status_or_ok zero = 200
status_or_ok (suc n) = suc n

-- The error mapper: the status it answers with, if it takes the error
unfoldable map_error_status : Error → Option ℕ
unfolding as_mysql as_status mysql_error_status
map_error_status e = elim (as_mysql e) [
  | some (number, msg) ↦ some (mysql_error_status number)
  | none ↦ elim (as_status e) [ some (status, msg) ↦ some (status_or_ok status) | none ↦ none ]
]

-- The status of a reply. `unmapped` is what the library answers with for an error that the mapper does
-- not take.
unfoldable pub reply_status : {V : Type 0} → (Error → ℕ → ℕ) → Reply V → ℕ
unfolding map_error_status
reply_status unmapped (send v status) = status
reply_status unmapped (send_error e status) = elim (map_error_status e) [
  | some mapped ↦ mapped
  | none ↦ unmapped e status
]
reply_status unmapped (write_header status) = status
reply_status unmapped (http_error msg status) = status
reply_status unmapped silent = 200
