-- ===== src/Types/Config.antt =====
-- The configuration (pkg/types/types.go). A pointer is an `Option`; the durations and the data
-- source name are not interpreted.
use db2rest_bridge.Base.{String, Bool, List, Option, none, some, Outcome, ok, panic, ◌>>=◌}
use db2rest_bridge.Base.Int.{ℤ}
use db2rest_bridge.Base.Dict.{Dict, lookup}
use db2rest_bridge.Types.Errors.{Error, Go}

pub record BackendConfig : Type 0 where
  pub driver : Option String
  pub dsn : String
  pub create : Option Bool
  pub read : Option Bool
  pub update : Option Bool
  pub delete : Option Bool
  pub id_map : Option (Dict String)
  pub queries : Dict String
  pub init_ddls : List String
  pub max_open_connections : Option ℤ
  pub max_idle_connections : Option ℤ
  pub conn_max_lifetime : Option ℤ
  pub conn_max_idle_time : Option ℤ

-- Reading through a pointer: nil panics.
abbrev pub deref {ℓ} : {A : Type ℓ} → Option A → Outcome Error A
deref none = panic
deref (some a) = ok a

-- `IdColumn`
unfoldable pub id_column : BackendConfig → String → Go String
unfolding lookup
id_column be ent = do m ← deref be.id_map; ok (elim (lookup ent m) [ some col ↦ col | none ↦ "id" ])
