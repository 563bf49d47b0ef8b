-- ===== src/Server/Backends.antt =====
-- Opening and closing of backends: `Open` and `Close` of a backend (pkg/types/types.go), the loop of
-- `Run` over them and `Close` of the server (pkg/server/server.go), and `Close` of the map from names to
-- implementations (pkg/crud/types.go, pkg/crud/impl.go).
use db2rest_bridge.Base.{String, List, [], ◌∷◌, Option, none, some, ok, err, panic, out_of_fuel}
use db2rest_bridge.Base.Int.{ℤ}
use db2rest_bridge.Base.Dict.{Dict}
use db2rest_bridge.Types.Errors.{Error, Go, join_one, join_two}
use db2rest_bridge.Types.Config.{BackendConfig, deref}
use db2rest_bridge.Crud.Driver.{Db, pure, fail, lift, ◌>>=◌, ◌>>◌}

-- What is called of database/sql: `sql.Open`, the settings of the pool, `ExecContext` and `Close`.
pub record Pools (D S : Type 0) : Type 0 where
  pub open_db : String → String → Db S D
  pub set_max_open_conns : D → ℤ → Db S (Unit {0})
  pub set_max_idle_conns : D → ℤ → Db S (Unit {0})
  pub set_conn_max_lifetime : D → ℤ → Db S (Unit {0})
  pub set_conn_max_idle_time : D → ℤ → Db S (Unit {0})
  pub exec_ddl : D → String → Db S (Unit {0})
  pub close_db : D → Db S (Unit {0})

-- A backend with its database, which is nil until it is open
pub record Backend (D : Type 0) : Type 0 where
  pub config : BackendConfig
  pub db : Option D

-- `impl` of pkg/crud/impl.go: the embedded `io.Closer` (nil, or what its `Close` does), and the backend.
pub record Impl (D S : Type 0) : Type 0 where
  pub closer : Option (Db S (Unit {0}))
  pub config : Backend D

-- `newImpl`. (The logger and the metadata cache are left out.)
unfoldable pub new_impl : {D S : Type 0} → Backend D → Impl D S
new_impl be = record { closer = none; config = be }

abbrev pub set_if : {S A : Type 0} → Option A → (A → Db S (Unit {0})) → Db S (Unit {0})
set_if none set = pure tt
set_if (some a) set = set a

-- `errors.Join` of what the loop has collected, in order: nil for none
unfoldable join_errors : List Error → Option Error
join_errors [] = none
join_errors (e ∷ es) = elim (join_errors es) [
  | none ↦ some (join_one e)
  | some f ↦ some (join_two e f)
]

module _ {D S : Type 0} (pools : Pools D S) where
  abbrev pub exec_all : D → List String → Db S (Unit {0})
  exec_all db [] = pure tt
  exec_all db (ddl ∷ ddls) = pools.exec_ddl db ddl >> exec_all db ddls

  -- `Open`: the backend with its database set. On an error it stays as it was.
  unfoldable pub open_backend : Backend D → Db S (Backend D)
  open_backend be = lift (deref be.config.driver) >>= λ driver.
      pools.open_db driver be.config.dsn >>= λ db.
      set_if be.config.max_open_connections (pools.set_max_open_conns db)
      >> (set_if be.config.max_idle_connections (pools.set_max_idle_conns db)
          >> (set_if be.config.conn_max_lifetime (pools.set_conn_max_lifetime db)
              >> (set_if be.config.conn_max_idle_time (pools.set_conn_max_idle_time db)
                  >> (exec_all db be.config.init_ddls >> pure (record be { db = some db })))))

  -- `(*BackendConfig).Close`
  unfoldable close_backend : Backend D → Db S (Unit {0})
  close_backend be = elim be.db [ none ↦ pure tt | some db ↦ pools.close_db db ]

  -- The loop of `Run`, over the backends in the order in which the map gives them
  unfoldable pub open_all : Dict (Backend D) → Db S (Dict (Impl D S))
  unfolding open_backend new_impl
  open_all [] = pure []
  open_all ((n, be) ∷ bes) = open_backend be >>= λ opened.
      open_all bes >>= λ crud_map. pure ((n, new_impl opened) ∷ crud_map)

-- An error does not end the loop of `NameToCrudMap.Close`, a panic does.
abbrev collect : {S : Type 0} → Go (Unit {0}) × S → (S → Go (List Error) × S) → Go (List Error) × S
collect (ok done, s) rest = rest s
collect (err e, s) rest = (rest >>= λ es. pure (e ∷ es)) s
collect (panic, s) rest = (panic, s)
collect (out_of_fuel, s) rest = (out_of_fuel, s)

unfoldable pub close_each : {D S : Type 0} → Dict (Impl D S) → Db S (List Error)
close_each [] s = pure [] s
close_each ((n, v) ∷ m) s = collect ((lift (deref v.closer) >>= λ close. close) s) (close_each m)

-- `(*NameToCrudMap).Close`, and so `(*restServer).Close`
unfoldable pub close_all : {D S : Type 0} → Dict (Impl D S) → Db S (Unit {0})
unfolding close_each join_errors
close_all m = close_each m >>= λ errs. elim (join_errors errs) [ none ↦ pure tt | some e ↦ fail e ]
