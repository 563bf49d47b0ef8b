-- ===== src/Program/Over.antt =====
-- Results that are reached, and the opening of a backend (pkg/types/types.go).
use db2rest_bridge.Base.{
  String, Bool, true, false, List, [], ◌∷◌, Option, none, some, ok, err, panic, out_of_fuel,
  if◌then◌else◌,
}
use db2rest_bridge.Base.Results
use db2rest_bridge.Base.Int.{ℤ}
use db2rest_bridge.Types.Errors.{Go}
use db2rest_bridge.Types.Config.{deref}
use db2rest_bridge.Crud.Driver.{Db, go_on, ◌>>◌}
use db2rest_bridge.Server.Backends.{Pools, Backend, set_if, exec_all, open_backend}

-- A result that is one of the code's
abbrev pub IsOver : {A : Type 0} → Go A → Type 0
IsOver out_of_fuel = ⊥
IsOver _ = Unit

pub bind-IsOver :
    {A B : Type 0} (m : Go A) (f : A → Go B)
    → IsOver m
    → ((a : A) → IsOver (f a))
    → IsOver (Results.◌>>=◌ m f)
bind-IsOver (ok a) f h hf = hf a
bind-IsOver (err e) f h hf = tt
bind-IsOver panic f h hf = tt
bind-IsOver out_of_fuel f h hf = h

pub go_on-IsOver :
    {S A B : Type 0} (r : Go A) (f : A → Db S B) (s : S)
    → IsOver r
    → ((a : A) → IsOver (f a s).0)
    → IsOver (go_on r f s).0
go_on-IsOver (ok a) f s h hf = hf a
go_on-IsOver (err e) f s h hf = tt
go_on-IsOver panic f s h hf = tt
go_on-IsOver out_of_fuel f s h hf = h

pub deref-IsOver : {A : Type 0} (o : Option A) → IsOver (deref o)
deref-IsOver none = tt
deref-IsOver (some a) = tt

pub if-IsOver :
    {A : Type 0} (b : Bool) (x y : Go A) → IsOver x → IsOver y → IsOver (if b then x else y)
if-IsOver true x y hx hy = hx
if-IsOver false x y hx hy = hy

-- What is called of database/sql ends.
pub record PoolsStop {D S : Type 0} (pools : Pools D S) : Type 0 where
  pub open_db : (driver dsn : String) (s : S) → IsOver (pools.open_db driver dsn s).0
  pub set_max_open_conns : (db : D) (n : ℤ) (s : S) → IsOver (pools.set_max_open_conns db n s).0
  pub set_max_idle_conns : (db : D) (n : ℤ) (s : S) → IsOver (pools.set_max_idle_conns db n s).0
  pub set_conn_max_lifetime :
      (db : D) (n : ℤ) (s : S) → IsOver (pools.set_conn_max_lifetime db n s).0
  pub set_conn_max_idle_time :
      (db : D) (n : ℤ) (s : S) → IsOver (pools.set_conn_max_idle_time db n s).0
  pub exec_ddl : (db : D) (ddl : String) (s : S) → IsOver (pools.exec_ddl db ddl s).0

set_if-IsOver :
    {S A : Type 0} (o : Option A) (set : A → Db S (Unit {0})) (s : S)
    → ((a : A) (t : S) → IsOver (set a t).0)
    → IsOver (set_if o set s).0
set_if-IsOver none set s h = tt
set_if-IsOver (some a) set s h = h a s

-- A step and what follows it
then-IsOver :
    {S B : Type 0} (m : Db S (Unit {0})) (k : Db S B) (s : S)
    → IsOver (m s).0
    → ((t : S) → IsOver (k t).0)
    → IsOver ((m >> k) s).0
then-IsOver m k s h hk = go_on-IsOver (m s).0 (λ done. k) (m s).1 h (λ done. hk (m s).1)

module _ {D S : Type 0} (pools : Pools D S) (stops : PoolsStop pools) where
  exec_all-IsOver : (db : D) (ddls : List String) (s : S) → IsOver (exec_all pools db ddls s).0
  exec_all-IsOver db [] s = tt
  exec_all-IsOver db (ddl ∷ ddls) s =
      then-IsOver (pools.exec_ddl db ddl) (exec_all pools db ddls) s (stops.exec_ddl db ddl s)
        (exec_all-IsOver db ddls)

  pub open_backend-IsOver : (be : Backend D) (s : S) → IsOver (open_backend pools be s).0
  unfolding open_backend
  open_backend-IsOver be s =
      go_on-IsOver (deref be.config.driver) _ s (deref-IsOver be.config.driver) λ driver.
        go_on-IsOver (pools.open_db driver be.config.dsn s).0 _ _ (stops.open_db driver _ s) λ db.
          then-IsOver (set_if be.config.max_open_connections (pools.set_max_open_conns db)) _ _
            (set_if-IsOver be.config.max_open_connections _ _ (stops.set_max_open_conns db))
            λ t.
              then-IsOver (set_if be.config.max_idle_connections (pools.set_max_idle_conns db)) _ t
                (set_if-IsOver be.config.max_idle_connections _ t (stops.set_max_idle_conns db))
                λ t'.
                  then-IsOver (set_if be.config.conn_max_lifetime (pools.set_conn_max_lifetime db))
                    _ t'
                    (set_if-IsOver be.config.conn_max_lifetime _ t'
                      (stops.set_conn_max_lifetime db))
                    λ u.
                      then-IsOver
                        (set_if be.config.conn_max_idle_time (pools.set_conn_max_idle_time db)) _ u
                        (set_if-IsOver be.config.conn_max_idle_time _ u
                          (stops.set_conn_max_idle_time db))
                        λ u'.
                          then-IsOver (exec_all pools db be.config.init_ddls) _ u'
                            (exec_all-IsOver db be.config.init_ddls u') (λ v. tt)
