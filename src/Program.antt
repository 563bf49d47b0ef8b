-- ===== src/Program.antt =====
-- The program (pkg/cmd/main.go), with `New` of the server (pkg/server/types.go). The configuration is the
-- one that has been loaded; the parser of the command line and of the file are other packages.
pub mod Over
pub mod Stops
pub mod Opened
pub mod Ends
mod Tests
use db2rest_bridge.Base.{
  String, Bool, true, false, [], Option, none, some, ok, err, panic, out_of_fuel, if◌then◌else◌,
}
use db2rest_bridge.Base.Results
use db2rest_bridge.Types.Errors.{Error, Go}
use db2rest_bridge.Types.Config.{deref}
use db2rest_bridge.Types.Normalize.{Config, Commons, LoggingConfig, check_and_normalize}
use db2rest_bridge.Crud.Driver.{Db, lift, ◌>>=◌}
use db2rest_bridge.Server.Run.{Serving, close}

-- `New`: the log's settings are read. `makes_log` says whether `MustNew` of the log's package returns; it
-- panics where it does not.
unfoldable pub new : (String → String → Bool) → Option LoggingConfig → Go (Unit {0})
new makes_log logging = Results.◌>>=◌ (deref logging) λ l. Results.◌>>=◌ (deref l.level) λ level.
    Results.◌>>=◌ (deref l.format) λ format. if makes_log level format then ok tt else panic

-- An error that is not wanted becomes a panic.
abbrev pub or_panic : {A : Type 0} → Go A → Go A
or_panic (err e) = panic
or_panic r = r

-- What `main` makes of the result of `Run`: the closing of the server is no error.
abbrev pub verdict : (Error → Bool) → Go (Unit {0}) → Go (Unit {0})
verdict is_closed (err e) = elim (is_closed e) [ true ↦ ok tt | false ↦ panic ]
verdict is_closed r = r

-- The result after the deferred call: its error is dropped, its panic is not.
abbrev pub after_deferred : Go (Unit {0}) → Go (Unit {0}) → Go (Unit {0})
after_deferred panic r = panic
after_deferred out_of_fuel r = out_of_fuel
after_deferred _ r = r

-- The end of `main`: whatever `Run` has ended with, the server is closed.
unfoldable pub finish :
    {D S : Type 0} → (Error → Bool) → Go (Unit {0}) × Serving D S → Go (Unit {0}) × Serving D S
unfolding close
finish is_closed (out_of_fuel, st) = (out_of_fuel, st)
finish is_closed (r, st) =
    let (closed, st') = close st in (after_deferred closed (verdict is_closed r), st')

-- The server is made, run and closed. `run` is `Run` of the server.
abbrev pub closed_after :
    {C R D S : Type 0}
    → (Error → Bool)
    → (Config C R → Db (Serving D S) (Unit {0}))
    → Config C R
    → Db S (Unit {0})
closed_after is_closed run c w =
    let (r, st) = finish is_closed (run c (record { crud_map = []; world = w })) in (r, st.world)

unfoldable pub main :
    {C R D S : Type 0}
    → Commons C R
    → (String → String → Bool)
    → (Error → Bool)
    → (Config C R → Db (Serving D S) (Unit {0}))
    → Config C R
    → Db S (Unit {0})
unfolding check_and_normalize new finish
main commons makes_log is_closed run cfg =
    lift (or_panic (check_and_normalize commons cfg)) >>= λ c.
    lift (new makes_log c.logging_config) >>= λ made. closed_after is_closed run c
