-- ===== src/Program/Ends.antt =====
-- How the program (pkg/cmd/main.go) ends.
use db2rest_bridge.Base.{
  String, Bool, true, false, [], ◌∷◌, Option, none, some, ok, err, panic, out_of_fuel, ◌≡◌, ◌≢◌,
  refl, ap, if◌then◌else◌,
}
use db2rest_bridge.Base.Results
use db2rest_bridge.Base.Dict.{Dict}
use db2rest_bridge.Types.Errors.{Error, Go}
use db2rest_bridge.Types.Config.{BackendConfig, deref}
use db2rest_bridge.Types.Normalize.{
  Config, ServerConfig, Commons, LoggingConfig, check_and_normalize, not_empty,
}
use db2rest_bridge.Types.Complete.{check_and_normalize-IsComplete}
use db2rest_bridge.Query.Value.{Floats}
use db2rest_bridge.Crud.Driver.{Cells, Driver, Db, go_on, ◌>>◌}
use db2rest_bridge.Api.Types.{VersionInfo}
use db2rest_bridge.Server.Reply.{Reply}
use db2rest_bridge.Server.Rest.{Decoders, rest_server}
use db2rest_bridge.Server.Backends.{Pools, Backend, new_impl, open_backend, close_all}
use db2rest_bridge.Server.Metrics.{Meters}
use db2rest_bridge.Server.Run.{
  Serving, Hosting, put, on_world, assembled, server_over, open_loop, serve_opened, run, close,
}
use db2rest_bridge.Program.Over.{IsOver}
use db2rest_bridge.Program.Stops.{Stops, new-IsOver, check_and_normalize-IsOver, run-IsOver}
use db2rest_bridge.Program.{new, closed_after, or_panic, finish, main}
use db2rest_bridge.Program.Opened.{HasOpen, finish-HasOpen, go_on-HasOpen, open_loop-HasOpen}

-- Reading a pointer gives no error, and neither does `New`.
deref-ne-err : {A : Type 0} (o : Option A) (e : Error) → deref o ≢ err e
deref-ne-err none e h = cc
deref-ne-err (some a) e h = cc

>>=-ne-err :
    {A B : Type 0} (m : Go A) (f : A → Go B) (e : Error)
    → ((e' : Error) → m ≢ err e')
    → ((a : A) → f a ≢ err e)
    → (Results.◌>>=◌ m f) ≢ err e
>>=-ne-err (ok a) f e hm hf h = hf a h
>>=-ne-err (err e') f e hm hf h = hm e' refl
>>=-ne-err panic f e hm hf h = cc
>>=-ne-err out_of_fuel f e hm hf h = cc

abbrev made_log : Bool → Go (Unit {0})
made_log b = if b then ok tt else panic

made-ne-err : (b : Bool) (e : Error) → made_log b ≢ err e
made-ne-err true e h = cc
made-ne-err false e h = cc

new-ne-err :
    (makes_log : String → String → Bool) (l : Option LoggingConfig) (e : Error)
    → new makes_log l ≢ err e
unfolding new
new-ne-err makes_log l e = >>=-ne-err (deref l) _ e (deref-ne-err l) λ l'.
    >>=-ne-err (deref l'.level) _ e (deref-ne-err l'.level) λ level.
      >>=-ne-err (deref l'.format) _ e (deref-ne-err l'.format)
        λ format. made-ne-err (makes_log level format) e

module _ {V C R F U B D S : Type 0} ⦃fl : Floats F⦄ (cells : Cells V) (decoders : Decoders V B)
    (show : Dict V → String) (version : VersionInfo) (driver_of : Option D → Driver V S)
    (pools : Pools D S) (h : Hosting C R F U B S (Reply V)) (meters : Meters S)
    (is_closed : Error → Bool) where
  abbrev running : Config C R → Db (Serving D S) (Unit {0})
  running = run cells decoders show version driver_of pools h meters

  abbrev serving : ServerConfig C R → Db (Serving D S) (Unit {0})
  serving = serve_opened cells decoders show version driver_of pools h meters

  serving-HasOpen :
      (cfg : ServerConfig C R) (st : Serving D S) → HasOpen st → HasOpen (serving cfg st).1
  unfolding serve_opened
  serving-HasOpen cfg st open_one =
      go_on-HasOpen pools
        (assembled h meters cfg
          (rest_server cells decoders show version (server_over cells driver_of st.crud_map)))
        (λ handler. on_world (h.run_until cfg handler)) st open_one (λ handler. open_one)

  -- Behind the loop
  rest-HasOpen :
      (r : Go (Unit {0})) (cfg : ServerConfig C R) (st : Serving D S)
      → HasOpen st
      → HasOpen (go_on r (λ done. serving cfg) st).1
  rest-HasOpen r cfg st open_one =
      go_on-HasOpen pools r (λ done. serving cfg) st open_one
        (λ done. serving-HasOpen cfg st open_one)

  -- From the first backend on
  abbrev from_first :
      Config C R
      → String
      → Dict (Option BackendConfig)
      → Go (Backend D)
      → S
      → Go (Unit {0}) × Serving D S
  from_first c n bes r w =
      let loop =
        go_on r (λ be. put n (new_impl be) >> open_loop pools bes)
          (record { crud_map = []; world = w }) in
      go_on loop.0 (λ done. serving c.server) loop.1

  first_backend :
      (c : Config C R) (n : String) (bes : Dict (Option BackendConfig)) (r : Go (Backend D)) (w : S)
      → ((e : Error) → r ≡ err e → is_closed e ≡ false)
      → IsOver (from_first c n bes r w).0
      → (finish is_closed (from_first c n bes r w)).0 ≡ panic
  unfolding finish close close_all
  first_backend c n bes (ok be) w opens ends =
      let st : Serving D S = record { crud_map = (n, new_impl be) ∷ []; world = w } in
      finish-HasOpen pools is_closed _ _ ends (
        rest-HasOpen (open_loop pools bes st).0 c.server (open_loop pools bes st).1
          (open_loop-HasOpen pools bes st (n, be, [], refl)))
  first_backend c n bes (err e) w opens ends =
      ap (λ b. elim b [ true ↦ ok tt | false ↦ panic ]) (opens e refl)
  first_backend c n bes panic w opens ends = refl
  first_backend c n bes out_of_fuel w opens ends = absurd ends

  run-panics :
      (c : Config C R) (st : Serving D S)
      → ((be : BackendConfig) (s t : S) (e : Error)
          → open_backend pools (record { config = be; db = none }) s ≡ (err e, t)
          → is_closed e ≡ false)
      → not_empty c.backends ≡ ok tt
      → IsOver (running c st).0
      → (finish is_closed (running c st)).0 ≡ panic
  unfolding run open_loop finish close close_all
  run-panics c st opens filled ends =
      elim c.backends
          as (λ bes.
            not_empty bes ≡ ok tt
            → IsOver (running (record c { backends = bes }) st).0
            → (finish is_closed (running (record c { backends = bes }) st)).0 ≡ panic) [
              | [] ↦ λ f e. absurd (cc)
              | (n, none) ∷ bes ↦ λ f e. refl
              | (n, some be) ∷ bes ↦ λ f e.
                  let r = open_backend pools (record { config = be; db = none }) st.world in
                  first_backend c n bes r.0 r.1
                    (λ e' h'. opens be st.world r.1 e' (ap (λ o. (o, r.1)) h')) e
            ]
        filled ends

  abbrev from_new : Config C R → Go (Unit {0}) → Db S (Unit {0})
  from_new c r s = go_on r (λ made. closed_after is_closed running c) s

  Opens : Type 0
  Opens =
      (be : BackendConfig) (s t : S) (e : Error)
      → open_backend pools (record { config = be; db = none }) s ≡ (err e, t)
      → is_closed e ≡ false

  new_returned :
      (c : Config C R) (r : Go (Unit {0})) (s : S)
      → Opens
      → Stops pools h
      → not_empty c.backends ≡ ok tt
      → ((e : Error) → r ≢ err e)
      → IsOver r
      → (from_new c r s).0 ≡ panic
  unfolding Opens
  new_returned c (ok made) s opens stops filled never over =
      run-panics c (record { crud_map = []; world = s }) opens filled
        (run-IsOver cells decoders show version driver_of pools h meters c _ stops)
  new_returned c (err e) s opens stops filled never over = absurd (never e refl)
  new_returned c panic s opens stops filled never over = refl
  new_returned c out_of_fuel s opens stops filled never over = absurd over

  abbrev from_check : (String → String → Bool) → Go (Config C R) → Db S (Unit {0})
  from_check makes_log r s = go_on (or_panic r) (λ c. from_new c (new makes_log c.logging_config)) s

  checked_ends :
      (makes_log : String → String → Bool) (r : Go (Config C R)) (s : S)
      → Opens
      → Stops pools h
      → ((c : Config C R) → r ≡ ok c → not_empty c.backends ≡ ok tt)
      → IsOver r
      → (from_check makes_log r s).0 ≡ panic
  checked_ends makes_log (ok c) s opens stops filled over =
      new_returned c (new makes_log c.logging_config) s opens stops (filled c refl)
        (new-ne-err makes_log c.logging_config) (new-IsOver makes_log c.logging_config)
  checked_ends makes_log (err e) s opens stops filled over = refl
  checked_ends makes_log panic s opens stops filled over = refl
  checked_ends makes_log out_of_fuel s opens stops filled over = absurd over

  -- Whatever the configuration, main ends with a panic, where the opening of a backend does not
  -- fail with the error that stands for a closed server and the calls of database/sql and the loop
  -- that serves come to an end: also when the server has stopped without an error.
  pub main-panics :
      (commons : Commons C R) (makes_log : String → String → Bool) (cfg : Config C R) (s : S)
      → ((be : BackendConfig) (s' t : S) (e : Error)
          → open_backend pools (record { config = be; db = none }) s' ≡ (err e, t)
          → is_closed e ≡ false)
      → Stops pools h
      → (main commons makes_log is_closed running cfg s).0 ≡ panic
  unfolding main Opens
  main-panics commons makes_log cfg s opens stops =
      checked_ends makes_log (check_and_normalize commons cfg) s opens stops
        (λ c e. (check_and_normalize-IsComplete commons cfg c e).filled)
        (check_and_normalize-IsOver commons cfg)
