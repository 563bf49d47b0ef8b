-- ===== src/Program/Stops.antt =====
-- The steps of the program (pkg/cmd/main.go) come to an end, where those of other packages do.
use db2rest_bridge.Base.{String, Bool, [], ◌∷◌, Option, none, some, ok, panic}
use db2rest_bridge.Base.Dict.{Dict}
use db2rest_bridge.Types.Errors.{Error}
use db2rest_bridge.Types.Config.{BackendConfig, deref}
use db2rest_bridge.Types.Normalize.{
  Config, ServerConfig, Commons, LoggingConfig, checked, not_empty, is_backend_name,
  normalize_backends, with_address, check_and_normalize,
}
use db2rest_bridge.Query.Value.{Floats}
use db2rest_bridge.Crud.Driver.{Cells, Driver, Db, ◌>>◌}
use db2rest_bridge.Api.Types.{VersionInfo}
use db2rest_bridge.Api.Wire.{Request}
use db2rest_bridge.Api.Wrapper.{ServerInterface}
use db2rest_bridge.Server.Reply.{Reply}
use db2rest_bridge.Server.Rest.{Decoders, rest_server}
use db2rest_bridge.Server.Backends.{Pools, new_impl, open_backend}
use db2rest_bridge.Server.Metrics.{Meters}
use db2rest_bridge.Server.Run.{
  Serving, Hosting, put, on_world, assembled, server_over, open_loop, serve_opened, run,
}
use db2rest_bridge.Program.Over.{
  IsOver, PoolsStop, bind-IsOver, go_on-IsOver, deref-IsOver, if-IsOver, open_backend-IsOver,
}
use db2rest_bridge.Program.{new}

pub new-IsOver :
    (makes_log : String → String → Bool) (l : Option LoggingConfig) → IsOver (new makes_log l)
unfolding new
new-IsOver makes_log l = bind-IsOver (deref l) _ (deref-IsOver l) λ l'.
    bind-IsOver (deref l'.level) _ (deref-IsOver l'.level) λ level.
      bind-IsOver (deref l'.format) _ (deref-IsOver l'.format)
        λ format. if-IsOver (makes_log level format) (ok tt) panic tt tt

normalize_backends-IsOver : (bs : Dict (Option BackendConfig)) → IsOver (normalize_backends bs)
unfolding normalize_backends
normalize_backends-IsOver [] = tt
normalize_backends-IsOver ((k, none) ∷ bs) = if-IsOver (is_backend_name k) _ _ tt tt
normalize_backends-IsOver ((k, some v) ∷ bs) =
    if-IsOver (is_backend_name k) _ _
      (bind-IsOver (normalize_backends bs) _ (normalize_backends-IsOver bs) (λ bs'. tt)) tt

checked-IsOver : (o : Option Error) → IsOver (checked o)
checked-IsOver none = tt
checked-IsOver (some e) = tt

not_empty-IsOver : (bs : Dict (Option BackendConfig)) → IsOver (not_empty bs)
not_empty-IsOver [] = tt
not_empty-IsOver (b ∷ bs) = tt

pub check_and_normalize-IsOver :
    {C R : Type 0} (commons : Commons C R) (c : Config C R) → IsOver (check_and_normalize commons c)
unfolding check_and_normalize
check_and_normalize-IsOver commons c =
    bind-IsOver (checked (commons.check (with_address commons c.server))) _ (checked-IsOver _)
      λ valid. bind-IsOver (not_empty c.backends) _ (not_empty-IsOver c.backends) λ filled.
        bind-IsOver (normalize_backends c.backends) _ (normalize_backends-IsOver c.backends)
          λ bs. tt

-- The opening of a backend ends, and so does serving.
pub record Stops {C R F U B A D S : Type 0} (pools : Pools D S) (h : Hosting C R F U B S A)
    : Type 0 where
  pub opens : PoolsStop pools
  pub serves :
      (cfg : ServerConfig C R) (handler : Request U B → Db S A) (s : S)
      → IsOver (h.run_until cfg handler s).0

module _ {V C R F U B D S : Type 0} ⦃fl : Floats F⦄ (cells : Cells V) (decoders : Decoders V B)
    (show : Dict V → String) (version : VersionInfo) (driver_of : Option D → Driver V S)
    (pools : Pools D S) (h : Hosting C R F U B S (Reply V)) (meters : Meters S) where
  assembled-IsOver :
      (cfg : ServerConfig C R) (si : ServerInterface F U B S (Reply V))
      → IsOver (assembled h meters cfg si)
  unfolding assembled
  assembled-IsOver cfg si =
      bind-IsOver (deref cfg.cors) _ (deref-IsOver cfg.cors)
        λ c. bind-IsOver (deref cfg.telemetry) _ (deref-IsOver cfg.telemetry) λ t. tt

  open_loop-IsOver :
      (bes : Dict (Option BackendConfig)) (st : Serving D S)
      → Stops pools h
      → IsOver (open_loop pools bes st).0
  unfolding open_loop
  open_loop-IsOver [] st ends = tt
  open_loop-IsOver ((n, none) ∷ bes) st ends = tt
  open_loop-IsOver ((n, some c) ∷ bes) st ends =
      let opened = open_backend pools (record { config = c; db = none }) st.world in
      go_on-IsOver opened.0 (λ be. put n (new_impl be) >> open_loop pools bes)
        (record st { world = opened.1 })
        (open_backend-IsOver pools ends.opens (record { config = c; db = none }) st.world)
        (λ be. open_loop-IsOver bes (put n (new_impl be) (record st { world = opened.1 })).1 ends)

  pub run-IsOver :
      (c : Config C R) (st : Serving D S)
      → Stops pools h
      → IsOver (run cells decoders show version driver_of pools h meters c st).0
  unfolding run serve_opened
  run-IsOver c st ends =
      let loop = open_loop pools c.backends (record st { crud_map = [] }) in
      let si : ServerInterface F U B S (Reply V) =
        rest_server cells decoders show version (server_over cells driver_of loop.1.crud_map) in
      go_on-IsOver loop.0
        (λ done. serve_opened cells decoders show version driver_of pools h meters c.server) loop.1
        (open_loop-IsOver c.backends _ ends)
        (λ done.
          go_on-IsOver (assembled h meters c.server si)
            (λ handler. on_world (h.run_until c.server handler)) loop.1
            (assembled-IsOver c.server si) (λ handler. ends.serves c.server handler loop.1.world))
