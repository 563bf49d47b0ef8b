-- ===== src/Server/Run.antt =====
-- `Run` of the server (pkg/server/server.go): the backends are opened, and the routes are served. What is
-- hosted by other packages (gorilla/mux and its handlers, the middlewares, the loop of the HTTP server)
-- is a parameter.
use db2rest_bridge.Base.{
  String, Bool, List, [], ◌∷◌, ◌++◌, map, Option, none, some, if◌then◌else◌, ok,
}
use db2rest_bridge.Base.Results
use db2rest_bridge.Base.Dict.{Dict}
use db2rest_bridge.Base.Search.{has_prefix}
use db2rest_bridge.Types.Errors.{Go}
use db2rest_bridge.Types.Config.{BackendConfig, deref}
use db2rest_bridge.Types.Normalize.{Config, ServerConfig, TelemetryConfig}
use db2rest_bridge.Query.Value.{Floats}
use db2rest_bridge.Crud.Driver.{Cells, Driver, Db, pure, lift, ◌>>=◌, ◌>>◌}
use db2rest_bridge.Api.Types.{VersionInfo}
use db2rest_bridge.Api.Wire.{Request}
use db2rest_bridge.Api.Wrapper.{Incoming, Handler, Middleware, Binders, ServerInterface}
use db2rest_bridge.Api.Routes.{Route, GorillaServerOptions, handler_with_options}
use db2rest_bridge.Api.Mux.{Router, serve}
use db2rest_bridge.Server.Reply.{Reply}
use db2rest_bridge.Server.Interface.{impl}
use db2rest_bridge.Server.Rest.{Decoders, RestServer, rest_server}
use db2rest_bridge.Server.Backends.{Pools, Impl, new_impl, open_backend, close_all}
use db2rest_bridge.Server.Metrics.{InterceptedResponse, Meters, intercepted}

-- The server as it runs: its map of implementations, and the rest of the world
pub record Serving (D S : Type 0) : Type 0 where
  pub crud_map : Dict (Impl D S)
  pub world : S

-- A step of the world, and one more entry of the map
abbrev pub on_world : {D S A : Type 0} → Db S A → Db (Serving D S) A
on_world m st = let (r, w) = m st.world in (r, record st { world = w })

abbrev pub put : {D S : Type 0} → String → Impl D S → Db (Serving D S) (Unit {0})
put n i st = (ok tt, record st { crud_map = st.crud_map ++ (n, i) ∷ [] })

abbrev emptied : {D S : Type 0} → Db (Serving D S) (Unit {0})
emptied st = (ok tt, record st { crud_map = [] })

-- The loop over the backends: what has been opened stays in the map, also when a later one fails.
unfoldable pub open_loop :
    {D S : Type 0} → Pools D S → Dict (Option BackendConfig) → Db (Serving D S) (Unit {0})
unfolding open_backend new_impl
open_loop pools [] = pure tt
open_loop pools ((n, be) ∷ bes) = lift (deref be) >>= λ config.
    on_world (open_backend pools (record { config = config; db = none })) >>= λ opened.
    put n (new_impl opened) >> open_loop pools bes

-- `(*restServer).Close`
unfoldable pub close : {D S : Type 0} → Db (Serving D S) (Unit {0})
unfolding close_all
close st = on_world (close_all st.crud_map) st

-- What other packages host: the middlewares, CORS, the handlers of the specification and of the metrics,
-- the router, and the loop that serves until it is told to stop
pub record Hosting (C R F U B S A : Type 0) : Type 0 where
  pub logging : Middleware U B S A
  pub interceptor :
      (Incoming U B → Bool) → (InterceptedResponse → Db S (Unit {0})) → Middleware U B S A
  pub cors : List String → C → List String → (Request U B → Db S A) → Request U B → Db S A
  pub spec_handler : Handler U B S A
  pub metrics_handler : Handler U B S A
  pub write : String → Db S A
  pub http_error : String → Db S A
  pub binders : Binders F U
  pub path_of : U → String
  pub route : Router (Handler U B S A)
  pub no_body : B
  pub no_route : Db S A
  pub run_until : ServerConfig C R → (Request U B → Db S A) → Db S (Unit {0})

module _ {C R F U B S A : Type 0} (h : Hosting C R F U B S A) (meters : Meters S) where
  abbrev any_method : String → Handler U B S A → Route (Handler U B S A)
  any_method template handler = record { template = template; methods = none; handler = handler }

  -- The routes that stand before those of the operations
  unfoldable pub own_routes : TelemetryConfig → List (Route (Handler U B S A))
  own_routes t =
      any_method "/spec/openapi.v1.json" h.spec_handler
      ∷ any_method "/health" (λ r. h.write "OK\n")
      ∷ (if t.enabled then any_method t.path h.metrics_handler ∷ [] else [])

  unfoldable pub middlewares : String → TelemetryConfig → List (Middleware U B S A)
  unfolding intercepted has_prefix
  middlewares api_prefix t =
      h.logging
      ∷ (if t.enabled
          then h.interceptor (λ r. has_prefix (h.path_of r.url) api_prefix)
              (intercepted meters api_prefix)
            ∷ []
          else [])

  -- The options of the routes of the operations
  unfoldable pub server_options : ServerConfig C R → TelemetryConfig → GorillaServerOptions U B S A
  unfolding own_routes middlewares
  server_options cfg t = record {
    base_url = cfg.api_prefix;
    base_router = some (own_routes t);
    middlewares = middlewares cfg.api_prefix t;
    error_handler_func = none;
  }

  -- The handler of the HTTP server. The settings for CORS are read first.
  unfoldable pub assembled :
      ServerConfig C R → ServerInterface F U B S A → Go (Request U B → Db S A)
  unfolding server_options handler_with_options serve
  assembled cfg si = Results.◌>>=◌ (deref cfg.cors) λ c. Results.◌>>=◌ (deref cfg.telemetry) λ t.
      ok (
        h.cors ("HEAD" ∷ "GET" ∷ "POST" ∷ "PUT" ∷ "DELETE" ∷ []) c ("Content-Type" ∷ []) (
          serve h.route h.path_of h.no_body h.no_route
            (handler_with_options h.binders h.http_error si (server_options cfg t))))

-- The server over its opened backends: `crud.New` makes an implementation of each. `driver_of` is what an
-- implementation uses of an open database.
unfoldable pub server_over :
    {V F D S : Type 0} ⦃fl : Floats F⦄
    → Cells V
    → (Option D → Driver V S)
    → Dict (Impl D S)
    → RestServer V F S
unfolding impl
server_over cells driver_of m = record {
  backends = map (λ e. (e.0, e.1.config.config)) m;
  crud_map = map (λ e. (e.0, impl cells (driver_of e.1.config.db) e.1.config.config)) m;
}

module _ {V C R F U B D S : Type 0} ⦃fl : Floats F⦄ (cells : Cells V) (decoders : Decoders V B)
    (show : Dict V → String) (version : VersionInfo) (driver_of : Option D → Driver V S)
    (pools : Pools D S) (h : Hosting C R F U B S (Reply V)) (meters : Meters S) where
  -- The part of `Run` behind the loop
  unfoldable pub serve_opened : ServerConfig C R → Db (Serving D S) (Unit {0})
  unfolding assembled server_over rest_server
  serve_opened cfg st =
      (lift (
            assembled h meters cfg
              (rest_server cells decoders show version (server_over cells driver_of st.crud_map)))
          >>= λ handler. on_world (h.run_until cfg handler))
        st

  -- `(*restServer).Run`
  unfoldable pub run : Config C R → Db (Serving D S) (Unit {0})
  unfolding open_loop serve_opened
  run cfg = emptied >> (open_loop pools cfg.backends >> serve_opened cfg.server)
