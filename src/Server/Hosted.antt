-- ===== src/Server/Hosted.antt =====
-- The handler that `Run` gives to the HTTP server (pkg/server/server.go), and the routes of pkg/api/gen.go.
use db2rest_bridge.Base.{String, [], ◌∷◌, none, some, ok, ◌≡◌, refl, ap, ◌∙◌, ◌<>◌, join, split_on}
use db2rest_bridge.Base.Search.{cut_prefix}
use db2rest_bridge.Base.Dict.{Dict}
use db2rest_bridge.Types.Normalize.{ServerConfig, TelemetryConfig}
use db2rest_bridge.Crud.Driver.{Db}
use db2rest_bridge.Api.Wire.{Urls, Styles, Request}
use db2rest_bridge.Api.Wrapper.{ServerInterface, through}
use db2rest_bridge.Api.Routes.{handler_with_options}
use db2rest_bridge.Api.Mux.{ApiUrls, first_match, serve, arrived, run_found}
use db2rest_bridge.Api.Table.{IsPlain}
use db2rest_bridge.Api.Operation.{Operation, segments, method, IsClear, request_of, call_of}
use db2rest_bridge.Api.Sent.{Carries}
use db2rest_bridge.Api.Journey.{request_of-serve}
use db2rest_bridge.Server.Metrics.{Meters}
use db2rest_bridge.Server.Run.{Hosting, own_routes, middlewares, server_options, assembled}

module _ {C R F U B S A : Type 0} (h : Hosting C R F U B S A) (meters : Meters S)
    (cfg : ServerConfig C R) {c : C} {t : TelemetryConfig} (si : ServerInterface F U B S A)
    (cors_set : cfg.cors ≡ some c) (telemetry_set : cfg.telemetry ≡ some t)
    (routing : (m path : String)
      → (let routes =
            handler_with_options h.binders h.http_error si (server_options h meters cfg t) in
          h.route routes m path ≡ first_match routes m path)) where
  -- What is behind CORS
  abbrev behind_cors : Request U B → Db S A
  behind_cors =
      serve h.route h.path_of h.no_body h.no_route
        (handler_with_options h.binders h.http_error si (server_options h meters cfg t))

  assembled-cors :
      assembled h meters cfg si
      ≡ ok (
          h.cors
            ("HEAD" ∷ "GET" ∷ "POST" ∷ "PUT" ∷ "DELETE" ∷ [])
            c
            ("Content-Type" ∷ [])
            behind_cors)
  unfolding assembled
  assembled-cors = rw cors_set (rw telemetry_set refl)

  -- Let CORS and telemetry be configured, the router take the first route that matches, and URLs,
  -- styles of parameters and binders behave as documented below the API prefix. Behind CORS, the
  -- handler that Run gives to the HTTP server serves the request that the client makes of an
  -- operation, if none of the server's own routes (specification, health, metrics) matches its
  -- path, its texts stand for path segments, it has no word of another route in the place of an
  -- entity and the styles can carry its parameters: through the middlewares of Run, by the method
  -- of that operation with the same arguments.
  pub assembled-serves :
      {urls : Urls U} {styles : Styles F} {server : String}
      (api : ApiUrls urls styles h.binders h.path_of server cfg.api_prefix) (op : Operation F B)
      → IsPlain cfg.api_prefix
      → first_match
          (own_routes h meters t)
          (method op)
          (cfg.api_prefix <> "/" <> join "/" (segments op))
        ≡ none
      → IsClear op
      → Carries api op
      → (inner : (Request U B → Db S A)) × (assembled h meters cfg si
          ≡ ok (
              h.cors
                ("HEAD" ∷ "GET" ∷ "POST" ∷ "PUT" ∷ "DELETE" ∷ [])
                c
                ("Content-Type" ∷ [])
                inner))
        × (req : Request U B) × (vars : Dict String) × (request_of urls styles server op ≡ ok req)
        × (inner req
            ≡ through
                (middlewares h meters cfg.api_prefix t)
                (call_of si op)
                (arrived h.no_body req vars))
  unfolding server_options
  assembled-serves api op plain passed clear carried =
      let (req, vars, made, served) =
        request_of-serve api h.http_error si (server_options h meters cfg t) h.route h.no_body
          h.no_route op refl plain (routing _ _) passed clear carried in
      (behind_cors, assembled-cors, req, vars, made, served)

  assembled-health :
      (req : Request U B) → h.path_of req.url ≡ "/health" → behind_cors req ≡ h.write "OK\n"
  unfolding serve server_options own_routes handler_with_options first_match split_on cut_prefix
  assembled-health req at = ap (run_found h.no_body h.no_route req) (
      routing req.method (h.path_of req.url)
      ∙ ap
          (first_match
            (handler_with_options h.binders h.http_error si (server_options h meters cfg t))
            req.method)
          at)
