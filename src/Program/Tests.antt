-- ===== src/Program/Tests.antt =====
-- The theorems of the program and of its server at concrete inputs.
use db2rest_bridge.Base.{
  ℕ, ◌+◌, String, Bool, true, false, List, [], ◌∷◌, Option, none, some, ok, panic, ◌≡◌, refl, arith,
  split_on,
}
use db2rest_bridge.Base.Int.{ℤ, pos}
use db2rest_bridge.Base.Dict.{Dict}
use db2rest_bridge.Base.Search.{cut_prefix}
use db2rest_bridge.Types.Errors.{Error}
use db2rest_bridge.Types.Normalize.{Commons, Config, ServerConfig, TelemetryConfig}
use db2rest_bridge.Query.Samples.{whole}
use db2rest_bridge.Crud.Driver.{Driver, Db, ◌>>◌}
use db2rest_bridge.Crud.Samples.{Cell, World, cells, start, running, backend}
use db2rest_bridge.Api.Wire.{Request}
use db2rest_bridge.Api.Wrapper.{Handler, ServerInterface, through}
use db2rest_bridge.Api.Mux.{first_match, arrived}
use db2rest_bridge.Api.Operation.{reading, segments, IsClear, request_of, call_of}
use db2rest_bridge.Api.Sent.{Carries}
use db2rest_bridge.Server.Reply.{Reply, http_error, silent}
use db2rest_bridge.Server.Rest.{rest_server}
use db2rest_bridge.Server.Backends.{Pools}
use db2rest_bridge.Server.Metrics.{InterceptedResponse, Meters, intercepted, labels_of, if_positive}
use db2rest_bridge.Server.Measured.{IsNotPositive, intercepted-below}
use db2rest_bridge.Server.Run.{Hosting, run, middlewares, own_routes, assembled}
use db2rest_bridge.Server.Hosted.{assembled-serves}
use db2rest_bridge.Client.UrlSamples.{Url, urls, styles, binders, path_of, api}
use db2rest_bridge.Client.RemoteSamples.{Body, empty, decoders, show_none, version}
use db2rest_bridge.Program.{main}
use db2rest_bridge.Program.Over.{PoolsStop}
use db2rest_bridge.Program.Stops.{Stops}
use db2rest_bridge.Program.Ends.{main-panics}

-- A clock that counts, and meters that note what they are given
abbrev Noted : Type 0
Noted = ℕ × List (List String × ℤ)

abbrev meters : Meters Noted
meters = record {
  now = λ s. (ok s.0, (s.0 + 1, s.1));
  observe_duration = λ labels d s. (ok tt, (s.0, (labels, d) ∷ s.1));
  add_request_bytes = λ labels n s. (ok tt, (s.0, (labels, n) ∷ s.1));
  add_response_bytes = λ labels n s. (ok tt, (s.0, (labels, pos n) ∷ s.1));
}

abbrev answered_get : InterceptedResponse
answered_get = record {
  method = "GET";
  path = "/api/v1/db/people/1";
  content_length = pos 0;
  status = 200;
  written = 12;
}

intercepted-below_example :
    (d : ℤ) × IsNotPositive d
    × (intercepted meters "/api/v1" answered_get (7, [])
        ≡ (meters.observe_duration (labels_of meters "/api/v1" "db" "people" answered_get) d
              >> (if_positive (pos 0) (
                    meters.add_request_bytes
                      (labels_of meters "/api/v1" "db" "people" answered_get)
                      (pos 0))
                  >> meters.add_response_bytes
                      (labels_of meters "/api/v1" "db" "people" answered_get)
                      12))
            (9, []))
intercepted-below_example =
    intercepted-below meters "/api/v1" answered_get "db" "people" ("1" ∷ []) 7 8 (7, []) (8, [])
      (9, []) refl (ground arith) refl refl (omega arith)

-- Databases that open, and a server that is told to stop at once
abbrev pools : Pools String World
pools = record {
  open_db = λ driver dsn w. (ok driver, w);
  set_max_open_conns = λ d n w. (ok tt, w);
  set_max_idle_conns = λ d n w. (ok tt, w);
  set_conn_max_lifetime = λ d n w. (ok tt, w);
  set_conn_max_idle_time = λ d n w. (ok tt, w);
  exec_ddl = λ d ddl w. (ok tt, w);
  close_db = λ d w. (ok tt, w);
}

abbrev no_meters : Meters World
no_meters = record {
  now = λ w. (ok 0, w);
  observe_duration = λ labels d w. (ok tt, w);
  add_request_bytes = λ labels n w. (ok tt, w);
  add_response_bytes = λ labels n w. (ok tt, w);
}

abbrev quiet : Handler Url Body World (Reply Cell)
quiet r w = (ok silent, w)

abbrev hosting : Hosting (Unit {0}) (Unit {0}) ℤ Url Body World (Reply Cell)
hosting = record {
  logging = λ handler. handler;
  interceptor = λ filter callback handler. handler;
  cors = λ methods c headers handler. handler;
  spec_handler = quiet;
  metrics_handler = quiet;
  write = λ text w. (ok silent, w);
  http_error = λ text w. (ok (http_error text 400), w);
  binders = binders;
  path_of = path_of;
  route = first_match;
  no_body = empty;
  no_route = λ w. (ok (http_error "404 page not found" 404), w);
  run_until = λ cfg handler w. (ok tt, w);
}

abbrev commons : Commons (Unit {0}) (Unit {0})
commons = record { check = λ s. none; default_metric_path = "/metrics"; default_cors = tt }

abbrev settings : Option TelemetryConfig → ServerConfig (Unit {0}) (Unit {0})
settings telemetry = record {
  listen_address = "";
  api_prefix = "/api";
  cors = some tt;
  telemetry = telemetry;
  others = tt;
}

abbrev given : Config (Unit {0}) (Unit {0})
given = record {
  server = settings none;
  backends = ("db", some (backend true)) ∷ [];
  logging_config = none;
}

abbrev driver_of : Option String → Driver Cell World
driver_of db = running

abbrev never : Error → Bool
never e = false

pools-PoolsStop : PoolsStop pools
pools-PoolsStop = record {
  open_db = λ driver dsn w. tt;
  set_max_open_conns = λ d n w. tt;
  set_max_idle_conns = λ d n w. tt;
  set_conn_max_lifetime = λ d n w. tt;
  set_conn_max_idle_time = λ d n w. tt;
  exec_ddl = λ d ddl w. tt;
}

hosting-Stops : Stops pools hosting
hosting-Stops = record { opens = pools-PoolsStop; serves = λ cfg handler w. tt }

main-panics_example :
    (main commons
      (λ level format. true)
      never
      (run cells decoders show_none version driver_of pools hosting no_meters)
      given
      start).0
    ≡ panic
main-panics_example =
    main-panics cells decoders show_none version driver_of pools hosting no_meters never commons
      (λ level format. true) given start (λ be s t e h. refl) hosting-Stops

abbrev measured_path : TelemetryConfig
measured_path = record { enabled = true; path = "/metrics" }

unfoldable served_methods : ServerInterface ℤ Url Body World (Reply Cell)
unfolding rest_server
served_methods =
    rest_server cells decoders show_none version (record { backends = []; crud_map = [] })

people-IsClear : IsClear {F = ℤ} {B = Body} (reading "db" "people" "1")
unfolding IsClear
people-IsClear = (
  (
    (refl, refl, refl, ground arith),
    ((refl, refl, refl, ground arith), ((refl, refl, refl, ground arith), tt)),
  ),
  refl,
)

assembled-serves_example :
    (inner : (Request Url Body → Db World (Reply Cell))) × (assembled hosting no_meters
        (settings (some measured_path))
        served_methods
      ≡ ok (
          hosting.cors
            ("HEAD" ∷ "GET" ∷ "POST" ∷ "PUT" ∷ "DELETE" ∷ [])
            tt
            ("Content-Type" ∷ [])
            inner))
    × (req : Request Url Body) × (vars : Dict String) × (request_of urls styles "http://localhost/"
          (reading "db" "people" "1")
        ≡ ok req)
    × (inner req
        ≡ through
            (middlewares hosting no_meters "/api" measured_path)
            (call_of served_methods (reading "db" "people" "1"))
            (arrived empty req vars))
unfolding Carries split_on cut_prefix own_routes first_match segments
assembled-serves_example =
    assembled-serves hosting no_meters (settings (some measured_path)) served_methods refl refl
      (λ m path. refl) api (reading "db" "people" "1") (refl, (refl, tt)) refl people-IsClear tt
