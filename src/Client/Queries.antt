-- ===== src/Client/Queries.antt =====
-- Query of the client over HTTP (pkg/client/ops.go), and the named queries of package crud behind the
-- server.
use db2rest_bridge.Base.{
  ◌<◌, String, List, [], ◌∷◌, none, some, map, ok, ◌≡◌, refl, ap, ◌∙◌, All, ℕ,
}
use db2rest_bridge.Base.Int.{u64_mod, uint64-int_of}
use db2rest_bridge.Base.Dict.{Dict, lookup}
use db2rest_bridge.Types.Errors.{Error}
use db2rest_bridge.Types.Config.{deref}
use db2rest_bridge.Query.Value.{Floats}
use db2rest_bridge.Query.Filter.{nil_expr}
use db2rest_bridge.Query.Page.{Page}
use db2rest_bridge.Query.Data.{QryData}
use db2rest_bridge.Query.Params.{from_params}
use db2rest_bridge.Crud.Ops
use db2rest_bridge.Crud.Driver.{Cells, pure, lift, ◌>>=◌}
use db2rest_bridge.Api.Types
use db2rest_bridge.Api.Types.{VersionInfo, QueryNamedParams}
use db2rest_bridge.Api.Wire.{Urls, Styles, Json, Response}
use db2rest_bridge.Api.Calls
use db2rest_bridge.Api.Mux.{IsSegment}
use db2rest_bridge.Api.Operation.{Operation, named, IsClear, request_of, call_of}
use db2rest_bridge.Api.WithResponse.{query_named_with_response}
use db2rest_bridge.Api.Responses.{parse_query_named_response}
use db2rest_bridge.Api.Sent.{Carries}
use db2rest_bridge.Server.Reply.{Reply, send, page, reply_status}
use db2rest_bridge.Server.Interface.{Interface}
use db2rest_bridge.Server.Handlers
use db2rest_bridge.Server.Handlers.{handle_backend}
use db2rest_bridge.Server.Answers.{or_send-ok}
use db2rest_bridge.Server.Rest.{Decoders, RestServer, rest_server}
use db2rest_bridge.Client.Setup.{Generic}
use db2rest_bridge.Client.Http.{query, query_result, named_query_params, paging_or_default}
use db2rest_bridge.Client.Remote.{Network, Connection}
use db2rest_bridge.Client.Received.{query-made}
use db2rest_bridge.Client.Answered.{through_parse, asked, answered, backend_found}

-- The query that the server makes of the paging: the filter and the orders are not sent.
abbrev paging_only : {F : Type 0} → Page → QryData F
paging_only p = record { orders = []; paging = some p; filter = nil_expr }

named_params-read :
    {F : Type 0} ⦃fl : Floats F⦄ (p : Page) (args : List String)
    → p.offset < u64_mod
    → (let ps = named_query_params p args in
        from_params ps.page_offset ps.page_size none none ≡ ok (paging_only {F = F} p))
unfolding from_params
named_params-read p args h = rw (uint64-int_of p.offset h) refl

module _ {F U V B S : Type 0} ⦃fl : Floats F⦄ {urls : Urls U} {styles : Styles F} (cells : Cells V)
    (decoders : Decoders V B) (show : Dict V → String) (version : VersionInfo)
    (rs : RestServer V F S) {write : Reply V → Response B} {c : Calls.Client U B S}
    (k : Connection urls styles (rest_server {U = U} cells decoders show version rs) write c)
    (ci : Interface V F S) where
  module _ {T : Type 0} {json : Json V B} {unmapped : Error → ℕ → ℕ}
      (n : Network json decoders unmapped write) (text_of : B → String) (g : Generic T U V B S)
      (set : g.c ≡ some c) (there : lookup g.be rs.crud_map ≡ some ci) where
    -- A page as the client has it
    abbrev transported : Ops.PagedResult V → Types.PagedResult V
    transported p = record {
      items = some (map n.wire p.items);
      offset = some p.offset;
      total_count = some p.total_count;
    }

    query-called :
        (name : String) (q : QryData F) (args : List String) (p : Ops.PagedResult V) {s t : S}
        → (paging_or_default q).offset < u64_mod
        → ci.query_named name (paging_only (paging_or_default q)) (map cells.text args) s
          ≡ (ok p, t)
        → (let ps = named_query_params (paging_or_default q) args in
            handle_backend rs.crud_map g.be
              (Handlers.query_named cells name ps.page_offset ps.page_size ps.arg)
              s
            ≡ (ok (send (page p) 200), t))
    unfolding Handlers.query_named
    query-called name q args p {s} {t} fits done =
        let ps : QueryNamedParams = named_query_params (paging_or_default q) args in
        ap (λ m. m s)
          (backend_found rs ci g.be
            (Handlers.query_named cells name ps.page_offset ps.page_size ps.arg) there)
        ∙ or_send-ok 400 (lift (from_params ps.page_offset ps.page_size none none))
            (λ qry.
              Handlers.or_send 500 (ci.query_named name qry (map cells.text args))
                λ res. pure (send (page res) 200))
            (ap (λ r. (r, s)) (named_params-read (paging_or_default q) args fits))
        ∙ or_send-ok 500
            (ci.query_named name (paging_only (paging_or_default q)) (map cells.text args))
            (λ res. pure (send (page res) 200)) done

    -- Let a client be connected to the REST server over URLs, routes and replies that behave as
    -- documented, for a backend that the server knows and texts that are path segments. For a
    -- query whose offset is a uint64, and arguments that the styles can carry with its paging:
    -- where QueryNamed of package crud, given that paging (the default one if the query has none),
    -- no filter, no orders and the arguments as values, ends with a page, Query of the client ends
    -- in the same state with that page, its objects as JSON transports them.
    pub query-refines :
        (name : String) (q : QryData F) (args : List String) (p : Ops.PagedResult V) {s t : S}
        → All IsSegment (g.be ∷ name ∷ [])
        → (paging_or_default q).offset < u64_mod
        → k.api.CarriesNamed (named_query_params (paging_or_default q) args)
        → ci.query_named name (paging_only (paging_or_default q)) (map cells.text args) s
          ≡ (ok p, t)
        → query urls styles json text_of g name (some q) args s ≡ (ok (some (transported p)), t)
    unfolding query query_named_with_response Calls.query_named request_of call_of rest_server
        reply_status IsClear Carries
    query-refines name q args p {s} {t} clear fits carried done =
        let ps : QueryNamedParams = named_query_params (paging_or_default q) args in
        let op : Operation F B = named g.be name (some ps) in
        let reply = send (page p) 200 in
        ap
          (λ o'.
            (lift (deref o') >>= λ c'.
            query_named_with_response urls styles json c' [] g.be name (some ps) >>= λ resp.
            lift (query_result resp))
              s)
          set
        ∙ through_parse (parse_query_named_response json) query_result (asked urls styles c op) s (
            answered k op reply s t clear carried
              λ req vars made. query-called name q args p fits done)
        ∙ ap (λ w. (w, t))
            (query-made json g.dec_fn (write reply) (n.value_body _ _) (n.value_type _ _)
              (n.status_is _) (n.read_page p))
