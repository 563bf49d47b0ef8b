-- ===== src/Client/Remote.antt =====
-- The client over HTTP (pkg/client/ops.go), with the REST server (pkg/server) at the other end.
use db2rest_bridge.Base.{ℕ, String, true, List, [], none, some, ok, ◌≡◌, ap, ◌∙◌, ◌<>◌, join, map}
use db2rest_bridge.Base.Search.{contains}
use db2rest_bridge.Base.Dict.{Dict}
use db2rest_bridge.Types.Errors.{Error}
use db2rest_bridge.Crud.Ops
use db2rest_bridge.Crud.Driver.{Db, pure, ◌>>=◌}
use db2rest_bridge.Api.Types.{BulkUpdateRequest}
use db2rest_bridge.Api.Wire.{Urls, Styles, Json, Request, Response}
use db2rest_bridge.Api.Calls
use db2rest_bridge.Api.Calls.{Doer, perform, apply_editors, apply_each}
use db2rest_bridge.Api.Wrapper.{Handler, Binders, ServerInterface, through}
use db2rest_bridge.Api.Routes.{Route, GorillaServerOptions, handler_with_options, router_or_new}
use db2rest_bridge.Api.Mux.{ApiUrls, Router, first_match, serve, arrived}
use db2rest_bridge.Api.Table.{IsPlain}
use db2rest_bridge.Api.Operation.{Operation, segments, method, IsClear, request_of, call_of}
use db2rest_bridge.Api.Sent.{Carries}
use db2rest_bridge.Api.Journey.{request_of-serve}
use db2rest_bridge.Server.Reply.{Reply, Payload, send, object, page, error_object, reply_status}
use db2rest_bridge.Server.Rest.{Decoders}

-- How replies travel: their status, that a value is sent as JSON and read by the client, and that the
-- server reads the objects and bulk requests that the client sends. `wire` is what becomes of an object on the way: JSON has
-- one type of numbers.
pub record Network {V B : Type 0} (json : Json V B) (decoders : Decoders V B)
    (unmapped : Error → ℕ → ℕ) (write : Reply V → Response B) : Type 0 where
  pub encode : Payload V → B
  pub wire : Dict V → Dict V
  pub status_is : (r : Reply V) → (write r).status_code ≡ reply_status unmapped r
  pub readable : (r : Reply V) → (b : B) × ((write r).body ≡ ok b)
  pub value_type : (p : Payload V) (n : ℕ) → contains (write (send p n)).content_type "json" ≡ true
  pub value_body : (p : Payload V) (n : ℕ) → (write (send p n)).body ≡ ok (encode p)
  pub read_object : (d : Dict V) → json.unmarshal_dto (encode (object (some d))) ≡ ok (wire d)
  pub read_page :
      (p : Ops.PagedResult V)
      → json.unmarshal_page (encode (page p))
        ≡ ok (record {
          items = some (map wire p.items);
          offset = some p.offset;
          total_count = some p.total_count;
        })
  pub read_error : (m : String) → json.unmarshal_error (encode (error_object m)) ≡ ok m
  pub object_read :
      (d : Dict V) → (b : B) × (json.marshal_dto d ≡ ok b) × (decoders.decode_dto b ≡ ok (wire d))
  pub request_read :
      (r : BulkUpdateRequest V)
      → (b : B) × (json.marshal_bulk r ≡ ok b)
        × (decoders.decode_bulk b ≡ ok (record { mode = r.mode; objects = map wire r.objects }))

-- A client's doer that hands the request to the routes of a server
abbrev pub connected :
    {U V B S : Type 0}
    → Router (Handler U B S (Reply V))
    → (U → String)
    → B
    → Db S (Reply V)
    → (Reply V → Response B)
    → List (Route (Handler U B S (Reply V)))
    → Doer U B S
connected route path_of no_body no_route write routes req =
    serve route path_of no_body no_route routes req >>= λ reply. pure (write reply)

-- A client at a server, and what is relied on between them
pub record Connection {F U V B S : Type 0} (urls : Urls U) (styles : Styles F)
    (si : ServerInterface F U B S (Reply V)) (write : Reply V → Response B) (c : Calls.Client U B S)
    : Type 1 where
  pub binders : Binders F U
  pub path_of : U → String
  pub base : String
  pub api : ApiUrls urls styles binders path_of c.server base
  pub plain : IsPlain base
  pub http_error : String → Db S (Reply V)
  pub options : GorillaServerOptions U B S (Reply V)
  pub at : options.base_url ≡ base
  pub transparent : (h : Handler U B S (Reply V)) → through options.middlewares h ≡ h
  pub route : Router (Handler U B S (Reply V))
  pub no_body : B
  pub no_route : Db S (Reply V)
  pub unedited : c.request_editors ≡ []
  pub doer :
      c.client
      ≡ some (
          connected route path_of no_body no_route write
            (handler_with_options binders http_error si options))
  pub routing :
      (op : Operation F B)
      → IsClear op
      → (let path = base <> "/" <> join "/" (segments op) in
          let routes = handler_with_options binders http_error si options in
          (route routes (method op) path ≡ first_match routes (method op) path)
          × (first_match (router_or_new options.base_router) (method op) path ≡ none))

module _ {F U V B S : Type 0} {urls : Urls U} {styles : Styles F}
    {si : ServerInterface F U B S (Reply V)} {write : Reply V → Response B} {c : Calls.Client U B S}
    (k : Connection urls styles si write c) where
  -- A request of the client is the call of the server's method, and its reply comes back.
  pub perform-call :
      (op : Operation F B)
      → IsClear op
      → Carries k.api op
      → (req : Request U B) × (vars : Dict String) × (request_of urls styles c.server op ≡ ok req)
        × (perform c [] (request_of urls styles c.server op)
            ≡ (call_of si op (arrived k.no_body req vars) >>= λ reply. pure (write reply)))
  unfolding perform apply_editors apply_each
  perform-call op clear carried =
      let (pass, miss) = k.routing op clear in
      let (req, vars, made, served) =
        request_of-serve k.api k.http_error si k.options k.route k.no_body k.no_route op k.at
          k.plain pass miss clear carried in
      (
        req,
        vars,
        made,
        ap (perform c []) made
            ∙ ap (λ es. apply_each es req >>= apply_each [] >>= Calls.do_request c.client)
                k.unedited
            ∙ ap (λ d. Calls.do_request d req) k.doer
            ∙ ap (λ m. m >>= λ reply. pure (write reply))
                (served ∙ ap (λ h. h (arrived k.no_body req vars)) (k.transparent (call_of si op))),
      )
