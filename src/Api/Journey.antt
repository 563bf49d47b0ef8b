-- ===== src/Api/Journey.antt =====
-- From the client's requests to the server's methods (pkg/api/gen.go).
use db2rest_bridge.Base.{
  String, List, [], ◌∷◌, none, some, ok, ◌≡◌, refl, ap, subst, ◌∙◌, sym, ◌<>◌, join, All, Lacks,
}
use db2rest_bridge.Base.Dict.{Dict}
use db2rest_bridge.Crud.Driver.{Db}
use db2rest_bridge.Api.Wire.{Urls, Styles, Request}
use db2rest_bridge.Api.Wrapper.{Handler, Binders, ServerInterface, through}
use db2rest_bridge.Api.Routes.{
  Route, GorillaServerOptions, operation_routes, handler_with_options, wrapper_with, router_or_new,
}
use db2rest_bridge.Api.Mux.{ApiUrls, IsSegment, Router, first_match, serve, arrived, run_found}
use db2rest_bridge.Api.Table.{routes_below, pick, IsPlain, first_match-below, first_match-append}
use db2rest_bridge.Api.Operation.{
  Operation, backends, version, named, entities, items, creation, bulk, deletion, reading,
  existence, replacement, segments, method, IsClear, request_of, call_of,
}
use db2rest_bridge.Api.Segments.{segments-IsSegment}
use db2rest_bridge.Api.Sent.{sent, Carries, path-address, request_of-sent}
use db2rest_bridge.Api.Picked.{wrapped, table, routes_table, table_segments, pick-wrapped}
use db2rest_bridge.Api.Called.{wrapped-call}

segments-cons :
    {F B : Type 0} (op : Operation F B) → (p : String) × (ps : List String) × (segments op ≡ p ∷ ps)
unfolding segments
segments-cons backends = (_, _, refl)
segments-cons version = (_, _, refl)
segments-cons (named be name p) = (_, _, refl)
segments-cons (entities be) = (_, _, refl)
segments-cons (items be ent p) = (_, _, refl)
segments-cons (creation be ent ct b) = (_, _, refl)
segments-cons (bulk be ent ct b) = (_, _, refl)
segments-cons (deletion be ent id) = (_, _, refl)
segments-cons (reading be ent id) = (_, _, refl)
segments-cons (existence be ent id) = (_, _, refl)
segments-cons (replacement be ent id ct b) = (_, _, refl)

Lacks-All : (ss : List String) → All IsSegment ss → All (Lacks b'/') ss
Lacks-All [] h = tt
Lacks-All (s ∷ ss) (h, hs) = (h.3, Lacks-All ss hs)

module _ {F U B S A : Type 0} {urls : Urls U} {styles : Styles F} {binders : Binders F U}
    {path_of : U → String} {server base : String}
    (api : ApiUrls urls styles binders path_of server base) (http_error : String → Db S A)
    (si : ServerInterface F U B S A) (options : GorillaServerOptions U B S A)
    (route : Router (Handler U B S A)) (no_body : B) (no_route : Db S A) where
  abbrev all_routes : List (Route (Handler U B S A))
  all_routes = handler_with_options binders http_error si options

  abbrev path_to : Operation F B → String
  path_to op = base <> "/" <> join "/" (segments op)

  -- The route that is found first
  found :
      (op : Operation F B)
      → options.base_url ≡ base
      → IsPlain base
      → first_match (router_or_new options.base_router) (method op) (path_to op) ≡ none
      → IsClear op
      → first_match all_routes (method op) (path_to op)
        ≡ some (wrapped binders (wrapper_with binders http_error si options) op)
  unfolding handler_with_options
  found op at plain passed clear =
      let siw = wrapper_with binders http_error si options in
      let (p, ps, e) = segments-cons op in
      first_match-append (method op) (path_to op) (router_or_new options.base_router) _ passed
      ∙ ap (λ b. first_match (operation_routes binders http_error siw b) (method op) (path_to op))
          at
      ∙ ap (λ rs. first_match rs (method op) (path_to op))
          (routes_table binders siw http_error base)
      ∙ ap
          (λ ss.
            first_match (routes_below base (table binders siw)) (method op)
              (base <> "/" <> join "/" ss))
          e
      ∙ first_match-below base (method op) p ps (table binders siw) plain
          (subst (All (Lacks b'/')) e (Lacks-All (segments op) (segments-IsSegment op clear)))
          (table_segments binders siw)
      ∙ ap (pick (table binders siw) (method op)) (sym e)
      ∙ pick-wrapped binders siw op clear

  -- Over URLs, styles of parameters, binders and a router that behave as documented, with the
  -- routes below the path of the client's server and no earlier route that matches: the request
  -- that the client makes of an operation, whose texts stand for path segments, which has no word
  -- of another route in the place of an entity, and whose parameters of the query, if it has any,
  -- the styles can carry, is served by the server's method of that operation with the same
  -- arguments, through the middlewares.
  pub request_of-serve :
      (op : Operation F B)
      → options.base_url ≡ base
      → IsPlain base
      → route all_routes (method op) (path_to op) ≡ first_match all_routes (method op) (path_to op)
      → first_match (router_or_new options.base_router) (method op) (path_to op) ≡ none
      → IsClear op
      → Carries api op
      → (req : Request U B) × (vars : Dict String) × (request_of urls styles server op ≡ ok req)
        × (serve route path_of no_body no_route all_routes req
            ≡ through options.middlewares (call_of si op) (arrived no_body req vars))
  unfolding serve handler_with_options sent method
  request_of-serve op at plain routing passed clear carried = (
    sent api op,
    (wrapped binders (wrapper_with binders http_error si options) op).1,
    request_of-sent api op clear,
    ap (run_found no_body no_route (sent api op)) (
          ap (route all_routes (method op)) (path-address api op clear)
          ∙ routing
          ∙ found op at plain passed clear)
        ∙ wrapped-call api (wrapper_with binders http_error si options) no_body op carried,
  )
