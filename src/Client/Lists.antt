-- ===== src/Client/Lists.antt =====
-- List and Query of the client over HTTP (pkg/client/ops.go), and the lists and named queries of package
-- crud behind the server.
use db2rest_bridge.Base.{
  err, ◌==◌, String, List, [], ◌∷◌, some, map, ok, ◌≡◌, refl, ap, ◌∙◌, All, ℕ, str_eq, false,
}
use db2rest_bridge.Base.Results
use db2rest_bridge.Base.Int.{ℤ}
use db2rest_bridge.Base.Dict.{Dict, lookup}
use db2rest_bridge.Types.Errors.{Error, Go}
use db2rest_bridge.Types.Config.{deref}
use db2rest_bridge.Query.Value.{Floats}
use db2rest_bridge.Query.Data.{QryData, query_string}
use db2rest_bridge.Query.Params.{to_params, from_params}
use db2rest_bridge.Query.Travel.{IsSendable, received_query, from_params-to_params}
use db2rest_bridge.Crud.Ops
use db2rest_bridge.Crud.Driver.{Cells, Db, pure, lift, ◌>>=◌}
use db2rest_bridge.Api.Types.{VersionInfo}
use db2rest_bridge.Api.Wire.{Urls, Styles, Json, Response}
use db2rest_bridge.Api.Calls
use db2rest_bridge.Api.Mux.{IsSegment}
use db2rest_bridge.Api.Operation.{Operation, items, IsClear, request_of, call_of}
use db2rest_bridge.Api.WithResponse.{list_items_with_response}
use db2rest_bridge.Api.Responses.{parse_list_items_response}
use db2rest_bridge.Api.Sent.{Carries}
use db2rest_bridge.Server.Reply.{Reply, send, send_error, page, reply_status}
use db2rest_bridge.Server.Interface.{Interface}
use db2rest_bridge.Server.Handlers
use db2rest_bridge.Server.Handlers.{handle_backend}
use db2rest_bridge.Server.Answers.{or_send-ok, or_send-err}
use db2rest_bridge.Server.Rest.{Decoders, RestServer, rest_server}
use db2rest_bridge.Client.Setup.{Generic}
use db2rest_bridge.Client.Http.{list, list_result, decode_all, logged}
use db2rest_bridge.Client.Remote.{Network, Connection}
use db2rest_bridge.Client.Received.{list-made, list-unexpected, wanted_ok}
use db2rest_bridge.Client.Answered.{through_parse, asked, answered, backend_found}

module _ {F U V B S : Type 0} ⦃fl : Floats F⦄ {urls : Urls U} {styles : Styles F} (cells : Cells V)
    (decoders : Decoders V B) (show : Dict V → String) (version : VersionInfo)
    (rs : RestServer V F S) {write : Reply V → Response B} {c : Calls.Client U B S}
    (k : Connection urls styles (rest_server {U = U} cells decoders show version rs) write c)
    (ci : Interface V F S) where
  module _ {T : Type 0} {json : Json V B} {unmapped : Error → ℕ → ℕ}
      (n : Network json decoders unmapped write) (text_of : B → String) (g : Generic T U V B S)
      (set : g.c ≡ some c) (there : lookup g.be rs.crud_map ≡ some ci) where
    -- What the client makes of a page
    abbrev pub page_received : Ops.PagedResult V → Go (List T × ℤ)
    page_received p =
        Results.◌>>=◌ (decode_all g.dec_fn (map n.wire p.items)) λ res. ok (res, p.total_count)

    abbrev list_reply : QryData F → Db S (Reply V)
    list_reply q = Handlers.or_send 500 (ci.list_items g.ent q) λ res. pure (send (page res) 200)

    -- The server reads the query that was sent.
    query_read :
        (q : QryData F) (s : S)
        → IsSendable q
        → Handlers.list_items g.ent (to_params q) ci s ≡ list_reply (received_query q) s
    unfolding Handlers.list_items
    query_read q s sendable =
        or_send-ok 400
          (lift (
            from_params (to_params q).page_offset (to_params q).page_size (to_params q).order
              (to_params q).filter))
          list_reply (ap (λ r. (r, s)) (from_params-to_params q sendable))

    list-called :
        (q : QryData F) (p : Ops.PagedResult V) {s t : S}
        → IsSendable q
        → ci.list_items g.ent (received_query q) s ≡ (ok p, t)
        → handle_backend rs.crud_map g.be (Handlers.list_items g.ent (to_params q)) s
          ≡ (ok (send (page p) 200), t)
    list-called q p {s} {t} sendable done =
        ap (λ m. m s) (backend_found rs ci g.be (Handlers.list_items g.ent (to_params q)) there)
        ∙ query_read q s sendable
        ∙ or_send-ok 500 (ci.list_items g.ent (received_query q))
            (λ res. pure (send (page res) 200)) done

    -- What the server replies is parsed, and its result is taken.
    list-replied :
        (q : QryData F) (reply : Reply V) (s : S) {text : String} {t : S}
        → All IsSegment (g.be ∷ g.ent ∷ [])
        → str_eq "entities" g.ent ≡ false
        → query_string q ≡ some text
        → k.api.CarriesList (to_params q)
        → handle_backend rs.crud_map g.be (Handlers.list_items g.ent (to_params q)) s
          ≡ (ok reply, t)
        → list urls styles json text_of g (some q) s ≡ (
          Results.◌>>=◌
              (parse_list_items_response json (write reply))
              (list_result g.dec_fn text_of),
          t,
        )
    unfolding list list_items_with_response Calls.list_items request_of call_of rest_server IsClear
        Carries
    list-replied q reply s {text} {t} clear other written carried replied =
        let op : Operation F B = items g.be g.ent (some (to_params q)) in
        ap
          (λ o.
            (lift (logged o) >>= λ done'. lift (deref g.c) >>= λ c'.
            list_items_with_response urls styles json c' [] g.be g.ent (some (to_params q))
            >>= λ resp. lift (list_result g.dec_fn text_of resp))
              s)
          written
        ∙ ap
            (λ o'.
              (lift (deref o') >>= λ c'.
              list_items_with_response urls styles json c' [] g.be g.ent (some (to_params q))
              >>= λ resp. lift (list_result g.dec_fn text_of resp))
                s)
            set
        ∙ through_parse (parse_list_items_response json) (list_result g.dec_fn text_of)
            (asked urls styles c op) s
            (answered k op reply s t (clear, other) carried λ req vars made. replied)

    -- Let a client be connected to the REST server over URLs, routes and replies that behave as
    -- documented, for a backend that the server knows, with texts that are path segments and an
    -- entity that is not the word of the entities route. For a query whose order names lack the
    -- equals sign, whose filter is nil or has no nil part, whose offset is a uint64, which can be
    -- written as text and whose parameters the styles can carry: where ListItems of package crud,
    -- given the query as the server reads it, ends with a page, List of the client ends in the
    -- same state with the total of that page and its objects, transported and decoded, or with the
    -- error of their decoding.
    pub list-refines :
        (q : QryData F) (p : Ops.PagedResult V) {text : String} {s t : S}
        → All IsSegment (g.be ∷ g.ent ∷ [])
        → str_eq "entities" g.ent ≡ false
        → IsSendable q
        → query_string q ≡ some text
        → k.api.CarriesList (to_params q)
        → ci.list_items g.ent (received_query q) s ≡ (ok p, t)
        → list urls styles json text_of g (some q) s ≡ (page_received p, t)
    unfolding reply_status
    list-refines q p {s = s} {t = t} clear other sendable written carried done =
        list-replied q (send (page p) 200) s clear other written carried
          (list-called q p sendable done)
        ∙ ap (λ w. (w, t))
            (list-made json g.dec_fn (write (send (page p) 200)) (n.value_body _ _)
              (n.value_type _ _) text_of (n.status_is _) (n.read_page p) refl refl)

    list-failed :
        (q : QryData F) (e : Error) {s t : S}
        → IsSendable q
        → ci.list_items g.ent (received_query q) s ≡ (err e, t)
        → handle_backend rs.crud_map g.be (Handlers.list_items g.ent (to_params q)) s
          ≡ (ok (send_error e 500), t)
    list-failed q e {s} {t} sendable failed =
        ap (λ m. m s) (backend_found rs ci g.be (Handlers.list_items g.ent (to_params q)) there)
        ∙ query_read q s sendable
        ∙ or_send-err 500 (ci.list_items g.ent (received_query q))
            (λ res. pure (send (page res) 200)) failed

    -- Let a client be connected to the REST server over URLs, routes and replies that behave as
    -- documented, for a backend that the server knows, with texts that are path segments and an
    -- entity that is not the word of the entities route. For a query whose order names lack the
    -- equals sign, whose filter is nil or has no nil part, whose offset is a uint64, which can be
    -- written as text and whose parameters the styles can carry: where ListItems of package crud,
    -- given the query as the server reads it, fails with an error that the server answers with
    -- another status than 200, List of the client fails in the same state with an error whose
    -- message names that status and holds the body, and whose own status is 200.
    pub list-refines_failed :
        (q : QryData F) (e : Error) {text : String} {s t : S}
        → All IsSegment (g.be ∷ g.ent ∷ [])
        → str_eq "entities" g.ent ≡ false
        → IsSendable q
        → query_string q ≡ some text
        → k.api.CarriesList (to_params q)
        → ci.list_items g.ent (received_query q) s ≡ (err e, t)
        → (reply_status {V = V} unmapped (send_error e 500) == 200) ≡ false
        → list urls styles json text_of g (some q) s ≡ (
          err (
              wanted_ok
                (reply_status {V = V} unmapped (send_error e 500))
                (text_of (n.readable (send_error e 500)).0)),
          t,
        )
    list-refines_failed q e {s = s} {t = t} clear other sendable written carried failed code =
        let reply : Reply V = send_error e 500 in
        list-replied q reply s clear other written carried (list-failed q e sendable failed)
        ∙ ap (λ w. (w, t))
            (list-unexpected json g.dec_fn (write reply) (n.readable reply).1 text_of
              (ap (λ m. m == 200) (n.status_is reply) ∙ code))
        ∙ ap (λ m. (err (wanted_ok m (text_of (n.readable reply).0)), t)) (n.status_is reply)
