-- ===== src/Client/Refines.antt =====
-- The client's operations over HTTP (pkg/client/ops.go) and those of package crud behind the server.
use db2rest_bridge.Base.{String, [], Option, none, some, ok, err, ◌≡◌, refl, ap, ◌∙◌, ℕ}
use db2rest_bridge.Base.Results
use db2rest_bridge.Base.Dict.{Dict, lookup}
use db2rest_bridge.Types.Errors.{Error, Go, with_status}
use db2rest_bridge.Types.Config.{deref}
use db2rest_bridge.Query.Value.{Floats}
use db2rest_bridge.Crud.Driver.{Cells, pure, lift, ◌>>=◌}
use db2rest_bridge.Api.Types.{VersionInfo}
use db2rest_bridge.Api.Wire.{Urls, Styles, Json, Response}
use db2rest_bridge.Api.Calls
use db2rest_bridge.Api.Calls.{perform}
use db2rest_bridge.Api.Operation.{deletion, reading, IsClear, request_of, call_of}
use db2rest_bridge.Api.WithResponse.{get_item_by_id_with_response, delete_item_by_id_with_response}
use db2rest_bridge.Api.Responses.{parse_get_item_by_id_response, parse_delete_item_by_id_response}
use db2rest_bridge.Api.Sent.{Carries}
use db2rest_bridge.Server.Reply.{
  Reply, send, send_error, write_header, object, error_object, reply_status,
}
use db2rest_bridge.Server.Interface.{Interface}
use db2rest_bridge.Server.Handlers
use db2rest_bridge.Server.Handlers.{handle_backend, not_found, found_reply, or_send}
use db2rest_bridge.Server.Answers.{or_send-ok, or_send-err}
use db2rest_bridge.Server.Rest.{Decoders, RestServer, rest_server}
use db2rest_bridge.Client.Response.{error_from_response}
use db2rest_bridge.Client.Setup.{Generic}
use db2rest_bridge.Client.Http.{get, delete, get_result, delete_result}
use db2rest_bridge.Client.Remote.{Network, Connection}
use db2rest_bridge.Client.Received.{get-found, get-missing, get-refused, delete-done}
use db2rest_bridge.Client.Answered.{through_parse, asked, answered, backend_found}

module _ {F U V B S : Type 0} ⦃fl : Floats F⦄ {urls : Urls U} {styles : Styles F} (cells : Cells V)
    (decoders : Decoders V B) (show : Dict V → String) (version : VersionInfo)
    (rs : RestServer V F S) {write : Reply V → Response B} {c : Calls.Client U B S}
    (k : Connection urls styles (rest_server {U = U} cells decoders show version rs) write c)
    (ci : Interface V F S) where
  module _ {T : Type 0} {json : Json V B} {unmapped : Error → ℕ → ℕ}
      (n : Network json decoders unmapped write) (text_of : B → String) (g : Generic T U V B S)
      (set : g.c ≡ some c) (there : lookup g.be rs.crud_map ≡ some ci) where
    -- What the client makes of an object that is there, and of one that is not
    abbrev pub received : String → Option (Dict V) → Go T
    received id (some d) = g.dec_fn (n.wire d)
    received id none = err (with_status 404 (not_found g.ent id))

    received-sent :
        (id : String) (o : Option (Dict V)) (t : S)
        → (reply : Reply V) × (found_reply {S = S} g.ent id o t ≡ (ok reply, t))
          × ((Results.◌>>=◌
                (parse_get_item_by_id_response json (write reply))
                (get_result g.dec_fn))
              ≡ received id o)
    unfolding reply_status
    received-sent id (some d) t = (
      send (object (some d)) 200,
      refl,
      get-found json g.dec_fn (write (send (object (some d)) 200)) (n.value_body _ _)
          (n.value_type _ _) (n.status_is _) (n.read_object d),
    )
    received-sent id none t = (
      send (error_object (not_found g.ent id)) 404,
      refl,
      get-missing json g.dec_fn (write (send (error_object (not_found g.ent id)) 404))
          (n.value_body _ _) (n.value_type _ _) (n.status_is _) (n.read_error _),
    )

    -- Let a client be connected to the REST server over URLs, routes and replies that behave as
    -- documented, for a backend that the server knows, with texts that are path segments and an
    -- entity that is not the word of the query route. Where Get of package crud ends with an
    -- object or none, Get of the client ends in the same state, with the object as JSON transports
    -- it, decoded, or with an error of status 404 that names the entity and the ID.
    pub get-refines :
        (id : String) (o : Option (Dict V)) {s t : S}
        → IsClear {F = F} {B = B} (reading g.be g.ent id)
        → ci.get g.ent id s ≡ (ok o, t)
        → get urls styles json text_of g id s ≡ (received id o, t)
    unfolding Carries get get_item_by_id_with_response Calls.get_item_by_id request_of
        Handlers.get_item_by_id call_of handle_backend rest_server
    get-refines id o {s} {t} clear done =
        let (reply, sent_back, parsed) = received-sent id o t in
        let back = answered k (reading g.be g.ent id) reply s t clear tt λ req vars made.
          ap (λ m. m s) (backend_found rs ci g.be (Handlers.get_item_by_id g.ent id) there)
          ∙ or_send-ok 500 (ci.get g.ent id) (found_reply g.ent id) done
          ∙ sent_back in
        ap
          (λ o'.
            (lift (deref o') >>= λ c'.
            get_item_by_id_with_response urls styles json c' [] g.be g.ent id >>= λ resp.
            lift (get_result g.dec_fn resp))
              s)
          set
        ∙ through_parse (parse_get_item_by_id_response json) (get_result g.dec_fn)
            (asked urls styles c (reading g.be g.ent id)) s back
        ∙ ap (λ x. (x, t)) parsed

    -- Let a client be connected to the REST server over URLs, routes and replies that behave as
    -- documented, for a backend that the server knows and texts that are path segments. Where
    -- Delete of package crud succeeds, Delete of the client succeeds in the same state.
    pub delete-refines :
        (id : String) {s t : S}
        → IsClear {F = F} {B = B} (deletion g.be g.ent id)
        → ci.delete g.ent id s ≡ (ok tt, t)
        → delete urls styles json text_of g id s ≡ (ok tt, t)
    unfolding Carries delete delete_item_by_id_with_response Calls.delete_item_by_id request_of
        Handlers.delete_item_by_id call_of handle_backend rest_server reply_status
    delete-refines id {s} {t} clear done =
        let back =
          answered k (deletion g.be g.ent id) (write_header 204) s t clear tt λ req vars made.
            ap (λ m. m s) (backend_found rs ci g.be (Handlers.delete_item_by_id g.ent id) there)
            ∙ or_send-ok 500 (ci.delete g.ent id) (λ done'. pure (write_header 204)) done in
        ap
          (λ o'.
            (lift (deref o') >>= λ c'.
            delete_item_by_id_with_response urls styles json c' [] g.be g.ent id >>= λ resp.
            lift (delete_result resp))
              s)
          set
        ∙ through_parse parse_delete_item_by_id_response delete_result
            (asked urls styles c (deletion g.be g.ent id)) s back
        ∙ ap (λ x. (x, t))
            (delete-done (write (write_header 204)) (n.readable (write_header 204)).1
              (n.status_is (write_header 204)))

    -- Let a client be connected to the REST server over URLs, routes and replies that behave as
    -- documented, for a backend that the server knows, with texts that are path segments and an
    -- entity that is not the word of the query route. Where Get of package crud ends with an error
    -- that the server answers with 405, Get of the client ends in the same state with an error of
    -- status 405 whose message is the one for a status that it has no case for.
    pub get-refines_refused :
        (id : String) (e : Error) {s t : S}
        → IsClear {F = F} {B = B} (reading g.be g.ent id)
        → ci.get g.ent id s ≡ (err e, t)
        → reply_status {V = V} unmapped (send_error e 500) ≡ 405
        → get urls styles json text_of g id s ≡ (err (error_from_response 405), t)
    unfolding Carries get get_item_by_id_with_response Calls.get_item_by_id request_of
        Handlers.get_item_by_id call_of handle_backend rest_server
    get-refines_refused id e {s} {t} clear done code =
        let back =
          answered k (reading g.be g.ent id) (send_error e 500) s t clear tt λ req vars made.
            ap (λ m. m s) (backend_found rs ci g.be (Handlers.get_item_by_id g.ent id) there)
            ∙ or_send-err 500 (ci.get g.ent id) (found_reply g.ent id) done in
        ap
          (λ o'.
            (lift (deref o') >>= λ c'.
            get_item_by_id_with_response urls styles json c' [] g.be g.ent id >>= λ resp.
            lift (get_result g.dec_fn resp))
              s)
          set
        ∙ through_parse (parse_get_item_by_id_response json) (get_result g.dec_fn)
            (asked urls styles c (reading g.be g.ent id)) s back
        ∙ ap (λ x. (x, t))
            (get-refused json g.dec_fn (write (send_error e 500)) (n.readable (send_error e 500)).1
              (n.status_is (send_error e 500) ∙ code))
