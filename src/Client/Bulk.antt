-- ===== src/Client/Bulk.antt =====
-- BulkUpdate of the client over HTTP (pkg/client/ops.go) and that of the server (pkg/server/ops.go).
use db2rest_bridge.Base.{
  String, List, [], ◌∷◌, none, some, map, ok, ◌≡◌, refl, ap, sym, ◌∙◌, All, ℕ,
}
use db2rest_bridge.Base.Results
use db2rest_bridge.Base.Dict.{Dict, lookup}
use db2rest_bridge.Types.Errors.{Error, Go}
use db2rest_bridge.Types.Config.{BackendConfig, id_column, deref}
use db2rest_bridge.Query.Value.{Floats}
use db2rest_bridge.Crud.Driver.{Cells, pure, lift, ◌>>=◌}
use db2rest_bridge.Api.Types.{VersionInfo, BulkUpdateRequest}
use db2rest_bridge.Api.Wire.{Urls, Styles, Json, Request, Response}
use db2rest_bridge.Api.Calls
use db2rest_bridge.Api.Calls.{perform}
use db2rest_bridge.Api.Requests.{new_bulk_update_request}
use db2rest_bridge.Api.Operation.{Operation, bulk, IsClear, request_of, call_of, content}
use db2rest_bridge.Api.Mux.{IsSegment}
use db2rest_bridge.Api.WithResponse.{bulk_update_with_response}
use db2rest_bridge.Api.Responses.{parse_bulk_update_response}
use db2rest_bridge.Api.Sent.{Carries}
use db2rest_bridge.Server.Reply.{Reply, silent, reply_status}
use db2rest_bridge.Server.Interface.{Interface}
use db2rest_bridge.Server.Handlers.{handle_backend}
use db2rest_bridge.Server.Bulk
use db2rest_bridge.Server.Bulk.{bulk_step}
use db2rest_bridge.Server.Answers.{or_send-ok}
use db2rest_bridge.Server.Rest.{Decoders, RestServer, rest_server}
use db2rest_bridge.Client.Setup.{Generic}
use db2rest_bridge.Client.Http.{bulk_update, encode_all, ensure_ok}
use db2rest_bridge.Client.Remote.{Network, Connection}
use db2rest_bridge.Client.Received.{bulk_update-done}
use db2rest_bridge.Client.Answered.{sent_body, through_parse, asked, answered, backend_found}

module _ {F U V B S : Type 0} ⦃fl : Floats F⦄ {urls : Urls U} {styles : Styles F} (cells : Cells V)
    (decoders : Decoders V B) (show : Dict V → String) (version : VersionInfo)
    (rs : RestServer V F S) {write : Reply V → Response B} {c : Calls.Client U B S}
    (k : Connection urls styles (rest_server {U = U} cells decoders show version rs) write c)
    (ci : Interface V F S) where
  module _ {T : Type 0} {json : Json V B} {unmapped : Error → ℕ → ℕ}
      (n : Network json decoders unmapped write) (text_of : B → String) (g : Generic T U V B S)
      (set : g.c ≡ some c) (there : lookup g.be rs.crud_map ≡ some ci) where
    -- A bulk update asks with the encoded objects and the mode.
    bulk_update-asked :
        (xs : List T) (mode : String) (ms : List (Dict V)) (b : B) (s : S)
        → encode_all g mode xs ≡ ok ms
        → json.marshal_bulk (record { mode = mode; objects = ms }) ≡ ok b
        → bulk_update urls styles json text_of g xs mode s
          ≡ (asked urls styles c (bulk g.be g.ent "application/json" b)
                >>= (λ rsp. lift (parse_bulk_update_response rsp))
                >>= λ resp. lift (ensure_ok text_of resp.http_response resp.body))
              s
    unfolding bulk_update bulk_update_with_response Calls.bulk_update new_bulk_update_request
        request_of
    bulk_update-asked xs mode ms b s enc marshalled =
        ap
          (λ o.
            (lift o >>= λ objects. lift (deref g.c) >>= λ c'.
            bulk_update_with_response urls styles json c' [] g.be g.ent
              (record { mode = mode; objects = objects })
            >>= λ resp. lift (ensure_ok text_of resp.http_response resp.body))
              s)
          enc
        ∙ ap
            (λ o'.
              (lift (deref o') >>= λ c'.
              bulk_update_with_response urls styles json c' [] g.be g.ent
                (record { mode = mode; objects = ms })
              >>= λ resp. lift (ensure_ok text_of resp.http_response resp.body))
                s)
            set
        ∙ ap
            (λ buf.
              (perform c [] (
                    Results.◌>>=◌ buf
                      λ b'. request_of urls styles c.server (bulk g.be g.ent "application/json" b'))
                  >>= (λ rsp. lift (parse_bulk_update_response rsp))
                  >>= λ resp. lift (ensure_ok text_of resp.http_response resp.body))
                s)
            marshalled

    -- The server reads the request that was sent, and does what its mode says.
    bulk_update-called :
        (b : B) (body : BulkUpdateRequest V) (be : BackendConfig) (id_col : String) (s : S) {t : S}
        {req : Request U B}
        → All IsSegment (g.be ∷ g.ent ∷ [])
        → request_of urls styles c.server (bulk g.be g.ent "application/json" b) ≡ ok req
        → decoders.decode_bulk b ≡ ok body
        → lookup g.be rs.backends ≡ some be
        → id_column be g.ent ≡ ok id_col
        → bulk_step show g.ent id_col body ci s ≡ (ok tt, t)
        → handle_backend rs.crud_map g.be
            (Bulk.bulk_update show rs.backends g.be g.ent
              (decoders.decode_bulk (elim req.body [ none ↦ k.no_body | some b' ↦ b' ])))
            s
          ≡ (ok silent, t)
    unfolding Bulk.bulk_update content IsClear
    bulk_update-called b body be id_col s {t} {req} clear made decoded configured column done =
        let make : Go (BulkUpdateRequest V) → Go (Reply V) × S =
          λ r. Bulk.bulk_update show rs.backends g.be g.ent r ci s in
        ap (λ h. h s)
          (backend_found rs ci g.be
            (Bulk.bulk_update show rs.backends g.be g.ent
              (decoders.decode_bulk (elim req.body [ none ↦ k.no_body | some b' ↦ b' ])))
            there)
        ∙ ap (λ o. make (decoders.decode_bulk (elim o [ none ↦ k.no_body | some b' ↦ b' ])))
            (sym (sent_body k (bulk g.be g.ent "application/json" b) b refl clear made))
        ∙ ap make decoded
        ∙ rw configured (
            rw column
              (or_send-ok 500 (bulk_step show g.ent id_col body ci) (λ done'. pure silent) done))

    -- Let a client be connected to the REST server over URLs, routes and replies that behave as
    -- documented, for a backend that the server knows, with a configuration that gives the ID
    -- column of the entity, and texts that are path segments. Where the objects can be encoded,
    -- and what the server does by the mode with them as JSON transports them, or with their IDs,
    -- succeeds (for a mode that is none of the four it does nothing), BulkUpdate of the client
    -- succeeds in the same state.
    pub bulk_update-refines :
        (xs : List T) (mode : String) (ms : List (Dict V)) (be : BackendConfig) (id_col : String)
        (s : S) {t : S}
        → All IsSegment (g.be ∷ g.ent ∷ [])
        → encode_all g mode xs ≡ ok ms
        → lookup g.be rs.backends ≡ some be
        → id_column be g.ent ≡ ok id_col
        → bulk_step show g.ent id_col (record { mode = mode; objects = map n.wire ms }) ci s
          ≡ (ok tt, t)
        → bulk_update urls styles json text_of g xs mode s ≡ (ok tt, t)
    unfolding Carries call_of rest_server reply_status IsClear
    bulk_update-refines xs mode ms be id_col s {t} clear enc configured column done =
        let (b, marshalled, decoded) = n.request_read (record { mode = mode; objects = ms }) in
        let op : Operation F B = bulk g.be g.ent "application/json" b in
        bulk_update-asked xs mode ms b s enc marshalled
        ∙ through_parse parse_bulk_update_response
            (λ resp. ensure_ok text_of resp.http_response resp.body) (asked urls styles c op) s
            (answered k op silent s t clear tt λ req vars made.
              bulk_update-called b _ be id_col s clear made decoded configured column done)
        ∙ ap (λ w. (w, t))
            (bulk_update-done text_of (write silent) (n.readable silent).1 (n.status_is silent))
