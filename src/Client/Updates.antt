-- ===== src/Client/Updates.antt =====
-- Update of the client over HTTP (pkg/client/ops.go) and that of package crud behind the server.
use db2rest_bridge.Base.{
  String, true, [], ◌∷◌, Option, none, some, ok, ◌≡◌, refl, ap, sym, ◌∙◌, All, ℕ,
}
use db2rest_bridge.Base.Results
use db2rest_bridge.Base.Dict.{Dict, lookup}
use db2rest_bridge.Types.Errors.{Error, Go}
use db2rest_bridge.Types.Config.{deref}
use db2rest_bridge.Query.Value.{Floats}
use db2rest_bridge.Crud.Driver.{Cells, pure, lift, ◌>>=◌}
use db2rest_bridge.Api.Types.{VersionInfo}
use db2rest_bridge.Api.Wire.{Urls, Styles, Json, Request, Response}
use db2rest_bridge.Api.Calls
use db2rest_bridge.Api.Calls.{perform}
use db2rest_bridge.Api.Requests.{new_update_item_by_id_request}
use db2rest_bridge.Api.Operation.{Operation, replacement, IsClear, request_of, call_of, content}
use db2rest_bridge.Api.Mux.{IsSegment}
use db2rest_bridge.Api.WithResponse.{update_item_by_id_with_response}
use db2rest_bridge.Api.Responses.{parse_update_item_by_id_response}
use db2rest_bridge.Api.Sent.{Carries}
use db2rest_bridge.Server.Reply.{Reply, send, object, reply_status}
use db2rest_bridge.Server.Interface.{Interface}
use db2rest_bridge.Server.Handlers
use db2rest_bridge.Server.Handlers.{handle_backend, not_found, found_reply, or_send}
use db2rest_bridge.Server.Answers.{or_send-ok}
use db2rest_bridge.Server.Rest.{Decoders, RestServer, rest_server}
use db2rest_bridge.Client.Response.{exclude_props}
use db2rest_bridge.Client.Setup.{Generic}
use db2rest_bridge.Client.Http.{update, update_result}
use db2rest_bridge.Client.Remote.{Network, Connection}
use db2rest_bridge.Client.Received.{update-made}
use db2rest_bridge.Client.Answered.{sent_body, through_parse, asked, answered, backend_found}

module _ {F U V B S : Type 0} ⦃fl : Floats F⦄ {urls : Urls U} {styles : Styles F} (cells : Cells V)
    (decoders : Decoders V B) (show : Dict V → String) (version : VersionInfo)
    (rs : RestServer V F S) {write : Reply V → Response B} {c : Calls.Client U B S}
    (k : Connection urls styles (rest_server {U = U} cells decoders show version rs) write c)
    (ci : Interface V F S) where
  module _ {T : Type 0} {json : Json V B} {unmapped : Error → ℕ → ℕ}
      (n : Network json decoders unmapped write) (text_of : B → String) (g : Generic T U V B S)
      (set : g.c ≡ some c) (there : lookup g.be rs.crud_map ≡ some ci) where
    -- An update asks for the object that is left of the encoded one.
    update-asked :
        (id : String) (x : T) (m : Dict V) (b : B) (s : S)
        → g.enc_fn x ≡ ok m
        → json.marshal_dto (exclude_props m g.ro_props) ≡ ok b
        → update urls styles json text_of g id x s
          ≡ (asked urls styles c (replacement g.be g.ent id "application/json" b)
                >>= (λ rsp. lift (parse_update_item_by_id_response json rsp))
                >>= λ cir. lift (update_result g.dec_fn cir))
              s
    unfolding update update_item_by_id_with_response Calls.update_item_by_id
        new_update_item_by_id_request request_of
    update-asked id x m b s enc marshalled =
        ap
          (λ o.
            (lift o >>= λ m'. lift (deref g.c) >>= λ c'.
            update_item_by_id_with_response urls styles json c' [] g.be g.ent id
              (exclude_props m' g.ro_props)
            >>= λ cir. lift (update_result g.dec_fn cir))
              s)
          enc
        ∙ ap
            (λ o'.
              (lift (deref o') >>= λ c'.
              update_item_by_id_with_response urls styles json c' [] g.be g.ent id
                (exclude_props m g.ro_props)
              >>= λ cir. lift (update_result g.dec_fn cir))
                s)
            set
        ∙ ap
            (λ buf.
              (perform c [] (
                    Results.◌>>=◌ buf λ b'.
                      request_of urls styles c.server
                        (replacement g.be g.ent id "application/json" b'))
                  >>= (λ rsp. lift (parse_update_item_by_id_response json rsp))
                  >>= λ cir. lift (update_result g.dec_fn cir))
                s)
            marshalled

    -- The server reads the object that was sent.
    update-called :
        (id : String) (b : B) (o : Dict V) (d : Option (Dict V)) {s s' t : S} {req : Request U B}
        → IsClear {F = F} (replacement g.be g.ent id "application/json" b)
        → request_of urls styles c.server (replacement g.be g.ent id "application/json" b) ≡ ok req
        → decoders.decode_dto b ≡ ok o
        → ci.exists g.ent id s ≡ (ok true, s')
        → ci.update g.ent id o s' ≡ (ok d, t)
        → handle_backend rs.crud_map g.be
            (Handlers.update_item_by_id g.ent id
              (decoders.decode_dto (elim req.body [ none ↦ k.no_body | some b' ↦ b' ])))
            s
          ≡ (ok (send (object d) 202), t)
    unfolding Handlers.update_item_by_id content
    update-called id b o d {s} {s'} {t} {req} clear made decoded there_is done =
        let make : Go (Dict V) → Go (Reply V) × S =
          λ r. Handlers.update_item_by_id g.ent id r ci s in
        ap (λ h. h s)
          (backend_found rs ci g.be
            (Handlers.update_item_by_id g.ent id
              (decoders.decode_dto (elim req.body [ none ↦ k.no_body | some b' ↦ b' ])))
            there)
        ∙ ap (λ body. make (decoders.decode_dto (elim body [ none ↦ k.no_body | some b' ↦ b' ])))
            (sym (sent_body k (replacement g.be g.ent id "application/json" b) b refl clear made))
        ∙ ap make decoded
        ∙ or_send-ok 500 (ci.exists g.ent id) (Handlers.update_there g.ent id o ci) there_is
        ∙ or_send-ok 500 (ci.update g.ent id o) (λ updated. pure (send (object updated) 202)) done

    -- Let a client be connected to the REST server over URLs, routes and replies that behave as
    -- documented, for a backend that the server knows and texts that are path segments. Where
    -- package crud finds that the item exists and its Update, given the encoded object less its
    -- read-only properties as JSON transports it, ends with an object, Update of the client ends
    -- in the same state with that object, transported and decoded.
    pub update-refines :
        (id : String) (x : T) (m d : Dict V) {s s' t : S}
        → All IsSegment (g.be ∷ g.ent ∷ id ∷ [])
        → g.enc_fn x ≡ ok m
        → ci.exists g.ent id s ≡ (ok true, s')
        → ci.update g.ent id (n.wire (exclude_props m g.ro_props)) s' ≡ (ok (some d), t)
        → update urls styles json text_of g id x s ≡ (g.dec_fn (n.wire d), t)
    unfolding Carries call_of rest_server reply_status IsClear
    update-refines id x m d {s} {s'} {t} clear enc there_is done =
        let (b, marshalled, decoded) = n.object_read (exclude_props m g.ro_props) in
        let op : Operation F B = replacement g.be g.ent id "application/json" b in
        let reply = send (object (some d)) 202 in
        update-asked id x m b s enc marshalled
        ∙ through_parse (parse_update_item_by_id_response json) (update_result g.dec_fn)
            (asked urls styles c op) s
            (answered k op reply s t clear tt
              λ req vars made. update-called id b _ (some d) clear made decoded there_is done)
        ∙ ap (λ w. (w, t))
            (update-made json g.dec_fn (write reply) (n.value_body _ _) (n.value_type _ _)
              (n.status_is _) (n.read_object d))
