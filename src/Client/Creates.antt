-- ===== src/Client/Creates.antt =====
-- Create of the client over HTTP (pkg/client/ops.go) and that of package crud behind the server.
use db2rest_bridge.Base.{String, [], ◌∷◌, Option, none, some, ok, ◌≡◌, refl, ap, sym, ◌∙◌, All, ℕ}
use db2rest_bridge.Base.Results
use db2rest_bridge.Base.Dict.{Dict, lookup}
use db2rest_bridge.Types.Errors.{Error, Go}
use db2rest_bridge.Types.Config.{deref}
use db2rest_bridge.Query.Value.{Floats}
use db2rest_bridge.Crud.Driver.{Cells, pure, lift, ◌>>=◌}
use db2rest_bridge.Api.Types.{VersionInfo}
use db2rest_bridge.Api.Wire.{Urls, Styles, Json, Request, Response}
use db2rest_bridge.Api.Calls
use db2rest_bridge.Api.Calls.{perform}
use db2rest_bridge.Api.Requests.{new_create_item_request}
use db2rest_bridge.Api.Operation.{Operation, creation, IsClear, request_of, call_of, content}
use db2rest_bridge.Api.Mux.{IsSegment}
use db2rest_bridge.Api.WithResponse.{create_item_with_response}
use db2rest_bridge.Api.Responses.{parse_create_item_response}
use db2rest_bridge.Api.Sent.{Carries}
use db2rest_bridge.Server.Reply.{Reply, send, object, reply_status}
use db2rest_bridge.Server.Interface.{Interface}
use db2rest_bridge.Server.Handlers
use db2rest_bridge.Server.Handlers.{handle_backend, not_found, found_reply, or_send}
use db2rest_bridge.Server.Answers.{or_send-ok}
use db2rest_bridge.Server.Rest.{Decoders, RestServer, rest_server}
use db2rest_bridge.Client.Response.{exclude_props}
use db2rest_bridge.Client.Setup.{Generic}
use db2rest_bridge.Client.Http.{create, create_result}
use db2rest_bridge.Client.Remote.{Network, Connection}
use db2rest_bridge.Client.Received.{create-made}
use db2rest_bridge.Client.Answered.{sent_body, through_parse, asked, answered, backend_found}

module _ {F U V B S : Type 0} ⦃fl : Floats F⦄ {urls : Urls U} {styles : Styles F} (cells : Cells V)
    (decoders : Decoders V B) (show : Dict V → String) (version : VersionInfo)
    (rs : RestServer V F S) {write : Reply V → Response B} {c : Calls.Client U B S}
    (k : Connection urls styles (rest_server {U = U} cells decoders show version rs) write c)
    (ci : Interface V F S) where
  module _ {T : Type 0} {json : Json V B} {unmapped : Error → ℕ → ℕ}
      (n : Network json decoders unmapped write) (text_of : B → String) (g : Generic T U V B S)
      (set : g.c ≡ some c) (there : lookup g.be rs.crud_map ≡ some ci) where
    -- A creation asks for the object that is left of the encoded one.
    create-asked :
        (x : T) (m : Dict V) (b : B) (s : S)
        → g.enc_fn x ≡ ok m
        → json.marshal_dto (exclude_props m g.ro_props) ≡ ok b
        → create urls styles json text_of g x s
          ≡ (asked urls styles c (creation g.be g.ent "application/json" b)
                >>= (λ rsp. lift (parse_create_item_response json rsp))
                >>= λ cir. lift (create_result g.dec_fn cir))
              s
    unfolding create create_item_with_response Calls.create_item new_create_item_request request_of
    create-asked x m b s enc marshalled =
        ap
          (λ o.
            (lift o >>= λ m'. lift (deref g.c) >>= λ c'.
            create_item_with_response urls styles json c' [] g.be g.ent
              (exclude_props m' g.ro_props)
            >>= λ cir. lift (create_result g.dec_fn cir))
              s)
          enc
        ∙ ap
            (λ o'.
              (lift (deref o') >>= λ c'.
              create_item_with_response urls styles json c' [] g.be g.ent
                (exclude_props m g.ro_props)
              >>= λ cir. lift (create_result g.dec_fn cir))
                s)
            set
        ∙ ap
            (λ buf.
              (perform c [] (
                    Results.◌>>=◌ buf λ b'.
                      request_of urls styles c.server (creation g.be g.ent "application/json" b'))
                  >>= (λ rsp. lift (parse_create_item_response json rsp))
                  >>= λ cir. lift (create_result g.dec_fn cir))
                s)
            marshalled

    -- The server reads the object that was sent.
    create-called :
        (b : B) (o : Dict V) (d : Option (Dict V)) {s t : S} {req : Request U B}
        → IsClear {F = F} (creation g.be g.ent "application/json" b)
        → request_of urls styles c.server (creation g.be g.ent "application/json" b) ≡ ok req
        → decoders.decode_dto b ≡ ok o
        → ci.create g.ent o s ≡ (ok d, t)
        → handle_backend rs.crud_map g.be
            (Handlers.create_item g.ent
              (decoders.decode_dto (elim req.body [ none ↦ k.no_body | some b' ↦ b' ])))
            s
          ≡ (ok (send (object d) 201), t)
    unfolding Handlers.create_item content
    create-called b o d {s} {t} {req} clear made decoded done =
        let make : Go (Dict V) → Go (Reply V) × S = λ r. Handlers.create_item g.ent r ci s in
        ap (λ h. h s)
          (backend_found rs ci g.be
            (Handlers.create_item g.ent
              (decoders.decode_dto (elim req.body [ none ↦ k.no_body | some b' ↦ b' ])))
            there)
        ∙ ap (λ body. make (decoders.decode_dto (elim body [ none ↦ k.no_body | some b' ↦ b' ])))
            (sym (sent_body k (creation g.be g.ent "application/json" b) b refl clear made))
        ∙ ap make decoded
        ∙ or_send-ok 500 (ci.create g.ent o) (λ created. pure (send (object created) 201)) done

    -- Let a client be connected to the REST server over URLs, routes and replies that behave as
    -- documented, for a backend that the server knows and an entity that are path segments. Where
    -- Create of package crud, given the encoded object less its read-only properties as JSON
    -- transports it, ends with an object, Create of the client ends in the same state with that
    -- object, transported and decoded.
    pub create-refines :
        (x : T) (m d : Dict V) {s t : S}
        → All IsSegment (g.be ∷ g.ent ∷ [])
        → g.enc_fn x ≡ ok m
        → ci.create g.ent (n.wire (exclude_props m g.ro_props)) s ≡ (ok (some d), t)
        → create urls styles json text_of g x s ≡ (g.dec_fn (n.wire d), t)
    unfolding Carries call_of rest_server reply_status IsClear
    create-refines x m d {s} {t} clear enc done =
        let (b, marshalled, decoded) = n.object_read (exclude_props m g.ro_props) in
        let op : Operation F B = creation g.be g.ent "application/json" b in
        let reply = send (object (some d)) 201 in
        create-asked x m b s enc marshalled
        ∙ through_parse (parse_create_item_response json) (create_result g.dec_fn)
            (asked urls styles c op) s
            (answered k op reply s t clear tt
              λ req vars made. create-called b _ (some d) clear made decoded done)
        ∙ ap (λ w. (w, t))
            (create-made json g.dec_fn (write reply) (n.value_body _ _) (n.value_type _ _)
              (n.status_is _) (n.read_object d))
