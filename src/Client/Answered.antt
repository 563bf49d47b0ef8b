-- ===== src/Client/Answered.antt =====
-- The way of a call of the client (pkg/client/ops.go) to the handler behind the server, and back.
use db2rest_bridge.Base.{String, [], Option, none, some, ok, err, ◌≡◌, refl, ap, sym, ◌∙◌, ◌<>◌}
use db2rest_bridge.Base.Results
use db2rest_bridge.Base.Dict.{Dict, lookup}
use db2rest_bridge.Types.Errors.{Go}
use db2rest_bridge.Crud.Driver.{Db, pure, lift, go_on, ◌>>=◌}
use db2rest_bridge.Api.Wire.{Urls, Styles, Request, Response}
use db2rest_bridge.Api.Calls
use db2rest_bridge.Api.Calls.{perform}
use db2rest_bridge.Api.Operation.{Operation, IsClear, request_of, call_of, content}
use db2rest_bridge.Api.Sent.{sent, Carries, request_of-sent}
use db2rest_bridge.Api.Mux.{arrived}
use db2rest_bridge.Api.Wrapper.{ServerInterface}
use db2rest_bridge.Server.Reply.{Reply, http_error}
use db2rest_bridge.Server.Interface.{Interface}
use db2rest_bridge.Server.Handlers.{handle_backend}
use db2rest_bridge.Server.Rest.{RestServer}
use db2rest_bridge.Client.Remote.{Connection, perform-call}

abbrev body_of : {U B : Type 0} → Go (Request U B) → Option B
body_of (ok req) = req.body
body_of _ = none

go_on-lift :
    {A C S : Type 0} (r : Go A) (f : A → Go C) (t : S)
    → go_on r (λ a. lift (f a)) t ≡ (Results.◌>>=◌ r f, t)
go_on-lift (ok a) f t = refl
go_on-lift (err e) f t = refl
go_on-lift Results.panic f t = refl
go_on-lift Results.out_of_fuel f t = refl

-- A response that has come is parsed, and its result is taken.
pub through_parse :
    {A C W S : Type 0} (parse : W → Go A) (f : A → Go C) (m : Db S W) (s : S) {t : S} {w : W}
    → m s ≡ (ok w, t)
    → (m >>= (λ rsp. lift (parse rsp)) >>= λ resp. lift (f resp)) s ≡ (Results.◌>>=◌ (parse w) f, t)
through_parse parse f m s {t} {w} h =
    ap
      (λ r.
        go_on (go_on r.0 (λ rsp. lift (parse rsp)) r.1).0 (λ resp. lift (f resp))
          (go_on r.0 (λ rsp. lift (parse rsp)) r.1).1)
      h
    ∙ go_on-lift (parse w) f t

abbrev pub asked :
    {F U B S : Type 0} → Urls U → Styles F → Calls.Client U B S → Operation F B → Db S (Response B)
asked urls styles c op = perform c [] (request_of urls styles c.server op)

-- A reply of the handler is what the client's call gets.
pub answered :
    {F U V B S : Type 0} {urls : Urls U} {styles : Styles F}
    {si : ServerInterface F U B S (Reply V)} {write : Reply V → Response B} {c : Calls.Client U B S}
    (k : Connection urls styles si write c) (op : Operation F B) (reply : Reply V) (s t : S)
    → IsClear op
    → Carries k.api op
    → ((req : Request U B) (vars : Dict String)
        → request_of urls styles c.server op ≡ ok req
        → call_of si op (arrived k.no_body req vars) s ≡ (ok reply, t))
    → asked urls styles c op s ≡ (ok (write reply), t)
answered {write = write} k op reply s t clear carried call =
    let (req, vars, made, same) = perform-call k op clear carried in
    ap (λ m. m s) same ∙ ap (λ r. go_on r.0 (λ w. pure (write w)) r.1) (call req vars made)

pub backend_found :
    {V F S : Type 0} (rs : RestServer V F S) (ci : Interface V F S) (be : String)
    (h : Interface V F S → Db S (Reply V))
    → lookup be rs.crud_map ≡ some ci
    → handle_backend rs.crud_map be h ≡ h ci
unfolding handle_backend
backend_found rs ci be h e =
    ap (λ o. elim o [ some c' ↦ h c' | none ↦ pure (http_error ("no such backend: " <> be) 400) ]) e

-- The body of the request that the client makes
pub sent_body :
    {F U V B S : Type 0} {urls : Urls U} {styles : Styles F}
    {si : ServerInterface F U B S (Reply V)} {write : Reply V → Response B} {c : Calls.Client U B S}
    (k : Connection urls styles si write c) (op : Operation F B) (b : B) {req : Request U B}
    → (content op).1 ≡ some b
    → IsClear op
    → request_of urls styles c.server op ≡ ok req
    → some b ≡ req.body
unfolding sent
sent_body {write = write} k op b has clear made =
    sym has ∙ ap body_of (sym (request_of-sent k.api op clear) ∙ made)
