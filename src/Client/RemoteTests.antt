-- ===== src/Client/RemoteTests.antt =====
-- The theorems of the client over HTTP at a concrete client and server.
use db2rest_bridge.Base.{String, true, [], ◌∷◌, some, ok, err, ◌≡◌, refl, arith}
use db2rest_bridge.Base.Search.{cut_prefix}
use db2rest_bridge.Base.Dict.{Dict, lookup}
use db2rest_bridge.Base.{split_on, show_nat}
use db2rest_bridge.Types.Errors.{with_status, new_error_with_status}
use db2rest_bridge.Query.Samples.{whole}
use db2rest_bridge.Crud.Samples.{Cell, person, word, backend}
use db2rest_bridge.Crud.Samples
use db2rest_bridge.Api.Wire.{Request}
use db2rest_bridge.Api.Wrapper.{through}
use db2rest_bridge.Api.Routes.{handler_with_options}
use db2rest_bridge.Api.Mux.{first_match, serve, arrived}
use db2rest_bridge.Api.Operation.{reading, IsClear, request_of, call_of}
use db2rest_bridge.Api.Sent.{Carries}
use db2rest_bridge.Api.Journey.{request_of-serve}
use db2rest_bridge.Server.Reply.{reply_status}
use db2rest_bridge.Client.Response.{exclude_props, error_from_response}
use db2rest_bridge.Client.Http.{get, create, delete, update, bulk_update, encode_all}
use db2rest_bridge.Client.Refines.{get-refines, delete-refines, get-refines_refused}
use db2rest_bridge.Client.Creates.{create-refines}
use db2rest_bridge.Client.Updates.{update-refines}
use db2rest_bridge.Client.Bulk.{bulk_update-refines}
use db2rest_bridge.Types.Config.{id_column}
use db2rest_bridge.Server.Bulk.{bulk_step}
use db2rest_bridge.Base.Int.{ℤ}
use db2rest_bridge.Client.UrlSamples.{Url, urls, styles, binders, path_of, api}
use db2rest_bridge.Client.ConnectionSample.{connection}
use db2rest_bridge.Client.RemoteSamples.{
  Body, empty, codec, decoders, network, people, server, version, show_none, methods, options,
  refuse, not_routed, generic,
}

people-IsClear : IsClear {F = ℤ} {B = Body} (reading "db" "people" "1")
unfolding IsClear
people-IsClear = (
  (
    (refl, refl, refl, ground arith),
    ((refl, refl, refl, ground arith), ((refl, refl, refl, ground arith), tt)),
  ),
  refl,
)

get-refines_example :
    get urls styles codec (λ b. "") (generic "people") "1" (person ∷ []) ≡ (ok person, person ∷ [])
unfolding network lookup
get-refines_example =
    get-refines Samples.cells decoders show_none version server connection people network (λ b. "")
      (generic "people") refl refl "1" (some person) people-IsClear refl

delete-refines_example :
    delete urls styles codec (λ b. "") (generic "people") "1" (person ∷ []) ≡ (ok tt, [])
unfolding network lookup IsClear
delete-refines_example =
    delete-refines Samples.cells decoders show_none version server connection people network
      (λ b. "") (generic "people") refl refl "1" (people-IsClear.0) refl

secret-IsClear : IsClear {F = ℤ} {B = Body} (reading "db" "secret" "1")
unfolding IsClear
secret-IsClear = (
  (
    (refl, refl, refl, ground arith),
    ((refl, refl, refl, ground arith), ((refl, refl, refl, ground arith), tt)),
  ),
  refl,
)

get-refines_refused_example :
    get urls styles codec (λ b. "") (generic "secret") "1" (person ∷ [])
    ≡ (err (with_status 405 "unexpected error code: 405"), person ∷ [])
unfolding network lookup error_from_response show_nat reply_status new_error_with_status
get-refines_refused_example =
    get-refines_refused Samples.cells decoders show_none version server connection people network
      (λ b. "") (generic "secret") refl refl "1" (with_status 405 "read not allowed") secret-IsClear
      refl refl

create-refines_example :
    create urls styles codec (λ b. "") (generic "people") person []
    ≡ (ok (("name", word "Ann") ∷ []), (("name", word "Ann") ∷ []) ∷ [])
unfolding network lookup exclude_props IsClear
create-refines_example =
    create-refines Samples.cells decoders show_none version server connection people network
      (λ b. "") (generic "people") refl refl person person (("name", word "Ann") ∷ [])
      (people-IsClear.0.0, (people-IsClear.0.1.0, tt)) refl refl

request_of-serve_example :
    (req : Request Url Body) × (vars : Dict String) × (request_of urls styles "http://localhost/"
        (reading "db" "people" "1")
      ≡ ok req)
    × (serve first_match path_of empty not_routed
          (handler_with_options binders refuse methods options)
          req
        ≡ through [] (call_of methods (reading "db" "people" "1")) (arrived empty req vars))
unfolding Carries split_on cut_prefix first_match
request_of-serve_example =
    request_of-serve api refuse methods options first_match empty not_routed
      (reading "db" "people" "1") refl (refl, (refl, tt)) refl refl people-IsClear tt

update-refines_example :
    update urls styles codec (λ b. "") (generic "people") "1" person []
    ≡ (ok (("name", word "Ann") ∷ []), (("name", word "Ann") ∷ []) ∷ [])
unfolding network lookup exclude_props IsClear
update-refines_example =
    update-refines Samples.cells decoders show_none version server connection people network
      (λ b. "") (generic "people") refl refl "1" person person (("name", word "Ann") ∷ [])
      (people-IsClear.0) refl refl refl

bulk_update-refines_example :
    bulk_update urls styles codec (λ b. "") (generic "people") (person ∷ person ∷ []) "REPLACE" []
    ≡ (ok tt, (("name", word "Ann") ∷ []) ∷ (("name", word "Ann") ∷ []) ∷ [])
unfolding network lookup exclude_props IsClear encode_all id_column bulk_step
bulk_update-refines_example =
    bulk_update-refines Samples.cells decoders show_none version server connection people network
      (λ b. "") (generic "people") refl refl (person ∷ person ∷ []) "REPLACE"
      ((("name", word "Ann") ∷ []) ∷ (("name", word "Ann") ∷ []) ∷ []) (backend true) "id" []
      (people-IsClear.0.0, (people-IsClear.0.1.0, tt)) refl refl refl refl
