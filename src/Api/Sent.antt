-- ===== src/Api/Sent.antt =====
-- The requests of the client (pkg/api/gen.go), over URLs that behave as documented.
use db2rest_bridge.Base.{
  String, List, [], ◌∷◌, Option, none, some, ok, ◌≡◌, refl, ap, ◌∙◌, sym, ◌<>◌, join, map, All,
}
use db2rest_bridge.Base.Results
use db2rest_bridge.Types.Errors.{Go}
use db2rest_bridge.Api.Types.{QueryNamedParams}
use db2rest_bridge.Api.Wire.{Urls, Styles, Request}
use db2rest_bridge.Api.Requests.{
  request_to, no_query, list_params, named_params, entity_path, item_path,
  new_list_backends_request, new_get_version_info_request, new_query_named_request,
  new_list_entities_request, new_list_items_request, new_create_item_request_with_body,
  new_bulk_update_request_with_body, new_delete_item_by_id_request, new_get_item_by_id_request,
  new_exists_item_by_id_request, new_update_item_by_id_request_with_body,
}
use db2rest_bridge.Api.Wrapper.{Binders}
use db2rest_bridge.Api.Styled.{list_params-sent, named_params-sent}
use db2rest_bridge.Api.Mux.{ApiUrls, IsSegment, list_fragments, named_fragments}
use db2rest_bridge.Api.Operation.{
  Operation, backends, version, named, entities, items, creation, bulk, deletion, reading,
  existence, replacement, segments, method, content, IsClear, request_of,
}
use db2rest_bridge.Api.Segments.{
  word_query, path_eq, entity_eq, query_eq, entities_eq, bulk_eq, segments-IsSegment,
}

module _ {F U B : Type 0} {urls : Urls U} {styles : Styles F} {binders : Binders F U}
    {path_of : U → String} {server base : String}
    (api : ApiUrls urls styles binders path_of server base) where
  open api use {
    escape, words, target, server_url, parsed, resolved, made, styled, texts, int_styled,
    texts_styled, filter_styled, bare, made_with, path_is, path_kept, CarriesList, CarriesNamed,
  }

  -- The URL of an operation, with the parameters of its query
  unfoldable pub address : Operation F B → U
  unfolding segments list_fragments named_fragments
  address (named be name (some p)) =
      urls.set_raw_query (join "&" (named_fragments texts p)) (target (be ∷ "_query" ∷ name ∷ []))
  address (items be ent (some p)) =
      urls.set_raw_query (join "&" (list_fragments texts p)) (target (be ∷ ent ∷ []))
  address op = target (segments op)

  -- The request of an operation
  unfoldable pub sent : Operation F B → Request U B
  unfolding method content address
  sent op = record {
    method = method op;
    url = address op;
    content_type = (content op).0;
    body = (content op).1;
  }

  -- The styles can carry the parameters of the query.
  unfoldable pub Carries : Operation F B → Type 0
  Carries (named be name (some p)) = CarriesNamed p
  Carries (items be ent (some p)) = CarriesList p
  Carries op = Unit {0}

  -- Where the query of the URL has become `u`
  request_to-with :
      (m : String) (ss : List String) (with_params : U → Go U) (u : U) (ct : Option String)
      (body : Option B) (path : String)
      → All IsSegment ss
      → "." <> path ≡ "./" <> join "/" (map escape ss)
      → with_params (target ss) ≡ ok u
      → urls.new_request m u ≡ ok tt
      → request_to urls m server path with_params ct body
        ≡ ok (record { method = m; url = u; content_type = ct; body = body })
  request_to-with m ss with_params u ct body path h e q n =
      rw parsed (rw e (rw (resolved ss h) (rw q (rw n refl))))

  request_to-target :
      (m : String) (ss : List String) (ct : Option String) (body : Option B) (path : String)
      → All IsSegment ss
      → "." <> path ≡ "./" <> join "/" (map escape ss)
      → request_to urls m server path no_query ct body
        ≡ ok (record { method = m; url = target ss; content_type = ct; body = body })
  request_to-target m ss ct body path h e =
      request_to-with m ss no_query (target ss) ct body path h e refl (made m ss)

  at_entity :
      (m be ent : String) (ct : Option String) (body : Option B) (with_params : U → Go U) (u : U)
      → All IsSegment (be ∷ ent ∷ [])
      → with_params (target (be ∷ ent ∷ [])) ≡ ok u
      → urls.new_request m u ≡ ok tt
      → (Results.◌>>=◌
          (entity_path urls styles be ent)
          λ path. request_to urls m server path with_params ct body)
        ≡ ok (record { method = m; url = u; content_type = ct; body = body })
  at_entity m be ent ct body with_params u h q n = rw (styled "backend" be) (
      rw (styled "entity" ent)
        (request_to-with m (be ∷ ent ∷ []) with_params u ct body _ h (path_eq _) q n))

  at_named :
      (be name : String) (p : Option QueryNamedParams) (u : U)
      → All IsSegment (be ∷ name ∷ [])
      → named_params urls styles p (target (be ∷ "_query" ∷ name ∷ [])) ≡ ok u
      → urls.new_request "GET" u ≡ ok tt
      → new_query_named_request urls styles {B = B} server be name p
        ≡ ok (record { method = "GET"; url = u; content_type = none; body = none })
  unfolding new_query_named_request IsClear segments
  at_named be name p u (b, rest) q n = rw (styled "backend" be) (
      rw (styled "name" name) (
        request_to-with "GET" (be ∷ "_query" ∷ name ∷ []) (named_params urls styles p) u none none _
          (b, (word_query, rest))
          (path_eq _
            ∙ ap (λ t. "./" <> escape be <> t) (query_eq (escape name))
            ∙ ap (λ w. "./" <> escape be <> "/" <> w <> "/" <> escape name) (sym words.1.1.1.0))
          q n))

  at_item :
      (m be ent id : String) (ct : Option String) (body : Option B)
      → All IsSegment (be ∷ ent ∷ id ∷ [])
      → (Results.◌>>=◌
          (item_path urls styles be ent id)
          λ path. request_to urls m server path no_query ct body)
        ≡ ok (record {
          method = m;
          url = target (be ∷ ent ∷ id ∷ []);
          content_type = ct;
          body = body;
        })
  at_item m be ent id ct body h = rw (styled "backend" be) (
      rw (styled "entity" ent)
        (rw (styled "id" id) (request_to-target m (be ∷ ent ∷ id ∷ []) ct body _ h (path_eq _))))

  -- The client makes of an operation a request with its method, the URL of its segments, and its content.
  pub request_of-sent :
      (op : Operation F B) → IsClear op → request_of urls styles server op ≡ ok (sent op)
  unfolding request_of sent address segments method content new_list_backends_request
      new_get_version_info_request new_query_named_request new_list_entities_request
      new_list_items_request new_create_item_request_with_body new_bulk_update_request_with_body
      new_delete_item_by_id_request new_get_item_by_id_request new_exists_item_by_id_request
      new_update_item_by_id_request_with_body IsClear
  request_of-sent backends h =
      request_to-target "GET" ("backends" ∷ []) none none "/backends"
        (segments-IsSegment {F = F} {B = B} backends h) (ap (λ w. "./" <> w) (sym words.0))
  request_of-sent version h =
      request_to-target "GET" ("version" ∷ []) none none "/version"
        (segments-IsSegment {F = F} {B = B} version h) (ap (λ w. "./" <> w) (sym words.1.0))
  request_of-sent (named be name none) h = at_named be name none _ h refl (made "GET" _)
  request_of-sent (named be name (some p)) h =
      at_named be name (some p) _ h (named_params-sent api p _) (made_with "GET" _ _)
  request_of-sent (entities be) h = rw (styled "backend" be) (
      request_to-target "GET" (be ∷ "entities" ∷ []) none none _
        (segments-IsSegment {F = F} {B = B} (entities be) h)
        (path_eq _
          ∙ ap (λ t. "./" <> escape be <> t) (entities_eq ∙ ap (λ w. "/" <> w) (sym words.1.1.0))))
  request_of-sent (items be ent none) h =
      at_entity "GET" be ent none none no_query _ h.0 refl (made "GET" _)
  request_of-sent (items be ent (some p)) h =
      at_entity "GET" be ent none none (list_params urls styles (some p)) _ h.0
        (list_params-sent api p _) (made_with "GET" _ _)
  request_of-sent (creation be ent ct b) h =
      at_entity "POST" be ent (some ct) (some b) no_query _ h refl (made "POST" _)
  request_of-sent (bulk be ent ct b) h = rw (styled "backend" be) (
      rw (styled "entity" ent) (
        request_to-target "POST" (be ∷ ent ∷ "bulk" ∷ []) (some ct) (some b) _
          (segments-IsSegment {F = F} {B = B} (bulk be ent ct b) h)
          (ap (λ t. "." <> t) (entity_eq (escape be) (escape ent) "/bulk")
            ∙ path_eq _
            ∙ ap (λ t. "./" <> escape be <> "/" <> escape ent <> t)
                (bulk_eq ∙ ap (λ w. "/" <> w) (sym words.1.1.1.1.0)))))
  request_of-sent (deletion be ent id) h = at_item "DELETE" be ent id none none h
  request_of-sent (reading be ent id) h = at_item "GET" be ent id none none h.0
  request_of-sent (existence be ent id) h = at_item "HEAD" be ent id none none h
  request_of-sent (replacement be ent id ct b) h = at_item "PUT" be ent id (some ct) (some b) h

  -- Behind the query, the path is the one of the operation.
  pub path-address :
      (op : Operation F B)
      → IsClear op
      → path_of (address op) ≡ base <> "/" <> join "/" (segments op)
  unfolding address segments
  path-address backends h = path_is _ (segments-IsSegment {F = F} {B = B} backends h)
  path-address version h = path_is _ (segments-IsSegment {F = F} {B = B} version h)
  path-address (named be name none) h =
      path_is _ (segments-IsSegment {F = F} {B = B} (named be name none) h)
  path-address (named be name (some p)) h =
      path_kept _ _ ∙ path_is _ (segments-IsSegment {F = F} {B = B} (named be name (some p)) h)
  path-address (entities be) h = path_is _ (segments-IsSegment {F = F} {B = B} (entities be) h)
  path-address (items be ent none) h =
      path_is _ (segments-IsSegment {F = F} {B = B} (items be ent none) h)
  path-address (items be ent (some p)) h =
      path_kept _ _ ∙ path_is _ (segments-IsSegment {F = F} {B = B} (items be ent (some p)) h)
  path-address (creation be ent ct b) h =
      path_is _ (segments-IsSegment {F = F} (creation be ent ct b) h)
  path-address (bulk be ent ct b) h = path_is _ (segments-IsSegment {F = F} (bulk be ent ct b) h)
  path-address (deletion be ent id) h =
      path_is _ (segments-IsSegment {F = F} {B = B} (deletion be ent id) h)
  path-address (reading be ent id) h =
      path_is _ (segments-IsSegment {F = F} {B = B} (reading be ent id) h)
  path-address (existence be ent id) h =
      path_is _ (segments-IsSegment {F = F} {B = B} (existence be ent id) h)
  path-address (replacement be ent id ct b) h =
      path_is _ (segments-IsSegment {F = F} (replacement be ent id ct b) h)
