-- ===== src/Api/Called.antt =====
-- The calls of the server's wrapper (pkg/api/gen.go), where a path has been matched.
use db2rest_bridge.Base.{String, [], ◌∷◌, none, some, ◌≡◌, refl}
use db2rest_bridge.Base.Dict.{lookup}
use db2rest_bridge.Api.Wire.{Urls, Styles}
use db2rest_bridge.Api.Wrapper
use db2rest_bridge.Api.Wrapper.{
  Incoming, Handler, Binders, BindError, ServerInterface, ServerInterfaceWrapper, through,
  with_path, with_query, served,
}
use db2rest_bridge.Api.Mux.{ApiUrls, arrived}
use db2rest_bridge.Api.Operation.{
  Operation, backends, version, named, entities, items, creation, bulk, deletion, reading,
  existence, replacement, segments, call_of, named_args, list_args,
}
use db2rest_bridge.Api.Sent.{sent, address, Carries}
use db2rest_bridge.Api.Picked.{wrapped}
use db2rest_bridge.Api.Bound.{path_bound, entity_bound, item_bound, named_call, items_call}

module _ {F U B S A : Type 0} {urls : Urls U} {styles : Styles F} {binders : Binders F U}
    {path_of : U → String} {server base : String}
    (api : ApiUrls urls styles binders path_of server base) where
  open api use {var_bound, no_int, no_texts, no_filter, list_carried, named_carried}

  -- Where a path has led, the wrapper calls the method with the arguments.
  pub wrapped-call :
      (siw : ServerInterfaceWrapper F U B S A) (no_body : B) (op : Operation F B)
      → Carries api op
      → (let (h, vars) = wrapped binders siw op in
          let r = arrived no_body (sent api op) vars in
          h r ≡ through siw.handler_middlewares (call_of siw.handler op) r)
  unfolding call_of sent address Carries lookup segments Wrapper.list_backends
      Wrapper.get_version_info Wrapper.query_named Wrapper.list_entities Wrapper.list_items
      Wrapper.create_item Wrapper.bulk_update Wrapper.delete_item_by_id Wrapper.get_item_by_id
      Wrapper.exists_item_by_id Wrapper.update_item_by_id
  wrapped-call siw no_body backends c = refl
  wrapped-call siw no_body version c = refl
  wrapped-call siw no_body (named be name none) c =
      named_call api siw _ be name (named_args none) refl refl (no_int "page-offset" _)
        (no_int "page-size" _) (no_texts "arg" _)
  wrapped-call siw no_body (named be name (some p)) c =
      let (o, s, a) = named_carried p _ c in named_call api siw _ be name p refl refl o s a
  wrapped-call siw no_body (entities be) c =
      let r = arrived no_body (sent api (entities be)) (("backend", be) ∷ []) in
      path_bound api siw r "backend" be
        (λ b. served binders siw r (λ req. siw.handler.list_entities req b))
        (var_bound "backend" be)
  wrapped-call siw no_body (items be ent none) c =
      items_call api siw _ be ent (list_args none) refl refl (no_int "page-offset" _)
        (no_int "page-size" _) (no_texts "order[]" _) (no_filter "filter" _)
  wrapped-call siw no_body (items be ent (some p)) c =
      let (o, s, r, f) = list_carried p _ c in items_call api siw _ be ent p refl refl o s r f
  wrapped-call siw no_body (creation be ent ct b) c =
      let r =
        arrived no_body (sent api (creation be ent ct b))
          (("backend", be) ∷ ("entity", ent) ∷ []) in
      entity_bound api siw r be ent
        (λ b e. served binders siw r (λ req. siw.handler.create_item req b e)) refl refl
  wrapped-call siw no_body (bulk be ent ct b) c =
      let r =
        arrived no_body (sent api (bulk be ent ct b)) (("backend", be) ∷ ("entity", ent) ∷ []) in
      entity_bound api siw r be ent
        (λ b e. served binders siw r (λ req. siw.handler.bulk_update req b e)) refl refl
  wrapped-call siw no_body (deletion be ent id) c =
      let r =
        arrived no_body (sent api (deletion be ent id))
          (("backend", be) ∷ ("entity", ent) ∷ ("id", id) ∷ []) in
      item_bound api siw r be ent id
        (λ b e i. served binders siw r (λ req. siw.handler.delete_item_by_id req b e i)) refl refl
        refl
  wrapped-call siw no_body (reading be ent id) c =
      let r =
        arrived no_body (sent api (reading be ent id))
          (("backend", be) ∷ ("entity", ent) ∷ ("id", id) ∷ []) in
      item_bound api siw r be ent id
        (λ b e i. served binders siw r (λ req. siw.handler.get_item_by_id req b e i)) refl refl refl
  wrapped-call siw no_body (existence be ent id) c =
      let r =
        arrived no_body (sent api (existence be ent id))
          (("backend", be) ∷ ("entity", ent) ∷ ("id", id) ∷ []) in
      item_bound api siw r be ent id
        (λ b e i. served binders siw r (λ req. siw.handler.exists_item_by_id req b e i)) refl refl
        refl
  wrapped-call siw no_body (replacement be ent id ct b) c =
      let r =
        arrived no_body (sent api (replacement be ent id ct b))
          (("backend", be) ∷ ("entity", ent) ∷ ("id", id) ∷ []) in
      item_bound api siw r be ent id
        (λ b e i. served binders siw r (λ req. siw.handler.update_item_by_id req b e i)) refl refl
        refl
