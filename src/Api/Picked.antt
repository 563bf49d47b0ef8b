-- ===== src/Api/Picked.antt =====
-- The route of each operation (pkg/api/gen.go).
use db2rest_bridge.Base.{String, List, [], ◌∷◌, some, ◌≡◌, refl, All, arith, split_on}
use db2rest_bridge.Base.Dict.{Dict}
use db2rest_bridge.Base.Search.{cut_prefix}
use db2rest_bridge.Crud.Driver.{Db}
use db2rest_bridge.Api.Wrapper
use db2rest_bridge.Api.Wrapper.{
  Incoming, Handler, Binders, BindError, ServerInterface, ServerInterfaceWrapper, through,
  with_path, with_query, served,
}
use db2rest_bridge.Api.Routes.{operation_routes}
use db2rest_bridge.Api.Table.{Entry, routes_below, pick, HasSegments}
use db2rest_bridge.Api.Operation.{
  Operation, backends, version, named, entities, items, creation, bulk, deletion, reading,
  existence, replacement, segments, method, IsClear,
}

module _ {F U B S A : Type 0} (binders : Binders F U) (siw : ServerInterfaceWrapper F U B S A) where
  abbrev entry : String → List String → String → Handler U B S A → Entry (Handler U B S A)
  entry first more m h = record { first = first; more = more; method = m; handler = h }

  -- The table of the routes, by segments
  abbrev pub table : List (Entry (Handler U B S A))
  table =
      entry "backends" [] "GET" (Wrapper.list_backends binders siw)
      ∷ entry "{backend}" ("entities" ∷ []) "GET" (Wrapper.list_entities binders siw)
      ∷ entry "{backend}" ("_query" ∷ "{name}" ∷ []) "GET" (Wrapper.query_named binders siw)
      ∷ entry "{backend}" ("{entity}" ∷ []) "GET" (Wrapper.list_items binders siw)
      ∷ entry "{backend}" ("{entity}" ∷ []) "POST" (Wrapper.create_item binders siw)
      ∷ entry "{backend}" ("{entity}" ∷ "bulk" ∷ []) "POST" (Wrapper.bulk_update binders siw)
      ∷ entry "{backend}" ("{entity}" ∷ "{id}" ∷ []) "DELETE"
          (Wrapper.delete_item_by_id binders siw)
      ∷ entry "{backend}" ("{entity}" ∷ "{id}" ∷ []) "GET" (Wrapper.get_item_by_id binders siw)
      ∷ entry "{backend}" ("{entity}" ∷ "{id}" ∷ []) "HEAD" (Wrapper.exists_item_by_id binders siw)
      ∷ entry "{backend}" ("{entity}" ∷ "{id}" ∷ []) "PUT" (Wrapper.update_item_by_id binders siw)
      ∷ entry "version" [] "GET" (Wrapper.get_version_info binders siw)
      ∷ []

  pub routes_table :
      (http_error : String → Db S A) (base : String)
      → operation_routes binders http_error siw base ≡ routes_below base table
  unfolding operation_routes
  routes_table http_error base = refl

  pub table_segments : All HasSegments table
  table_segments = ground arith

  -- The method of the wrapper for an operation, and the variables that its path gives
  abbrev pub wrapped : Operation F B → Handler U B S A × Dict String
  wrapped backends = (Wrapper.list_backends binders siw, [])
  wrapped version = (Wrapper.get_version_info binders siw, [])
  wrapped (named be name p) =
      (Wrapper.query_named binders siw, ("backend", be) ∷ ("name", name) ∷ [])
  wrapped (entities be) = (Wrapper.list_entities binders siw, ("backend", be) ∷ [])
  wrapped (items be ent p) =
      (Wrapper.list_items binders siw, ("backend", be) ∷ ("entity", ent) ∷ [])
  wrapped (creation be ent ct b) =
      (Wrapper.create_item binders siw, ("backend", be) ∷ ("entity", ent) ∷ [])
  wrapped (bulk be ent ct b) =
      (Wrapper.bulk_update binders siw, ("backend", be) ∷ ("entity", ent) ∷ [])
  wrapped (deletion be ent id) =
      (Wrapper.delete_item_by_id binders siw, ("backend", be) ∷ ("entity", ent) ∷ ("id", id) ∷ [])
  wrapped (reading be ent id) =
      (Wrapper.get_item_by_id binders siw, ("backend", be) ∷ ("entity", ent) ∷ ("id", id) ∷ [])
  wrapped (existence be ent id) =
      (Wrapper.exists_item_by_id binders siw, ("backend", be) ∷ ("entity", ent) ∷ ("id", id) ∷ [])
  wrapped (replacement be ent id ct b) =
      (Wrapper.update_item_by_id binders siw, ("backend", be) ∷ ("entity", ent) ∷ ("id", id) ∷ [])

  -- Among the routes, that of an operation is found.
  pub pick-wrapped :
      (op : Operation F B) → IsClear op → pick table (method op) (segments op) ≡ some (wrapped op)
  unfolding method segments IsClear cut_prefix split_on
  pick-wrapped backends h = refl
  pick-wrapped version h = refl
  pick-wrapped (named be name p) (b, (n, u)) = rw (n.0) (rw (b.0) refl)
  pick-wrapped (entities be) h = rw (h.0) refl
  pick-wrapped (items be ent p) ((b, (e, u)), other) = rw other (rw (e.0) (rw (b.0) refl))
  pick-wrapped (creation be ent ct body) (b, (e, u)) = rw (e.0) (rw (b.0) refl)
  pick-wrapped (bulk be ent ct body) (b, (e, u)) = rw (e.0) (rw (b.0) refl)
  pick-wrapped (deletion be ent id) (b, (e, (i, u))) = rw (i.0) (rw (e.0) (rw (b.0) refl))
  pick-wrapped (reading be ent id) ((b, (e, (i, u))), other) =
      rw (i.0) (rw other (rw (e.0) (rw (b.0) refl)))
  pick-wrapped (existence be ent id) (b, (e, (i, u))) = rw (i.0) (rw (e.0) (rw (b.0) refl))
  pick-wrapped (replacement be ent id ct body) (b, (e, (i, u))) =
      rw (i.0) (rw (e.0) (rw (b.0) refl))
