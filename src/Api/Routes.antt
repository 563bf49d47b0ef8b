-- ===== src/Api/Routes.antt =====
-- `HandlerWithOptions` of pkg/api/gen.go: the table of routes, and how it is served.
use db2rest_bridge.Base.{String, List, [], ◌∷◌, ◌++◌, Option, none, some, ◌<>◌}
use db2rest_bridge.Crud.Driver.{Db}
use db2rest_bridge.Api.Wrapper.{
  Incoming, Handler, Middleware, Binders, ParamError, ServerInterface, ServerInterfaceWrapper,
  param_error_text, list_backends, list_entities, query_named, list_items, create_item, bulk_update,
  delete_item_by_id, get_item_by_id, exists_item_by_id, update_item_by_id, get_version_info,
}

-- One `HandleFunc` with its `Methods`; without, any method will do.
pub record Route (H : Type 0) : Type 0 where
  pub template : String
  pub methods : Option String
  pub handler : H

-- `GorillaServerOptions`; the base router is the list of the routes that it has.
pub record GorillaServerOptions (U B S A : Type 0) : Type 0 where
  pub base_url : String
  pub base_router : Option (List (Route (Handler U B S A)))
  pub middlewares : List (Middleware U B S A)
  pub error_handler_func : Option (Incoming U B → ParamError → Db S A)

abbrev pub routed : {H : Type 0} → String → String → H → Route H
routed template method handler = record {
  template = template;
  methods = some method;
  handler = handler;
}

abbrev pub router_or_new : {H : Type 0} → Option (List (Route H)) → List (Route H)
router_or_new none = []
router_or_new (some r) = r

module _ {F U B S A : Type 0} (binders : Binders F U) (http_error : String → Db S A) where
  -- The default answers with `http.Error` and the status 400.
  abbrev error_handler_or_default :
      Option (Incoming U B → ParamError → Db S A) → Incoming U B → ParamError → Db S A
  error_handler_or_default none r e = http_error (param_error_text e)
  error_handler_or_default (some f) r e = f r e

  abbrev pub wrapper_with :
      ServerInterface F U B S A → GorillaServerOptions U B S A → ServerInterfaceWrapper F U B S A
  wrapper_with si options = record {
    handler = si;
    handler_middlewares = options.middlewares;
    error_handler_func = error_handler_or_default options.error_handler_func;
  }

  -- The routes of the operations, in the order in which they are added
  unfoldable pub operation_routes :
      ServerInterfaceWrapper F U B S A → String → List (Route (Handler U B S A))
  unfolding list_backends list_entities query_named list_items create_item bulk_update
      delete_item_by_id get_item_by_id exists_item_by_id update_item_by_id get_version_info
  operation_routes wrapper base_url =
      routed (base_url <> "/backends") "GET" (list_backends binders wrapper)
      ∷ routed (base_url <> "/{backend}/entities") "GET" (list_entities binders wrapper)
      ∷ routed (base_url <> "/{backend}/_query/{name}") "GET" (query_named binders wrapper)
      ∷ routed (base_url <> "/{backend}/{entity}") "GET" (list_items binders wrapper)
      ∷ routed (base_url <> "/{backend}/{entity}") "POST" (create_item binders wrapper)
      ∷ routed (base_url <> "/{backend}/{entity}/bulk") "POST" (bulk_update binders wrapper)
      ∷ routed (base_url <> "/{backend}/{entity}/{id}") "DELETE" (delete_item_by_id binders wrapper)
      ∷ routed (base_url <> "/{backend}/{entity}/{id}") "GET" (get_item_by_id binders wrapper)
      ∷ routed (base_url <> "/{backend}/{entity}/{id}") "HEAD" (exists_item_by_id binders wrapper)
      ∷ routed (base_url <> "/{backend}/{entity}/{id}") "PUT" (update_item_by_id binders wrapper)
      ∷ routed (base_url <> "/version") "GET" (get_version_info binders wrapper)
      ∷ []

  unfoldable pub handler_with_options :
      ServerInterface F U B S A → GorillaServerOptions U B S A → List (Route (Handler U B S A))
  unfolding operation_routes param_error_text
  handler_with_options si options =
      router_or_new options.base_router
      ++ operation_routes (wrapper_with si options) options.base_url

  unfoldable pub handler : ServerInterface F U B S A → List (Route (Handler U B S A))
  unfolding handler_with_options
  handler si =
      handler_with_options si
        (record { base_url = ""; base_router = none; middlewares = []; error_handler_func = none })

  unfoldable handler_from_mux_with_base_url :
      ServerInterface F U B S A
      → List (Route (Handler U B S A))
      → String
      → List (Route (Handler U B S A))
  unfolding handler_with_options
  handler_from_mux_with_base_url si r base_url = handler_with_options si (record {
    base_url = base_url;
    base_router = some r;
    middlewares = [];
    error_handler_func = none;
  })

  unfoldable handler_from_mux :
      ServerInterface F U B S A → List (Route (Handler U B S A)) → List (Route (Handler U B S A))
  unfolding handler_with_options
  handler_from_mux si r =
      handler_with_options si (record {
        base_url = "";
        base_router = some r;
        middlewares = [];
        error_handler_func = none;
      })
