-- ===== src/Server/Rest.antt =====
-- `restServer` (pkg/server/server.go) as the `ServerInterface` of pkg/api/gen.go.
use db2rest_bridge.Base.{String}
use db2rest_bridge.Base.Dict.{Dict}
use db2rest_bridge.Types.Errors.{Go}
use db2rest_bridge.Types.Config.{BackendConfig}
use db2rest_bridge.Query.Value.{Floats}
use db2rest_bridge.Crud.Driver.{Cells, pure}
use db2rest_bridge.Api.Types.{BulkUpdateRequest, VersionInfo}
use db2rest_bridge.Api.Wrapper.{ServerInterface}
use db2rest_bridge.Server.Reply.{Reply, send, version_info}
use db2rest_bridge.Server.Interface.{Interface}
use db2rest_bridge.Server.Handlers.{
  handle_backend, list_backends, list_entities, list_items, query_named, create_item,
  get_item_by_id, exists_item_by_id, update_item_by_id, delete_item_by_id,
}
use db2rest_bridge.Server.Bulk.{bulk_update}

-- `json.NewDecoder(request.Body).Decode`, at the types of the bodies
pub record Decoders (V B : Type 0) : Type 0 where
  pub decode_dto : B → Go (Dict V)
  pub decode_bulk : B → Go (BulkUpdateRequest V)

-- `GetVersionInfo`; the versions come from another package.
unfoldable pub get_version_info : {V : Type 0} → VersionInfo → Reply V
get_version_info version = send (version_info version) 200

pub record RestServer (V F S : Type 0) : Type 0 where
  pub backends : Dict BackendConfig
  pub crud_map : Dict (Interface V F S)

module _ {V F U B S : Type 0} ⦃fl : Floats F⦄ (cells : Cells V) (decoders : Decoders V B)
    (show : Dict V → String) (version : VersionInfo) where
  -- The methods of `restServer`: the backend is looked up, and its handler is called.
  unfoldable pub rest_server : RestServer V F S → ServerInterface F U B S (Reply V)
  unfolding handle_backend list_backends list_entities list_items query_named create_item
      get_item_by_id exists_item_by_id update_item_by_id delete_item_by_id bulk_update
      get_version_info
  rest_server rs = record {
    list_backends = λ r. pure (list_backends rs.backends);
    get_version_info = λ r. pure (get_version_info version);
    query_named = λ r backend name params.
        handle_backend rs.crud_map backend
          (query_named cells name params.page_offset params.page_size params.arg);
    list_entities = λ r backend. handle_backend rs.crud_map backend list_entities;
    list_items =
        λ r backend entity params. handle_backend rs.crud_map backend (list_items entity params);
    create_item = λ r backend entity.
        handle_backend rs.crud_map backend (create_item entity (decoders.decode_dto r.body));
    bulk_update = λ r backend entity.
        handle_backend rs.crud_map backend
          (bulk_update show rs.backends backend entity (decoders.decode_bulk r.body));
    delete_item_by_id =
        λ r backend entity id. handle_backend rs.crud_map backend (delete_item_by_id entity id);
    get_item_by_id =
        λ r backend entity id. handle_backend rs.crud_map backend (get_item_by_id entity id);
    exists_item_by_id =
        λ r backend entity id. handle_backend rs.crud_map backend (exists_item_by_id entity id);
    update_item_by_id = λ r backend entity id.
        handle_backend rs.crud_map backend
          (update_item_by_id entity id (decoders.decode_dto r.body));
  }
