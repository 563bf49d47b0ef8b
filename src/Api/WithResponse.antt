-- ===== src/Api/WithResponse.antt =====
-- `ClientWithResponses` of pkg/api/gen.go: each call, and the parsing of its response.
use db2rest_bridge.Base.{String, List, Option}
use db2rest_bridge.Base.Dict.{Dict}
use db2rest_bridge.Query.Params.{ListItemsParams}
use db2rest_bridge.Crud.Driver.{Db, lift, ◌>>=◌}
use db2rest_bridge.Api.Types.{BulkUpdateRequest, QueryNamedParams}
use db2rest_bridge.Api.Wire.{Urls, Styles, Json, RequestEditor}
use db2rest_bridge.Api.Responses.{
  ListBackendsResponse, parse_list_backends_response, GetVersionInfoResponse,
  parse_get_version_info_response, QueryNamedResponse, parse_query_named_response,
  ListEntitiesResponse, parse_list_entities_response, ListItemsResponse, parse_list_items_response,
  CreateItemResponse, parse_create_item_response, BulkUpdateResponse, parse_bulk_update_response,
  DeleteItemByIdResponse, parse_delete_item_by_id_response, GetItemByIdResponse,
  parse_get_item_by_id_response, ExistsItemByIdResponse, parse_exists_item_by_id_response,
  UpdateItemByIdResponse, parse_update_item_by_id_response,
}
use db2rest_bridge.Api.Calls.{
  Client, list_backends, get_version_info, query_named, list_entities, list_items,
  create_item_with_body, create_item, bulk_update_with_body, bulk_update, delete_item_by_id,
  get_item_by_id, exists_item_by_id, update_item_by_id_with_body, update_item_by_id,
}

module _ {F U V B S : Type 0} (urls : Urls U) (styles : Styles F) (json : Json V B)
    (c : Client U B S) (editors : List (RequestEditor U B S)) where
  unfoldable list_backends_with_response : Db S (ListBackendsResponse B)
  unfolding list_backends parse_list_backends_response
  list_backends_with_response =
      list_backends urls c editors >>= λ rsp. lift (parse_list_backends_response json rsp)

  unfoldable get_version_info_with_response : Db S (GetVersionInfoResponse B)
  unfolding get_version_info parse_get_version_info_response
  get_version_info_with_response =
      get_version_info urls c editors >>= λ rsp. lift (parse_get_version_info_response json rsp)

  unfoldable pub query_named_with_response :
      String → String → Option QueryNamedParams → Db S (QueryNamedResponse V B)
  unfolding query_named parse_query_named_response
  query_named_with_response backend name params =
      query_named urls styles c editors backend name params >>= λ rsp.
      lift (parse_query_named_response json rsp)

  unfoldable list_entities_with_response : String → Db S (ListEntitiesResponse B)
  unfolding list_entities parse_list_entities_response
  list_entities_with_response backend = list_entities urls styles c editors backend >>= λ rsp.
      lift (parse_list_entities_response json rsp)

  unfoldable pub list_items_with_response :
      String → String → Option (ListItemsParams F) → Db S (ListItemsResponse V B)
  unfolding list_items parse_list_items_response
  list_items_with_response backend entity params =
      list_items urls styles c editors backend entity params >>= λ rsp.
      lift (parse_list_items_response json rsp)

  unfoldable create_item_with_body_with_response :
      String → String → String → B → Db S (CreateItemResponse V B)
  unfolding create_item_with_body parse_create_item_response
  create_item_with_body_with_response backend entity content_type body =
      create_item_with_body urls styles c editors backend entity content_type body >>= λ rsp.
      lift (parse_create_item_response json rsp)

  unfoldable pub create_item_with_response :
      String → String → Dict V → Db S (CreateItemResponse V B)
  unfolding create_item parse_create_item_response
  create_item_with_response backend entity body =
      create_item urls styles json c editors backend entity body >>= λ rsp.
      lift (parse_create_item_response json rsp)

  unfoldable bulk_update_with_body_with_response :
      String → String → String → B → Db S (BulkUpdateResponse B)
  unfolding bulk_update_with_body parse_bulk_update_response
  bulk_update_with_body_with_response backend entity content_type body =
      bulk_update_with_body urls styles c editors backend entity content_type body >>= λ rsp.
      lift (parse_bulk_update_response rsp)

  unfoldable pub bulk_update_with_response :
      String → String → BulkUpdateRequest V → Db S (BulkUpdateResponse B)
  unfolding bulk_update parse_bulk_update_response
  bulk_update_with_response backend entity body =
      bulk_update urls styles json c editors backend entity body >>= λ rsp.
      lift (parse_bulk_update_response rsp)

  unfoldable pub delete_item_by_id_with_response :
      String → String → String → Db S (DeleteItemByIdResponse B)
  unfolding delete_item_by_id parse_delete_item_by_id_response
  delete_item_by_id_with_response backend entity id =
      delete_item_by_id urls styles c editors backend entity id >>= λ rsp.
      lift (parse_delete_item_by_id_response rsp)

  unfoldable pub get_item_by_id_with_response :
      String → String → String → Db S (GetItemByIdResponse V B)
  unfolding get_item_by_id parse_get_item_by_id_response
  get_item_by_id_with_response backend entity id =
      get_item_by_id urls styles c editors backend entity id >>= λ rsp.
      lift (parse_get_item_by_id_response json rsp)

  unfoldable exists_item_by_id_with_response :
      String → String → String → Db S (ExistsItemByIdResponse B)
  unfolding exists_item_by_id parse_exists_item_by_id_response
  exists_item_by_id_with_response backend entity id =
      exists_item_by_id urls styles c editors backend entity id >>= λ rsp.
      lift (parse_exists_item_by_id_response rsp)

  unfoldable update_item_by_id_with_body_with_response :
      String → String → String → String → B → Db S (UpdateItemByIdResponse V B)
  unfolding update_item_by_id_with_body parse_update_item_by_id_response
  update_item_by_id_with_body_with_response backend entity id content_type body =
      update_item_by_id_with_body urls styles c editors backend entity id content_type body
      >>= λ rsp. lift (parse_update_item_by_id_response json rsp)

  unfoldable pub update_item_by_id_with_response :
      String → String → String → Dict V → Db S (UpdateItemByIdResponse V B)
  unfolding update_item_by_id parse_update_item_by_id_response
  update_item_by_id_with_response backend entity id body =
      update_item_by_id urls styles json c editors backend entity id body >>= λ rsp.
      lift (parse_update_item_by_id_response json rsp)
