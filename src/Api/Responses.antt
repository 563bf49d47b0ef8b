-- ===== src/Api/Responses.antt =====
-- The parsed responses of pkg/api/gen.go. A field is what the getter of its name returns; an
-- `ErrorObject` is its message.
use db2rest_bridge.Base.{
  ℕ, ◌==◌, String, Bool, List, Option, none, some, ok, ◌>>=◌, if◌then◌else◌, ◌&&◌,
}
use db2rest_bridge.Base.Search.{contains}
use db2rest_bridge.Base.Dict.{Dict}
use db2rest_bridge.Types.Errors.{Go}
use db2rest_bridge.Api.Types.{PagedResult, VersionInfo}
use db2rest_bridge.Api.Wire.{Json, Response}

pub record ListBackendsResponse (B : Type 0) : Type 0 where
  pub body : B
  pub http_response : Option (Response B)
  pub json200 : Option (List String)

pub record GetVersionInfoResponse (B : Type 0) : Type 0 where
  pub body : B
  pub http_response : Option (Response B)
  pub json200 : Option VersionInfo

pub record QueryNamedResponse (V B : Type 0) : Type 0 where
  pub body : B
  pub http_response : Option (Response B)
  pub json200 : Option (PagedResult V)
  pub json404 : Option String

pub record ListEntitiesResponse (B : Type 0) : Type 0 where
  pub body : B
  pub http_response : Option (Response B)
  pub json200 : Option (List String)

pub record ListItemsResponse (V B : Type 0) : Type 0 where
  pub body : B
  pub http_response : Option (Response B)
  pub json200 : Option (PagedResult V)

pub record CreateItemResponse (V B : Type 0) : Type 0 where
  pub body : B
  pub http_response : Option (Response B)
  pub json201 : Option (Dict V)
  pub json500 : Option String

pub record BulkUpdateResponse (B : Type 0) : Type 0 where
  pub body : B
  pub http_response : Option (Response B)

pub record DeleteItemByIdResponse (B : Type 0) : Type 0 where
  pub body : B
  pub http_response : Option (Response B)

pub record GetItemByIdResponse (V B : Type 0) : Type 0 where
  pub body : B
  pub http_response : Option (Response B)
  pub json200 : Option (Dict V)
  pub json404 : Option String

pub record ExistsItemByIdResponse (B : Type 0) : Type 0 where
  pub body : B
  pub http_response : Option (Response B)

pub record UpdateItemByIdResponse (V B : Type 0) : Type 0 where
  pub body : B
  pub http_response : Option (Response B)
  pub json202 : Option (Dict V)
  pub json404 : Option String

-- The methods `StatusCode` and `ContentType` of every parsed response
unfoldable pub status_code_of : {B : Type 0} → Option (Response B) → ℕ
status_code_of none = 0
status_code_of (some r) = r.status_code

unfoldable content_type_of : {B : Type 0} → Option (Response B) → String
content_type_of none = ""
content_type_of (some r) = r.content_type

-- The test of a case that wants JSON
abbrev json_with : {B : Type 0} → Response B → ℕ → Bool
json_with rsp code = contains rsp.content_type "json" && rsp.status_code == code

module _ {V B : Type 0} (json : Json V B) (rsp : Response B) where
  unfoldable pub parse_list_backends_response : Go (ListBackendsResponse B)
  unfolding contains
  parse_list_backends_response = do
    body ← rsp.body
    let response : ListBackendsResponse B = record {
      body = body;
      http_response = some rsp;
      json200 = none;
    }
    if json_with rsp 200
        then json.unmarshal_names body >>= (λ dest. ok (record response { json200 = some dest }))
        else ok response

  unfoldable pub parse_get_version_info_response : Go (GetVersionInfoResponse B)
  unfolding contains
  parse_get_version_info_response = do
    body ← rsp.body
    let response : GetVersionInfoResponse B = record {
      body = body;
      http_response = some rsp;
      json200 = none;
    }
    if json_with rsp 200
        then json.unmarshal_version body >>= (λ dest. ok (record response { json200 = some dest }))
        else ok response

  unfoldable pub parse_query_named_response : Go (QueryNamedResponse V B)
  unfolding contains
  parse_query_named_response = do
    body ← rsp.body
    let response : QueryNamedResponse V B = record {
      body = body;
      http_response = some rsp;
      json200 = none;
      json404 = none;
    }
    if json_with rsp 200
        then json.unmarshal_page body >>= (λ dest. ok (record response { json200 = some dest }))
        else if json_with rsp 404
        then json.unmarshal_error body >>= (λ dest. ok (record response { json404 = some dest }))
        else ok response

  unfoldable pub parse_list_entities_response : Go (ListEntitiesResponse B)
  unfolding contains
  parse_list_entities_response = do
    body ← rsp.body
    let response : ListEntitiesResponse B = record {
      body = body;
      http_response = some rsp;
      json200 = none;
    }
    if json_with rsp 200
        then json.unmarshal_names body >>= (λ dest. ok (record response { json200 = some dest }))
        else ok response

  unfoldable pub parse_list_items_response : Go (ListItemsResponse V B)
  unfolding contains
  parse_list_items_response = do
    body ← rsp.body
    let response : ListItemsResponse V B = record {
      body = body;
      http_response = some rsp;
      json200 = none;
    }
    if json_with rsp 200
        then json.unmarshal_page body >>= (λ dest. ok (record response { json200 = some dest }))
        else ok response

  unfoldable pub parse_create_item_response : Go (CreateItemResponse V B)
  unfolding contains
  parse_create_item_response = do
    body ← rsp.body
    let response : CreateItemResponse V B = record {
      body = body;
      http_response = some rsp;
      json201 = none;
      json500 = none;
    }
    if json_with rsp 201
        then json.unmarshal_dto body >>= (λ dest. ok (record response { json201 = some dest }))
        else if rsp.status_code == 405
        then ok response
        else if json_with rsp 500
        then json.unmarshal_error body >>= (λ dest. ok (record response { json500 = some dest }))
        else ok response

  unfoldable pub parse_get_item_by_id_response : Go (GetItemByIdResponse V B)
  unfolding contains
  parse_get_item_by_id_response = do
    body ← rsp.body
    let response : GetItemByIdResponse V B = record {
      body = body;
      http_response = some rsp;
      json200 = none;
      json404 = none;
    }
    if json_with rsp 200
        then json.unmarshal_dto body >>= (λ dest. ok (record response { json200 = some dest }))
        else if json_with rsp 404
        then json.unmarshal_error body >>= (λ dest. ok (record response { json404 = some dest }))
        else if rsp.status_code == 405
        then ok response
        else ok response

  unfoldable pub parse_update_item_by_id_response : Go (UpdateItemByIdResponse V B)
  unfolding contains
  parse_update_item_by_id_response = do
    body ← rsp.body
    let response : UpdateItemByIdResponse V B = record {
      body = body;
      http_response = some rsp;
      json202 = none;
      json404 = none;
    }
    if json_with rsp 202
        then json.unmarshal_dto body >>= (λ dest. ok (record response { json202 = some dest }))
        else if json_with rsp 404
        then json.unmarshal_error body >>= (λ dest. ok (record response { json404 = some dest }))
        else if rsp.status_code == 405
        then ok response
        else ok response

module _ {B : Type 0} (rsp : Response B) where
  unfoldable pub parse_bulk_update_response : Go (BulkUpdateResponse B)
  parse_bulk_update_response = do
    body ← rsp.body
    ok (record { body = body; http_response = some rsp })

  unfoldable pub parse_delete_item_by_id_response : Go (DeleteItemByIdResponse B)
  parse_delete_item_by_id_response = do
    body ← rsp.body
    ok (record { body = body; http_response = some rsp })

  unfoldable pub parse_exists_item_by_id_response : Go (ExistsItemByIdResponse B)
  parse_exists_item_by_id_response = do
    body ← rsp.body
    ok (record { body = body; http_response = some rsp })
