-- ===== src/Api/Requests.antt =====
-- The constructors of requests (pkg/api/gen.go), one for each operation.
use db2rest_bridge.Base.{
  String, List, [], ◌∷◌, ◌++◌, Option, none, some, ok, ◌>>=◌, ◌<>◌, join, split_on, str_eq,
  if◌then◌else◌,
}
use db2rest_bridge.Base.Dict.{Dict}
use db2rest_bridge.Types.Errors.{Go}
use db2rest_bridge.Query.Params.{ListItemsParams}
use db2rest_bridge.Api.Types.{BulkUpdateRequest, QueryNamedParams}
use db2rest_bridge.Api.Wire.{Urls, Styles, Json, Request}

abbrev pub no_query : {U : Type 0} → U → Go U
no_query u = ok u

-- An optional parameter of the query, styled and split at the ampersands
abbrev pub fragments_of : {A : Type 0} → (A → Go String) → Option A → Go (List String)
fragments_of style none = ok []
fragments_of style (some a) = do frag ← style a; ok (split_on b'&' frag)

-- The fragments, and after them what the URL had for a query
abbrev append_encoded : String → List String → List String
append_encoded encoded frags = if str_eq encoded "" then frags else frags ++ encoded ∷ []

abbrev pub with_fragments : {U : Type 0} → Urls U → List String → U → Go U
with_fragments urls frags u =
    ok (urls.set_raw_query (join "&" (append_encoded (urls.encoded_query u) frags)) u)

-- The steps that all constructors end with: the server's URL, the path of the operation made relative,
-- the URL that both give, a change of that URL, and the request.
abbrev pub request_to :
    {U B : Type 0}
    → Urls U
    → String
    → String
    → String
    → (U → Go U)
    → Option String
    → Option B
    → Go (Request U B)
request_to urls method server operation_path with_query content_type body = do
  server_url ← urls.parse server
  query_url ← urls.resolve server_url ("." <> operation_path)
  url ← with_query query_url
  made ← urls.new_request method url
  ok (record { method = method; url = url; content_type = content_type; body = body })

unfoldable pub new_list_backends_request : {U B : Type 0} → Urls U → String → Go (Request U B)
new_list_backends_request urls server = request_to urls "GET" server "/backends" no_query none none

unfoldable pub new_get_version_info_request : {U B : Type 0} → Urls U → String → Go (Request U B)
new_get_version_info_request urls server =
    request_to urls "GET" server "/version" no_query none none

module _ {F U : Type 0} (urls : Urls U) (styles : Styles F) where
  open styles use {style_path, style_int, style_texts, style_filter}

  abbrev pub named_params : Option QueryNamedParams → U → Go U
  named_params none u = ok u
  named_params (some p) u = do
    offset ← fragments_of (style_int "page-offset") p.page_offset
    size ← fragments_of (style_int "page-size") p.page_size
    args ← fragments_of (style_texts "arg") p.arg
    with_fragments urls (offset ++ size ++ args) u

  unfoldable pub new_query_named_request :
      {B : Type 0} → String → String → String → Option QueryNamedParams → Go (Request U B)
  unfolding split_on
  new_query_named_request server backend name params = do
    path_param_0 ← style_path "backend" backend
    path_param_1 ← style_path "name" name
    request_to urls "GET" server ("/" <> path_param_0 <> "/_query/" <> path_param_1)
        (named_params params) none none

  unfoldable pub new_list_entities_request : {B : Type 0} → String → String → Go (Request U B)
  new_list_entities_request server backend = do
    path_param_0 ← style_path "backend" backend
    request_to urls "GET" server ("/" <> path_param_0 <> "/entities") no_query none none

  abbrev pub list_params : Option (ListItemsParams F) → U → Go U
  list_params none u = ok u
  list_params (some p) u = do
    offset ← fragments_of (style_int "page-offset") p.page_offset
    size ← fragments_of (style_int "page-size") p.page_size
    order ← fragments_of (style_texts "order[]") p.order
    filter ← fragments_of (style_filter "filter") p.filter
    with_fragments urls (offset ++ size ++ order ++ filter) u

  -- The path with two parameters
  abbrev pub entity_path : String → String → Go String
  entity_path backend entity = do
    path_param_0 ← style_path "backend" backend
    path_param_1 ← style_path "entity" entity
    ok ("/" <> path_param_0 <> "/" <> path_param_1)

  -- The path with three
  abbrev pub item_path : String → String → String → Go String
  item_path backend entity id = do
    path_param_0 ← style_path "backend" backend
    path_param_1 ← style_path "entity" entity
    path_param_2 ← style_path "id" id
    ok ("/" <> path_param_0 <> "/" <> path_param_1 <> "/" <> path_param_2)

  unfoldable pub new_list_items_request :
      {B : Type 0} → String → String → String → Option (ListItemsParams F) → Go (Request U B)
  unfolding split_on
  new_list_items_request server backend entity params = do
    path ← entity_path backend entity
    request_to urls "GET" server path (list_params params) none none

  unfoldable pub new_create_item_request_with_body :
      {B : Type 0} → String → String → String → String → B → Go (Request U B)
  new_create_item_request_with_body server backend entity content_type body = do
    path ← entity_path backend entity
    request_to urls "POST" server path no_query (some content_type) (some body)

  unfoldable pub new_create_item_request :
      {V B : Type 0} → Json V B → String → String → String → Dict V → Go (Request U B)
  unfolding new_create_item_request_with_body
  new_create_item_request json server backend entity body = do
    buf ← json.marshal_dto body
    new_create_item_request_with_body server backend entity "application/json" buf

  unfoldable pub new_bulk_update_request_with_body :
      {B : Type 0} → String → String → String → String → B → Go (Request U B)
  new_bulk_update_request_with_body server backend entity content_type body = do
    path ← entity_path backend entity
    request_to urls "POST" server (path <> "/bulk") no_query (some content_type) (some body)

  unfoldable pub new_bulk_update_request :
      {V B : Type 0} → Json V B → String → String → String → BulkUpdateRequest V → Go (Request U B)
  unfolding new_bulk_update_request_with_body
  new_bulk_update_request json server backend entity body = do
    buf ← json.marshal_bulk body
    new_bulk_update_request_with_body server backend entity "application/json" buf

  unfoldable pub new_delete_item_by_id_request :
      {B : Type 0} → String → String → String → String → Go (Request U B)
  new_delete_item_by_id_request server backend entity id = do
    path ← item_path backend entity id
    request_to urls "DELETE" server path no_query none none

  unfoldable pub new_get_item_by_id_request :
      {B : Type 0} → String → String → String → String → Go (Request U B)
  new_get_item_by_id_request server backend entity id = do
    path ← item_path backend entity id
    request_to urls "GET" server path no_query none none

  unfoldable pub new_exists_item_by_id_request :
      {B : Type 0} → String → String → String → String → Go (Request U B)
  new_exists_item_by_id_request server backend entity id = do
    path ← item_path backend entity id
    request_to urls "HEAD" server path no_query none none

  unfoldable pub new_update_item_by_id_request_with_body :
      {B : Type 0} → String → String → String → String → String → B → Go (Request U B)
  new_update_item_by_id_request_with_body server backend entity id content_type body = do
    path ← item_path backend entity id
    request_to urls "PUT" server path no_query (some content_type) (some body)

  unfoldable pub new_update_item_by_id_request :
      {V B : Type 0} → Json V B → String → String → String → String → Dict V → Go (Request U B)
  unfolding new_update_item_by_id_request_with_body
  new_update_item_by_id_request json server backend entity id body = do
    buf ← json.marshal_dto body
    new_update_item_by_id_request_with_body server backend entity id "application/json" buf
