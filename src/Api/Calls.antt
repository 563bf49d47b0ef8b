-- ===== src/Api/Calls.antt =====
-- `Client` of pkg/api/gen.go: its options, and one method for each operation.
use db2rest_bridge.Base.{
  String, List, [], ◌∷◌, ◌++◌, Option, none, some, ok, panic, ◌<>◌, if◌then◌else◌,
}
use db2rest_bridge.Base.Results
use db2rest_bridge.Base.Dict.{Dict}
use db2rest_bridge.Base.Search.{has_suffix}
use db2rest_bridge.Types.Errors.{Go}
use db2rest_bridge.Query.Params.{ListItemsParams}
use db2rest_bridge.Crud.Driver.{Db, pure, lift, ◌>>=◌}
use db2rest_bridge.Api.Types.{BulkUpdateRequest, QueryNamedParams}
use db2rest_bridge.Api.Wire.{Urls, Styles, Json, Request, Response, RequestEditor}
use db2rest_bridge.Api.Requests.{
  new_list_backends_request, new_get_version_info_request, new_query_named_request,
  new_list_entities_request, new_list_items_request, new_create_item_request,
  new_create_item_request_with_body, new_bulk_update_request, new_bulk_update_request_with_body,
  new_delete_item_by_id_request, new_get_item_by_id_request, new_exists_item_by_id_request,
  new_update_item_by_id_request, new_update_item_by_id_request_with_body,
}

-- `HttpRequestDoer`
abbrev pub Doer : Type 0 → Type 0 → Type 0 → Type 0
Doer U B S = Request U B → Db S (Response B)

pub record Client (U B S : Type 0) : Type 0 where
  pub server : String
  pub client : Option (Doer U B S)
  pub request_editors : List (RequestEditor U B S)

abbrev pub ClientOption : Type 0 → Type 0 → Type 0 → Type 0
ClientOption U B S = Client U B S → Go (Client U B S)

unfoldable with_http_client : {U B S : Type 0} → Doer U B S → ClientOption U B S
with_http_client doer c = ok (record c { client = some doer })

unfoldable with_request_editor_fn : {U B S : Type 0} → RequestEditor U B S → ClientOption U B S
with_request_editor_fn fn c = ok (record c { request_editors = c.request_editors ++ fn ∷ [] })

-- `url_text` is the method `String` of a URL.
unfoldable with_base_url : {U B S : Type 0} → Urls U → (U → String) → String → ClientOption U B S
with_base_url urls url_text base c =
    Results.◌>>=◌ (urls.parse base) λ u. ok (record c { server = url_text u })

unfoldable apply_options :
    {U B S : Type 0} → List (ClientOption U B S) → Client U B S → Go (Client U B S)
apply_options [] c = ok c
apply_options (o ∷ os) c = Results.◌>>=◌ (o c) (apply_options os)

abbrev with_slash : String → String
with_slash s = if has_suffix s "/" then s else s <> "/"

abbrev or_doer {ℓ} : {D : Type ℓ} → Option D → D → Option D
or_doer none d = some d
or_doer (some c) d = some c

-- `NewClient`; `http_client` is what `&http.Client{}` does.
unfoldable pub new_client :
    {U B S : Type 0} → Doer U B S → String → List (ClientOption U B S) → Go (Client U B S)
unfolding apply_options has_suffix
new_client http_client server opts =
    Results.◌>>=◌
      (apply_options opts (record { server = server; client = none; request_editors = [] }))
      λ c. ok (record c { server = with_slash c.server; client = or_doer c.client http_client })

-- `applyEditors`, for one of its two lists
unfoldable pub apply_each :
    {U B S : Type 0} → List (RequestEditor U B S) → Request U B → Db S (Request U B)
apply_each [] req = pure req
apply_each (r ∷ rs) req = r req >>= apply_each rs

unfoldable pub apply_editors :
    {U B S : Type 0} → Client U B S → List (RequestEditor U B S) → Request U B → Db S (Request U B)
unfolding apply_each
apply_editors c additional req = apply_each c.request_editors req >>= apply_each additional

-- The doer of a client that has none is a nil interface.
abbrev pub do_request : {U B S : Type 0} → Option (Doer U B S) → Doer U B S
do_request none req = lift panic
do_request (some d) req = d req

-- What every method does with the request that it has made.
unfoldable pub perform :
    {U B S : Type 0}
    → Client U B S
    → List (RequestEditor U B S)
    → Go (Request U B)
    → Db S (Response B)
unfolding apply_editors
perform c editors made = lift made >>= apply_editors c editors >>= do_request c.client

module _ {F U : Type 0} (urls : Urls U) (styles : Styles F) where
  module _ {B S : Type 0} (c : Client U B S) (editors : List (RequestEditor U B S)) where
    unfoldable pub query_named : String → String → Option QueryNamedParams → Db S (Response B)
    unfolding perform new_query_named_request
    query_named backend name params =
        perform c editors (new_query_named_request urls styles c.server backend name params)

    unfoldable pub list_entities : String → Db S (Response B)
    unfolding perform new_list_entities_request
    list_entities backend =
        perform c editors (new_list_entities_request urls styles c.server backend)

    unfoldable pub list_items : String → String → Option (ListItemsParams F) → Db S (Response B)
    unfolding perform new_list_items_request
    list_items backend entity params =
        perform c editors (new_list_items_request urls styles c.server backend entity params)

    unfoldable pub create_item_with_body : String → String → String → B → Db S (Response B)
    unfolding perform new_create_item_request_with_body
    create_item_with_body backend entity content_type body =
        perform c editors
          (new_create_item_request_with_body urls styles c.server backend entity content_type body)

    unfoldable pub bulk_update_with_body : String → String → String → B → Db S (Response B)
    unfolding perform new_bulk_update_request_with_body
    bulk_update_with_body backend entity content_type body =
        perform c editors
          (new_bulk_update_request_with_body urls styles c.server backend entity content_type body)

    unfoldable pub delete_item_by_id : String → String → String → Db S (Response B)
    unfolding perform new_delete_item_by_id_request
    delete_item_by_id backend entity id =
        perform c editors (new_delete_item_by_id_request urls styles c.server backend entity id)

    unfoldable pub get_item_by_id : String → String → String → Db S (Response B)
    unfolding perform new_get_item_by_id_request
    get_item_by_id backend entity id =
        perform c editors (new_get_item_by_id_request urls styles c.server backend entity id)

    unfoldable pub exists_item_by_id : String → String → String → Db S (Response B)
    unfolding perform new_exists_item_by_id_request
    exists_item_by_id backend entity id =
        perform c editors (new_exists_item_by_id_request urls styles c.server backend entity id)

    unfoldable pub update_item_by_id_with_body :
        String → String → String → String → B → Db S (Response B)
    unfolding perform new_update_item_by_id_request_with_body
    update_item_by_id_with_body backend entity id content_type body = perform c editors (
        new_update_item_by_id_request_with_body urls styles c.server backend entity id content_type
          body)

  module _ {V B S : Type 0} (json : Json V B) (c : Client U B S)
      (editors : List (RequestEditor U B S)) where
    unfoldable pub create_item : String → String → Dict V → Db S (Response B)
    unfolding perform new_create_item_request
    create_item backend entity body =
        perform c editors (new_create_item_request urls styles json c.server backend entity body)

    unfoldable pub bulk_update : String → String → BulkUpdateRequest V → Db S (Response B)
    unfolding perform new_bulk_update_request
    bulk_update backend entity body =
        perform c editors (new_bulk_update_request urls styles json c.server backend entity body)

    unfoldable pub update_item_by_id : String → String → String → Dict V → Db S (Response B)
    unfolding perform new_update_item_by_id_request
    update_item_by_id backend entity id body =
        perform c editors
          (new_update_item_by_id_request urls styles json c.server backend entity id body)

module _ {U B S : Type 0} (urls : Urls U) (c : Client U B S)
    (editors : List (RequestEditor U B S)) where
  unfoldable pub list_backends : Db S (Response B)
  unfolding perform new_list_backends_request
  list_backends = perform c editors (new_list_backends_request urls c.server)

  unfoldable pub get_version_info : Db S (Response B)
  unfolding perform new_get_version_info_request
  get_version_info = perform c editors (new_get_version_info_request urls c.server)
