-- ===== src/Client/Http.antt =====
-- The operations of the client over HTTP (pkg/client/ops.go).
use db2rest_bridge.Base.{
  ◌==◌, String, List, [], ◌∷◌, Option, none, some, str_eq, if◌then◌else◌, ok, panic,
}
use db2rest_bridge.Base.Results
use db2rest_bridge.Base.Int.{ℤ, int_of}
use db2rest_bridge.Base.Dict.{Dict}
use db2rest_bridge.Types.Errors.{Go, with_status}
use db2rest_bridge.Types.Config.{deref}
use db2rest_bridge.Query.Value.{Floats}
use db2rest_bridge.Query.Page.{Page, default_paging}
use db2rest_bridge.Query.Data.{QryData, default_query, query_string}
use db2rest_bridge.Query.Params.{to_params}
use db2rest_bridge.Crud.Driver.{Db, lift, ◌>>=◌}
use db2rest_bridge.Api.Types.{PagedResult, QueryNamedParams}
use db2rest_bridge.Api.Wire.{Urls, Styles, Json, Response}
use db2rest_bridge.Api.Responses.{
  CreateItemResponse, DeleteItemByIdResponse, GetItemByIdResponse, ListItemsResponse,
  QueryNamedResponse, UpdateItemByIdResponse, status_code_of,
}
use db2rest_bridge.Api.WithResponse.{
  list_items_with_response, create_item_with_response, get_item_by_id_with_response,
  delete_item_by_id_with_response, update_item_by_id_with_response, bulk_update_with_response,
  query_named_with_response,
}
use db2rest_bridge.Client.Response.{
  exclude_props, only_props, ensure_response_code, error_from_response,
  error_from_response_with_msg,
}
use db2rest_bridge.Client.Setup.{Generic}

abbrev query_or_default : {F : Type 0} → Option (QryData F) → QryData F
query_or_default none = default_query
query_or_default (some q) = q

-- What the argument of a log message panics with
abbrev pub logged : Option String → Go (Unit {0})
logged none = panic
logged (some text) = ok tt

-- The loop over the objects of a page
unfoldable pub decode_all : {T V : Type 0} → (Dict V → Go T) → List (Dict V) → Go (List T)
decode_all dec_fn [] = ok []
decode_all dec_fn (e ∷ es) =
    Results.◌>>=◌ (dec_fn e) λ dto. Results.◌>>=◌ (decode_all dec_fn es) λ res. ok (dto ∷ res)

-- The loop over the objects of a bulk update
abbrev pub encoded : {T U V B S : Type 0} → Generic T U V B S → String → Dict V → Dict V
encoded g mode o =
    if str_eq mode "DELETE" then only_props o (g.id_prop ∷ []) else exclude_props o g.ro_props

unfoldable pub encode_all :
    {T U V B S : Type 0} → Generic T U V B S → String → List T → Go (List (Dict V))
unfolding only_props exclude_props
encode_all g mode [] = ok []
encode_all g mode (obj ∷ objs) =
    Results.◌>>=◌ (g.enc_fn obj)
      λ o. Results.◌>>=◌ (encode_all g mode objs) λ rest. ok (encoded g mode o ∷ rest)

-- The error of a status that nothing is known of, and that of one that carries an error object. A field
-- that is dereferenced while it is nil panics.
abbrev pub unexpected : {A B : Type 0} → Option (Response B) → Go A
unexpected http_response =
    Results.◌>>=◌ (deref http_response) λ rsp. Results.err (error_from_response rsp.status_code)

abbrev explained : {A B : Type 0} → Option (Response B) → Option String → Go A
explained http_response message = Results.◌>>=◌ (deref message) λ msg.
    Results.◌>>=◌ (deref http_response)
      λ rsp. Results.err (error_from_response_with_msg rsp.status_code msg)

-- `ensureResponseCode` with the status 200. `text_of` is the body as a text, the space around it
-- trimmed.
abbrev pub ensure_ok : {B : Type 0} → (B → String) → Option (Response B) → B → Go (Unit {0})
ensure_ok text_of http_response body =
    Results.◌>>=◌ (deref http_response)
      λ rsp. ensure_response_code rsp.status_code 200 (text_of body)

-- What the operations do with the response, once it is parsed
module _ {T V B : Type 0} (dec_fn : Dict V → Go T) where
  unfoldable pub list_result : (B → String) → ListItemsResponse V B → Go (List T × ℤ)
  unfolding ensure_response_code decode_all
  list_result text_of resp =
      Results.◌>>=◌ (ensure_ok text_of resp.http_response resp.body) λ checked.
        Results.◌>>=◌ (deref resp.json200) λ page. Results.◌>>=◌ (deref page.items) λ items.
          Results.◌>>=◌ (decode_all dec_fn items)
            λ res. Results.◌>>=◌ (deref page.total_count) λ total. ok (res, total)

  unfoldable pub create_result : CreateItemResponse V B → Go T
  unfolding status_code_of error_from_response
  create_result cir =
      if status_code_of cir.http_response == 201
      then Results.◌>>=◌ (deref cir.json201) dec_fn
      else if status_code_of cir.http_response == 500
      then Results.◌>>=◌ (deref cir.json500) (λ msg. Results.err (with_status 500 msg))
      else unexpected cir.http_response

  unfoldable pub get_result : GetItemByIdResponse V B → Go T
  unfolding status_code_of error_from_response error_from_response_with_msg
  get_result resp =
      if status_code_of resp.http_response == 200
      then Results.◌>>=◌ (deref resp.json200) dec_fn
      else if status_code_of resp.http_response == 404
      then explained resp.http_response resp.json404
      else unexpected resp.http_response

  unfoldable pub update_result : UpdateItemByIdResponse V B → Go T
  unfolding status_code_of error_from_response error_from_response_with_msg
  update_result resp =
      if status_code_of resp.http_response == 202
      then Results.◌>>=◌ (deref resp.json202) dec_fn
      else if status_code_of resp.http_response == 404
      then explained resp.http_response resp.json404
      else unexpected resp.http_response

unfoldable pub delete_result : {B : Type 0} → DeleteItemByIdResponse B → Go (Unit {0})
unfolding status_code_of error_from_response
delete_result resp =
    if status_code_of resp.http_response == 204 then ok tt else unexpected resp.http_response

-- A page, or the nil one of a response that is not JSON
unfoldable pub query_result : {V B : Type 0} → QueryNamedResponse V B → Go (Option (PagedResult V))
unfolding error_from_response error_from_response_with_msg
query_result resp = Results.◌>>=◌ (deref resp.http_response) λ rsp.
    if rsp.status_code == 200
    then ok resp.json200
    else if rsp.status_code == 404
    then explained resp.http_response resp.json404
    else unexpected resp.http_response

-- The parameters of a named query, from a query that is not nil
abbrev pub named_query_params : Page → List String → QueryNamedParams
named_query_params p args = record {
  page_offset = some (int_of p.offset);
  page_size = some p.size;
  arg = some args;
}

abbrev pub paging_or_default : {F : Type 0} → QryData F → Page
paging_or_default q = elim q.paging [ none ↦ default_paging | some p ↦ p ]

module _ {F T U V B S : Type 0} ⦃fl : Floats F⦄ (urls : Urls U) (styles : Styles F)
    (json : Json V B) (text_of : B → String) (g : Generic T U V B S) where
  unfoldable pub list : Option (QryData F) → Db S (List T × ℤ)
  unfolding query_string to_params list_items_with_response list_result
  list qry =
      let q = query_or_default qry in
      lift (logged (query_string q)) >>= λ done. lift (deref g.c) >>= λ c.
      list_items_with_response urls styles json c [] g.be g.ent (some (to_params q)) >>= λ resp.
      lift (list_result g.dec_fn text_of resp)

  unfoldable pub create : T → Db S T
  unfolding exclude_props create_item_with_response create_result
  create t = lift (g.enc_fn t) >>= λ m. lift (deref g.c) >>= λ c.
      create_item_with_response urls styles json c [] g.be g.ent (exclude_props m g.ro_props)
      >>= λ cir. lift (create_result g.dec_fn cir)

  unfoldable pub get : String → Db S T
  unfolding get_item_by_id_with_response get_result
  get id = lift (deref g.c) >>= λ c.
      get_item_by_id_with_response urls styles json c [] g.be g.ent id >>= λ resp.
      lift (get_result g.dec_fn resp)

  unfoldable pub delete : String → Db S (Unit {0})
  unfolding delete_item_by_id_with_response delete_result
  delete id = lift (deref g.c) >>= λ c.
      delete_item_by_id_with_response urls styles json c [] g.be g.ent id >>= λ resp.
      lift (delete_result resp)

  unfoldable pub update : String → T → Db S T
  unfolding exclude_props update_item_by_id_with_response update_result
  update id obj = lift (g.enc_fn obj) >>= λ m. lift (deref g.c) >>= λ c.
      update_item_by_id_with_response urls styles json c [] g.be g.ent id
        (exclude_props m g.ro_props)
      >>= λ resp. lift (update_result g.dec_fn resp)

  unfoldable pub bulk_update : List T → String → Db S (Unit {0})
  unfolding encode_all bulk_update_with_response ensure_response_code
  bulk_update objs mode = lift (encode_all g mode objs) >>= λ objects. lift (deref g.c) >>= λ c.
      bulk_update_with_response urls styles json c [] g.be g.ent
        (record { mode = mode; objects = objects })
      >>= λ resp. lift (ensure_ok text_of resp.http_response resp.body)

  -- `none` is the nil query.
  unfoldable pub query : String → Option (QryData F) → List String → Db S (Option (PagedResult V))
  unfolding query_named_with_response query_result int_of
  query name qry args = lift (deref qry) >>= λ q. lift (deref g.c) >>= λ c.
      query_named_with_response urls styles json c [] g.be name
        (some (named_query_params (paging_or_default q) args))
      >>= λ resp. lift (query_result resp)
