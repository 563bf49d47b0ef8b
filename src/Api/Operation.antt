-- ===== src/Api/Operation.antt =====
-- The operations of the API (pkg/api/gen.go) with their arguments: the request that the client makes of
-- each, and the call of the server that it is meant for.
use db2rest_bridge.Base.{String, List, [], ◌∷◌, Option, none, some, ◌≡◌, false, str_eq, All}
use db2rest_bridge.Types.Errors.{Go}
use db2rest_bridge.Query.Params.{ListItemsParams}
use db2rest_bridge.Crud.Driver.{Db}
use db2rest_bridge.Api.Types.{QueryNamedParams}
use db2rest_bridge.Api.Wire.{Urls, Styles, Request}
use db2rest_bridge.Api.Requests.{
  new_list_backends_request, new_get_version_info_request, new_query_named_request,
  new_list_entities_request, new_list_items_request, new_create_item_request_with_body,
  new_bulk_update_request_with_body, new_delete_item_by_id_request, new_get_item_by_id_request,
  new_exists_item_by_id_request, new_update_item_by_id_request_with_body,
}
use db2rest_bridge.Api.Wrapper.{Incoming, ServerInterface}
use db2rest_bridge.Api.Mux.{IsSegment}

-- The parameters of the query may be nil; a body comes with its content type.
pub data Operation (F B : Type 0) : Type 0 where
  backends version : Operation F B
  named : String → String → Option QueryNamedParams → Operation F B
  entities : String → Operation F B
  items : String → String → Option (ListItemsParams F) → Operation F B
  creation bulk : String → String → String → B → Operation F B
  deletion reading existence : String → String → String → Operation F B
  replacement : String → String → String → String → B → Operation F B

module _ {F B : Type 0} where
  unfoldable pub segments : Operation F B → List String
  segments backends = "backends" ∷ []
  segments version = "version" ∷ []
  segments (named be name p) = be ∷ "_query" ∷ name ∷ []
  segments (entities be) = be ∷ "entities" ∷ []
  segments (items be ent p) = be ∷ ent ∷ []
  segments (creation be ent ct b) = be ∷ ent ∷ []
  segments (bulk be ent ct b) = be ∷ ent ∷ "bulk" ∷ []
  segments (deletion be ent id) = be ∷ ent ∷ id ∷ []
  segments (reading be ent id) = be ∷ ent ∷ id ∷ []
  segments (existence be ent id) = be ∷ ent ∷ id ∷ []
  segments (replacement be ent id ct b) = be ∷ ent ∷ id ∷ []

  unfoldable pub method : Operation F B → String
  method (creation be ent ct b) = "POST"
  method (bulk be ent ct b) = "POST"
  method (deletion be ent id) = "DELETE"
  method (existence be ent id) = "HEAD"
  method (replacement be ent id ct b) = "PUT"
  method _ = "GET"

  unfoldable pub content : Operation F B → Option String × Option B
  content (creation be ent ct b) = (some ct, some b)
  content (bulk be ent ct b) = (some ct, some b)
  content (replacement be ent id ct b) = (some ct, some b)
  content _ = (none, none)

  -- The texts stand for segments of a path. A list asks for no entity named as the word of another
  -- route, and a reading for no item of one.
  unfoldable pub IsClear : Operation F B → Type 0
  IsClear backends = Unit
  IsClear version = Unit
  IsClear (named be name p) = All IsSegment (be ∷ name ∷ [])
  IsClear (entities be) = IsSegment be
  IsClear (items be ent p) = All IsSegment (be ∷ ent ∷ []) × (str_eq "entities" ent ≡ false)
  IsClear (creation be ent ct b) = All IsSegment (be ∷ ent ∷ [])
  IsClear (bulk be ent ct b) = All IsSegment (be ∷ ent ∷ [])
  IsClear (deletion be ent id) = All IsSegment (be ∷ ent ∷ id ∷ [])
  IsClear (reading be ent id) = All IsSegment (be ∷ ent ∷ id ∷ []) × (str_eq "_query" ent ≡ false)
  IsClear (existence be ent id) = All IsSegment (be ∷ ent ∷ id ∷ [])
  IsClear (replacement be ent id ct b) = All IsSegment (be ∷ ent ∷ id ∷ [])

  -- The request that the client makes
  unfoldable pub request_of :
      {U : Type 0} → Urls U → Styles F → String → Operation F B → Go (Request U B)
  unfolding new_list_backends_request new_get_version_info_request new_query_named_request
      new_list_entities_request new_list_items_request new_create_item_request_with_body
      new_bulk_update_request_with_body new_delete_item_by_id_request new_get_item_by_id_request
      new_exists_item_by_id_request new_update_item_by_id_request_with_body
  request_of urls styles server backends = new_list_backends_request urls server
  request_of urls styles server version = new_get_version_info_request urls server
  request_of urls styles server (named be name p) =
      new_query_named_request urls styles server be name p
  request_of urls styles server (entities be) = new_list_entities_request urls styles server be
  request_of urls styles server (items be ent p) =
      new_list_items_request urls styles server be ent p
  request_of urls styles server (creation be ent ct b) =
      new_create_item_request_with_body urls styles server be ent ct b
  request_of urls styles server (bulk be ent ct b) =
      new_bulk_update_request_with_body urls styles server be ent ct b
  request_of urls styles server (deletion be ent id) =
      new_delete_item_by_id_request urls styles server be ent id
  request_of urls styles server (reading be ent id) =
      new_get_item_by_id_request urls styles server be ent id
  request_of urls styles server (existence be ent id) =
      new_exists_item_by_id_request urls styles server be ent id
  request_of urls styles server (replacement be ent id ct b) =
      new_update_item_by_id_request_with_body urls styles server be ent id ct b

-- The parameters as the server's method gets them
abbrev pub named_args : Option QueryNamedParams → QueryNamedParams
named_args none = record { page_offset = none; page_size = none; arg = none }
named_args (some p) = p

abbrev pub list_args : {F : Type 0} → Option (ListItemsParams F) → ListItemsParams F
list_args none = record { page_offset = none; page_size = none; order = none; filter = none }
list_args (some p) = p

-- The method of the server, with its arguments
unfoldable pub call_of :
    {F U B S A : Type 0} → ServerInterface F U B S A → Operation F B → Incoming U B → Db S A
call_of si backends r = si.list_backends r
call_of si version r = si.get_version_info r
call_of si (named be name p) r = si.query_named r be name (named_args p)
call_of si (entities be) r = si.list_entities r be
call_of si (items be ent p) r = si.list_items r be ent (list_args p)
call_of si (creation be ent ct b) r = si.create_item r be ent
call_of si (bulk be ent ct b) r = si.bulk_update r be ent
call_of si (deletion be ent id) r = si.delete_item_by_id r be ent id
call_of si (reading be ent id) r = si.get_item_by_id r be ent id
call_of si (existence be ent id) r = si.exists_item_by_id r be ent id
call_of si (replacement be ent id ct b) r = si.update_item_by_id r be ent id
