-- ===== src/Server/Handlers.antt =====
-- The handlers (pkg/server/ops.go and pkg/server/misc.go). A request body comes decoded, or as the
-- error that its decoding gave; a JSON null is the empty object.
use db2rest_bridge.Base.{
  ℕ, String, Bool, true, false, List, [], Option, none, some, map, if◌then◌else◌, ok, err, panic,
  out_of_fuel, ◌<>◌,
}
use db2rest_bridge.Base.Int.{ℤ}
use db2rest_bridge.Base.Dict.{Dict, lookup, keys, sort}
use db2rest_bridge.Types.Errors.{Go}
use db2rest_bridge.Types.Config.{BackendConfig}
use db2rest_bridge.Query.Value.{Floats}
use db2rest_bridge.Query.Params.{ListItemsParams, from_params}
use db2rest_bridge.Crud.Driver.{Cells, Db, pure, lift}
use db2rest_bridge.Server.Reply.{
  Reply, send, send_error, write_header, http_error, names, object, page, error_object,
}
use db2rest_bridge.Server.Interface.{Interface}

-- Go on with a result; an error is sent with the status given.
abbrev pub send_on : {V S A : Type 0} → ℕ → (A → Db S (Reply V)) → Go A × S → Go (Reply V) × S
send_on status f (ok a, t) = f a t
send_on status f (err e, t) = (ok (send_error e status), t)
send_on status f (panic, t) = (panic, t)
send_on status f (out_of_fuel, t) = (out_of_fuel, t)

abbrev pub or_send : {V S A : Type 0} → ℕ → Db S A → (A → Db S (Reply V)) → Db S (Reply V)
or_send status m f s = send_on status f (m s)

-- `handleBackend`
unfoldable pub handle_backend :
    {V F S : Type 0}
    → Dict (Interface V F S)
    → String
    → (Interface V F S → Db S (Reply V))
    → Db S (Reply V)
unfolding lookup
handle_backend crud_map backend handler = elim (lookup backend crud_map) [
  | some c ↦ handler c
  | none ↦ pure (http_error ("no such backend: " <> backend) 400)
]

abbrev pub not_found : String → String → String
not_found entity id = "entity of type '" <> entity <> "' with id '" <> id <> "' was not found"

abbrev pub found_reply : {V S : Type 0} → String → String → Option (Dict V) → Db S (Reply V)
found_reply entity id (some dto) = pure (send (object (some dto)) 200)
found_reply entity id none = pure (send (error_object (not_found entity id)) 404)

-- `ListBackends`
unfoldable pub list_backends : {V : Type 0} → Dict BackendConfig → Reply V
unfolding sort
list_backends backends = send (names (sort (keys backends))) 200

module _ {V F S : Type 0} where
  -- `ListEntities`
  unfoldable pub list_entities : Interface V F S → Db S (Reply V)
  unfolding sort
  list_entities c = or_send 500 c.list_entities λ es. pure (send (names (sort es)) 200)

  -- `CreateItem`
  unfoldable pub create_item : String → Go (Dict V) → Interface V F S → Db S (Reply V)
  create_item entity body c =
      or_send 400 (lift body)
        λ b. or_send 500 (c.create entity b) λ created. pure (send (object created) 201)

  -- `GetItemById`
  unfoldable pub get_item_by_id : String → String → Interface V F S → Db S (Reply V)
  get_item_by_id entity id c = or_send 500 (c.get entity id) (found_reply entity id)

  -- `ExistsItemById`
  unfoldable pub exists_item_by_id : String → String → Interface V F S → Db S (Reply V)
  exists_item_by_id entity id c =
      or_send 500 (c.exists entity id) λ b. pure (write_header (if b then 204 else 404))

  abbrev pub update_there : String → String → Dict V → Interface V F S → Bool → Db S (Reply V)
  update_there entity id body c false = pure (send (error_object (not_found entity id)) 404)
  update_there entity id body c true =
      or_send 500 (c.update entity id body) λ updated. pure (send (object updated) 202)

  -- `UpdateItemById`
  unfoldable pub update_item_by_id :
      String → String → Go (Dict V) → Interface V F S → Db S (Reply V)
  update_item_by_id entity id body c =
      or_send 400 (lift body) λ b. or_send 500 (c.exists entity id) (update_there entity id b c)

  -- `DeleteItemById`
  unfoldable pub delete_item_by_id : String → String → Interface V F S → Db S (Reply V)
  delete_item_by_id entity id c = or_send 500 (c.delete entity id) λ done. pure (write_header 204)

abbrev pub args_of : Option (List String) → List String
args_of none = []
args_of (some args) = args

module _ {V F S : Type 0} ⦃fl : Floats F⦄ where
  -- `ListItems`
  unfoldable pub list_items : String → ListItemsParams F → Interface V F S → Db S (Reply V)
  unfolding from_params
  list_items entity p c =
      or_send 400 (lift (from_params p.page_offset p.page_size p.order p.filter))
        λ qry. or_send 500 (c.list_items entity qry) λ res. pure (send (page res) 200)

  -- `QueryNamed`
  unfoldable pub query_named :
      Cells V
      → String
      → Option ℤ
      → Option ℤ
      → Option (List String)
      → Interface V F S
      → Db S (Reply V)
  unfolding from_params
  query_named cells name page_offset page_size arg c =
      or_send 400 (lift (from_params page_offset page_size none none)) λ qry.
        or_send 500 (c.query_named name qry (map cells.text (args_of arg)))
          λ res. pure (send (page res) 200)
