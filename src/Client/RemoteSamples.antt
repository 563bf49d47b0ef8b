-- ===== src/Client/RemoteSamples.antt =====
-- A concrete client and server: URLs are paths, bodies are the values in them, and a database of one
-- entity is the list of its objects.
use db2rest_bridge.Base.{
  ℕ, length, take, drop, String, true, false, List, [], ◌∷◌, Option, none, some, ok, err, refl, ap,
  sym, str_eq,
}
use db2rest_bridge.Base.Int.{ℤ, pos, negsuc}
use db2rest_bridge.Base.Search.{contains}
use db2rest_bridge.Base.Dict.{Dict}
use db2rest_bridge.Types.Errors.{Error, Go, json, with_status}
use db2rest_bridge.Query.Page.{Page}
use db2rest_bridge.Crud.Ops
use db2rest_bridge.Crud.Driver.{Db}
use db2rest_bridge.Crud.Samples.{Cell, person, backend}
use db2rest_bridge.Crud.Samples
use db2rest_bridge.Query.Samples.{whole}
use db2rest_bridge.Api.Types.{VersionInfo, BulkUpdateRequest, PagedResult}
use db2rest_bridge.Api.Wire.{Json, Response}
use db2rest_bridge.Api.Calls.{Client}
use db2rest_bridge.Api.Wrapper.{ServerInterface}
use db2rest_bridge.Api.Routes.{handler_with_options, GorillaServerOptions}
use db2rest_bridge.Api.Mux.{first_match}
use db2rest_bridge.Server.Reply.{
  Reply, Payload, send, http_error, object, page, error_object, reply_status,
}
use db2rest_bridge.Server.Interface.{Interface}
use db2rest_bridge.Server.Rest.{Decoders, RestServer, rest_server}
use db2rest_bridge.Client.Setup.{Generic}
use db2rest_bridge.Client.UrlSamples.{Url, binders, path_of, map_same}
use db2rest_bridge.Client.Remote.{Network, connected}

pub data Body : Type 0 where
  empty : Body
  value : Payload Cell → Body
  request : BulkUpdateRequest Cell → Body

abbrev dto_in : Body → Go (Dict Cell)
dto_in (value (object (some d))) = ok d
dto_in _ = err json

abbrev page_in : Body → Go (PagedResult Cell)
page_in (value (page p)) =
    ok (record { items = some p.items; offset = some p.offset; total_count = some p.total_count })
page_in _ = err json

abbrev error_in : Body → Go String
error_in (value (error_object m)) = ok m
error_in _ = err json

abbrev bulk_in : Body → Go (BulkUpdateRequest Cell)
bulk_in (request r) = ok r
bulk_in _ = err json

abbrev pub codec : Json Cell Body
codec = record {
  marshal_dto = λ d. ok (value (object (some d)));
  marshal_bulk = λ r. ok (request r);
  unmarshal_names = λ b. err json;
  unmarshal_version = λ b. err json;
  unmarshal_dto = dto_in;
  unmarshal_page = page_in;
  unmarshal_error = error_in;
}

abbrev pub decoders : Decoders Cell Body
decoders = record { decode_dto = dto_in; decode_bulk = bulk_in }

abbrev pub status_given : Error → ℕ → ℕ
status_given e status = status

abbrev body_sent : Reply Cell → Body
body_sent (send p n) = value p
body_sent _ = empty

unfoldable pub write : Reply Cell → Response Body
unfolding reply_status
write r = record {
  status_code = reply_status status_given r;
  content_type = "application/json";
  body = ok (body_sent r);
}

unfoldable pub network : Network codec decoders status_given write
unfolding contains reply_status write
network = record {
  encode = value;
  wire = λ d. d;
  status_is = λ r. refl;
  readable = λ r. (body_sent r, refl);
  value_type = λ p n. refl;
  value_body = λ p n. refl;
  read_object = λ d. refl;
  read_page = λ p.
      ap
        (λ os.
          ok (record { items = some os; offset = some p.offset; total_count = some p.total_count }))
        (sym (map_same p.items));
  read_error = λ m. refl;
  object_read = λ d. (value (object (some d)), refl, refl);
  request_read = λ r. (
    request r,
    refl,
    ap (λ os. ok (record { mode = r.mode; objects = os })) (sym (map_same r.objects)),
  );
}

-- The objects of the one entity
abbrev Objects : Type 0
Objects = List (Dict Cell)

abbrev first_object : Objects → Option (Dict Cell)
first_object [] = none
first_object (o ∷ os) = some o

-- An entity "secret" may not be read.
abbrev read_first : String → Objects → Go (Option (Dict Cell)) × Objects
read_first entity os = elim (str_eq entity "secret") [
  | true ↦ (err (with_status 405 "read not allowed"), os)
  | false ↦ (ok (first_object os), os)
]

abbrev size_of : ℤ → ℕ
size_of (pos n) = n
size_of (negsuc n) = 0

-- A page of the objects
abbrev page_of : ℕ → ℕ → Objects → List (Dict Cell)
page_of offset size os = take size (drop offset os)

abbrev listed : Option Page → Objects → Ops.PagedResult Cell
listed none os = record { items = os; total_count = pos (length os); offset = 0 }
listed (some p) os = record {
  items = page_of p.offset (size_of p.size) os;
  total_count = pos (length os);
  offset = p.offset;
}

abbrev list_page : String → Option Page → Objects → Go (Ops.PagedResult Cell) × Objects
list_page entity p os = elim (str_eq entity "secret") [
  | true ↦ (err (with_status 405 "read not allowed"), os)
  | false ↦ (ok (listed p os), os)
]

abbrev pub people : Interface Cell ℤ Objects
people = record {
  list_entities = λ os. (ok ("people" ∷ []), os);
  list_items = λ entity q os. list_page entity q.paging os;
  exists = λ entity id os. (ok true, os);
  get = λ entity id os. read_first entity os;
  update = λ entity id o os. (ok (some o), o ∷ []);
  create = λ entity o os. (ok (some o), o ∷ os);
  delete = λ entity id os. (ok tt, []);
  multi_delete = λ entity ids os. (ok tt, []);
  multi_update = λ entity os' os. (ok tt, os');
  multi_create = λ entity replace os' os. (ok tt, os');
  query_named = λ name q args os. (ok (listed q.paging os), os);
}

abbrev pub server : RestServer Cell ℤ Objects
server = record { backends = ("db", backend true) ∷ []; crud_map = ("db", people) ∷ [] }

abbrev pub version : VersionInfo
version = record { build_time = ""; build_user = ""; revision = ""; version = "1" }

abbrev pub show_none : Dict Cell → String
show_none dto = ""

unfoldable pub methods : ServerInterface ℤ Url Body Objects (Reply Cell)
unfolding rest_server
methods = rest_server Samples.cells decoders show_none version server

abbrev pub options : GorillaServerOptions Url Body Objects (Reply Cell)
options = record {
  base_url = "/api";
  base_router = none;
  middlewares = [];
  error_handler_func = none;
}

abbrev pub refuse : String → Db Objects (Reply Cell)
refuse text os = (ok (http_error text 400), os)

abbrev pub not_routed : Db Objects (Reply Cell)
not_routed os = (ok (http_error "404 page not found" 404), os)

unfoldable pub client : Client Url Body Objects
unfolding handler_with_options first_match
client = record {
  server = "http://localhost/";
  client = some (
      connected first_match path_of empty not_routed write
        (handler_with_options binders refuse methods options));
  request_editors = [];
}

abbrev dto_out : Dict Cell → Go (Dict Cell)
dto_out d = ok d

-- The client of the entity, which is given as the objects themselves. The key is read-only.
abbrev pub generic : String → Generic (Dict Cell) Url Cell Body Objects
generic entity = record {
  be = "db";
  ent = entity;
  c = some client;
  dec_fn = dto_out;
  enc_fn = dto_out;
  ro_props = "id" ∷ [];
  id_prop = "id";
  copts = [];
}
