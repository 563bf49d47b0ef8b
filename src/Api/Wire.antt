-- ===== src/Api/Wire.antt =====
-- What the generated code (pkg/api/gen.go) uses of its libraries: net/url, net/http, encoding/json and
-- the styles of parameters of oapi-codegen's runtime; and requests and responses.
use db2rest_bridge.Base.{ℕ, String, List, Option}
use db2rest_bridge.Base.Int.{ℤ}
use db2rest_bridge.Base.Dict.{Dict}
use db2rest_bridge.Types.Errors.{Go}
use db2rest_bridge.Query.Decode.{Document}
use db2rest_bridge.Crud.Driver.{Db}
use db2rest_bridge.Api.Types.{BulkUpdateRequest, PagedResult, VersionInfo}

-- URLs: `url.Parse`, `(*URL).Parse`, `u.Query().Encode()`, setting `RawQuery`, and what
-- `http.NewRequest` finds of a method and a URL.
pub record Urls (U : Type 0) : Type 0 where
  pub parse : String → Go U
  pub resolve : U → String → Go U
  pub encoded_query : U → String
  pub set_raw_query : String → U → U
  pub new_request : String → U → Go (Unit {0})

-- `runtime.StyleParamWithOptions`: a parameter of the path, and of the query an integer, an array of
-- texts, and a filter, each by its name and value.
pub record Styles (F : Type 0) : Type 0 where
  pub style_path : String → String → Go String
  pub style_int : String → ℤ → Go String
  pub style_texts : String → List String → Go String
  pub style_filter : String → Document F → Go String

-- `json.Marshal` and `json.Unmarshal` at the types that are sent; `B` is the type of bodies.
pub record Json (V B : Type 0) : Type 0 where
  pub marshal_dto : Dict V → Go B
  pub marshal_bulk : BulkUpdateRequest V → Go B
  pub unmarshal_names : B → Go (List String)
  pub unmarshal_version : B → Go VersionInfo
  pub unmarshal_dto : B → Go (Dict V)
  pub unmarshal_page : B → Go (PagedResult V)
  pub unmarshal_error : B → Go String

-- `*http.Request` on the client's side
pub record Request (U B : Type 0) : Type 0 where
  pub method : String
  pub url : U
  pub content_type : Option String
  pub body : Option B

-- `*http.Response`, with what `io.ReadAll` makes of its body
pub record Response (B : Type 0) : Type 0 where
  pub status_code : ℕ
  pub content_type : String
  pub body : Go B

-- `RequestEditorFn`, a callback that changes the request
abbrev pub RequestEditor : Type 0 → Type 0 → Type 0 → Type 0
RequestEditor U B S = Request U B → Db S (Request U B)
