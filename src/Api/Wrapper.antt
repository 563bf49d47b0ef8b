-- ===== src/Api/Wrapper.antt =====
-- `ServerInterface` and its wrapper (pkg/api/gen.go): the parameters of each operation are bound, and the
-- operation is called through the middlewares.
use db2rest_bridge.Base.{String, List, [], ◌∷◌, Option, ◌⊎◌, inl, inr, ◌<>◌}
use db2rest_bridge.Base.Int.{ℤ}
use db2rest_bridge.Query.Decode.{Document}
use db2rest_bridge.Query.Params.{ListItemsParams}
use db2rest_bridge.Crud.Driver.{Db}
use db2rest_bridge.Api.Types.{QueryNamedParams}

-- `*http.Request` on the server's side, with `mux.Vars` of it
pub record Incoming (U B : Type 0) : Type 0 where
  pub method : String
  pub url : U
  pub body : B
  pub vars : String → String

-- `http.Handler`; an `A` is what is written.
abbrev pub Handler : Type 0 → Type 0 → Type 0 → Type 0 → Type 0
Handler U B S A = Incoming U B → Db S A

abbrev pub Middleware : Type 0 → Type 0 → Type 0 → Type 0 → Type 0
Middleware U B S A = Handler U B S A → Handler U B S A

-- The errors of the runtime's binders: a `*RequiredParameterError`, or another with its text
pub data BindError : Type 0 where
  required_parameter : String → BindError
  other_error : String → BindError

-- `runtime.BindStyledParameterWithOptions` on a variable of the path, and
-- `runtime.BindQueryParameterWithOptions` on the URL's query, at the types that are bound
pub record Binders (F U : Type 0) : Type 0 where
  pub bind_path : String → String → BindError ⊎ String
  pub bind_int : String → U → BindError ⊎ Option ℤ
  pub bind_texts : String → U → BindError ⊎ Option (List String)
  pub bind_filter : String → U → BindError ⊎ Option (Document F)

-- `RequiredParamError` and `InvalidParamFormatError`, this one with the text of the error in it
pub data ParamError : Type 0 where
  required_param_error : String → ParamError
  invalid_param_format_error : String → String → ParamError

-- The method `Error` of both
unfoldable pub param_error_text : ParamError → String
param_error_text (required_param_error param) =
    "Query argument " <> param <> " is required, but not found"
param_error_text (invalid_param_format_error param e) =
    "Invalid format for parameter " <> param <> ": " <> e

abbrev pub bind_error_text : BindError → String
bind_error_text (required_parameter text) = text
bind_error_text (other_error text) = text

-- Which error a parameter of the query is refused with
unfoldable pub query_param_error : String → BindError → ParamError
query_param_error param (required_parameter text) = required_param_error param
query_param_error param (other_error text) = invalid_param_format_error param text

pub record ServerInterface (F U B S A : Type 0) : Type 0 where
  pub list_backends : Incoming U B → Db S A
  pub get_version_info : Incoming U B → Db S A
  pub query_named : Incoming U B → String → String → QueryNamedParams → Db S A
  pub list_entities : Incoming U B → String → Db S A
  pub list_items : Incoming U B → String → String → ListItemsParams F → Db S A
  pub create_item : Incoming U B → String → String → Db S A
  pub bulk_update : Incoming U B → String → String → Db S A
  pub delete_item_by_id : Incoming U B → String → String → String → Db S A
  pub get_item_by_id : Incoming U B → String → String → String → Db S A
  pub exists_item_by_id : Incoming U B → String → String → String → Db S A
  pub update_item_by_id : Incoming U B → String → String → String → Db S A

pub record ServerInterfaceWrapper (F U B S A : Type 0) : Type 0 where
  pub handler : ServerInterface F U B S A
  pub handler_middlewares : List (Middleware U B S A)
  pub error_handler_func : Incoming U B → ParamError → Db S A

-- The loop over the middlewares: the last one is the outermost.
unfoldable pub through :
    {U B S A : Type 0} → List (Middleware U B S A) → Handler U B S A → Handler U B S A
through [] handler = handler
through (middleware ∷ rest) handler = through rest (middleware handler)

module _ {F U B S A : Type 0} (binders : Binders F U) (siw : ServerInterfaceWrapper F U B S A)
    (r : Incoming U B) where
  -- Go on with a variable of the path, or answer with the error.
  abbrev pub with_path : String → (String → Db S A) → Db S A
  with_path param k = elim (binders.bind_path param (r.vars param)) [
    | inl e ↦ siw.error_handler_func r (invalid_param_format_error param (bind_error_text e))
    | inr value ↦ k value
  ]

  -- Go on with a parameter of the query, or answer with the error.
  abbrev pub with_query :
      {X : Type 0} → String → (String → U → BindError ⊎ X) → (X → Db S A) → Db S A
  with_query param bind k = elim (bind param r.url) [
    | inl e ↦ siw.error_handler_func r (query_param_error param e)
    | inr value ↦ k value
  ]

  -- The call of the operation, through the middlewares
  abbrev pub served : Handler U B S A → Db S A
  served handler = through siw.handler_middlewares handler r

  unfoldable pub list_backends : Db S A
  unfolding through
  list_backends = served (λ req. siw.handler.list_backends req)

  unfoldable pub get_version_info : Db S A
  unfolding through
  get_version_info = served (λ req. siw.handler.get_version_info req)

  unfoldable pub query_named : Db S A
  unfolding through query_param_error
  query_named = with_path "backend" λ backend. with_path "name" λ name.
      with_query "page-offset" binders.bind_int λ page_offset.
        with_query "page-size" binders.bind_int λ page_size.
          with_query "arg" binders.bind_texts λ arg. served (λ req.
            siw.handler.query_named req backend name
              (record { page_offset = page_offset; page_size = page_size; arg = arg }))

  unfoldable pub list_entities : Db S A
  unfolding through
  list_entities =
      with_path "backend" λ backend. served (λ req. siw.handler.list_entities req backend)

  unfoldable pub list_items : Db S A
  unfolding through query_param_error
  list_items = with_path "backend" λ backend. with_path "entity" λ entity.
      with_query "page-offset" binders.bind_int λ page_offset.
        with_query "page-size" binders.bind_int λ page_size.
          with_query "order[]" binders.bind_texts λ order.
            with_query "filter" binders.bind_filter λ filter. served (λ req.
              siw.handler.list_items req backend entity (record {
                page_offset = page_offset;
                page_size = page_size;
                order = order;
                filter = filter;
              }))

  unfoldable pub create_item : Db S A
  unfolding through
  create_item = with_path "backend" λ backend.
      with_path "entity" λ entity. served (λ req. siw.handler.create_item req backend entity)

  unfoldable pub bulk_update : Db S A
  unfolding through
  bulk_update = with_path "backend" λ backend.
      with_path "entity" λ entity. served (λ req. siw.handler.bulk_update req backend entity)

  unfoldable pub delete_item_by_id : Db S A
  unfolding through
  delete_item_by_id = with_path "backend" λ backend. with_path "entity" λ entity.
      with_path "id" λ id. served (λ req. siw.handler.delete_item_by_id req backend entity id)

  unfoldable pub get_item_by_id : Db S A
  unfolding through
  get_item_by_id = with_path "backend" λ backend. with_path "entity" λ entity.
      with_path "id" λ id. served (λ req. siw.handler.get_item_by_id req backend entity id)

  unfoldable pub exists_item_by_id : Db S A
  unfolding through
  exists_item_by_id = with_path "backend" λ backend. with_path "entity" λ entity.
      with_path "id" λ id. served (λ req. siw.handler.exists_item_by_id req backend entity id)

  unfoldable pub update_item_by_id : Db S A
  unfolding through
  update_item_by_id = with_path "backend" λ backend. with_path "entity" λ entity.
      with_path "id" λ id. served (λ req. siw.handler.update_item_by_id req backend entity id)
