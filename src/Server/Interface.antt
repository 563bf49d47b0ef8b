-- ===== src/Server/Interface.antt =====
-- `crud.Interface` (pkg/crud/types.go), and its implementation by the operations of Crud.
use db2rest_bridge.Base.{String, Bool, List, Option, some}
use db2rest_bridge.Base.Dict.{Dict}
use db2rest_bridge.Types.Config.{BackendConfig}
use db2rest_bridge.Query.Value.{Floats}
use db2rest_bridge.Query.Data.{QryData}
use db2rest_bridge.Crud.Driver.{Cells, Db, Driver}
use db2rest_bridge.Crud.Ops.{PagedResult, exists, get, list_entities, list_items, query_named}
use db2rest_bridge.Crud.Writes.{delete, update, create, multi_delete}
use db2rest_bridge.Crud.Batch.{multi_update, multi_create}

pub record Interface (V F S : Type 0) : Type 0 where
  pub list_entities : Db S (List String)
  pub list_items : String → QryData F → Db S (PagedResult V)
  pub exists : String → String → Db S Bool
  pub get : String → String → Db S (Option (Dict V))
  pub update : String → String → Dict V → Db S (Option (Dict V))
  pub create : String → Dict V → Db S (Option (Dict V))
  pub delete : String → String → Db S (Unit {0})
  pub multi_delete : String → List V → Db S (Unit {0})
  pub multi_update : String → List (Dict V) → Db S (Unit {0})
  pub multi_create : String → Bool → List (Dict V) → Db S (Unit {0})
  pub query_named : String → QryData F → List V → Db S (PagedResult V)

-- The implementation of package crud (pkg/crud/impl.go)
unfoldable pub impl :
    {V S F : Type 0} ⦃fl : Floats F⦄ → Cells V → Driver V S → BackendConfig → Interface V F S
impl cells db be = record {
  list_entities = list_entities cells db be;
  list_items = λ entity q. list_items cells db be entity (some q);
  exists = exists cells db be;
  get = get cells db be;
  update = update cells db be;
  create = create cells db be;
  delete = delete cells db be;
  multi_delete = multi_delete cells db be;
  multi_update = multi_update cells db be;
  multi_create = multi_create cells db be;
  query_named = λ name q args. query_named cells db be name (some q) args;
}
