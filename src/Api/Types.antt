-- ===== src/Api/Types.antt =====
-- The types of pkg/api/gen.go.
use db2rest_bridge.Base.{ℕ, String, Bool, List, Option, str_eq, ◌||◌}
use db2rest_bridge.Base.Int.{ℤ}
use db2rest_bridge.Base.Dict.{Dict}

-- `BulkUpdateMode.Valid`
unfoldable pub is_valid : String → Bool
is_valid mode =
    str_eq mode "DELETE" || str_eq mode "INSERT" || str_eq mode "REPLACE" || str_eq mode "UPDATE"

-- `BulkUpdateRequest`: the mode is any text.
pub record BulkUpdateRequest (V : Type 0) : Type 0 where
  pub mode : String
  pub objects : List (Dict V)

-- `PagedResult` as a client reads it. The offset is the whole number that the `float32` stands for.
pub record PagedResult (V : Type 0) : Type 0 where
  pub items : Option (List (Dict V))
  pub offset : Option ℕ
  pub total_count : Option ℤ

pub record QueryNamedParams : Type 0 where
  pub page_offset : Option ℤ
  pub page_size : Option ℤ
  pub arg : Option (List String)

-- `SystemVersionInfo`, which comes from another package: the fields that are set.
pub record VersionInfo : Type 0 where
  pub build_time : String
  pub build_user : String
  pub revision : String
  pub version : String
