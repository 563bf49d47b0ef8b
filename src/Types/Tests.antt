-- ===== src/Types/Tests.antt =====
-- The theorems of Types at a concrete configuration.
use db2rest_bridge.Base.{true, false, [], ◌∷◌, none, some, ◌≡◌, refl, ok}
use db2rest_bridge.Types.Config.{BackendConfig}
use db2rest_bridge.Types.Normalize.{Commons, Config, is_backend_name, check_and_normalize}
use db2rest_bridge.Types.Complete.{
  IsComplete, check_and_normalize-IsComplete, check_and_normalize_twice,
}

abbrev commons : Commons (Unit {0}) (Unit {0})
commons = record { check = λ s. none; default_metric_path = "/metrics"; default_cors = tt }

abbrev bare : BackendConfig
bare = record {
  driver = none;
  dsn = "user:secret@tcp(localhost)/db";
  create = some true;
  read = none;
  update = none;
  delete = none;
  id_map = none;
  queries = [];
  init_ddls = [];
  max_open_connections = none;
  max_idle_connections = none;
  conn_max_lifetime = none;
  conn_max_idle_time = none;
}

abbrev given : Config (Unit {0}) (Unit {0})
given = record {
  server = record {
    listen_address = "";
    api_prefix = "";
    cors = none;
    telemetry = none;
    others = tt;
  };
  backends = ("my-db_1", some bare) ∷ [];
  logging_config = none;
}

abbrev completed : Config (Unit {0}) (Unit {0})
completed = record {
  server = record {
    listen_address = ":22001";
    api_prefix = "/api/v1";
    cors = some tt;
    telemetry = some (record { enabled = false; path = "/metrics" });
    others = tt;
  };
  backends =
      (
        "my-db_1",
        some (record bare {
          driver = some "mysql";
          read = some true;
          update = some false;
          delete = some false;
          id_map = some [];
        }),
      )
      ∷ [];
  logging_config = some (record { level = some "info"; format = some "json" });
}

check_and_normalize-IsComplete_example : IsComplete commons given completed
unfolding check_and_normalize is_backend_name
check_and_normalize-IsComplete_example = check_and_normalize-IsComplete commons given completed refl

check_and_normalize_twice_example : check_and_normalize commons completed ≡ ok completed
unfolding check_and_normalize is_backend_name
check_and_normalize_twice_example = check_and_normalize_twice commons given completed refl refl

-- Names are made of letters, digits, dashes and underscores.
is_backend_name_test : is_backend_name "my db" ≡ false
unfolding is_backend_name
is_backend_name_test = refl
