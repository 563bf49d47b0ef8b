-- ===== src/Types/Normalize.antt =====
-- `CheckAndNormalize` (pkg/types/types.go).
use db2rest_bridge.Base.{
  ℕ, String, Bool, true, false, [], ◌∷◌, Option, none, some, ok, err, panic, ◌>>=◌, ◌<>◌, str_eq,
  if◌then◌else◌, leb, ◌&&◌, ◌||◌, all, length, codes, ◌==◌,
}
use db2rest_bridge.Base.Dict.{Dict}
use db2rest_bridge.Types.Errors.{Error, Go, plain}
use db2rest_bridge.Types.Config.{BackendConfig}

-- What is read and set of `ccfg.TelemetryConfig` and `ccfg.ServerConfig`; `others` stands for the
-- fields that are left alone, `C` for `ccfg.CorsConfig`.
pub record TelemetryConfig : Type 0 where
  pub enabled : Bool
  pub path : String

pub record ServerConfig (C R : Type 0) : Type 0 where
  pub listen_address : String
  pub api_prefix : String
  pub cors : Option C
  pub telemetry : Option TelemetryConfig
  pub others : R

pub record LoggingConfig : Type 0 where
  pub level : Option String
  pub format : Option String

-- A backend is a pointer: an entry without a body is nil.
pub record Config (C R : Type 0) : Type 0 where
  pub server : ServerConfig C R
  pub backends : Dict (Option BackendConfig)
  pub logging_config : Option LoggingConfig

-- What is used of the package of `ccfg`: the method `Check`, and the constant `DefaultMetricPath`;
-- and `defCorsConfig`, which is made of its types.
pub record Commons (C R : Type 0) : Type 0 where
  pub check : ServerConfig C R → Option Error
  pub default_metric_path : String
  pub default_cors : C

-- `[\w-]`
abbrev is_name_code : ℕ → Bool
is_name_code c =
    (leb 48 c && leb c 57)
    || (leb 65 c && leb c 90)
    || (leb 97 c && leb c 122)
    || c == 95
    || c == 45

-- `beNameRE`
unfoldable pub is_backend_name : String → Bool
is_backend_name s =
    leb 1 (length (codes s)) && leb (length (codes s)) 63 && all is_name_code (codes s)

abbrev pub or_text : String → String → String
or_text s d = if str_eq s "" then d else s

abbrev pub set_or {ℓ} : {A : Type ℓ} → Option A → A → Option A
set_or none d = some d
set_or (some a) d = some a

-- The body of the loop over the backends.
unfoldable pub normalize_backend : BackendConfig → BackendConfig
normalize_backend v = record v {
  driver = set_or v.driver "mysql";
  id_map = set_or v.id_map [];
  create = set_or v.create false;
  read = set_or v.read true;
  update = set_or v.update false;
  delete = set_or v.delete false;
}

unfoldable pub normalize_backends : Dict (Option BackendConfig) → Go (Dict (Option BackendConfig))
unfolding is_backend_name normalize_backend
normalize_backends [] = ok []
normalize_backends ((k, none) ∷ bs) =
    if is_backend_name k then panic else err (plain ("invalid backend name: " <> k))
normalize_backends ((k, some v) ∷ bs) =
    let rest = normalize_backends bs in
    if is_backend_name k
    then (rest >>= λ bs'. ok ((k, some (normalize_backend v)) ∷ bs'))
    else err (plain ("invalid backend name: " <> k))

unfoldable pub normalize_logging : Option LoggingConfig → Option LoggingConfig
normalize_logging none = some (record { level = some "info"; format = some "json" })
normalize_logging (some l) =
    some (record { level = set_or l.level "info"; format = set_or l.format "json" })

abbrev pub checked : Option Error → Go (Unit {0})
checked none = ok tt
checked (some e) = err e

abbrev pub not_empty : Dict (Option BackendConfig) → Go (Unit {0})
not_empty [] = err (plain "no backend configured")
not_empty (b ∷ bs) = ok tt

module _ {C R : Type 0} (commons : Commons C R) where
  open commons use {check, default_metric_path, default_cors}

  abbrev pub normalize_telemetry : Option TelemetryConfig → TelemetryConfig
  normalize_telemetry none = record { enabled = false; path = default_metric_path }
  normalize_telemetry (some t) = record t { path = or_text t.path default_metric_path }

  abbrev pub with_address : ServerConfig C R → ServerConfig C R
  with_address s = record s { listen_address = or_text s.listen_address ":22001" }

  abbrev pub normalize_server : ServerConfig C R → ServerConfig C R
  normalize_server s = record s {
    listen_address = or_text s.listen_address ":22001";
    cors = set_or s.cors default_cors;
    telemetry = some (normalize_telemetry s.telemetry);
    api_prefix = or_text s.api_prefix "/api/v1";
  }

  -- `CheckAndNormalize`, with the configuration that it leaves if it finds no error
  unfoldable pub check_and_normalize : Config C R → Go (Config C R)
  unfolding normalize_backends normalize_logging
  check_and_normalize c = do
    valid ← checked (check (with_address c.server))
    some_backend ← not_empty c.backends
    bs ← normalize_backends c.backends
    ok (record {
      server = normalize_server c.server;
      backends = bs;
      logging_config = normalize_logging c.logging_config;
    })
