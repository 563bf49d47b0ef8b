-- ===== src/Types/Completed.antt =====
-- What becomes of the settings that `CheckAndNormalize` (pkg/types/types.go) completes: a setting that is
-- given is kept, one that is missing gets its default.
use db2rest_bridge.Base.{
  String, true, false, [], ◌∷◌, Option, none, some, ◌≡◌, refl, subst, ok, inl, inr, ◌⊎◌, Bool-cases,
  if◌then◌else◌, str_eq, ap,
}
use db2rest_bridge.Base.Dict.{Dict}
use db2rest_bridge.Types.Config.{BackendConfig}
use db2rest_bridge.Types.Normalize.{
  ServerConfig, TelemetryConfig, LoggingConfig, Commons, is_backend_name, set_or, or_text,
  normalize_backend, normalize_backends, normalize_logging, normalize_telemetry, normalize_server,
}
use db2rest_bridge.Types.Ready.{named_entry, no_nil_entry, no_entry}

abbrev Kept {ℓ} : {A : Type ℓ} → Option A → A → Option A → Type ℓ
Kept none default r = r ≡ some default
Kept (some a) default r = r ≡ some a

-- A text is missing if it is empty.
abbrev TextKept : String → String → String → Type 0
TextKept s default r = ((str_eq s "" ≡ true) × (r ≡ default)) ⊎ ((str_eq s "" ≡ false) × (r ≡ s))

pub record BackendKept (v w : BackendConfig) : Type 0 where
  pub driver_kept : Kept v.driver "mysql" w.driver
  pub id_map_kept : Kept v.id_map [] w.id_map
  pub create_kept : Kept v.create false w.create
  pub read_kept : Kept v.read true w.read
  pub update_kept : Kept v.update false w.update
  pub delete_kept : Kept v.delete false w.delete
  pub others_kept : w ≡ record v {
    driver = w.driver;
    id_map = w.id_map;
    create = w.create;
    read = w.read;
    update = w.update;
    delete = w.delete;
  }

-- Each backend has a valid name, is not nil, and is kept under its name.
abbrev pub BackendsKept : Dict (Option BackendConfig) → Dict (Option BackendConfig) → Type 0
BackendsKept [] [] = Unit {0}
BackendsKept ((k, some v) ∷ bs) ((l, some w) ∷ ds) =
    (is_backend_name k ≡ true) × (l ≡ k) × BackendKept v w × BackendsKept bs ds
BackendsKept _ _ = ⊥

abbrev TelemetryKept : Option TelemetryConfig → String → Option TelemetryConfig → Type 0
TelemetryKept none path r = r ≡ some (record { enabled = false; path = path })
TelemetryKept (some t) path r =
    (p : String) × TextKept t.path path p × (r ≡ some (record { enabled = t.enabled; path = p }))

pub record ServerKept {C R : Type 0} (commons : Commons C R) (s t : ServerConfig C R) : Type 0 where
  pub address_kept : TextKept s.listen_address ":22001" t.listen_address
  pub api_prefix_kept : TextKept s.api_prefix "/api/v1" t.api_prefix
  pub cors_kept : Kept s.cors commons.default_cors t.cors
  pub telemetry_kept : TelemetryKept s.telemetry commons.default_metric_path t.telemetry
  pub others_kept : t.others ≡ s.others

abbrev pub LoggingKept : Option LoggingConfig → Option LoggingConfig → Type 0
LoggingKept none r = r ≡ some (record { level = some "info"; format = some "json" })
LoggingKept (some l) r =
    (m : LoggingConfig) × (r ≡ some m) × Kept l.level "info" m.level × Kept l.format "json" m.format

set_or-Kept : {A : Type 0} (o : Option A) (d : A) → Kept o d (set_or o d)
set_or-Kept none d = refl
set_or-Kept (some a) d = refl

or_text-TextKept : (s d : String) → TextKept s d (or_text s d)
or_text-TextKept s d = elim (Bool-cases (str_eq s "")) [
  | inl e ↦ inl (e, ap (λ b. if b then d else s) e)
  | inr e ↦ inr (e, ap (λ b. if b then d else s) e)
]

normalize_backend-BackendKept : (v : BackendConfig) → BackendKept v (normalize_backend v)
unfolding normalize_backend
normalize_backend-BackendKept v = record {
  driver_kept = set_or-Kept v.driver "mysql";
  id_map_kept = set_or-Kept v.id_map [];
  create_kept = set_or-Kept v.create false;
  read_kept = set_or-Kept v.read true;
  update_kept = set_or-Kept v.update false;
  delete_kept = set_or-Kept v.delete false;
  others_kept = refl;
}

pub normalize_backends-BackendsKept :
    (bs ds : Dict (Option BackendConfig)) → normalize_backends bs ≡ ok ds → BackendsKept bs ds
normalize_backends-BackendsKept [] ds h = subst (BackendsKept []) (no_entry ds h) tt
normalize_backends-BackendsKept ((k, none) ∷ bs) ds h = absurd (no_nil_entry k bs ds h)
normalize_backends-BackendsKept ((k, some v) ∷ bs) ds h =
    let (rest, named, others, same) = named_entry k v bs ds h in
    subst (BackendsKept ((k, some v) ∷ bs)) same
      (named, refl, normalize_backend-BackendKept v, normalize_backends-BackendsKept bs rest others)

pub normalize_logging-LoggingKept : (l : Option LoggingConfig) → LoggingKept l (normalize_logging l)
unfolding normalize_logging
normalize_logging-LoggingKept none = refl
normalize_logging-LoggingKept (some l) =
    (_, refl, set_or-Kept l.level "info", set_or-Kept l.format "json")

module _ {C R : Type 0} (commons : Commons C R) where
  telemetry-TelemetryKept :
      (t : Option TelemetryConfig)
      → TelemetryKept t commons.default_metric_path (some (normalize_telemetry commons t))
  telemetry-TelemetryKept none = refl
  telemetry-TelemetryKept (some t) = (_, or_text-TextKept t.path commons.default_metric_path, refl)

  pub normalize_server-ServerKept :
      (s : ServerConfig C R) → ServerKept commons s (normalize_server commons s)
  normalize_server-ServerKept s = record {
    address_kept = or_text-TextKept s.listen_address ":22001";
    api_prefix_kept = or_text-TextKept s.api_prefix "/api/v1";
    cors_kept = set_or-Kept s.cors commons.default_cors;
    telemetry_kept = telemetry-TelemetryKept s.telemetry;
    others_kept = refl;
  }
