-- ===== src/Types/Complete.antt =====
-- What `CheckAndNormalize` (pkg/types/types.go) makes of a configuration.
use db2rest_bridge.Base.{
  false, Option, none, some, ◌≡◌, refl, sym, ap, ◌∙◌, subst, ok, >>=-eq-ok, All, str_eq,
}
use db2rest_bridge.Base.Dict.{Dict}
use db2rest_bridge.Types.Config.{BackendConfig}
use db2rest_bridge.Types.Normalize.{
  Config, ServerConfig, TelemetryConfig, Commons, normalize_telemetry, normalize_backends,
  normalize_logging, normalize_server, with_address, checked, not_empty, check_and_normalize,
}
use db2rest_bridge.Types.Completed.{
  BackendsKept, ServerKept, LoggingKept, normalize_backends-BackendsKept,
  normalize_server-ServerKept, normalize_logging-LoggingKept,
}
use db2rest_bridge.Types.Ready.{
  IsValidEntry, normalize_backends-valid, still_filled, set_or_twice, same_if, or_text_twice,
  normalize_backends_twice, normalize_logging_twice,
}

-- `d` is `c` with its missing settings set: the backends, of which there is one, the server, and the log.
-- Every pointer of a backend is set that the operations read through.
pub record IsComplete {C R : Type 0} (commons : Commons C R) (c d : Config C R) : Type 0 where
  pub filled : not_empty d.backends ≡ ok tt
  pub entries : All IsValidEntry d.backends
  pub backends_kept : BackendsKept c.backends d.backends
  pub server_kept : ServerKept commons c.server d.server
  pub logging_kept : LoggingKept c.logging_config d.logging_config

module _ {C R : Type 0} (commons : Commons C R) where
  open commons use {check, default_metric_path, default_cors}

  -- What an accepted configuration has become.
  accepted :
      (c d : Config C R)
      → check_and_normalize commons c ≡ ok d
      → (normalize_backends c.backends ≡ ok d.backends)
        × (d.server ≡ normalize_server commons c.server)
        × (d.logging_config ≡ normalize_logging c.logging_config)
        × (not_empty d.backends ≡ ok tt)
  unfolding check_and_normalize
  accepted c d h =
      let (valid, h₁, h₂) = >>=-eq-ok (checked (check (with_address commons c.server))) _ h in
      let (filled, h₃, h₄) = >>=-eq-ok (not_empty c.backends) _ h₂ in
      let (bs, h₅, h₆) = >>=-eq-ok (normalize_backends c.backends) _ h₄ in
      let same : record {
        server = normalize_server commons c.server;
        backends = bs;
        logging_config = normalize_logging c.logging_config;
      }
          ≡ d =
        cc in
      (
        h₅ ∙ ap (λ x. ok x.backends) same,
        sym (ap (λ x. x.server) same),
        sym (ap (λ x. x.logging_config) same),
        ap (λ x. not_empty x.backends) (sym same) ∙ still_filled c.backends bs h₅ h₃,
      )

  accept :
      (c : Config C R) (bs : Dict (Option BackendConfig))
      → check (with_address commons c.server) ≡ none
      → not_empty c.backends ≡ ok tt
      → normalize_backends c.backends ≡ ok bs
      → check_and_normalize commons c
        ≡ ok (record {
          server = normalize_server commons c.server;
          backends = bs;
          logging_config = normalize_logging c.logging_config;
        })
  unfolding check_and_normalize
  accept c bs fine filled named = rw fine (rw filled (rw named refl))

  normalize_telemetry_twice :
      (t : Option TelemetryConfig)
      → normalize_telemetry commons (some (normalize_telemetry commons t))
        ≡ normalize_telemetry commons t
  normalize_telemetry_twice none =
      ap (λ p. record { enabled = false; path = p }) (same_if (str_eq default_metric_path "") _)
  normalize_telemetry_twice (some t) =
      ap (λ p. record { enabled = t.enabled; path = p }) (or_text_twice t.path default_metric_path)

  normalize_server_twice :
      (s : ServerConfig C R)
      → normalize_server commons (normalize_server commons s) ≡ normalize_server commons s
  normalize_server_twice s = rw (
    or_text_twice s.listen_address ":22001",
    or_text_twice s.api_prefix "/api/v1",
    set_or_twice s.cors default_cors,
    normalize_telemetry_twice s.telemetry,
  )

  with_address_done :
      (s : ServerConfig C R)
      → with_address commons (normalize_server commons s) ≡ normalize_server commons s
  with_address_done s = rw (or_text_twice s.listen_address ":22001")

  -- A configuration that passes CheckAndNormalize has a backend, and each of its backends has a
  -- valid name and every pointer set that the operations read through. Every setting that was
  -- given is kept, and one that was missing has its default: the driver, the ID map and the four
  -- permissions of each backend (reading is allowed, the rest not), the address, the API prefix,
  -- CORS and the telemetry and its path of the server, the level and the format of the log. All
  -- else is as it was.
  pub check_and_normalize-IsComplete :
      (c d : Config C R) → check_and_normalize commons c ≡ ok d → IsComplete commons c d
  check_and_normalize-IsComplete c d h =
      let (named, server, logging, filled) = accepted c d h in
      record {
        filled = filled;
        entries = normalize_backends-valid c.backends d.backends named;
        backends_kept = normalize_backends-BackendsKept c.backends d.backends named;
        server_kept =
            subst (ServerKept commons c.server) (sym server)
              (normalize_server-ServerKept commons c.server);
        logging_kept =
            subst (LoggingKept c.logging_config) (sym logging)
              (normalize_logging-LoggingKept c.logging_config);
      }

  -- If a configuration passes CheckAndNormalize and the settings of its server still pass their
  -- own check, a second call succeeds and changes nothing.
  pub check_and_normalize_twice :
      (c d : Config C R)
      → check_and_normalize commons c ≡ ok d
      → check d.server ≡ none
      → check_and_normalize commons d ≡ ok d
  check_and_normalize_twice c d h fine =
      let (named, server, logging, filled) = accepted c d h in
      let addressed : with_address commons d.server ≡ d.server =
        subst (λ s. with_address commons s ≡ s) (sym server) (with_address_done c.server) in
      let kept : normalize_server commons d.server ≡ d.server =
        subst (λ s. normalize_server commons s ≡ s) (sym server)
          (normalize_server_twice c.server) in
      let logged : normalize_logging d.logging_config ≡ d.logging_config =
        subst (λ l. normalize_logging l ≡ l) (sym logging)
          (normalize_logging_twice c.logging_config) in
      accept d d.backends (ap check addressed ∙ fine) filled
        (normalize_backends_twice c.backends d.backends named)
      ∙ ap
          (λ s. ok (record {
            server = s;
            backends = d.backends;
            logging_config = normalize_logging d.logging_config;
          }))
          kept
      ∙ ap (λ l. ok (record { server = d.server; backends = d.backends; logging_config = l }))
          logged
