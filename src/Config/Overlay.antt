-- ===== src/Config/Overlay.antt =====
-- internal/config/config.go: the environment over the file, as `DefaultConfig` is initialized.
use phantomcore.Base.{
  ◌≡◌, refl, Bool, true, ◌||◌, Option, none, some, [], ◌∷◌, ℤ, pos, ltb_ℤ, Text, text, is_empty,
  same_text, to_lower, trim_space, text_discrete, if◌then◌else◌,
}
use phantomcore.Config.{
  GeoIpConfig, DataPlaneConfig, Numbers, default_metrics_addr, load_config, split_and_trim,
  parse_abused_tlds, parse_uint_list, or_text, or_parsed, is_on,
}

module _ (numbers : Numbers) (env : Text → Text) where
  -- The variables of `GeoIPConfig`.
  unfoldable pub overlay_geo : GeoIpConfig → GeoIpConfig
  unfolding parse_uint_list split_and_trim
  overlay_geo g = record {
    db_path = or_text (env (text "GEOIP_DB_PATH")) g.db_path;
    blocked_asns =
        or_parsed (λ v. some (parse_uint_list numbers.parse_uint v)) (env (text "BLOCKED_ASNS"))
          g.blocked_asns;
    blocked_countries =
        or_parsed (λ v. some (split_and_trim v)) (env (text "BLOCKED_COUNTRIES"))
          g.blocked_countries;
    block = or_parsed (λ v. numbers.parse_bool (trim_space v)) (env (text "GEOIP_BLOCK")) g.block;
  }

  -- The variables of `DataPlaneConfig`. Each is read into its own field, so their order is free.
  unfoldable pub overlay : DataPlaneConfig → DataPlaneConfig
  unfolding overlay_geo parse_abused_tlds split_and_trim text_discrete
  overlay cfg =
      let flag : Text → Bool → Bool = λ name old. or_parsed numbers.parse_bool (env name) old in
      let number : Text → ℤ → ℤ = λ name old. or_parsed numbers.atoi (env name) old in
      let stale = env (text "SERVE_STALE") in
      record cfg {
        listen_addr = or_text (env (text "DNS_LISTEN_ADDR")) cfg.listen_addr;
        blocklist_update_interval =
            or_text (env (text "BLOCKLIST_UPDATE_INTERVAL")) cfg.blocklist_update_interval;
        blocklist_health_interval =
            or_text (env (text "BLOCKLIST_HEALTH_INTERVAL")) cfg.blocklist_health_interval;
        threat_block_threshold =
            or_parsed numbers.parse_float (env (text "THREAT_BLOCK_THRESHOLD"))
              cfg.threat_block_threshold;
        threat_block_dry_run = flag (text "THREAT_BLOCK_DRYRUN") cfg.threat_block_dry_run;
        abused_tlds =
            or_parsed (λ v. some (parse_abused_tlds v)) (env (text "ABUSED_TLDS")) cfg.abused_tlds;
        rebind_protection = flag (text "REBIND_PROTECTION") cfg.rebind_protection;
        client_rate_limit_per_sec =
            number (text "CLIENT_RATE_LIMIT_PER_SEC") cfg.client_rate_limit_per_sec;
        safe_search = flag (text "SAFE_SEARCH") cfg.safe_search;
        dns0x20 = flag (text "DNS_0X20") cfg.dns0x20;
        metrics_addr =
            or_text (or_text (env (text "METRICS_LISTEN_ADDR")) cfg.metrics_addr)
              default_metrics_addr;
        watchdog_interval = or_text (env (text "WATCHDOG_INTERVAL")) cfg.watchdog_interval;
        watchdog_failure_threshold =
            number (text "WATCHDOG_FAILURE_THRESHOLD") cfg.watchdog_failure_threshold;
        serve_stale =
            if same_text stale (text "true") || same_text stale (text "1")
            then true
            else cfg.serve_stale;
        nod_window_hours = number (text "NOD_WINDOW_HOURS") cfg.nod_window_hours;
        nod_block = flag (text "NOD_BLOCK") cfg.nod_block;
        fast_flux_detection = flag (text "FAST_FLUX_DETECTION") cfg.fast_flux_detection;
        syslog_addr = or_text (env (text "SYSLOG_ADDR")) cfg.syslog_addr;
        event_webhook_url = or_text (env (text "EVENT_WEBHOOK_URL")) cfg.event_webhook_url;
        typosquat_brands =
            or_parsed (λ v. some (split_and_trim v)) (env (text "TYPOSQUAT_BRANDS"))
              cfg.typosquat_brands;
        typosquat_block =
            if is_on (env (text "TYPOSQUAT_BLOCK")) then true else cfg.typosquat_block;
        heartbeat_url = or_text (env (text "HEARTBEAT_URL")) cfg.heartbeat_url;
        heartbeat_interval = or_text (env (text "HEARTBEAT_INTERVAL")) cfg.heartbeat_interval;
        geo_ip = overlay_geo cfg.geo_ip;
        nrd_feed_url = or_text (env (text "NRD_FEED_URL")) cfg.nrd_feed_url;
        nrd_block = flag (text "NRD_BLOCK") cfg.nrd_block;
        nrd_refresh_interval = or_text (env (text "NRD_REFRESH_INTERVAL")) cfg.nrd_refresh_interval;
        query_log_buffer_size = number (text "QUERY_LOG_BUFFER_SIZE") cfg.query_log_buffer_size;
        query_log_workers = number (text "QUERY_LOG_WORKERS") cfg.query_log_workers;
      }

  -- `DefaultConfig`
  unfoldable pub config_of : Option DataPlaneConfig → DataPlaneConfig
  unfolding overlay load_config
  config_of file = overlay (load_config file)

-- `WatchdogIntervalDuration`: the text is off, or a duration that has to be positive.
unfoldable pub watchdog_interval_duration : (Text → Option ℤ) → DataPlaneConfig → ℤ
unfolding text_discrete
watchdog_interval_duration parse cfg =
    let s = trim_space cfg.watchdog_interval in
    if is_empty s || same_text s (text "0") || same_text (to_lower s) (text "off")
    then pos 0
    else elim (parse s) [ none ↦ pos 0 | some d ↦ if ltb_ℤ (pos 0) d then d else pos 0 ]

-- An environment that sets nothing leaves a configuration as it is, but for an empty address of the
-- metrics, which gets the default.
pub overlay-unset :
    (numbers : Numbers) (cfg : DataPlaneConfig)
    → overlay numbers (λ _. []) cfg
      ≡ record cfg { metrics_addr = or_text cfg.metrics_addr default_metrics_addr }
unfolding overlay overlay_geo text_discrete trim_space to_lower
overlay-unset numbers cfg = refl

-- What a number or a flag of the environment that cannot be read does: nothing.
pub or_parsed-unreadable :
    {A : Type 0} (parse : Text → Option A) (v : Text) (old : A)
    → parse v ≡ none
    → or_parsed parse v old ≡ old
or_parsed-unreadable parse [] old h = refl
or_parsed-unreadable parse (b ∷ v) old h = rw h refl
