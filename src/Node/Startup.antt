-- ===== src/Node/Startup.antt =====
-- internal/dnsengine/engine.go and cmd/dataplane/main.go: the engine made from its configuration, what
-- is attached to it, and the refresh of policies and blocklists. Durations are in nanoseconds.
use phantomcore.Geo
use phantomcore.Geo.{Filter, MmRecord, from_config}
use phantomcore.Config.{DataPlaneConfig}
use phantomcore.Base.{
  ℕ, ◌*◌, Bool, true, false, ◌||◌, Option, none, some, List, [], ◌∷◌, ◌++◌, ℤ, pos, ltb_ℤ, pos_part,
  Text, text, is_empty, same_text, to_lower, trim_space, text_discrete, if◌then◌else◌,
}
use phantomcore.Policy.Types.{Policy, Platform}
use phantomcore.Policy.Snapshot.{Snapshot, build_snapshot}
use phantomcore.Policy.Engine.{evaluate, is_explicitly_allowed}
use phantomcore.RateLimit
use phantomcore.Nod
use phantomcore.FastFlux
use phantomcore.Cache
use phantomcore.Nrd.Checker.{Checker, new_checker, is_listed, block_mode}
use phantomcore.Detector.Heuristics.{
  Detector, Outside, new_detector_with_brands, set_typosquat_block, analyze,
}
use phantomcore.Upstream.{Resolver, UpstreamManager, exchange}
use phantomcore.Upstream.Schemes.{Ports, Transport, new_upstream_manager}
use phantomcore.Blocklist.Engine.{Fetched, Entry, Source, Update, update_source}
use phantomcore.Dns.State.{Engine, Wiring}

abbrev pub hour : ℕ
hour = 3600 * 1000000000

-- The loop that fills the set of abused TLDs.
unfoldable pub abused_set : List Text → List Text
abused_set [] = []
abused_set (raw ∷ tlds) =
    let t = to_lower (trim_space raw) in
    let rest = abused_set tlds in if is_empty t then rest else t ∷ rest

-- `NewDNSEngine`, without the exporter and the log, whose queues stand apart, and the manager.
unfoldable pub engine_of : DataPlaneConfig → Engine
unfolding abused_set
engine_of cfg = record {
  accept_queries = false;
  serve_stale = cfg.serve_stale;
  nod_block = cfg.nod_block;
  threat_block_threshold = cfg.threat_block_threshold;
  threat_block_dry_run = cfg.threat_block_dry_run;
  abused_tlds = abused_set cfg.abused_tlds;
  rebind_protection = cfg.rebind_protection;
  safe_search = cfg.safe_search;
  has_query_log = true;
  has_alerter = true;
  rate_limiter = some (RateLimit.new cfg.client_rate_limit_per_sec);
  nod_ledger =
      if ltb_ℤ (pos 0) cfg.nod_window_hours
      then some (Nod.new (pos_part cfg.nod_window_hours * hour) (pos 100000))
      else none;
  fast_flux =
      if cfg.fast_flux_detection
      then some (
          FastFlux.new cfg.fast_flux_ip_threshold cfg.fast_flux_ttl_max_sec (pos (300 * 1000000000))
            (pos 4096))
      else none;
  cache = if cfg.serve_stale then some (Cache.new (pos 20000) (pos hour)) else none;
}

-- `NewDNSEngine`: none when a resolver is refused.
unfoldable pub new_dns_engine :
    Ports → (Transport → Option Resolver) → DataPlaneConfig → Option (Engine × UpstreamManager)
unfolding new_upstream_manager engine_of
new_dns_engine ports open_transport cfg =
    elim (new_upstream_manager ports open_transport cfg.upstream_resolvers cfg.dns0x20) [
      | none ↦ none
      | some m ↦ some (engine_of cfg, m)
    ]

-- The detector of `NewDNSEngine`
unfoldable pub detector_of : Outside → DataPlaneConfig → Detector
unfolding new_detector_with_brands set_typosquat_block
detector_of o cfg =
    set_typosquat_block (new_detector_with_brands o cfg.typosquat_brands) cfg.typosquat_block

-- `SetAcceptQueries`
unfoldable pub set_accept_queries : Engine → Bool → Engine
set_accept_queries e enabled = record e { accept_queries = enabled }

-- `SetUpstreamResolvers`: the manager after it, and whether it succeeded. The new manager is built
-- without options.
unfoldable pub set_upstream_resolvers :
    Ports → (Transport → Option Resolver) → UpstreamManager → List Text → UpstreamManager × Bool
unfolding new_upstream_manager
set_upstream_resolvers ports open_transport old resolvers =
    elim (new_upstream_manager ports open_transport resolvers false) [
      | none ↦ (old, false)
      | some m ↦ (m, true)
    ]

-- What the engine asks, at one moment: the feed's checker, the loaded policies, the detector, the
-- filter of answers and the manager behind it. The rest of the wiring is that of `base`.
pub record Parts : Type 0 where
  pub os : Platform
  pub snapshot : Snapshot
  pub checker : Checker
  pub outside : Outside
  pub detector : Detector
  pub geo : Option Filter
  pub manager : UpstreamManager
  pub draws : List Bool

-- The `Attach` functions: the parts behind the interfaces of the engine, at a time.
unfoldable pub attach : Wiring → Parts → ℕ → Wiring
unfolding is_listed block_mode exchange Geo.evaluate
attach base parts now = record base {
  nrd = some (record {
    is_listed = is_listed (some parts.checker);
    block_mode = block_mode (some parts.checker);
  });
  evaluate = λ domain client. some (evaluate parts.os parts.snapshot now domain client);
  is_explicitly_allowed = is_explicitly_allowed parts.os parts.snapshot now;
  analyze = some (analyze parts.outside parts.detector);
  geo = elim (parts.geo) [ none ↦ none | some f ↦ some (Geo.evaluate base.ip_string (some f)) ];
  exchange = some (λ q. (exchange parts.manager parts.draws q 2).0);
}

-- `healthInterval`; `parse` is time.ParseDuration.
unfoldable pub health_interval : (Text → Option ℤ) → Text → ℤ
unfolding text_discrete
health_interval parse v =
    let s = to_lower (trim_space v) in
    if is_empty s
    then pos hour
    else if same_text s (text "off") || same_text s (text "0") || same_text s (text "disabled")
    then pos 0
    else elim (parse v) [ none ↦ pos hour | some d ↦ d ]

-- `reloadPolicies`: the file's policies, then those of the storage, which may fail.
unfoldable pub reload_policies : Platform → List Policy → Option (List Policy) → Snapshot
unfolding build_snapshot
reload_policies os file_policies db =
    build_snapshot os (elim db [ none ↦ file_policies | some ps ↦ file_policies ++ ps ])

-- `refreshBlocklists`: the enabled sources in turn, each with the tag that is known of it.
unfoldable pub refresh_blocklists :
    (Text → Text → Fetched)
    → (Text → Text)
    → (List Entry → Bool)
    → List (Source × Text)
    → List (Text × Update)
unfolding update_source
refresh_blocklists fetch hash save [] = []
refresh_blocklists fetch hash save ((src, tag) ∷ sources) =
    let rest = refresh_blocklists fetch hash save sources in
    if src.enabled then (src.id, update_source fetch hash save src tag) ∷ rest else rest

-- The checker of the feed in `main`: an interval that is not positive is left out.
unfoldable pub checker_of : (Text → Option ℤ) → DataPlaneConfig → Checker
unfolding new_checker
checker_of parse cfg = new_checker (record {
  feed_url = cfg.nrd_feed_url;
  block = cfg.nrd_block;
  refresh_interval = elim (parse cfg.nrd_refresh_interval) [
    | none ↦ pos 0
    | some d ↦ if ltb_ℤ (pos 0) d then d else pos 0
  ];
  format = [];
})

-- The filter of answers in `main`, which is attached unless the database does not open or there is
-- nothing to block.
unfoldable pub filter_of :
    (Text → Option (List ℕ → Option MmRecord)) → DataPlaneConfig → Option Filter
unfolding from_config
filter_of open_db cfg =
    let g = cfg.geo_ip in
    elim (from_config open_db g.db_path g.blocked_asns g.blocked_countries g.block) [
      | none ↦ none
      | some f ↦ f
    ]
