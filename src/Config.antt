-- ===== src/Config.antt =====
-- internal/config/config.go: the data plane's configuration, from its file and the environment. An
-- unset variable is the empty text; the address of the gRPC server is left out.
pub mod Overlay
use phantomcore.Base.{
  ℕ, Bool, true, false, ◌&&◌, ◌||◌, Option, none, some, List, [], ◌∷◌, ℤ, pos, ltb_ℤ, Text, text,
  is_empty, same_text, to_lower, trim_space, split_at, text_discrete, if◌then◌else◌,
}

-- `GeoIPConfig`
pub record GeoIpConfig : Type 0 where
  pub db_path : Text
  pub blocked_asns : List ℕ
  pub blocked_countries : List Text
  pub block : Bool

-- `DataPlaneConfig`; the threshold is in hundredths.
pub record DataPlaneConfig : Type 0 where
  pub listen_addr : Text
  pub upstream_resolvers : List Text
  pub blocklist_update_interval : Text
  pub metrics_addr : Text
  pub blocklist_health_interval : Text
  pub threat_block_threshold : ℕ
  pub threat_block_dry_run : Bool
  pub abused_tlds : List Text
  pub rebind_protection : Bool
  pub client_rate_limit_per_sec : ℤ
  pub safe_search : Bool
  pub dns0x20 : Bool
  pub watchdog_interval : Text
  pub watchdog_failure_threshold : ℤ
  pub serve_stale : Bool
  pub nod_window_hours : ℤ
  pub nod_block : Bool
  pub fast_flux_detection : Bool
  pub fast_flux_ip_threshold : ℤ
  pub fast_flux_ttl_max_sec : ℤ
  pub syslog_addr : Text
  pub event_webhook_url : Text
  pub typosquat_brands : List Text
  pub typosquat_block : Bool
  pub heartbeat_url : Text
  pub heartbeat_interval : Text
  pub geo_ip : GeoIpConfig
  pub nrd_feed_url : Text
  pub nrd_block : Bool
  pub nrd_refresh_interval : Text
  pub query_log_buffer_size : ℤ
  pub query_log_workers : ℤ

-- strconv.ParseBool, Atoi, ParseUint and ParseFloat, the last in hundredths; none is their error.
pub record Numbers : Type 0 where
  pub parse_bool : Text → Option Bool
  pub atoi : Text → Option ℤ
  pub parse_uint : Text → Option ℕ
  pub parse_float : Text → Option ℕ

abbrev pub default_metrics_addr : Text
default_metrics_addr = text "127.0.0.1:9153"

-- `defaultConfig`, for the data plane
abbrev pub default_config : DataPlaneConfig
default_config = record {
  listen_addr = text "0.0.0.0:1053";
  upstream_resolvers = text "8.8.8.8:53" ∷ text "1.1.1.1:53" ∷ [];
  blocklist_update_interval = text "6h";
  metrics_addr = default_metrics_addr;
  blocklist_health_interval = text "1h";
  threat_block_threshold = 0;
  threat_block_dry_run = false;
  abused_tlds = [];
  rebind_protection = false;
  client_rate_limit_per_sec = pos 0;
  safe_search = false;
  dns0x20 = false;
  watchdog_interval = text "30s";
  watchdog_failure_threshold = pos 3;
  serve_stale = false;
  nod_window_hours = pos 0;
  nod_block = false;
  fast_flux_detection = false;
  fast_flux_ip_threshold = pos 8;
  fast_flux_ttl_max_sec = pos 300;
  syslog_addr = [];
  event_webhook_url = [];
  typosquat_brands = [];
  typosquat_block = false;
  heartbeat_url = [];
  heartbeat_interval = [];
  geo_ip = record { db_path = []; blocked_asns = []; blocked_countries = []; block = false };
  nrd_feed_url = [];
  nrd_block = false;
  nrd_refresh_interval = text "6h";
  query_log_buffer_size = pos 0;
  query_log_workers = pos 0;
}

-- `loadConfig`: a file that is missing or cannot be read as YAML gives the defaults; the fields that
-- a file leaves out are empty, and not the defaults.
unfoldable pub load_config : Option DataPlaneConfig → DataPlaneConfig
load_config none = default_config
load_config (some file) = file

-- The words of a list, none of them empty.
unfoldable pub drop_blanks : List Text → List Text
drop_blanks [] = []
drop_blanks (p ∷ parts) =
    let v = trim_space p in let rest = drop_blanks parts in if is_empty v then rest else v ∷ rest

-- `splitAndTrim` and `parseStringList`
unfoldable pub split_and_trim : Text → List Text
unfolding drop_blanks
split_and_trim s = drop_blanks (split_at b',' s)

-- The loop of `parseAbusedTLDs`.
unfoldable pub lower_words : List Text → List Text
lower_words [] = []
lower_words (p ∷ parts) =
    let v = to_lower (trim_space p) in
    let rest = lower_words parts in if is_empty v then rest else v ∷ rest

-- `parseAbusedTLDs`
unfoldable pub parse_abused_tlds : Text → List Text
unfolding lower_words
parse_abused_tlds v = lower_words (split_at b',' v)

-- The loop of `parseUintList`.
unfoldable pub numbers_of : (Text → Option ℕ) → List Text → List ℕ
numbers_of parse [] = []
numbers_of parse (p ∷ parts) =
    let v = trim_space p in
    let rest = numbers_of parse parts in
    if is_empty v then rest else elim (parse v) [ none ↦ rest | some n ↦ n ∷ rest ]

-- `parseUintList`
unfoldable pub parse_uint_list : (Text → Option ℕ) → Text → List ℕ
unfolding numbers_of
parse_uint_list parse s = numbers_of parse (split_at b',' s)

-- `if v := Getenv(name); v != "" { field = v }`
abbrev pub or_text : Text → Text → Text
or_text v old = if is_empty v then old else v

-- The same with a parser, whose error leaves the field as it is.
abbrev pub or_parsed : {A : Type 0} → (Text → Option A) → Text → A → A
or_parsed parse v old = if is_empty v then old else elim (parse v) [ none ↦ old | some a ↦ a ]

-- The switch of TYPOSQUAT_BLOCK.
abbrev pub is_on : Text → Bool
is_on v =
    let s = to_lower (trim_space v) in
    same_text s (text "1")
    || same_text s (text "true")
    || same_text s (text "yes")
    || same_text s (text "on")
