-- ===== src/Alert.antt =====
-- internal/alert: alerts for devices with many blocked queries. The clock and the device resolver are
-- arguments; a method that holds the lock is one step.
pub mod Firing
pub mod Rate
use phantomcore.Base.{
  ℕ, zero, suc, ◌+◌, ◌*◌, Bool, true, false, ◌||◌, Option, none, some, List, [], ◌∷◌, ◌++◌, map,
  length, keep, ltb, ltb_ℤ, pos_part, ℤ, pos, negsuc, Text, is_empty, lookup, insert, text_discrete,
  if◌then◌else◌,
}

-- `DeviceInfo`
pub record DeviceInfo : Type 0 where
  pub ip : Text
  pub mac : Text
  pub hostname : Text

-- `Alert`
pub record Alert : Type 0 where
  pub device : DeviceInfo
  pub hits : ℕ
  pub threshold : ℕ
  pub first_hit : ℕ
  pub fired_at : ℕ
  pub domain : Text

-- `Config`: not positive is off for the threshold, and the default for the window.
pub record Config : Type 0 where
  pub threshold : ℤ
  pub window : ℤ

-- `DefaultWindow`
abbrev pub default_window : ℕ
default_window = 10 * 60 * 1000000000

-- `ConfigFromEnv`; strconv.Atoi and time.ParseDuration are parameters, none for their errors.
unfoldable pub positive_or_keep : Option ℤ → ℤ → ℤ
positive_or_keep none old = old
positive_or_keep (some n) old = if ltb_ℤ (pos 0) n then n else old

unfoldable pub config_from_env : (Text → Option ℤ) → (Text → Option ℤ) → Text → Text → Config
unfolding positive_or_keep
config_from_env atoi parse_duration threshold window = record {
  threshold = if is_empty threshold then pos 0 else positive_or_keep (atoi threshold) (pos 0);
  window =
      if is_empty window
      then pos default_window
      else positive_or_keep (parse_duration window) (pos default_window);
}

-- `Alerter`, with the hits of `clientCounter` in their order
pub record Alerter : Type 0 where
  pub threshold : ℤ
  pub window : ℕ
  pub counters : List (Text × List ℕ)
  pub suspected : List (Text × Alert)

-- `NewAlerter`
unfoldable pub new_alerter : Config → Alerter
new_alerter cfg = record {
  threshold = cfg.threshold;
  window = if ltb_ℤ (pos 0) cfg.window then pos_part cfg.window else default_window;
  counters = [];
  suspected = [];
}

-- `Enabled`
unfoldable pub is_enabled : Alerter → Bool
is_enabled a = ltb_ℤ (pos 0) a.threshold

-- `resolveLocked`; the resolver may be nil.
unfoldable pub resolve : Option (Text → Option DeviceInfo) → Text → DeviceInfo
resolve resolver client_ip =
    let unknown : DeviceInfo = record { ip = client_ip; mac = []; hostname = [] } in
    elim resolver [
      | none ↦ unknown
      | some lookup_device ↦ elim (lookup_device client_ip) [
        | none ↦ unknown
        | some d ↦ if is_empty d.ip then record d { ip = client_ip } else d
      ]
    ]

abbrev pub hits_of : Text → List (Text × List ℕ) → List ℕ
hits_of ip counters = elim (lookup text_discrete ip counters) [ none ↦ [] | some hits ↦ hits ]

-- The hits of a client after one more at `now`: those within the window, then this one.
unfoldable pub recent_hits : Alerter → Text → ℕ → List ℕ
unfolding lookup keep
recent_hits a client_ip now =
    keep (λ t. ltb now (t + a.window)) (hits_of client_ip a.counters) ++ now ∷ []

abbrev pub first_or : ℕ → List ℕ → ℕ
first_or now [] = now
first_or now (t ∷ ts) = t

-- `RecordBlocked`: the alert that fires, if any.
unfoldable pub record_blocked :
    Option (Text → Option DeviceInfo) → Text → Text → ℕ → Alerter → Option Alert × Alerter
unfolding resolve recent_hits insert
record_blocked resolver client_ip domain now a =
    let hits = recent_hits a client_ip now in
    let alert : Alert = record {
      device = resolve resolver client_ip;
      hits = length hits;
      threshold = pos_part a.threshold;
      first_hit = first_or now hits;
      fired_at = now;
      domain = domain;
    } in
    if ltb_ℤ (pos 0) a.threshold
    then if is_empty client_ip
      then (none, a)
      else if ltb (length hits) (pos_part a.threshold)
      then (none, record a { counters = insert text_discrete client_ip hits a.counters })
      else (
        some alert,
        record a {
          counters = insert text_discrete client_ip [] a.counters;
          suspected = insert text_discrete client_ip alert a.suspected;
        },
      )
    else (none, a)

-- `IsSuspected`
unfoldable pub is_suspected : Alerter → Text → Bool
unfolding lookup
is_suspected a client_ip = elim (lookup text_discrete client_ip a.suspected) [
  | none ↦ false
  | some _ ↦ true
]

abbrev pub with_fired : Option Alert → List Alert → List Alert
with_fired none alerts = alerts
with_fired (some al) alerts = al ∷ alerts

-- A run over blocked hits: client, domain and time of each.
unfoldable pub run :
    Option (Text → Option DeviceInfo) → List (Text × Text × ℕ) → Alerter → List Alert × Alerter
unfolding record_blocked
run resolver [] a = ([], a)
run resolver ((ip, domain, now) ∷ hits) a =
    let (fired, a') = record_blocked resolver ip domain now a in
    let (alerts, last) = run resolver hits a' in (with_fired fired alerts, last)
