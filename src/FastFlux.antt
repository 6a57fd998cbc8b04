-- ===== src/FastFlux.antt =====
-- internal/dnsengine/fastflux.go: the tracker of distinct answer addresses. A duration is in
-- nanoseconds, a TTL a uint32; `t.Before(now.Add(-window))` is read as `t + window < now`.
pub mod Detection
pub mod Evidence
pub mod Bounded
use phantomcore.Base.{
  ℕ, ◌+◌, ◌-◌, ◌^◌, ◌%◌, Bool, true, false, not, ◌&&◌, Option, none, some, List, [], ◌∷◌, length,
  leb, ltb, ◌==◌, ℤ, pos, pos_part, ltb_ℤ, Text, is_empty, lookup, insert, delete, retain,
  text_discrete, if◌then◌else◌,
}
use phantomcore.Oldest.{oldest}

-- `ipRecord`
pub record IpRecord : Type 0 where
  pub last_seen : ℕ
  pub ttl : ℕ

-- `ffDomainEntry`
pub record DomainEntry : Type 0 where
  pub ips : List (Text × IpRecord)
  pub last_seen : ℕ

-- `fastFluxTracker`
pub record Tracker : Type 0 where
  pub domains : List (Text × DomainEntry)
  pub window : ℕ
  pub ip_threshold : ℕ
  pub ttl_max : ℕ
  pub max_domains : ℕ

-- `if v <= 0 { v = d }`
abbrev positive_or : ℤ → ℕ → ℕ
positive_or v d = if ltb_ℤ (pos 0) v then pos_part v else d

-- `newFastFluxTracker`
unfoldable pub new : ℤ → ℤ → ℤ → ℤ → Tracker
new ip_threshold ttl_max_sec window max_domains = record {
  domains = [];
  window = positive_or window 300_000_000_000;
  ip_threshold = positive_or ip_threshold 8;
  ttl_max = positive_or ttl_max_sec 300 % 2 ^ 32;
  max_domains = positive_or max_domains 4096;
}

-- `evictOldestLocked`
unfoldable pub evict_oldest : List (Text × DomainEntry) → List (Text × DomainEntry)
evict_oldest domains = elim (oldest (λ (e : DomainEntry). e.last_seen) domains) [
  | none ↦ domains
  | some (k, _) ↦ if is_empty k then domains else delete text_discrete k domains
]

-- The addresses of an answer: `none` is a nil one, which is skipped.
unfoldable pub add_ips :
    ℕ → ℕ → List (Text × IpRecord) → List (Option Text) → List (Text × IpRecord)
add_ips now ttl recs [] = recs
add_ips now ttl recs (none ∷ ips) = add_ips now ttl recs ips
add_ips now ttl recs (some ip ∷ ips) =
    add_ips now ttl (insert text_discrete ip (record { last_seen = now; ttl = ttl }) recs) ips

-- The smallest TTL, from the largest uint32.
unfoldable pub min_ttl : ℕ → List (Text × IpRecord) → ℕ
min_ttl least [] = least
min_ttl least ((k, r) ∷ recs) = min_ttl (if ltb r.ttl least then r.ttl else least) recs

-- The records that the pruning loop keeps.
unfoldable pub prune : ℕ → ℕ → List (Text × IpRecord) → List (Text × IpRecord)
prune window now recs =
    retain text_discrete (λ (r : IpRecord). not (ltb (r.last_seen + window) now)) recs

abbrev pub no_ips : List (Option Text) → Bool
no_ips [] = true
no_ips (_ ∷ _) = false

-- The entry of a domain, with room made for a new one.
unfoldable pub find_entry : Tracker → Text → List (Text × DomainEntry) × List (Text × IpRecord)
unfolding evict_oldest
find_entry t domain = elim (lookup text_discrete domain t.domains) [
  | some e ↦ (t.domains, e.ips)
  | none ↦
      ((if leb t.max_domains (length t.domains) then evict_oldest t.domains else t.domains), [])
]

-- `observe`, on a tracker that is not nil: the tracker, and whether the domain looks like
-- fast-flux.
unfoldable pub observe : Tracker → ℕ → Text → List (Option Text) → ℕ → Tracker × Bool
unfolding find_entry
observe t now domain ips ttl =
    if is_empty domain
    then (t, false)
    else if no_ips ips
    then (t, false)
    else let (domains, recs) = find_entry t domain in
      let kept = prune t.window now (add_ips now ttl recs ips) in
      if length kept == 0
      then (record t { domains = delete text_discrete domain domains }, false)
      else (
        record t {
          domains = insert text_discrete domain (record { ips = kept; last_seen = now }) domains;
        },
        leb t.ip_threshold (length kept) && leb (min_ttl (2 ^ 32 - 1) kept) t.ttl_max,
      )
