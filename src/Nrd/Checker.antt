-- ===== src/Nrd/Checker.antt =====
-- internal/nrd/checker.go: the set is read from a feed, with the fetcher and parsers of the blocklists.
-- The set is swapped in one step; the fetcher's outcome is an argument.
use phantomcore.Base.{
  ℕ, zero, suc, ◌*◌, Bool, false, not, Option, none, some, List, [], ◌∷◌, length, ℤ, pos, negsuc,
  Text, text, is_empty, if◌then◌else◌,
}
use phantomcore.Blocklist.Parser.{get_parser}
use phantomcore.Blocklist.Engine.{Fetched, fetch_failed, not_modified, fetched}
use phantomcore.Nrd.{NrdSet, new_set, contains}

-- `Config`, with the interval in nanoseconds
pub record Config : Type 0 where
  pub feed_url : Text
  pub block : Bool
  pub refresh_interval : ℤ
  pub format : Text

-- `Checker`: `tag` is the entity tag of the last feed that was loaded.
pub record Checker : Type 0 where
  pub cfg : Config
  pub listed : NrdSet
  pub tag : Option Text

abbrev pub default_refresh_interval : ℕ
default_refresh_interval = 6 * 3600 * 1000000000

abbrev pub default_format : Text
default_format = text "domains"

unfoldable pub interval_or_default : ℤ → ℤ
interval_or_default (pos zero) = pos default_refresh_interval
interval_or_default (pos (suc n)) = pos (suc n)
interval_or_default (negsuc n) = pos default_refresh_interval

-- `New`
unfoldable pub new_checker : Config → Checker
unfolding interval_or_default new_set
new_checker cfg = record {
  cfg = record cfg {
    refresh_interval = interval_or_default cfg.refresh_interval;
    format = if is_empty cfg.format then default_format else cfg.format;
  };
  listed = new_set [];
  tag = none;
}

-- `Enabled`, `BlockMode`, `IsListed` and `Len`, on a receiver that may be nil
unfoldable pub is_enabled : Option Checker → Bool
is_enabled none = false
is_enabled (some c) = not (is_empty c.cfg.feed_url)

unfoldable pub block_mode : Option Checker → Bool
block_mode none = false
block_mode (some c) = c.cfg.block

unfoldable pub is_listed : Option Checker → Text → Bool
unfolding contains
is_listed none domain = false
is_listed (some c) domain = contains c.listed domain

unfoldable pub len : Option Checker → ℕ
len none = 0
len (some c) = length c.listed

unfoldable pub with_domains : Checker → List Text × Bool → Option Checker
unfolding new_set
with_domains c (domains, failed) =
    if failed then none else some (record c { listed = new_set domains })

-- `load`: none is its error, for an unknown format or a feed that cannot be read to its end.
unfoldable pub load : Checker → Text → Option Checker
unfolding get_parser with_domains
load c bytes = elim (get_parser c.cfg.format) [
  | none ↦ none
  | some parse ↦ with_domains c (parse bytes)
]

-- The error of `Refresh`, if any.
pub data Refreshed : Type 0 where
  done : Refreshed
  failed_fetch : Refreshed
  failed_load : Refreshed

abbrev pub known_tag : Option Text → Text
known_tag none = []
known_tag (some t) = t

-- `Refresh`
unfoldable pub refresh : (Text → Text → Fetched) → Checker → Refreshed × Checker
unfolding load
refresh fetch c =
    let asked : Refreshed × Checker = elim (fetch c.cfg.feed_url (known_tag c.tag)) [
      | fetch_failed ↦ (failed_fetch, c)
      | not_modified t ↦ (done, c)
      | fetched body t ↦ elim (load c body) [
        | none ↦ (failed_load, c)
        | some c' ↦ (done, record c' { tag = some t })
      ]
    ] in
    if is_empty c.cfg.feed_url then (done, c) else asked

-- `Run`: a refresh at the start and one for each tick, whose errors are only logged. Each comes with
-- the fetcher's behaviour at its time.
unfoldable pub run : List (Text → Text → Fetched) → Checker → Checker
unfolding refresh
run [] c = c
run (fetch ∷ fetches) c = run fetches (refresh fetch c).1
