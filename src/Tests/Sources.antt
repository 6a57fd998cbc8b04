-- ===== src/Tests/Sources.antt =====
-- internal/blocklist at concrete inputs.
use phantomcore.Config.{Numbers, default_config, load_config, parse_abused_tlds, parse_uint_list}
use phantomcore.Config.Overlay.{config_of, overlay, overlay_geo}
use phantomcore.Base.{same_text, if◌then◌else◌}
use phantomcore.Base.{
  ℕ, ◌+◌, ◌≤◌, ◌≡◌, ◌≢◌, ◌↔◌, ◌⊎◌, inl, inr, refl, Bool, true, false, Option, none, some, List, [],
  ◌∷◌, ◌++◌, map, Text, text, same_text, if◌then◌else◌, text_discrete,
}
use phantomcore.Blocklist.Parser
use phantomcore.Blocklist.Parser.{parse_domains, parse_hosts}
use phantomcore.Blocklist.Engine
use phantomcore.Blocklist.Engine.{
  Fetched, fetch_failed, fetched, not_modified, Entry, Feed, Source, Outcome, all_failed, stored,
  store_failed, entry_of, aggregate_feeds,
}
use phantomcore.Blocklist.Gathered.{Gathers}
use phantomcore.Blocklist.Stored.{
  silent, all_entries, aggregate_feeds_fails_iff, aggregate_feeds-Gathers,
}
use phantomcore.Blocklist.Health.{Snapshot}

test_parsers :
    (parse_domains (text "# list\n*.Evil.com. x\n\nbad/path\nads.net")
      ≡ (text "evil.com" ∷ text "ads.net" ∷ [], false))
    × (parse_hosts (text "0.0.0.0 ADS.example.\n192.168.1.1 skip.com\nlone\n")
        ≡ (text "ads.example" ∷ [], false))
unfolding parse_domains parse_hosts Parser.scan_lines Parser.scan_pieces Parser.strip_return
    Parser.collect Parser.domain_of_line Parser.host_of_line Parser.host_of_fields Parser.fields
    Parser.fields_from Parser.is_sink_address Parser.is_comment Parser.first_word Parser.trim_star
    Parser.has_path_byte text_discrete phantomcore.Base.contains_byte phantomcore.Base.has_prefix
    phantomcore.Base.split_at phantomcore.Base.trim_space phantomcore.Base.trim_left
    phantomcore.Base.trim_right phantomcore.Base.trim_dot phantomcore.Base.to_lower
    phantomcore.Base.lower_byte
test_parsers = (refl, refl)

abbrev feed : Text → Feed
feed url = record { name = url; url = url; format = text "domains" }

-- One feed answers, the other is away.
abbrev fetch : Text → Fetched
fetch url =
    if same_text url (text "up")
    then fetched (text "A.com\na.com.\nb.net") (text "e1")
    else fetch_failed

abbrev two_feeds : List Feed
two_feeds = feed (text "away") ∷ feed (text "up") ∷ []

abbrev source_entry : Text → Entry
source_entry d = entry_of (text "category:ads") (text "ads") d

abbrev gathered : List Entry
gathered = source_entry (text "a.com") ∷ source_entry (text "b.net") ∷ []

aggregate_feeds-Gathers_example :
    (ds : List Text) × (gathered ≡ map (entry_of (text "category:ads") (text "ads")) ds)
    × Gathers (all_entries fetch two_feeds) ds
unfolding aggregate_feeds Engine.add_feeds Engine.add_feed Engine.add_domains Engine.add_domain
    Engine.feed_entries Engine.store_aggregate Engine.normalize_domain Parser.get_parser
    parse_domains Parser.scan_lines Parser.scan_pieces Parser.strip_return Parser.collect
    Parser.domain_of_line Parser.is_comment Parser.first_word Parser.trim_star Parser.has_path_byte
    text_discrete phantomcore.Base.any phantomcore.Base.contains_byte phantomcore.Base.has_prefix
    phantomcore.Base.split_at phantomcore.Base.trim_space phantomcore.Base.trim_left
    phantomcore.Base.trim_right phantomcore.Base.trim_dot phantomcore.Base.to_lower
    phantomcore.Base.lower_byte
aggregate_feeds-Gathers_example =
    aggregate_feeds-Gathers fetch (λ _. true) (text "category:ads") (text "ads") two_feeds gathered
      (inl refl)

aggregate_feeds_fails_iff_example :
    (aggregate_feeds fetch (λ _. true) (text "category:ads") (text "ads") two_feeds ≡ all_failed)
    ↔ ((silent fetch two_feeds ≡ true) × (two_feeds ≢ []))
aggregate_feeds_fails_iff_example =
    aggregate_feeds_fails_iff fetch (λ _. true) (text "category:ads") (text "ads") two_feeds

abbrev source : Source
source = record {
  id = text "s1";
  url = text "up";
  format = text "hosts";
  category = text "ads";
  enabled = true;
}

-- Two snapshots, the newer one with a third of the entries.
abbrev recent : Text → Option (List Snapshot)
recent id = some (record { size = 30; created_at = 9 } ∷ record { size = 90; created_at = 3 } ∷ [])

abbrev numbers : Numbers
numbers = record {
  parse_bool = λ v. if same_text v (text "true") then some true else none;
  atoi = λ _. none;
  parse_uint = λ v. if same_text v (text "64500") then some 64500 else none;
  parse_float = λ _. none;
}

-- Two variables are set, and one cannot be read.
abbrev env : Text → Text
env name =
    if same_text name (text "NOD_BLOCK")
    then text "true"
    else if same_text name (text "BLOCKED_ASNS")
    then text "64500, x,"
    else if same_text name (text "NOD_WINDOW_HOURS")
    then text "soon"
    else []

test_config :
    (config_of numbers env none ≡ record default_config {
      nod_block = true;
      geo_ip = record {
        db_path = [];
        blocked_asns = 64500 ∷ [];
        blocked_countries = [];
        block = false;
      };
    })
    × (parse_abused_tlds (text "TK, Zip ") ≡ text "tk" ∷ text "zip" ∷ [])
unfolding config_of load_config overlay parse_abused_tlds text_discrete overlay_geo parse_uint_list
    phantomcore.Base.split_at phantomcore.Base.trim_space phantomcore.Base.trim_left
    phantomcore.Base.trim_right phantomcore.Base.to_lower phantomcore.Base.lower_byte
test_config = (refl, refl)
