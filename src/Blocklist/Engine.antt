-- ===== src/Blocklist/Engine.antt =====
-- internal/blocklist/engine.go and aggregate.go: a source, or the feeds of a category, becomes a
-- stored list. The fetcher and the repository are parameters: an outcome for each request, and
-- whether a save succeeds.
use phantomcore.Base.{
  ℕ, ◌+◌, Bool, true, false, ◌&&◌, ◌||◌, Option, none, some, List, [], ◌∷◌, ◌++◌, map, ◌==◌, Text,
  is_empty, same_text, to_lower, trim_space, trim_dot, any, text_discrete, if◌then◌else◌,
}
use phantomcore.Blocklist.Parser.{get_parser, has_path_byte}

-- What `Fetch` returns: an error, a body of nil with the known tag, or a body with its tag.
pub data Fetched : Type 0 where
  fetch_failed : Fetched
  not_modified : Text → Fetched
  fetched : Text → Text → Fetched

-- `models.BlocklistEntry`, without the time
pub record Entry : Type 0 where
  pub domain : Text
  pub source_id : Text
  pub category : Text

-- `Feed`
pub record Feed : Type 0 where
  pub name : Text
  pub url : Text
  pub format : Text

-- `normalizeDomain`
unfoldable pub normalize_domain : Text → Text
unfolding has_path_byte
normalize_domain raw =
    let d = trim_dot (to_lower (trim_space raw)) in if is_empty d || has_path_byte d then [] else d

-- The variables of `AggregateFeeds`: `seen` and the domains of `entries` in their order, how many
-- feeds were fetched, and whether `lastErr` is set.
pub record Progress : Type 0 where
  pub seen : List Text
  pub domains : List Text
  pub fetches : ℕ
  pub has_error : Bool

abbrev pub start : Progress
start = record { seen = []; domains = []; fetches = 0; has_error = false }

-- One round of the loop over parsed entries, which `StoreDomains` has too.
unfoldable pub add_domain : Progress → Text → Progress
unfolding normalize_domain any text_discrete
add_domain p raw =
    let d = normalize_domain raw in
    if is_empty d
    then p
    else if any (same_text d) p.seen
    then p
    else record p { seen = d ∷ p.seen; domains = p.domains ++ d ∷ [] }

unfoldable pub add_domains : Progress → List Text → Progress
unfolding add_domain
add_domains p [] = p
add_domains p (d ∷ ds) = add_domains (add_domain p d) ds

abbrev pub with_error : Progress → Progress
with_error p = record p { has_error = true }

abbrev pub with_fetch : Progress → Progress
with_fetch p = record p { fetches = p.fetches + 1 }

-- The entries of a feed whose body was fetched, unless its format or its text is bad.
unfoldable pub feed_entries : Feed → Text → Option (List Text)
unfolding get_parser
feed_entries f body = elim (get_parser f.format) [
  | none ↦ none
  | some parse ↦ let (entries, failed) = parse body in if failed then none else some entries
]

-- One round of the loop over feeds.
unfoldable pub add_feed : (Text → Fetched) → Progress → Feed → Progress
unfolding feed_entries add_domains
add_feed fetch p f = elim (fetch f.url) [
  | fetch_failed ↦ with_error p
  | not_modified tag ↦ with_fetch p
  | fetched body tag ↦ elim (feed_entries f body) [
    | none ↦ with_error p
    | some entries ↦ add_domains (with_fetch p) entries
  ]
]

unfoldable pub add_feeds : (Text → Fetched) → Progress → List Feed → Progress
unfolding add_feed
add_feeds fetch p [] = p
add_feeds fetch p (f ∷ fs) = add_feeds fetch (add_feed fetch p f) fs

-- The result: an error before or at the store, or the entries stored, whose number is returned.
pub data Outcome : Type 0 where
  all_failed : Outcome
  store_failed : List Entry → Outcome
  stored : List Entry → Outcome

abbrev pub entry_of : Text → Text → Text → Entry
entry_of source_id category d = record { domain = d; source_id = source_id; category = category }

-- `storeAggregate`
unfoldable pub store_aggregate : (List Entry → Bool) → Text → Text → List Text → Outcome
store_aggregate save source_id category domains =
    let entries = map (entry_of source_id category) domains in
    if save entries then stored entries else store_failed entries

-- `AggregateFeeds`
unfoldable pub aggregate_feeds :
    (Text → Fetched) → (List Entry → Bool) → Text → Text → List Feed → Outcome
unfolding add_feeds store_aggregate
aggregate_feeds fetch save source_id category feeds =
    let p = add_feeds fetch start feeds in
    if p.fetches == 0 && p.has_error
    then all_failed
    else store_aggregate save source_id category p.domains

-- `StoreDomains`
unfoldable pub store_domains : (List Entry → Bool) → Text → Text → List Text → Outcome
unfolding add_domains store_aggregate
store_domains save source_id category domains =
    store_aggregate save source_id category (add_domains start domains).domains

-- `models.BlocklistSource`, as far as `UpdateSource` reads it
pub record Source : Type 0 where
  pub id : Text
  pub url : Text
  pub format : Text
  pub category : Text
  pub enabled : Bool

-- The ways out of `UpdateSource`: nothing to do, an error, or a snapshot saved under a checksum and
-- the tag for the next request.
pub data Update : Type 0 where
  skipped : Update
  unchanged : Text → Update
  failed_fetch : Update
  no_parser : Update
  failed_parse : Update
  failed_save : Update
  saved : (checksum tag : Text) → List Entry → Update

-- `UpdateSource`; the fetcher is asked with the known tag, `hash` is the SHA-256 in hex.
unfoldable pub update_source :
    (Text → Text → Fetched) → (Text → Text) → (List Entry → Bool) → Source → Text → Update
unfolding get_parser
update_source fetch hash save src known_tag =
    let parsed : Text → Text → Update = λ body tag. elim (get_parser src.format) [
      | none ↦ no_parser
      | some parse ↦
          let (domains, failed) = parse body in
          let entries = map (entry_of src.id src.category) domains in
          if failed
          then failed_parse
          else if save entries
          then saved (hash body) tag entries
          else failed_save
    ] in
    let asked : Update = elim (fetch src.url known_tag) [
      | fetch_failed ↦ failed_fetch
      | not_modified tag ↦ unchanged tag
      | fetched body tag ↦ parsed body tag
    ] in
    if src.enabled then asked else skipped
