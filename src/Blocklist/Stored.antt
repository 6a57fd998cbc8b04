-- ===== src/Blocklist/Stored.antt =====
-- internal/blocklist/aggregate.go: what AggregateFeeds and StoreDomains store, and when they fail.
use phantomcore.Base.{
  ◌+◌, ◌≡◌, ◌≢◌, ◌↔◌, inl, inr, ◌⊎◌, ltb, refl, sym, ◌∙◌, Bool, true, false, not, ◌&&◌, ◌||◌, none,
  some, List, [], ◌∷◌, ◌++◌, map, length, ◌==◌, arith, Text, Bool-cases, Option-cases,
  if◌then◌else◌, subst,
}
use phantomcore.Blocklist.Engine.{
  Fetched, fetch_failed, not_modified, fetched, Entry, Feed, Progress, start, add_domain,
  add_domains, with_fetch, feed_entries, add_feed, add_feeds, all_failed, store_failed, stored,
  entry_of, store_aggregate, aggregate_feeds,
}
use phantomcore.Blocklist.Gathered.{Gathers, add_domains-Gathers}

module _ (fetch : Text → Fetched) where
  -- The raw entries that a feed gives: none when it fails or has not changed.
  abbrev pub entries_of : Feed → List Text
  entries_of f = elim (fetch f.url) [
    | fetch_failed ↦ []
    | not_modified tag ↦ []
    | fetched body tag ↦ elim (feed_entries f body) [ none ↦ [] | some entries ↦ entries ]
  ]

  -- Whether a feed is counted as fetched.
  abbrev pub answers : Feed → Bool
  answers f = elim (fetch f.url) [
    | fetch_failed ↦ false
    | not_modified tag ↦ true
    | fetched body tag ↦ elim (feed_entries f body) [ none ↦ false | some entries ↦ true ]
  ]

  abbrev pub all_entries : List Feed → List Text
  all_entries [] = []
  all_entries (f ∷ fs) = entries_of f ++ all_entries fs

  abbrev pub silent : List Feed → Bool
  silent [] = true
  silent (f ∷ fs) = not (answers f) && silent fs

-- Two states with the same domains gathered so far.
abbrev Agree : Progress → Progress → Type 0
Agree p q = (p.seen ≡ q.seen) × (p.domains ≡ q.domains)

add_domain-Agree :
    (p q : Progress) (raw : Text) → Agree p q → Agree (add_domain p raw) (add_domain q raw)
unfolding add_domain
add_domain-Agree p q raw h = ground (arith, h)

add_domains-Agree :
    (p q : Progress) (raws : List Text)
    → Agree p q
    → Agree (add_domains p raws) (add_domains q raws)
unfolding add_domains
add_domains-Agree p q [] h = h
add_domains-Agree p q (r ∷ raws) h =
    add_domains-Agree (add_domain p r) (add_domain q r) raws (add_domain-Agree p q r h)

add_domains_append :
    (p : Progress) (xs ys : List Text)
    → add_domains p (xs ++ ys) ≡ add_domains (add_domains p xs) ys
unfolding add_domains
add_domains_append p [] ys = refl
add_domains_append p (x ∷ xs) ys = add_domains_append (add_domain p x) xs ys

add_domain-counts :
    (p : Progress) (raw : Text)
    → ((add_domain p raw).fetches ≡ p.fetches) × ((add_domain p raw).has_error ≡ p.has_error)
unfolding add_domain
add_domain-counts p raw = ground arith

add_domains-counts :
    (p : Progress) (raws : List Text)
    → ((add_domains p raws).fetches ≡ p.fetches) × ((add_domains p raws).has_error ≡ p.has_error)
unfolding add_domains
add_domains-counts p [] = (refl, refl)
add_domains-counts p (r ∷ raws) =
    let (a, b) = add_domains-counts (add_domain p r) raws in
    let (c, d) = add_domain-counts p r in (a ∙ c, b ∙ d)

pub Fetched-cases :
    (r : Fetched)
    → (r ≡ fetch_failed)
      ⊎ (((tag : Text) × (r ≡ not_modified tag))
          ⊎ ((body : Text) × ((tag : Text) × (r ≡ fetched body tag))))
Fetched-cases fetch_failed = inl refl
Fetched-cases (not_modified tag) = inr (inl (tag, refl))
Fetched-cases (fetched body tag) = inr (inr (body, (tag, refl)))

module _ (fetch : Text → Fetched) where
  add_feed-Agree :
      (p : Progress) (f : Feed) → Agree (add_feed fetch p f) (add_domains p (entries_of fetch f))
  unfolding add_feed add_domains
  add_feed-Agree p f = elim (Fetched-cases (fetch f.url)) [
    | inl e ↦ rw (add_feed, entries_of, e) (refl, refl)
    | inr (inl (tag, e)) ↦ rw (add_feed, entries_of, e) (refl, refl)
    | inr (inr (body, (tag, e))) ↦ elim (Option-cases (feed_entries f body)) [
      | inl e' ↦ rw (add_feed, entries_of, e, e') (refl, refl)
      | inr (raws, e') ↦
          rw (add_feed, entries_of, e, e') (add_domains-Agree (with_fetch p) p raws (refl, refl))
    ]
  ]

  add_feed-counts :
      (p : Progress) (f : Feed)
      → ((add_feed fetch p f).fetches ≡ (if answers fetch f then 1 else 0) + p.fetches)
        × ((add_feed fetch p f).has_error ≡ not (answers fetch f) || p.has_error)
  unfolding add_feed
  add_feed-counts p f = elim (Fetched-cases (fetch f.url)) [
    | inl e ↦ ground (arith, e)
    | inr (inl (tag, e)) ↦ ground (arith, e)
    | inr (inr (body, (tag, e))) ↦ elim (Option-cases (feed_entries f body)) [
      | inl e' ↦ ground (arith, e, e')
      | inr (raws, e') ↦
          let same = add_domains-counts (with_fetch p) raws in ground (arith, e, e', same)
    ]
  ]

  add_feeds-Agree :
      (p q : Progress) (fs : List Feed)
      → Agree p q
      → Agree (add_feeds fetch p fs) (add_domains q (all_entries fetch fs))
  unfolding add_feeds add_domains
  add_feeds-Agree p q [] h = h
  add_feeds-Agree p q (f ∷ fs) h =
      let (a, b) = add_feed-Agree p f in
      let (c, d) = add_domains-Agree p q (entries_of fetch f) h in
      let next = add_domains q (entries_of fetch f) in
      rw (add_domains_append q (entries_of fetch f) (all_entries fetch fs))
        (add_feeds-Agree (add_feed fetch p f) next fs (a ∙ c, b ∙ d))

  add_feeds-silent :
      (p : Progress) (fs : List Feed)
      → ((add_feeds fetch p fs).fetches == 0) && (add_feeds fetch p fs).has_error
        ≡ silent fetch fs && ((p.fetches == 0) && (p.has_error || ltb 0 (length fs)))
  unfolding add_feeds
  add_feeds-silent p [] = ground arith
  add_feeds-silent p (f ∷ fs) =
      let (a, b) = add_feed-counts p f in
      let rest = add_feeds-silent (add_feed fetch p f) fs in ground (arith, a, b, rest)

module _ (fetch : Text → Fetched) (save : List Entry → Bool) (source_id category : Text) where
  -- AggregateFeeds reports that all feeds failed, and stores nothing, exactly when there are feeds
  -- and not one of them answered with an unchanged or a readable list.
  pub aggregate_feeds_fails_iff :
      (feeds : List Feed)
      → (aggregate_feeds fetch save source_id category feeds ≡ all_failed)
        ↔ ((silent fetch feeds ≡ true) × (feeds ≢ []))
  unfolding aggregate_feeds store_aggregate
  aggregate_feeds_fails_iff feeds =
      let e = add_feeds-silent fetch start feeds in
      let cond =
        ((add_feeds fetch start feeds).fetches == 0) && (add_feeds fetch start feeds).has_error in
      elim (Bool-cases cond) [
        | inl c ↦ (
          λ h. (ground (arith, e, c), λ q. no_feeds feeds (ground (arith, e, c)) q),
          λ h. ground (arith, c),
        )
        | inr c ↦ (
          λ h. absurd (not_failed (add_feeds fetch start feeds).domains (ground (arith, h, c))),
          λ (quiet, given).
              let given_lem = some_feed feeds given in
              absurd (ground (arith, e, c, quiet, given_lem)),
        )
      ]
    where
      no_feeds : (fs : List Feed) → ltb 0 (length fs) ≡ true → fs ≢ []
      no_feeds [] h q = cc
      no_feeds (f ∷ fs) h q = cc

      some_feed : (fs : List Feed) → fs ≢ [] → ltb 0 (length fs) ≡ true
      some_feed [] h = absurd (h refl)
      some_feed (f ∷ fs) h = ground arith

      not_failed : (ds : List Text) → store_aggregate save source_id category ds ≢ all_failed
      not_failed ds h = ground (arith, h)

  -- What AggregateFeeds stores, or fails to store, has one entry for each domain that a readable feed
  -- names, in any case, with blanks or a final dot, and no domain twice; a feed that fails takes
  -- nothing away from the others.
  pub aggregate_feeds-Gathers :
      (feeds : List Feed) (entries : List Entry)
      → (aggregate_feeds fetch save source_id category feeds ≡ stored entries)
        ⊎ (aggregate_feeds fetch save source_id category feeds ≡ store_failed entries)
      → (ds : List Text) × (entries ≡ map (entry_of source_id category) ds)
        × Gathers (all_entries fetch feeds) ds
  unfolding aggregate_feeds store_aggregate
  aggregate_feeds-Gathers feeds entries h =
      let (a, b) = add_feeds-Agree fetch start start feeds (refl, refl) in
      (
        (add_feeds fetch start feeds).domains,
        ground (arith, h),
        subst (Gathers (all_entries fetch feeds)) (sym b)
            (add_domains-Gathers (all_entries fetch feeds)),
      )
