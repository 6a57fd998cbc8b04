-- ===== src/Nrd/Refresh.antt =====
-- internal/nrd/checker.go: what the checker lists after a refresh.
use phantomcore.Base.{
  ◌≡◌, ◌⊎◌, ◌↔◌, inl, inr, refl, ap, sym, true, false, none, some, List, arith, Text, is_empty,
  Member, split_at, Bool-cases, Option-cases, subst,
}
use phantomcore.Blocklist.Parser.{Parser, get_parser}
use phantomcore.Blocklist.Engine.{Fetched, fetched}
use phantomcore.Blocklist.Stored.{Fetched-cases}
use phantomcore.Nrd.{normalize, new_set}
use phantomcore.Nrd.Matches.{parents, IsListed, contains-new_set_iff}
use phantomcore.Nrd.Checker.{Checker, is_listed, with_domains, load, known_tag, refresh}

-- The domain or a parent of it, up to normalization, among the entries of a feed.
abbrev pub IsCovered : Text → List Text → Type 0
IsCovered domain ds =
    (n : Text) × Member n (parents (split_at b'.' (normalize domain))) × IsListed n ds

-- A fetched body that the parser of the format reads to its end.
pub record Loads (fetch : Text → Text → Fetched) (c : Checker) (ds : List Text) : Type 0 where
  pub configured : is_empty c.cfg.feed_url ≡ false
  pub body : Text
  pub tag : Text
  pub parse : Parser
  pub answered : fetch c.cfg.feed_url (known_tag c.tag) ≡ fetched body tag
  pub known : get_parser c.cfg.format ≡ some parse
  pub entries : parse body ≡ (ds, false)

load-new_set :
    (c : Checker) (body : Text) (parse : Parser) (ds : List Text)
    → get_parser c.cfg.format ≡ some parse
    → parse body ≡ (ds, false)
    → load c body ≡ some (record c { listed = new_set ds })
unfolding load with_domains
load-new_set c body parse ds h k = rw (load, h, k) refl

load_cases :
    (c : Checker) (body : Text)
    → (load c body ≡ none)
      ⊎ ((parse : Parser) × (get_parser c.cfg.format ≡ some parse)
          × ((ds : List Text) × (parse body ≡ (ds, false))))
unfolding load with_domains
load_cases c body = elim (Option-cases (get_parser c.cfg.format)) [
  | inl e ↦ inl (rw (load, e) refl)
  | inr (parse, e) ↦ elim (Bool-cases (parse body).1) [
    | inl bad ↦ inl (rw (load, e) (ground (arith, bad)))
    | inr good ↦ inr (parse, e, ((parse body).0, ap (λ b. ((parse body).0, b)) good))
  ]
]

pub refresh-Loads :
    (fetch : Text → Text → Fetched) (c : Checker) (ds : List Text) (l : Loads fetch c ds)
    → (refresh fetch c).1 ≡ record c { listed = new_set ds; tag = some l.tag }
unfolding refresh
refresh-Loads fetch c ds l =
    rw (refresh, l.configured, l.answered, load-new_set c l.body l.parse ds l.known l.entries) refl

-- A refresh that gets a readable feed makes the checker list exactly the names that the feed covers:
-- those that it has, or a parent of which with two labels or more it has, up to normalization.
pub refresh_listed_iff :
    (fetch : Text → Text → Fetched) (c : Checker) (ds : List Text) (domain : Text)
    → Loads fetch c ds
    → (is_listed (some (refresh fetch c).1) domain ≡ true) ↔ IsCovered domain ds
unfolding is_listed
refresh_listed_iff fetch c ds domain l =
    subst (λ s. (is_listed (some s) domain ≡ true) ↔ IsCovered domain ds)
      (sym (refresh-Loads fetch c ds l)) (contains-new_set_iff ds domain)

-- A refresh leaves the checker as it was, its set and its tag included, unless the fetcher brings a
-- body that the parser of the format reads to its end.
pub refresh_cases :
    (fetch : Text → Text → Fetched) (c : Checker)
    → ((refresh fetch c).1 ≡ c) ⊎ ((ds : List Text) × Loads fetch c ds)
unfolding refresh
refresh_cases fetch c = elim (Bool-cases (is_empty c.cfg.feed_url)) [
  | inl off ↦ inl (rw (refresh, off) refl)
  | inr on ↦ elim (Fetched-cases (fetch c.cfg.feed_url (known_tag c.tag))) [
    | inl e ↦ inl (rw (refresh, on, e) refl)
    | inr (inl (t, e)) ↦ inl (rw (refresh, on, e) refl)
    | inr (inr (body, (t, e))) ↦ elim (load_cases c body) [
      | inl bad ↦ inl (rw (refresh, on, e, bad) refl)
      | inr (parse, known, (ds, entries)) ↦ inr (
        ds,
        record {
          configured = on;
          body = body;
          tag = t;
          parse = parse;
          answered = e;
          known = known;
          entries = entries;
        },
      )
    ]
  ]
]
