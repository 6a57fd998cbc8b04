-- ===== src/Tests/Plane.antt =====
-- The data plane put together, at concrete inputs.
use phantomcore.Base.{
  ℕ, ◌≡◌, ◌≢◌, ◌⊎◌, inl, inr, refl, Bool, true, false, Option, none, some, List, [], ◌∷◌, pos,
  subst, Text, text, same_text, if◌then◌else◌, text_discrete, Member, arith, lower_byte, to_upper,
}
use phantomcore.Policy.Types.{Policy, allow, action_of, normalize_domain}
use phantomcore.Blocklist.Parser
use phantomcore.Blocklist.Parser.{parse_domains}
use phantomcore.Blocklist.Engine.{Fetched, fetched}
use phantomcore.Nrd
use phantomcore.Nrd.Checker.{Checker, new_checker}
use phantomcore.Nrd.Refresh.{Loads, IsCovered, refresh_cases}
use phantomcore.Dns.Effects.{count, is_ask}
use phantomcore.Dns.Process.{is_blocklisted, handle}
use phantomcore.Dns.State.{Call}
use phantomcore.Node.Startup.{Parts, attach}
use phantomcore.Node.Feeding.{with_refresh, refresh-handle}
use phantomcore.Node.Ruling.{IsLoaded, with_policies, reload_policies-handle}
use phantomcore.Policy.Schedule.{active, compile_schedule}
use phantomcore.Policy.Snapshot.{with_schedule}
use phantomcore.Policy.Coverage.{Covers}
use phantomcore.Tests.Fixtures.{os, snapshot, block}
use phantomcore.Geo.{Filter, Resolver, new_filter}
use phantomcore.Geo.Blocked.{IsBlocked}
use phantomcore.Dns.Answering.{answer_ips, respond_blocked}
use phantomcore.Dns.Forward.{forward_answer}
use phantomcore.Node.Answers.{with_filter, forward_answer-IsBlocked}
use phantomcore.Tests.Queries.{wired, engine, evil, response, good}
use phantomcore.Tests.Lookalikes.{outside, detector}

abbrev checker : Checker
checker =
    new_checker (record {
      feed_url = text "http://feed";
      block = true;
      refresh_interval = pos 0;
      format = [];
    })

abbrev parts : Parts
parts = record {
  os = os;
  snapshot = snapshot;
  checker = checker;
  outside = outside;
  detector = detector;
  geo = none;
  manager = record { upstreams = []; dns0x20 = false };
  draws = [];
}

-- A feed of one domain.
abbrev feed : Text → Text → Fetched
feed url tag = fetched (text "# new\nFresh.org.\n") (text "e2")

feed-Loads : Loads feed checker (text "fresh.org" ∷ [])
unfolding new_checker phantomcore.Nrd.Checker.interval_or_default Parser.get_parser parse_domains
    Parser.scan_lines Parser.scan_pieces Parser.strip_return Parser.collect Parser.domain_of_line
    Parser.is_comment Parser.first_word Parser.trim_star Parser.has_path_byte text_discrete
    phantomcore.Base.contains_byte phantomcore.Base.has_prefix phantomcore.Base.split_at
    phantomcore.Base.trim_space phantomcore.Base.trim_left phantomcore.Base.trim_right
    phantomcore.Base.trim_dot phantomcore.Base.to_lower phantomcore.Base.lower_byte
feed-Loads = record {
  configured = refl;
  body = text "# new\nFresh.org.\n";
  tag = text "e2";
  parse = parse_domains;
  answered = refl;
  known = refl;
  entries = refl;
}

abbrev fresh : Call
fresh = record evil { domain = text "login.fresh.org" }

fresh-IsCovered : IsCovered fresh.domain (text "fresh.org" ∷ [])
unfolding phantomcore.Nrd.normalize phantomcore.Base.split_at phantomcore.Base.join_with
    phantomcore.Base.trim_space phantomcore.Base.trim_left phantomcore.Base.trim_right
    phantomcore.Base.trim_dot phantomcore.Base.to_lower phantomcore.Base.lower_byte
fresh-IsCovered = (text "fresh.org", inr (inl refl), (text "fresh.org", inl refl, refl, refl))

refresh-handle_example :
    (count is_ask (handle (attach wired (with_refresh parts feed) fresh.now) engine fresh).1 ≡ 0)
    × ((handle (attach wired (with_refresh parts feed) fresh.now) engine fresh).0 ≡ engine)
unfolding new_checker is_blocklisted text_discrete
refresh-handle_example =
    refresh-handle wired parts feed (text "fresh.org" ∷ []) engine fresh feed-Loads refl
      fresh-IsCovered refl

refresh_cases_example :
    ((phantomcore.Nrd.Checker.refresh feed checker).1 ≡ checker)
    ⊎ ((ds : List Text) × Loads feed checker ds)
refresh_cases_example = refresh_cases feed checker

abbrev bad : Call
bad = record evil { domain = text "bad.com" }

bad-Covers : Covers os (normalize_domain bad.domain) block
unfolding normalize_domain phantomcore.Base.split_at phantomcore.Base.join_with
    phantomcore.Base.contains_byte phantomcore.Base.trim_space phantomcore.Base.trim_left
    phantomcore.Base.trim_right phantomcore.Base.trim_dot phantomcore.Base.to_lower
    phantomcore.Base.lower_byte
bad-Covers = inl (text "bad.com", text "Bad.com", inl refl, inl refl, refl, refl)

blocks : action_of block.action ≢ allow
unfolding action_of to_upper phantomcore.Base.upper_byte text_discrete
blocks e = ground arith

only_block : (q : Policy) → IsLoaded [] (some (block ∷ [])) q → q ≡ block
only_block q (inl m) = absurd m
only_block q (inr (ps, e, m)) =
    let same : ps ≡ block ∷ [] = cc in
    elim (subst (Member q) same m) [ inl k ↦ k | inr k ↦ absurd k ]

block_in_force : active (with_schedule os block) bad.now ≡ true
unfolding with_schedule active compile_schedule phantomcore.Policy.Schedule.has_schedule
    phantomcore.Base.trim_space
block_in_force = refl

reload_policies-handle_example :
    let loaded = with_policies parts [] (some (block ∷ [])) in
    (count is_ask (handle (attach wired loaded bad.now) engine bad).1 ≡ 0)
    × ((handle (attach wired loaded bad.now) engine bad).0 ≡ engine)
unfolding is_blocklisted text_discrete
reload_policies-handle_example =
    reload_policies-handle wired parts [] (some (block ∷ [])) engine bad block
      (inr (block ∷ [], refl, inl refl)) bad-Covers refl block_in_force
      (λ q is _ e. blocks (cc (only_block q is, e))) refl

-- All addresses are of one network, which the filter blocks.
abbrev one_network : Resolver
one_network ip = some (64500, text "us")

abbrev network_filter : Filter
network_filter = record {
  resolver = one_network;
  blocked_asns = 64500 ∷ [];
  blocked_countries = [];
  block = true;
}

new_network_filter : new_filter (some one_network) (64500 ∷ []) [] true ≡ some network_filter
unfolding new_filter phantomcore.Geo.country_set
new_network_filter = refl

forward_answer-IsBlocked_example :
    let filtered = attach wired (with_filter parts network_filter) 7 in
    ((forward_answer filtered engine good response).reply ≡ respond_blocked filtered good)
    ⊎ ((ip : List ℕ)
        → Member ip (answer_ips (forward_answer filtered engine good response).reply.answer)
        → ¬ IsBlocked one_network (64500 ∷ []) [] ip)
forward_answer-IsBlocked_example =
    forward_answer-IsBlocked wired parts one_network (64500 ∷ []) [] network_filter 7 engine good
      response new_network_filter
