-- ===== src/Tests/Queries.antt =====
-- internal/dnsengine/engine.go at concrete inputs, wired to the policy engine.
use phantomcore.Base.{
  ℕ, ◌+◌, ◌*◌, ◌≡◌, ◌≢◌, ◌⊎◌, ◌↔◌, refl, inl, inr, Bool, true, false, ◌&&◌, Option, none, some,
  List, [], ◌∷◌, ◌++◌, length, pos, arith, Member, ltb, ◌==◌, Text, text, same_text, if◌then◌else◌,
  text_discrete, lookup, insert,
}
use phantomcore.Message.{a, Rr, Question, Msg, type_a, rcode_server_failure}
use phantomcore.Policy.Engine.{evaluate, is_explicitly_allowed}
use phantomcore.RateLimit
use phantomcore.Cache
use phantomcore.Cache.{AnswerCache, CacheEntry, second, min_ttl, cache_key, reply}
use phantomcore.Cache.Steps
use phantomcore.Dns.State.{answered, Wiring, Engine, Call}
use phantomcore.Dns.Forward.{forward_answer, forward_upstream, answer_of, stale_ttl}
use phantomcore.Dns.Answering.{is_rebind, respond_blocked}
use phantomcore.Dns.Process.{is_blocklisted, call_of, handle, process}
use phantomcore.Dns.Effects.{count, is_write, is_ask, is_export, is_metric}
use phantomcore.Dns.Precedence.{threat_of}
use phantomcore.Dns.Clearance.{may_forward, asked_if}
use phantomcore.Dns.Replies.{behind_limiter, process_writes, process_asks}
use phantomcore.Dns.Denials.{IsDenied, handle_denied}
use phantomcore.Dns.Filters.{forward_answer-safe}
use phantomcore.Dns.Stale.{forward_upstream-stale}
use phantomcore.Tests.Fixtures.{os, snapshot}

abbrev question : Question
question = record { name = text "Good.com."; qtype = type_a; qclass = 1 }

abbrev query : Msg
query = record {
  id = 7;
  response = false;
  rcode = 0;
  question = question ∷ [];
  answer = [];
  ns = [];
  extra = [];
}

abbrev pub public_rr : Rr
public_rr = record { name = text "good.com."; ttl = 60; rdata = a (192 ∷ 0 ∷ 2 ∷ 1 ∷ []) }

abbrev private_rr : Rr
private_rr = record { name = text "good.com."; ttl = 60; rdata = a (10 ∷ 0 ∷ 0 ∷ 1 ∷ []) }

abbrev pub response : Msg
response = record query { response = true; answer = public_rr ∷ private_rr ∷ [] }

abbrev is_ten : List ℕ → Bool
is_ten [] = false
is_ten (b ∷ _) = b == 10

-- A blocklist of one name, the policies of the fixtures, and an upstream that answers.
abbrev pub wired : Wiring
wired = record {
  blocklist = some (λ d. answered (same_text d (text "evil.com")));
  nrd = none;
  evaluate = λ d c. some (evaluate os snapshot 7 d c);
  is_explicitly_allowed = λ d c. is_explicitly_allowed os snapshot 7 d c;
  analyze = none;
  exchange = some (λ _. some response);
  geo = none;
  split_host_port = λ _. none;
  set_reply = λ m. record m { response = true };
  set_rcode = λ m code. record m { response = true; rcode = code };
  new_rr = λ _. none;
  fqdn = λ d. d ++ b'.' ∷ [];
  ip_string = λ ip. ip;
  is_internal = is_ten;
}

abbrev store : AnswerCache
store = Cache.new (pos 8) (pos 10)

abbrev pub engine : Engine
engine = record {
  accept_queries = true;
  serve_stale = true;
  nod_block = false;
  threat_block_threshold = 0;
  threat_block_dry_run = false;
  abused_tlds = [];
  rebind_protection = true;
  safe_search = false;
  has_query_log = true;
  has_alerter = true;
  rate_limiter = some (RateLimit.new (pos 5));
  nod_ledger = none;
  fast_flux = none;
  cache = some store;
}

process_writes_example :
    count is_write (process wired engine query (some (text "10.0.0.9:5353")) 50).1 ≡ 1
process_writes_example =
    process_writes wired engine query (some (text "10.0.0.9:5353")) 50 question [] refl

process_asks_example :
    let c = call_of query question (some (text "10.0.0.9:5353")) 50 in
    (count is_export (process wired engine query (some (text "10.0.0.9:5353")) 50).1 ≡ 1)
    × (count is_metric (process wired engine query (some (text "10.0.0.9:5353")) 50).1 ≡ 1)
    × (count is_ask (process wired engine query (some (text "10.0.0.9:5353")) 50).1
        ≡ asked_if
            (may_forward wired
              (behind_limiter wired engine (some (text "10.0.0.9:5353")) 50)
              c
              (threat_of wired c))
            wired)
unfolding RateLimit.allow_any RateLimit.allow RateLimit.admit RateLimit.find_window RateLimit.roll
    RateLimit.new lookup
process_asks_example =
    process_asks wired engine query (some (text "10.0.0.9:5353")) 50 question [] refl refl refl

-- The engine while it shuts down.
abbrev closing : Engine
closing = record engine { accept_queries = false }

abbrev pub evil : Call
evil = record {
  msg = query;
  question = record question { name = text "evil.com." };
  domain = text "evil.com";
  client_ip = text "10.0.0.9:5353";
  now = 50;
}

evil-IsDenied : IsDenied wired evil
unfolding is_blocklisted text_discrete is_explicitly_allowed phantomcore.Base.split_at
    phantomcore.Policy.Types.normalize_domain phantomcore.Base.trim_dot phantomcore.Base.to_lower
    phantomcore.Base.trim_space phantomcore.Policy.Engine.has_scoped_allow phantomcore.Base.any
    phantomcore.Policy.Engine.filter_active phantomcore.Policy.Engine.exact_at
    phantomcore.Policy.Snapshot.build_snapshot lookup phantomcore.Base.contains_byte
    phantomcore.Base.has_prefix insert phantomcore.Base.join_with
    phantomcore.Policy.Engine.dynamic_candidates phantomcore.Policy.Engine.wildcard_matches
    phantomcore.Base.keep phantomcore.Base.has_suffix
evil-IsDenied = inl (refl, refl)

handle_denied_example :
    (count is_ask (handle wired engine evil).1 ≡ 0) × ((handle wired engine evil).0 ≡ engine)
handle_denied_example = handle_denied wired engine evil evil-IsDenied

abbrev pub good : Call
good = record evil { question = question; domain = text "good.com" }

forward_answer-safe_example :
    ((forward_answer wired engine good response).reply ≡ respond_blocked wired good)
    ⊎ ((rr : Rr)
        → Member rr (forward_answer wired engine good response).reply.answer
        → is_rebind is_ten rr ≡ false)
forward_answer-safe_example = forward_answer-safe wired engine good response refl

-- The same wiring while the upstream is away, and a later query.
abbrev cut_off : Wiring
cut_off = record wired { exchange = none }

abbrev later : Call
later = record good { now = 100 }

abbrev entry : CacheEntry
entry = record { msg = response; expires_at = good.now + min_ttl response * second }

forward_upstream-stale_example :
    (forward_upstream cut_off (forward_upstream wired engine good).1.engine later).1.reply ≡ (
      if ltb (entry.expires_at + store.stale_for) later.now
      then cut_off.set_rcode later.msg rcode_server_failure
      else reply entry later.msg stale_ttl)
unfolding answer_of min_ttl Cache.min_ttl_from
forward_upstream-stale_example =
    forward_upstream-stale wired cut_off engine good later store response
      (Cache.Steps.new-IsValid (pos 8) (pos 10)) refl refl refl refl (λ e. ground arith) refl refl
