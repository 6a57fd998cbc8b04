-- ===== src/Dns/Forward.antt =====
-- internal/dnsengine/engine.go: the upstream path. A message written is an attempt: the code only
-- logs a failing write.
use phantomcore.Base.{
  ℕ, Bool, true, false, ◌&&◌, ◌||◌, Option, none, some, List, [], ◌∷◌, ltb, ◌==◌, Text,
  if◌then◌else◌, map, length,
}
use phantomcore.Message.{Msg, type_a, type_aaaa, rcode_success, rcode_server_failure}
use phantomcore.Cache
use phantomcore.Cache.{AnswerCache, CacheEntry, cache_key, reply}
use phantomcore.FastFlux
use phantomcore.FastFlux.{Tracker}
use phantomcore.Dns.State.{Wiring, Engine, Effect, ask_upstream, Call}
use phantomcore.Dns.Answering.{respond_blocked, filter_rebind, answer_ips, extract_answer_ips}

-- `forwardOutcome`
pub record ForwardOutcome : Type 0 where
  pub fast_flux : Bool
  pub geo_matched : Bool
  pub geo_blocked : Bool
  pub geo_reason : Text

abbrev pub no_outcome : ForwardOutcome
no_outcome = record { fast_flux = false; geo_matched = false; geo_blocked = false; geo_reason = [] }

-- `staleTTL`
abbrev pub stale_ttl : ℕ
stale_ttl = 30

-- What forwarding ends with: the engine, the message written to the client, the outcome.
pub record Forwarded : Type 0 where
  pub engine : Engine
  pub reply : Msg
  pub outcome : ForwardOutcome

-- The stale entry that stands in for the upstream, when serve-stale is on.
unfoldable pub stale_entry : Engine → Call → Option AnswerCache × Option CacheEntry
stale_entry e c =
    if e.serve_stale
    then elim (e.cache) [
      | none ↦ (none, none)
      | some store ↦
          let (store', found) = Cache.get_stale store c.now (cache_key c.question) in
          (some store', found)
    ]
    else (e.cache, none)

-- `forwardUpstream` without an answer: a stale entry, or SERVFAIL.
unfoldable pub forward_failed : Wiring → Engine → Call → Forwarded
unfolding stale_entry
forward_failed wired e c =
    let (store, found) = stale_entry e c in
    record {
      engine = record e { cache = store };
      reply = elim found [
        | none ↦ wired.set_rcode c.msg rcode_server_failure
        | some ent ↦ reply ent c.msg stale_ttl
      ];
      outcome = no_outcome;
    }

-- The answer put away for serve-stale.
unfoldable pub remember : Engine → Call → Msg → Engine
remember e c resp =
    if e.serve_stale && resp.rcode == rcode_success
    then elim (e.cache) [
      | none ↦ e
      | some store ↦ record e { cache = some (Cache.put store c.now (cache_key c.question) resp) }
    ]
    else e

-- A nil address is the empty one.
abbrev key_of : Wiring → List ℕ → Option Text
key_of wired ip = elim ip [ [] ↦ none | b ∷ bs ↦ some (wired.ip_string (b ∷ bs)) ]

-- The answer shown to the fast-flux tracker.
unfoldable pub watch_flux : Wiring → Engine → Call → Msg → Engine × Bool
watch_flux wired e c resp = elim (e.fast_flux) [
  | none ↦ (e, false)
  | some t ↦ elim (extract_answer_ips resp) [
    | none ↦ (e, false)
    | some (ips, ttl) ↦
        let (t', flagged) = FastFlux.observe t c.now c.domain (map (key_of wired) ips) ttl in
        (record e { fast_flux = some t' }, flagged)
  ]
]

-- Rebind protection: the answer that is left, `none` when the query is blocked instead.
unfoldable pub protect : Wiring → Engine → Call → Msg → Option Msg
protect wired e c resp =
    let (kept, dropped) = filter_rebind (wired.is_internal) resp.answer in
    let qtype = c.question.qtype in
    let is_address = qtype == type_a || qtype == type_aaaa in
    if e.rebind_protection && ltb 0 dropped
    then if length kept == 0 && is_address then none else some (record resp { answer = kept })
    else some resp

-- The GeoIP filter: what is written, and what it found.
unfoldable pub filter_geo : Wiring → Call → Bool → Msg → Msg × ForwardOutcome
filter_geo wired c flux resp =
    let quiet : ForwardOutcome = record no_outcome { fast_flux = flux } in
    elim (wired.geo) [
      | none ↦ (resp, quiet)
      | some geo ↦
          let d = geo (answer_ips resp.answer) in
          let found : ForwardOutcome = record quiet {
            geo_matched = true;
            geo_reason = d.reason;
            geo_blocked = d.block;
          } in
          if d.matched
          then ((if d.block then respond_blocked wired c else resp), found)
          else (resp, quiet)
    ]

-- `forwardUpstream` with an answer.
unfoldable pub forward_answer : Wiring → Engine → Call → Msg → Forwarded
unfolding remember watch_flux protect filter_geo
forward_answer wired e c resp =
    let (e', flux) = watch_flux wired (remember e c resp) c resp in
    elim (protect wired e' c resp) [
      | none ↦ record {
        engine = e';
        reply = respond_blocked wired c;
        outcome = record no_outcome { fast_flux = flux };
      }
      | some left ↦
          let (out, found) = filter_geo wired c flux left in
          record { engine = e'; reply = out; outcome = found }
    ]

-- The upstream's answer to a message: `none` for an error, no answer, or no resolvers.
unfoldable pub answer_of : Option (Msg → Option Msg) → Msg → Option Msg
answer_of none m = none
answer_of (some ex) m = ex m

unfoldable pub settle : Wiring → Engine → Call → Option Msg → Forwarded
unfolding forward_failed forward_answer
settle wired e c none = forward_failed wired e c
settle wired e c (some resp) = forward_answer wired e c resp

-- `forwardUpstream`: without resolvers nobody is asked.
unfoldable pub forward_upstream : Wiring → Engine → Call → List Effect × Forwarded
unfolding answer_of settle
forward_upstream wired e c = (
  elim (wired.exchange) [ none ↦ [] | some _ ↦ ask_upstream c.msg ∷ [] ],
  settle wired e c (answer_of (wired.exchange) c.msg),
)
