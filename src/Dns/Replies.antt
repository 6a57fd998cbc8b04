-- ===== src/Dns/Replies.antt =====
-- internal/dnsengine/engine.go: every query gets one answer, one exported event and one metric.
use phantomcore.Base.{ℕ, ◌≡◌, refl, Bool, true, false, ◌&&◌, Option, List, [], ◌∷◌, Text, arith}
use phantomcore.Message.{Question, Msg, rcode_refused}
use phantomcore.RateLimit.{Limiter, allow_any}
use phantomcore.Dns.State.{Wiring, Engine, write, record_metric, Call}
use phantomcore.Dns.Process.{resolve, client_ip_from_addr, call_of, handle, process}
use phantomcore.Dns.Effects.{count, is_write, is_ask, is_export, is_metric, Counts, append-Counts}
use phantomcore.Dns.Precedence.{threat_of, resolve-Tallies}
use phantomcore.Dns.Clearance.{may_forward, asked_if}

record_metric-Counts : (b : Bool) → Counts (record_metric b ∷ []) 0 0 0 1
unfolding count is_write is_ask is_export is_metric
record_metric-Counts b = (refl, refl, refl, refl)

pub handle-Counts :
    (wired : Wiring) (e : Engine) (c : Call)
    → Counts (handle wired e c).1 1 (asked_if (may_forward wired e c (threat_of wired c)) wired) 1 1
unfolding handle
handle-Counts wired e c =
    let h = resolve wired e c in
    let both =
      append-Counts h.effects (record_metric (h.success) ∷ []) (resolve-Tallies wired e c).tallied
        (record_metric-Counts (h.success)) in
    ground (arith, both)

-- The engine behind the rate limiter, and its answer.
abbrev pub limited : Wiring → Engine → Option Text → ℕ → Option Limiter × Bool
limited wired e remote now = allow_any e.rate_limiter now (client_ip_from_addr wired remote)

abbrev pub behind_limiter : Wiring → Engine → Option Text → ℕ → Engine
behind_limiter wired e remote now = record e { rate_limiter = (limited wired e remote now).0 }

-- A query with a question is answered with one message, whatever the engine's state and whatever
-- its components say.
pub process_writes :
    (wired : Wiring) (e : Engine) (msg : Msg) (remote : Option Text) (now : ℕ) (question : Question)
    (qs : List Question)
    → msg.question ≡ question ∷ qs
    → count is_write (process wired e msg remote now).1 ≡ 1
unfolding process count is_write
process_writes wired e msg remote now question qs v =
    let counts =
      handle-Counts wired (behind_limiter wired e remote now) (call_of msg question remote now) in
    ground (arith, counts, v)

-- A query with a question that is accepted and within its client's limit is exported once, counted
-- in the metrics once, and sent upstream once if `may_forward` holds and there are resolvers, and
-- not at all otherwise.
pub process_asks :
    (wired : Wiring) (e : Engine) (msg : Msg) (remote : Option Text) (now : ℕ) (question : Question)
    (qs : List Question)
    → msg.question ≡ question ∷ qs
    → e.accept_queries ≡ true
    → (limited wired e remote now).1 ≡ true
    → (count is_export (process wired e msg remote now).1 ≡ 1)
      × (count is_metric (process wired e msg remote now).1 ≡ 1)
      × (count is_ask (process wired e msg remote now).1
          ≡ asked_if
              (may_forward wired
                (behind_limiter wired e remote now)
                (call_of msg question remote now)
                (threat_of wired (call_of msg question remote now)))
              wired)
unfolding process
process_asks wired e msg remote now question qs v on ok =
    let counts =
      handle-Counts wired (behind_limiter wired e remote now) (call_of msg question remote now) in
    ground (arith, counts, v, on, ok)

-- A query that is not accepted or over its client's limit is refused: REFUSED is all that happens,
-- and nothing of the engine changes but the limiter.
pub process_refuses :
    (wired : Wiring) (e : Engine) (msg : Msg) (remote : Option Text) (now : ℕ) (question : Question)
    (qs : List Question)
    → msg.question ≡ question ∷ qs
    → (e.accept_queries && (limited wired e remote now).1) ≡ false
    → ((process wired e msg remote now).1 ≡ write (wired.set_rcode msg rcode_refused) ∷ [])
      × (record (process wired e msg remote now).0 { rate_limiter = e.rate_limiter } ≡ e)
unfolding process
process_refuses wired e msg remote now question qs v off = ground (arith, v, off)
