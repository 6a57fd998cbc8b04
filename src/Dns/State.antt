-- ===== src/Dns/State.antt =====
-- internal/dnsengine/engine.go: the engine's state, the components it is wired to, and what it
-- does to the outside.
use phantomcore.Geo.{GeoDecision}
use phantomcore.Base.{ℕ, Bool, false, Option, List, [], Text}
use phantomcore.Message.{Rr, Question, Msg}
use phantomcore.Policy.Types.{Decision}
use phantomcore.RateLimit.{Limiter}
use phantomcore.Nod.{NodLedger}
use phantomcore.FastFlux.{Tracker}
use phantomcore.Cache.{AnswerCache}

-- `threat.Result`. Scores and the threshold only stand in comparisons, and are numbers on one
-- scale, in hundredths.
pub record Threat : Type 0 where
  pub is_suspicious : Bool
  pub threat_score : ℕ
  pub detection_method : Text
  pub reason : Text
  pub block : Bool

abbrev pub no_threat : Threat
no_threat = record {
  is_suspicious = false;
  threat_score = 0;
  detection_method = [];
  reason = [];
  block = false;
}

-- The answer of `BlocklistChecker.IsBlocked`.
pub data Verdict : Type 0 where
  failed : Verdict
  answered : Bool → Verdict

-- `NRDChecker`
pub record NrdChecker : Type 0 where
  pub is_listed : Text → Bool
  pub block_mode : Bool

-- The components behind interfaces and pointers (`none` is nil), and the functions of Go's net
-- package and of the DNS library that the handler calls.
pub record Wiring : Type 0 where
  pub blocklist : Option (Text → Verdict)
  pub nrd : Option NrdChecker
  pub evaluate : Text → Text → Option Decision
  pub is_explicitly_allowed : Text → Text → Bool
  pub analyze : Option (Text → Threat)
  pub exchange : Option (Msg → Option Msg)
  pub geo : Option (List (List ℕ) → GeoDecision)
  pub split_host_port : Text → Option Text
  pub set_reply : Msg → Msg
  pub set_rcode : Msg → ℕ → Msg
  pub new_rr : Text → Option Rr
  pub fqdn : Text → Text
  pub ip_string : List ℕ → Text
  pub is_internal : List ℕ → Bool

-- `Engine`: its settings and the state that queries change.
pub record Engine : Type 0 where
  pub accept_queries : Bool
  pub serve_stale : Bool
  pub nod_block : Bool
  pub threat_block_threshold : ℕ
  pub threat_block_dry_run : Bool
  pub abused_tlds : List Text
  pub rebind_protection : Bool
  pub safe_search : Bool
  pub has_query_log : Bool
  pub has_alerter : Bool
  pub rate_limiter : Option Limiter
  pub nod_ledger : Option NodLedger
  pub fast_flux : Option Tracker
  pub cache : Option AnswerCache

-- `Event`, without its time; a row of the query log has the same fields and the block reason.
pub record Event : Type 0 where
  pub domain : Text
  pub client_ip : Text
  pub action : Text
  pub is_suspicious : Bool
  pub threat_score : ℕ
  pub detection_method : Text
  pub threat_reason : Text

-- What the handler does to the outside, in order.
pub data Effect : Type 0 where
  write : Msg → Effect
  ask_upstream : Msg → Effect
  export : Event → Effect
  submit : Event → Text → Text → Effect
  count_blocked : Effect
  device_hit : Text → Text → Effect
  record_metric : Bool → Effect

-- A query in the handler's hands: the message with its first question, the normalized name, the
-- client's address as text, the time.
pub record Call : Type 0 where
  pub msg : Msg
  pub question : Question
  pub domain : Text
  pub client_ip : Text
  pub now : ℕ
