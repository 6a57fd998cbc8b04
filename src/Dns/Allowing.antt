-- ===== src/Dns/Allowing.antt =====
-- internal/dnsengine/engine.go: the allow path of `ProcessDNSQuery`, the answers that end it, and the
-- log after forwarding.
use phantomcore.Base.{
  ℕ, Bool, true, false, not, ◌&&◌, none, some, List, [], ◌∷◌, ◌++◌, ltb, leb, Text, text, is_empty,
  if◌then◌else◌,
}
use phantomcore.Message.{Msg}
use phantomcore.Policy.Types.{Decision}
use phantomcore.Nod
use phantomcore.Nod.{NodLedger}
use phantomcore.Dns.Domain.{is_abused_tld, safe_search_target}
use phantomcore.Dns.State.{Threat, Wiring, Engine, Effect, write, Call}
use phantomcore.Dns.Forward.{ForwardOutcome, forward_upstream}
use phantomcore.Dns.Answering.{
  respond_blocked, respond_safe_search, log_query, record_blocked, enrich_threat,
}

-- `threatAction`
pub data ThreatAction : Type 0 where
  leave_alone enforce dry_run : ThreatAction

-- `shouldEnforceThreat`
unfoldable pub should_enforce_threat : Threat → ℕ → Bool
should_enforce_threat tr threshold =
    ltb 0 threshold && (tr.is_suspicious && leb threshold tr.threat_score)

-- `threatDecision`
unfoldable pub threat_decision : Engine → Threat → ThreatAction
unfolding should_enforce_threat
threat_decision e tr =
    if not (should_enforce_threat tr e.threat_block_threshold)
    then leave_alone
    else if e.threat_block_dry_run
    then dry_run
    else enforce

-- What the handler leaves: the engine, its effects in order, and `success`.
pub record Handled : Type 0 where
  pub engine : Engine
  pub effects : List Effect
  pub success : Bool

-- A decision that is logged and then answered with a message.
unfoldable pub answer_with : Engine → Call → Text → Text → Threat → Msg → Handled
answer_with e c action reason tr m = record {
  engine = e;
  effects = log_query e c action reason tr ++ (write m ∷ []);
  success = true;
}

-- A block that the metrics and the alerter do not see.
unfoldable pub block_with : Wiring → Engine → Call → Text → Threat → Handled
unfolding answer_with
block_with wired e c reason tr = answer_with e c (text "block") reason tr (respond_blocked wired c)

-- A block that the metrics and the alerter count.
unfoldable pub block_counted : Wiring → Engine → Call → Text → Threat → Handled
block_counted wired e c reason tr = record {
  engine = e;
  effects =
      log_query e c (text "block") reason tr
      ++ (record_blocked wired e c ++ (write (respond_blocked wired c) ∷ []));
  success = true;
}

-- `threatResult` after fast-flux tripped
unfoldable pub flag_flux : Threat → Threat
flag_flux tr = if tr.is_suspicious then tr else record tr {
  is_suspicious = true;
  detection_method = text "fast-flux";
  reason = text "fast-flux: distinct-IP churn with low TTL";
}

-- The action, the reason and the threat that are logged after forwarding.
unfoldable pub conclude : ForwardOutcome → Text → Text → Threat → Text × Text × Threat
unfolding flag_flux
conclude o action reason tr =
    let tr' = if o.fast_flux then flag_flux tr else tr in
    let action' = if o.fast_flux then text "flagged" else action in
    let reason' = if o.fast_flux then tr'.detection_method else reason in
    let tr'' = enrich_threat tr' o.geo_reason in
    if o.geo_matched
    then ((if o.geo_blocked then text "block" else text "flagged"), tr''.detection_method, tr'')
    else (action', reason', tr')

-- Forwarding first, then the log.
unfoldable pub forward_and_log : Wiring → Engine → Call → Text → Text → Threat → Handled
unfolding conclude
forward_and_log wired e c action reason tr =
    let (effects, f) = forward_upstream wired e c in
    let (action', reason', tr') = conclude (f.outcome) action reason tr in
    record {
      engine = f.engine;
      effects = effects ++ (write (f.reply) ∷ log_query (f.engine) c action' reason' tr');
      success = true;
    }

-- The annotation of a name on the NRD feed.
unfoldable pub flag_nrd : Threat → Threat
flag_nrd tr = record tr {
  is_suspicious = true;
  detection_method = text "nrd";
  reason = text "newly-registered domain (on NRD feed)";
}

-- A suspicious name is blocked or flagged, one on the NRD feed is flagged.
unfoldable pub pass_suspicious : Wiring → Engine → Call → Bool → Threat → Handled
unfolding block_with forward_and_log flag_nrd
pass_suspicious wired e c nrd_listed tr =
    if tr.is_suspicious
    then if tr.block
      then block_with wired e c tr.detection_method tr
      else forward_and_log wired e c (text "flagged") tr.detection_method tr
    else if nrd_listed
    then forward_and_log wired e c (text "flagged") (text "nrd") (flag_nrd tr)
    else forward_and_log wired e c (text "allow") [] tr

-- `nodNew`: a nil ledger sees nothing new.
unfoldable pub observe_nod : Engine → Call → Engine × Bool
observe_nod e c = elim (e.nod_ledger) [
  | none ↦ (e, false)
  | some l ↦
      let (l', is_new) = Nod.observe l c.now c.domain in (record e { nod_ledger = some l' }, is_new)
]

-- The annotation of a newly observed domain.
unfoldable pub flag_nod : Threat → Threat
flag_nod tr = record tr {
  is_suspicious = true;
  detection_method = if is_empty tr.detection_method then text "nod" else tr.detection_method;
  reason =
      if is_empty tr.reason
      then text "newly observed domain (first seen within NOD window)"
      else tr.reason;
}

-- Newly-observed-domain detection.
unfoldable pub pass_nod : Wiring → Engine → Call → Bool → Threat → Handled
unfolding observe_nod flag_nod pass_suspicious
pass_nod wired e c nrd_listed tr =
    let (e', is_new) = observe_nod e c in
    if is_new && e'.nod_block
    then block_with wired e' c (text "nod") tr
    else pass_suspicious wired e' c nrd_listed (if is_new then flag_nod tr else tr)

-- SafeSearch.
unfoldable pub pass_safe_search : Wiring → Engine → Call → Bool → Threat → Handled
unfolding pass_nod answer_with
pass_safe_search wired e c nrd_listed tr =
    let target = if e.safe_search then safe_search_target c.domain else none in
    elim target [
      | none ↦ pass_nod wired e c nrd_listed tr
      | some t ↦ answer_with e c (text "allow") [] tr (respond_safe_search wired c t)
    ]

-- The allow path of the policy switch: the threat threshold and the abused TLDs.
unfoldable pub allow_path : Wiring → Engine → Call → Bool → Decision → Threat → Handled
unfolding pass_safe_search threat_decision block_with
allow_path wired e c nrd_listed d tr =
    let rest =
      if is_empty d.policy_id && is_abused_tld e.abused_tlds c.domain
      then block_with wired e c (text "abused-tld") tr
      else pass_safe_search wired e c nrd_listed tr in
    elim (threat_decision e tr) [
      | leave_alone ↦ rest
      | dry_run ↦ rest
      | enforce ↦ block_with wired e c (text "threat:" ++ tr.detection_method) tr
    ]
