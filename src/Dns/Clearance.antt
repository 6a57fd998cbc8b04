-- ===== src/Dns/Clearance.antt =====
-- internal/dnsengine/engine.go: which queries may reach the upstream, in one Boolean formula without
-- the stages of the handler.
use phantomcore.Base.{
  ℕ, Bool, false, not, ◌&&◌, ◌||◌, Option, none, some, Text, is_empty, if◌then◌else◌,
}
use phantomcore.Policy.Types.{allow, deny, redirect, Decision}
use phantomcore.Dns.Domain.{is_abused_tld, safe_search_target}
use phantomcore.Dns.State.{Threat, NrdChecker, Wiring, Engine, Call}
use phantomcore.Dns.Process.{is_blocklisted}
use phantomcore.Dns.Allowing.{should_enforce_threat, observe_nod}
use phantomcore.Dns.Tally.{resolvers, is_some}

-- What the detectors behind an allowing policy have against the query.
unfoldable pub detectors_clear : Engine → Call → Wiring → Threat → Decision → Bool
detectors_clear e c wired threat d =
    let is_new = (observe_nod e c).1 in
    not (should_enforce_threat threat e.threat_block_threshold && not e.threat_block_dry_run)
    && not (is_empty d.policy_id && is_abused_tld e.abused_tlds c.domain)
    && not (e.safe_search && is_some (safe_search_target c.domain))
    && not (is_new && e.nod_block)
    && not ((threat.is_suspicious || is_new) && threat.block)

abbrev pub nrd_blocks : Option NrdChecker → Text → Bool
nrd_blocks none domain = false
nrd_blocks (some feed) domain = feed.is_listed domain && feed.block_mode

-- Whether the policy lets the query go on to the upstream.
unfoldable pub policy_clear : Wiring → Engine → Call → Threat → Bool
unfolding detectors_clear
policy_clear wired e c threat = elim (wired.evaluate c.domain c.client_ip) [
  | none ↦ false
  | some d ↦ elim (d.action) [
    | allow ↦ detectors_clear e c wired threat d
    | deny ↦ false
    | redirect ↦ false
  ]
]

-- Whether the query is sent upstream.
unfoldable pub may_forward : Wiring → Engine → Call → Threat → Bool
unfolding policy_clear
may_forward wired e c threat =
    if is_blocklisted wired c.domain
    then wired.is_explicitly_allowed c.domain c.client_ip
    else not (nrd_blocks (wired.nrd) c.domain) && policy_clear wired e c threat

abbrev pub asked_if : Bool → Wiring → ℕ
asked_if b wired = if b then resolvers wired else 0
