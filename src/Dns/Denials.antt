-- ===== src/Dns/Denials.antt =====
-- internal/dnsengine/engine.go: what a denied query cannot do.
use phantomcore.Base.{◌≡◌, ◌⊎◌, inl, inr, Bool, true, false, some, arith, Option-cases}
use phantomcore.Policy.Types.{deny, redirect, Decision}
use phantomcore.Dns.State.{Wiring, Engine, Call, Threat}
use phantomcore.Dns.Process.{is_blocklisted, resolve, handle, check_nrd, apply_policy}
use phantomcore.Dns.Allowing.{block_with, block_counted, answer_with}
use phantomcore.Dns.Effects.{count, is_ask}
use phantomcore.Dns.Precedence.{threat_of}
use phantomcore.Dns.Clearance.{may_forward, policy_clear, nrd_blocks}
use phantomcore.Dns.Replies.{handle-Counts}

-- A name is denied by the blocklist without an allow-override, by the NRD feed in block mode, or by
-- a policy decision other than to allow.
abbrev pub IsDenied : Wiring → Call → Type 0
IsDenied wired c =
    (is_blocklisted wired c.domain ≡ true)
      × (wired.is_explicitly_allowed c.domain c.client_ip ≡ false)
    ⊎ (is_blocklisted wired c.domain ≡ false) × (nrd_blocks (wired.nrd) c.domain ≡ true)
    ⊎ (is_blocklisted wired c.domain ≡ false)
      × ((d : Decision) × (wired.evaluate c.domain c.client_ip ≡ some d)
          × (d.action ≡ deny ⊎ d.action ≡ redirect))

may_forward_denied :
    (wired : Wiring) (e : Engine) (c : Call) (threat : Threat)
    → IsDenied wired c
    → may_forward wired e c threat ≡ false
unfolding may_forward policy_clear
may_forward_denied wired e c threat h = ground (arith, h)

apply_policy-engine :
    (wired : Wiring) (e : Engine) (c : Call) (listed : Bool) (threat : Threat) (d : Decision)
    → wired.evaluate c.domain c.client_ip ≡ some d
    → d.action ≡ deny ⊎ d.action ≡ redirect
    → (apply_policy wired e c listed threat).engine ≡ e
unfolding apply_policy block_counted answer_with
apply_policy-engine wired e c listed threat d h k = ground (arith, h, k)

check_nrd-engine :
    (wired : Wiring) (e : Engine) (c : Call) (threat : Threat)
    → (nrd_blocks (wired.nrd) c.domain ≡ true)
      ⊎ ((d : Decision) × (wired.evaluate c.domain c.client_ip ≡ some d)
          × (d.action ≡ deny ⊎ d.action ≡ redirect))
    → (check_nrd wired e c threat).engine ≡ e
unfolding check_nrd block_with answer_with
check_nrd-engine wired e c threat (inl h) = ground (arith, h)
check_nrd-engine wired e c threat (inr (d, h, k)) = elim (Option-cases (wired.nrd)) [
  | inl v ↦ ground (arith, v, apply_policy-engine wired e c false threat d h k)
  | inr (feed, v) ↦
      let f = apply_policy-engine wired e c (feed.is_listed c.domain) threat d h k in
      ground (arith, v, f)
]

resolve-engine :
    (wired : Wiring) (e : Engine) (c : Call) → IsDenied wired c → (resolve wired e c).engine ≡ e
unfolding resolve block_counted
resolve-engine wired e c (inl (h, k)) = ground (arith, h, k)
resolve-engine wired e c (inr (inl (h, k))) =
    let f = check_nrd-engine wired e c (threat_of wired c) (inl k) in ground (arith, h, f)
resolve-engine wired e c (inr (inr (h, k))) =
    let f = check_nrd-engine wired e c (threat_of wired c) (inr k) in ground (arith, h, f)

-- A query that the blocklist has and no allow-override lets through, or that passes the blocklist
-- and is on the NRD feed in block mode, or that passes the blocklist and gets a policy decision to
-- deny or to redirect, is not sent upstream, and leaves the engine as it was: the ledger of
-- observed domains, the fast-flux tracker and the cache never see it.
pub handle_denied :
    (wired : Wiring) (e : Engine) (c : Call)
    → IsDenied wired c
    → (count is_ask (handle wired e c).1 ≡ 0) × ((handle wired e c).0 ≡ e)
unfolding handle
handle_denied wired e c h =
    let counts = handle-Counts wired e c in
    let shut = may_forward_denied wired e c (threat_of wired c) h in
    let same = resolve-engine wired e c h in (ground (arith, counts, shut), ground (arith, same))
