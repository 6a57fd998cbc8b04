-- ===== src/Node/Ruling.antt =====
-- internal/policy and internal/dnsengine together: from the loaded policies to the queries that are
-- refused.
use phantomcore.Base.{
  ℕ, ◌≡◌, ◌≢◌, refl, sym, ap, subst, ◌∙◌, ◌⊎◌, true, false, Option, none, some, List, ◌++◌, Member,
  Text, inl, inr, arith,
}
use phantomcore.Policy.Types.{
  Policy, Platform, Action, allow, deny, redirect, action_of, policy_decision, normalize_domain,
}
use phantomcore.Policy.Schedule.{active}
use phantomcore.Policy.Scope.{is_unscoped, parse_client_ip, matches_client}
use phantomcore.Policy.Snapshot.{Snapshot, with_schedule}
use phantomcore.Policy.Engine.{evaluate}
use phantomcore.Policy.Override.{evaluate-IsConsulted}
use phantomcore.Policy.Coverage.{Covers}
use phantomcore.Policy.Flat.{Member-append_left, Member-or_append, append_right-Member}
use phantomcore.Policy.Candidates.{IsCandidate-iff}
use phantomcore.Dns.State.{Engine, Wiring, Call}
use phantomcore.Dns.Process.{is_blocklisted, handle}
use phantomcore.Dns.Effects.{count, is_ask}
use phantomcore.Dns.Denials.{handle_denied}
use phantomcore.Node.Feeding.{attach-is_blocklisted}
use phantomcore.Node.Startup.{Parts, attach, reload_policies}

Action-cases : (a : Action) → a ≢ allow → (a ≡ deny) ⊎ (a ≡ redirect)
Action-cases allow h = absurd (h refl)
Action-cases deny h = inl refl
Action-cases redirect h = inr refl

attach-evaluate :
    (base : Wiring) (parts : Parts) (now : ℕ) (domain client : Text)
    → (attach base parts now).evaluate domain client
      ≡ some (evaluate parts.os parts.snapshot now domain client)
unfolding attach
attach-evaluate base parts now domain client = refl

-- The parts after the policies of the file and of the storage were loaded.
abbrev pub with_policies : Parts → List Policy → Option (List Policy) → Parts
with_policies parts file_policies db = record parts {
  snapshot = reload_policies parts.os file_policies db;
}

-- A policy is one of the file's, or one of the storage's where that could be read.
abbrev pub IsLoaded : List Policy → Option (List Policy) → Policy → Type 0
IsLoaded file_policies db p =
    Member p file_policies ⊎ ((ps : List Policy) × (db ≡ some ps) × Member p ps)

-- The list that is built into the snapshot.
loaded : List Policy → Option (List Policy) → List Policy
loaded file_policies db = elim db [ none ↦ file_policies | some ps ↦ file_policies ++ ps ]

IsLoaded-Member :
    (file_policies : List Policy) (db : Option (List Policy)) (p : Policy)
    → IsLoaded file_policies db p
    → Member p (loaded file_policies db)
unfolding loaded
IsLoaded-Member fs none p (inl m) = m
IsLoaded-Member fs (some ps) p (inl m) = Member-append_left p fs ps m
IsLoaded-Member fs none p (inr (ps, e, m)) = absurd cc
IsLoaded-Member fs (some qs) p (inr (ps, e, m)) =
    let same : ps ≡ qs = cc in append_right-Member p fs qs (subst (Member p) same m)

Member-IsLoaded :
    (file_policies : List Policy) (db : Option (List Policy)) (p : Policy)
    → Member p (loaded file_policies db)
    → IsLoaded file_policies db p
unfolding loaded
Member-IsLoaded fs none p m = inl m
Member-IsLoaded fs (some ps) p m = elim (Member-or_append p fs ps m) [
  | inl k ↦ inl k
  | inr k ↦ inr (ps, refl, k)
]

unscoped-matches_client :
    (os : Platform) (s : Snapshot) (p : Policy) (c : Option (List ℕ))
    → is_unscoped p ≡ true
    → matches_client s.client_nets (with_schedule os p) c ≡ true
unfolding matches_client with_schedule
unscoped-matches_client os s p c h = ground (arith, h)

-- From the policies to the client: after the policies of the file and of the storage, where it could
-- be read, are loaded, a query of a name that one of them covers, which is for all clients and in
-- force at the time, while none that covers the name allows, is not sent upstream, and leaves the
-- engine's state as it was, if the blocklist does not have the name. A policy covers a name by a
-- listed domain of two labels or more, by a wildcard or by a regular expression.
pub reload_policies-handle :
    (base : Wiring) (parts : Parts) (file_policies : List Policy) (db : Option (List Policy))
    (e : Engine) (c : Call) (p : Policy)
    → IsLoaded file_policies db p
    → Covers parts.os (normalize_domain c.domain) p
    → is_unscoped p ≡ true
    → active (with_schedule parts.os p) c.now ≡ true
    → ((q : Policy)
        → IsLoaded file_policies db q
        → Covers parts.os (normalize_domain c.domain) q
        → action_of q.action ≢ allow)
    → is_blocklisted base c.domain ≡ false
    → (count is_ask (handle (attach base (with_policies parts file_policies db) c.now) e c).1 ≡ 0)
      × ((handle (attach base (with_policies parts file_policies db) c.now) e c).0 ≡ e)
unfolding policy_decision reload_policies loaded with_schedule
reload_policies-handle base parts file_policies db e c p is covers all_clients in_force no_allow
      clear =
    let os = parts.os in
    let d = normalize_domain c.domain in
    let built = loaded file_policies db in
    let ps = with_policies parts file_policies db in
    let unlisted = attach-is_blocklisted base ps c.now c.domain ∙ clear in
    elim (evaluate-IsConsulted os ps.snapshot c.now c.domain c.client_ip) [
      | inl (q, b, decided) ↦
          let (r, m, same, k) = (IsCandidate-iff os built d q).0 b.0 in
          handle_denied (attach base ps c.now) e c (
            inr (
              inr (
                unlisted,
                (
                  policy_decision q,
                  attach-evaluate base ps c.now c.domain c.client_ip ∙ ap some decided,
                  Action-cases (action_of q.action) (
                      subst (λ x. action_of (Policy.action x) ≢ allow) (sym same)
                        (no_allow r (Member-IsLoaded file_policies db r m) k)),
                ),
              )))
      | inr (_, nobody) ↦ absurd (
          nobody (with_schedule os p) (
            (IsCandidate-iff os built d (with_schedule os p)).1
                (p, IsLoaded-Member file_policies db p is, refl, covers),
            in_force,
            unscoped-matches_client os ps.snapshot p (parse_client_ip os c.client_ip) all_clients,
          ))
    ]
