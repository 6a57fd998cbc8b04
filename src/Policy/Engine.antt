-- ===== src/Policy/Engine.antt =====
-- internal/policy/engine.go: the decision for a domain and a client. `LoadPolicies` stores the
-- snapshot of the policies, which the functions here take.
use phantomcore.Base.{
  ℕ, Bool, true, false, ◌&&◌, ◌||◌, Option, none, some, List, [], ◌∷◌, ◌++◌, any, keep, ltb_ℤ, Text,
  text, has_suffix, same_text, split_at, join_with, to_upper, if◌then◌else◌, leb_ℤ,
}
use phantomcore.Policy.Types.{
  Policy, Decision, Platform, normalize_domain, policy_decision, default_decision, text_lt,
}
use phantomcore.Policy.Schedule.{active}
use phantomcore.Policy.Scope.{matches_client, parse_client_ip}
use phantomcore.Policy.Snapshot.{Snapshot, WildcardRule, RegexRule, policies_at}

-- Whether some candidate carries a schedule.
abbrev pub is_scheduled : Policy → Bool
is_scheduled p = elim p.sched [ none ↦ false | some _ ↦ true ]

-- `filterActive`
unfoldable pub filter_active : List Policy → ℕ → List Policy
filter_active pols now = if any is_scheduled pols then keep (λ p. active p now) pols else pols

-- The comparison of `pickHighestPriorityScoped`: whether `p` replaces the best so far.
unfoldable pub beats : Policy → Option Policy → Bool
beats p none = true
beats p (some best) =
    ltb_ℤ best.priority p.priority
    || (leb_ℤ best.priority p.priority && leb_ℤ p.priority best.priority) && text_lt p.id best.id

-- The loop of `pickHighestPriorityScoped`.
unfoldable pub pick_from : Snapshot → Option (List ℕ) → Option Policy → List Policy → Option Policy
pick_from snap client best [] = best
pick_from snap client best (p ∷ ps) =
    pick_from snap client
      (if matches_client snap.client_nets p client && beats p best then some p else best) ps

-- `pickHighestPriorityScoped`
unfoldable pub pick_highest : Snapshot → Option (List ℕ) → List Policy → Option Policy
unfolding pick_from
pick_highest snap client candidates = pick_from snap client none candidates

-- `d == w.base || strings.HasSuffix(d, "."+w.base)`
unfoldable pub wildcard_matches : Text → Text → Bool
wildcard_matches d base = same_text d base || has_suffix d (b'.' ∷ base)

unfoldable pub wildcard_candidates : List WildcardRule → Text → List Policy
wildcard_candidates [] d = []
wildcard_candidates (w ∷ ws) d =
    let rest = wildcard_candidates ws d in
    if wildcard_matches d w.base then w.policy ∷ rest else rest

unfoldable pub regex_candidates : List RegexRule → Text → List Policy
regex_candidates [] d = []
regex_candidates (r ∷ rs) d =
    let rest = regex_candidates rs d in if r.re d then r.policy ∷ rest else rest

-- The candidates of the slow path, of `matchDynamic` and `IsExplicitlyAllowed`.
unfoldable pub dynamic_candidates : Snapshot → Text → List Policy
unfolding wildcard_candidates regex_candidates
dynamic_candidates snap d = wildcard_candidates snap.wildcards d ++ regex_candidates snap.regexes d

-- `matchDynamic`
unfoldable pub match_dynamic : Snapshot → Text → ℕ → Option (List ℕ) → Option Policy
match_dynamic snap d now client =
    pick_highest snap client (filter_active (dynamic_candidates snap d) now)

-- The policies that the fast path finds at one domain, with the Bloom filter in front.
unfoldable pub exact_at : Snapshot → Text → List Policy
exact_at snap candidate = if snap.bloom candidate then policies_at snap.exact candidate else []

-- One round of the walk: `none` is `continue`.
unfoldable pub level : Snapshot → ℕ → Option (List ℕ) → Text → Option Policy
level snap now client candidate =
    pick_highest snap client (filter_active (exact_at snap candidate) now)

-- The walk from the domain up to its parents. The last label alone is never looked up.
unfoldable pub walk : Snapshot → ℕ → Option (List ℕ) → List Text → Option Policy
walk snap now client [] = none
walk snap now client (x ∷ []) = none
walk snap now client (x ∷ y ∷ parts) =
    let rest = walk snap now client (y ∷ parts) in
    elim (level snap now client (join_with b'.' (x ∷ y ∷ parts))) [ none ↦ rest | some p ↦ some p ]

-- The policy that decides: the walk first, then the slow path.
unfoldable pub deciding : Snapshot → ℕ → Option (List ℕ) → Text → Option Policy
unfolding walk match_dynamic
deciding snap now client d = elim (walk snap now client (split_at b'.' d)) [
  | none ↦ match_dynamic snap d now client
  | some p ↦ some p
]

abbrev pub decision_of : Option Policy → Decision
decision_of none = default_decision
decision_of (some p) = policy_decision p

module _ (os : Platform) where
  -- `Evaluate`; it never returns an error.
  unfoldable pub evaluate : Snapshot → ℕ → Text → Text → Decision
  unfolding deciding
  evaluate snap now domain client_ip =
      decision_of (deciding snap now (parse_client_ip os client_ip) (normalize_domain domain))

-- `hasScopedAllow`
unfoldable pub has_scoped_allow : Snapshot → Option (List ℕ) → List Policy → Bool
has_scoped_allow snap client =
    any (λ p.
      matches_client snap.client_nets p client && same_text (to_upper p.action) (text "ALLOW"))

-- The walk of `IsExplicitlyAllowed`.
unfoldable pub walk_allow : Snapshot → ℕ → Option (List ℕ) → List Text → Bool
walk_allow snap now client [] = false
walk_allow snap now client (x ∷ []) = false
walk_allow snap now client (x ∷ y ∷ parts) =
    has_scoped_allow snap client
      (filter_active (exact_at snap (join_with b'.' (x ∷ y ∷ parts))) now)
    || walk_allow snap now client (y ∷ parts)

unfoldable pub allows : Snapshot → ℕ → Option (List ℕ) → Text → Bool
unfolding walk_allow
allows snap now client d =
    walk_allow snap now client (split_at b'.' d)
    || has_scoped_allow snap client (filter_active (dynamic_candidates snap d) now)

module _ (os : Platform) where
  -- `IsExplicitlyAllowed`
  unfoldable pub is_explicitly_allowed : Snapshot → ℕ → Text → Text → Bool
  unfolding allows
  is_explicitly_allowed snap now domain client_ip =
      allows snap now (parse_client_ip os client_ip) (normalize_domain domain)
