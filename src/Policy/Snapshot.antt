-- ===== src/Policy/Snapshot.antt =====
-- internal/policy/snapshot.go: the rules precomputed from the policies.
use phantomcore.Base.{
  ℕ, ◌+◌, Bool, none, some, List, [], ◌∷◌, ◌++◌, map, ◌==◌, Text, text, is_empty, has_prefix,
  contains_byte, drop, lookup, insert, text_discrete, if◌then◌else◌,
}
use phantomcore.Policy.Types.{Policy, IpNet, Platform, normalize_domain}
use phantomcore.Policy.Schedule.{ok, err, compile_schedule}
use phantomcore.Policy.Scope.{parse_client_scope, nets_of}

-- `wildcardRule`
pub record WildcardRule : Type 0 where
  pub base : Text
  pub policy : Policy

-- `compiledRegexRule`
pub record RegexRule : Type 0 where
  pub re : Text → Bool
  pub policy : Policy

pub record Snapshot : Type 0 where
  pub bloom : Text → Bool
  pub exact : List (Text × List Policy)
  pub regexes : List RegexRule
  pub wildcards : List WildcardRule
  pub client_nets : List (Text × List IpNet)

-- `wildcardBase`
unfoldable pub wildcard_base : Text → Text
wildcard_base pattern = if has_prefix pattern (text "*.") then drop 2 pattern else []

-- The rules found so far.
pub record Rules : Type 0 where
  pub exact : List (Text × List Policy)
  pub regexes : List RegexRule
  pub wildcards : List WildcardRule
  pub client_nets : List (Text × List IpNet)
  pub total : ℕ

-- `exact[d]`, which is nil for a missing key
abbrev pub policies_at : List (Text × List Policy) → Text → List Policy
policies_at exact d = elim (lookup text_discrete d exact) [ none ↦ [] | some ps ↦ ps ]

-- One domain of a policy.
unfoldable pub add_domain : Policy → Rules → Text → Rules
unfolding wildcard_base
add_domain p r d =
    let n = normalize_domain d in
    let base = wildcard_base n in
    if contains_byte b'*' n
    then (if is_empty base then record r { total = r.total + 1 } else record r {
      wildcards = r.wildcards ++ record { base = base; policy = p } ∷ [];
      total = r.total + 1;
    })
    else record r {
      exact = insert text_discrete n (policies_at r.exact n ++ p ∷ []) r.exact;
      total = r.total + 1;
    }

module _ (os : Platform) where
  -- The precomputed schedule; a malformed one counts as always on.
  unfoldable pub with_schedule : Policy → Policy
  with_schedule p = record p { sched = elim (compile_schedule os p) [ ok s ↦ s | err _ ↦ none ] }

  -- One regular expression of a policy; an invalid one is skipped.
  unfoldable pub add_regex : Policy → Rules → Text → Rules
  add_regex p r rx = elim (os.compile_regex rx) [
    | none ↦ record r { total = r.total + 1 }
    | some re ↦ record r {
      regexes = r.regexes ++ record { re = re; policy = p } ∷ [];
      total = r.total + 1;
    }
  ]

  -- One client range of a policy; an invalid one is skipped.
  unfoldable pub add_cidr : Policy → Rules → Text → Rules
  add_cidr p r c = elim (parse_client_scope os c) [
    | none ↦ r
    | some n ↦ record r {
      client_nets = insert text_discrete p.id (nets_of r.client_nets p.id ++ n ∷ []) r.client_nets;
    }
  ]

-- A loop over a list that updates a state.
unfoldable pub each : {S A : Type 0} → (S → A → S) → S → List A → S
each f s [] = s
each f s (x ∷ xs) = each f (f s x) xs

module _ (os : Platform) where
  -- The body of the loop over the policies.
  unfoldable pub add_policy : Rules → Policy → Rules
  unfolding each add_domain add_regex add_cidr
  add_policy r p =
      each (add_cidr os p) (each (add_regex os p) (each (add_domain p) r p.domains) p.regexes)
        p.client_cidrs

  abbrev pub no_rules : Rules
  no_rules = record { exact = []; regexes = []; wildcards = []; client_nets = []; total = 0 }

  unfoldable pub build_rules : List Policy → Rules
  unfolding add_policy with_schedule
  build_rules policies = each add_policy no_rules (map (with_schedule os) policies)

  -- What is added to the Bloom filter: the exact domains, then the domains and expressions of
  -- each policy.
  unfoldable pub bloom_texts : List (Text × List Policy) → List Policy → List Text
  bloom_texts exact policies = map (λ e. e.0) exact ++ policy_texts policies
    where
      policy_texts : List Policy → List Text
      policy_texts [] = []
      policy_texts (p ∷ ps) = map normalize_domain p.domains ++ (p.regexes ++ policy_texts ps)

  -- `buildSnapshot`
  unfoldable pub build_snapshot : List Policy → Snapshot
  unfolding build_rules bloom_texts
  build_snapshot policies =
      let r = build_rules policies in
      record {
        bloom = os.bloom (if r.total == 0 then 1 else r.total) (bloom_texts r.exact policies);
        exact = r.exact;
        regexes = r.regexes;
        wildcards = r.wildcards;
        client_nets = r.client_nets;
      }
