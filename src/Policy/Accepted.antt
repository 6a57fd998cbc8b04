-- ===== src/Policy/Accepted.antt =====
-- internal/policy/loader.go: what the loader has checked of the policies that it returns.
use phantomcore.Base.{
  ◌≡◌, ◌≢◌, refl, ◌⊎◌, inl, inr, true, false, Option, none, some, List, [], ◌∷◌, All, arith, Text,
  is_empty, trim_space, if◌then◌else◌, Option-cases,
}
use phantomcore.Policy.Types.{Policy, Platform}
use phantomcore.Policy.Schedule.{ok, has_schedule, compile_schedule}
use phantomcore.Policy.Scope.{parse_client_scope}
use phantomcore.Policy.Snapshot.{with_schedule}
use phantomcore.Policy.Loader.{
  Refusal, id_required, action_required, unsupported_action, empty_domain, and_then, first_refusal,
  refuse_if, is_known_action, check_schedule, check_scope, validate_policy, check_regex,
  check_policy, normalized, Loaded, loaded, rejected, load_policies,
}

-- The policy has an id and a known action, and its schedule, client ranges and regular expressions
-- compile, so that a snapshot skips none of these. Nothing is said of its domains.
pub record IsCompiled (os : Platform) (p : Policy) : Type 0 where
  pub named : is_empty (trim_space p.id) ≡ false
  pub acting : is_known_action p.action ≡ true
  pub scheduled : compile_schedule os p ≡ ok ((with_schedule os p).sched)
  pub scoped : All (λ c. parse_client_scope os c ≢ none) p.client_cidrs
  pub matching : All (λ rx. os.compile_regex rx ≢ none) p.regexes

first_refusal-none :
    (check : Text → Option Refusal) (P : Text → Type 0) (xs : List Text)
    → ((x : Text) → check x ≡ none → P x)
    → first_refusal check xs ≡ none
    → All P xs
unfolding first_refusal and_then
first_refusal-none check P [] f h = tt
first_refusal-none check P (x ∷ xs) f h = elim (Option-cases (check x)) [
  | inl e ↦ (f x e, first_refusal-none check P xs f (rw e at h))
  | inr (r, e) ↦ absurd (ground (arith, h, e))
]

and_then-none : (a b : Option Refusal) → and_then a b ≡ none → (a ≡ none) × (b ≡ none)
unfolding and_then
and_then-none none b h = (refl, h)
and_then-none (some r) b h = cc

scheduled_lem :
    (os : Platform) (p : Policy)
    → check_schedule os p ≡ none
    → compile_schedule os p ≡ ok ((with_schedule os p).sched)
unfolding check_schedule with_schedule
scheduled_lem os p h = ground arith

scope_lem : (os : Platform) (c : Text) → check_scope os c ≡ none → parse_client_scope os c ≢ none
unfolding check_scope
scope_lem os c h k = ground (arith, h, k)

regex_lem : (os : Platform) (rx : Text) → check_regex os rx ≡ none → os.compile_regex rx ≢ none
unfolding check_regex
regex_lem os rx h k = ground (arith, h, k)

check_policy-IsCompiled : (os : Platform) (p : Policy) → check_policy os p ≡ none → IsCompiled os p
unfolding check_policy validate_policy
check_policy-IsCompiled os p h =
    let (v, r) =
      and_then-none (validate_policy os p) (first_refusal (check_regex os) p.regexes) h in
    let (i, v₁) = and_then-none (refuse_if (is_empty (trim_space p.id)) id_required) _ v in
    let (a, v₂) = and_then-none (refuse_if (is_empty (trim_space p.action)) action_required) _ v₁ in
    let (k, v₃) =
      and_then-none (if is_known_action p.action then none else some unsupported_action) _ v₂ in
    let (d, v₄) =
      and_then-none
        (first_refusal (λ d. refuse_if (is_empty (trim_space d)) empty_domain) p.domains) _ v₃ in
    let (s, c) = and_then-none (check_schedule os p) _ v₄ in
    record {
      named = ground (arith, i);
      acting = ground (arith, k);
      scheduled = scheduled_lem os p s;
      scoped =
          first_refusal-none (check_scope os) (λ c. parse_client_scope os c ≢ none) p.client_cidrs
            (scope_lem os) c;
      matching =
          first_refusal-none (check_regex os) (λ rx. os.compile_regex rx ≢ none) p.regexes
            (regex_lem os) r;
    }

normalized-IsCompiled :
    (os : Platform) (p : Policy) → IsCompiled os p → IsCompiled os (normalized p)
unfolding normalized compile_schedule has_schedule with_schedule
normalized-IsCompiled os p v = record {
  named = v.named;
  acting = v.acting;
  scheduled = v.scheduled;
  scoped = v.scoped;
  matching = v.matching;
}

Loaded-cases :
    (l : Loaded) → ((qs : List Policy) × (l ≡ loaded qs)) ⊎ ((r : Refusal) × (l ≡ rejected r))
Loaded-cases (loaded qs) = inl (qs, refl)
Loaded-cases (rejected r) = inr (r, refl)

load_policies-cons :
    (os : Platform) (p : Policy) (ps qs : List Policy)
    → load_policies os (p ∷ ps) ≡ loaded qs
    → (check_policy os p ≡ none)
      × ((rs : List Policy) × (load_policies os ps ≡ loaded rs) × (qs ≡ normalized p ∷ rs))
unfolding load_policies
load_policies-cons os p ps qs h = elim (Option-cases (check_policy os p)) [
  | inr (r, e) ↦ absurd (ground (arith, h, e))
  | inl e ↦ elim (Loaded-cases (load_policies os ps)) [
    | inl (rs, l) ↦ (e, (rs, l, ground (arith, h, e, l)))
    | inr (r, l) ↦ absurd (ground (arith, h, e, l))
  ]
]

-- Every policy that the loader returns has an id and a known action, its schedule compiles to the one
-- that a snapshot gives it, and each of its client ranges and regular expressions compiles, so that a
-- snapshot skips none of these. Its domains are not covered: a domain with a `*` that is not at its
-- front is accepted, and a snapshot files it nowhere.
pub load_policies-IsCompiled :
    (os : Platform) (ps qs : List Policy) → load_policies os ps ≡ loaded qs → All (IsCompiled os) qs
unfolding load_policies
load_policies-IsCompiled os [] [] h = tt
load_policies-IsCompiled os [] (q ∷ qs) h = cc
load_policies-IsCompiled os (p ∷ ps) qs h =
    let (e, (rs, l, q)) = load_policies-cons os p ps qs h in
    rw q (
      normalized-IsCompiled os p (check_policy-IsCompiled os p e),
      load_policies-IsCompiled os ps rs l,
    )
