-- ===== src/Policy/Lookup.antt =====
-- internal/policy/snapshot.go and engine.go: the rules that a snapshot holds come from the policies
-- it was built from, and a decision comes from a policy that matches.
use phantomcore.Base.{
  ◌≡◌, refl, sym, ◌∙◌, ap, inl, inr, not, ◌&&◌, List, [], ◌∷◌, ◌++◌, map, arith, Text, same_text,
  contains_byte, lookup, insert, lookup-insert, text_discrete, ite, if◌then◌else◌, Bool-cases,
}
use phantomcore.Policy.Types.{Policy, Platform, normalize_domain}
use phantomcore.Policy.Snapshot.{
  Rules, policies_at, add_domain, add_regex, add_cidr, add_policy, each, with_schedule, no_rules,
  build_snapshot,
}
use mathlib.Core.List.{append-nil, append_assoc}

-- The exact domains of a policy, normalized, in their order.
abbrev pub exact_hits : Text → List Text → Policy → List Policy
exact_hits n [] p = []
exact_hits n (d ∷ ds) p =
    let rest = exact_hits n ds p in
    if same_text (normalize_domain d) n && not (contains_byte b'*' n) then p ∷ rest else rest

policies_at-insert :
    (n m : Text) (ps : List Policy) (exact : List (Text × List Policy))
    → policies_at (insert text_discrete n ps exact) m
      ≡ ite (text_discrete n m) ps (policies_at exact m)
policies_at-insert n m ps exact =
    ground (arith, lookup-insert {V = List Policy} text_discrete n m ps exact)

policies_at-add_domain :
    (p : Policy) (r : Rules) (d n : Text)
    → policies_at (add_domain p r d).exact n ≡ policies_at r.exact n ++ exact_hits n (d ∷ []) p
unfolding add_domain
policies_at-add_domain p r d n = ground (
  arith,
  append-nil (policies_at r.exact n),
  policies_at-insert (normalize_domain d) n (policies_at r.exact (normalize_domain d) ++ p ∷ [])
      r.exact,
)

exact_hits-cons :
    (n d : Text) (ds : List Text) (p : Policy)
    → exact_hits n (d ∷ ds) p ≡ exact_hits n (d ∷ []) p ++ exact_hits n ds p
exact_hits-cons n d ds p =
    elim (Bool-cases (same_text (normalize_domain d) n && not (contains_byte b'*' n))) [
      | inl e ↦ rw e
      | inr e ↦ rw e
    ]

each-add_domain :
    (p : Policy) (r : Rules) (ds : List Text) (n : Text)
    → policies_at (each (add_domain p) r ds).exact n ≡ policies_at r.exact n ++ exact_hits n ds p
unfolding each
each-add_domain p r [] n = sym (append-nil (policies_at r.exact n))
each-add_domain p r (d ∷ ds) n =
    each-add_domain p (add_domain p r d) ds n
    ∙ ap (λ l. l ++ exact_hits n ds p) (policies_at-add_domain p r d n)
    ∙ append_assoc (policies_at r.exact n) (exact_hits n (d ∷ []) p) (exact_hits n ds p)
    ∙ ap (λ l. policies_at r.exact n ++ l) (sym (exact_hits-cons n d ds p))

add_regex-exact :
    (os : Platform) (p : Policy) (r : Rules) (rx : Text) → (add_regex os p r rx).exact ≡ r.exact
unfolding add_regex
add_regex-exact os p r rx = ground arith

add_cidr-exact :
    (os : Platform) (p : Policy) (r : Rules) (c : Text) → (add_cidr os p r c).exact ≡ r.exact
unfolding add_cidr
add_cidr-exact os p r c = ground arith

-- a loop whose body leaves a view of the state alone leaves it alone
pub each_keeps :
    {S A V : Type 0} (f : S → A → S) (view : S → V)
    → ((s : S) (a : A) → view (f s a) ≡ view s)
    → (s : S) (xs : List A) → view (each f s xs) ≡ view s
unfolding each
each_keeps f view h s [] = refl
each_keeps f view h s (x ∷ xs) = each_keeps f view h (f s x) xs ∙ h s x

policies_at-add_policy :
    (os : Platform) (r : Rules) (p : Policy) (n : Text)
    → policies_at (add_policy os r p).exact n ≡ policies_at r.exact n ++ exact_hits n p.domains p
unfolding add_policy
policies_at-add_policy os r p n =
    let s = each (add_domain p) r p.domains in
    let t = each (add_regex os p) s p.regexes in
    ap (λ e. policies_at e n)
      (each_keeps (add_cidr os p) (λ r. r.exact) (add_cidr-exact os p) t p.client_cidrs)
    ∙ ap (λ e. policies_at e n)
        (each_keeps (add_regex os p) (λ r. r.exact) (add_regex-exact os p) s p.regexes)
    ∙ each-add_domain p r p.domains n

-- The policies that hold a domain exactly, in the order given; once for each time it is listed.
abbrev pub all_hits : Text → List Policy → List Policy
all_hits n [] = []
all_hits n (p ∷ ps) = exact_hits n p.domains p ++ all_hits n ps

each-add_policy :
    (os : Platform) (r : Rules) (ps : List Policy) (n : Text)
    → policies_at (each (add_policy os) r ps).exact n ≡ policies_at r.exact n ++ all_hits n ps
unfolding each
each-add_policy os r [] n = sym (append-nil (policies_at r.exact n))
each-add_policy os r (p ∷ ps) n =
    each-add_policy os (add_policy os r p) ps n
    ∙ ap (λ l. l ++ all_hits n ps) (policies_at-add_policy os r p n)
    ∙ append_assoc (policies_at r.exact n) (exact_hits n p.domains p) (all_hits n ps)

-- The exact map of a snapshot holds, under each name, exactly the policies that list a domain
-- which normalizes to it and has no `*`, in the order of the policies, with their schedules.
pub policies_at-build_snapshot :
    (os : Platform) (ps : List Policy) (n : Text)
    → policies_at (build_snapshot os ps).exact n ≡ all_hits n (map (with_schedule os) ps)
unfolding build_snapshot lookup
policies_at-build_snapshot os ps n = each-add_policy os (no_rules os) (map (with_schedule os) ps) n
