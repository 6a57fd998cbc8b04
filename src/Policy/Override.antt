-- ===== src/Policy/Override.antt =====
-- internal/policy/engine.go: the policies that a query consults, and what `Evaluate` and
-- `IsExplicitlyAllowed` make of them.
use phantomcore.Base.{
  ℕ, ◌≡◌, refl, ap, ◌⊎◌, inl, inr, true, false, ◌&&◌, Option, none, some, List, [], ◌∷◌, keep,
  Member, arith, Text, text, same_text, to_upper, join_with, split_at, Bool-cases, Option-cases,
  Member-keep, any_of_Member, any-Member, keep-Member, All-Member, ◌↔◌,
}
use phantomcore.Policy.Types.{Policy, Platform, normalize_domain, policy_decision, default_decision}
use phantomcore.Policy.Schedule.{active}
use phantomcore.Policy.Scope.{parse_client_ip, matches_client}
use phantomcore.Policy.Snapshot.{Snapshot}
use phantomcore.Policy.Engine.{
  filter_active, pick_highest, exact_at, level, walk, walk_allow, deciding, evaluate, match_dynamic,
  dynamic_candidates, is_explicitly_allowed, allows, has_scoped_allow, decision_of,
}
use phantomcore.Policy.Choice.{pick_highest_lem, filter_active_lem}

-- A candidate list answers with a policy of its own that is active now and in scope.
abbrev pub Good : Snapshot → ℕ → Option (List ℕ) → List Policy → Policy → Type 0
Good s now c ps p = Member p ps × (active p now ≡ true) × (matches_client s.client_nets p c ≡ true)

pub picked-Good :
    (s : Snapshot) (now : ℕ) (c : Option (List ℕ)) (ps : List Policy) (p : Policy)
    → pick_highest s c (filter_active ps now) ≡ some p
    → Good s now c ps p
picked-Good s now c ps p h = elim (pick_highest_lem s c (filter_active ps now)) [
  | inl m ↦ cc
  | inr (r, e, m, sc, a) ↦
      let q : r ≡ p = cc in
      let (m', act) = Member-keep (λ p. active p now) r ps (rw filter_active_lem at m) in
      rw (← q) (m', act, sc)
]

-- The domain and its parents, the longest first, but only those of two labels or more: a name of one
-- label, as localhost or a top-level domain, is not among them.
abbrev pub names_of_two_labels : List Text → List Text
names_of_two_labels [] = []
names_of_two_labels (x ∷ []) = []
names_of_two_labels (x ∷ y ∷ parts) =
    join_with b'.' (x ∷ y ∷ parts) ∷ names_of_two_labels (y ∷ parts)

-- `p` is a candidate at the domain `d`: it is filed under one of those names, or a wildcard or a regular
-- expression of it matches.
abbrev pub IsCandidate : Snapshot → Text → Policy → Type 0
IsCandidate s d p =
    ((n : Text) × Member n (names_of_two_labels (split_at b'.' d)) × Member p (exact_at s n))
    ⊎ Member p (dynamic_candidates s d)

walk-Good :
    (s : Snapshot) (now : ℕ) (c : Option (List ℕ)) (parts : List Text) (p : Policy)
    → walk s now c parts ≡ some p
    → (n : Text) × Member n (names_of_two_labels parts) × Good s now c (exact_at s n) p
unfolding walk level
walk-Good s now c [] p h = cc
walk-Good s now c (x ∷ []) p h = cc
walk-Good s now c (x ∷ y ∷ parts) p h =
    let n = join_with b'.' (x ∷ y ∷ parts) in
    elim (Option-cases (pick_highest s c (filter_active (exact_at s n) now))) [
      | inl miss ↦ let (m, i, g) = walk-Good s now c (y ∷ parts) p (ground arith) in (m, inr i, g)
      | inr (q, hit) ↦ (n, inl refl, picked-Good s now c (exact_at s n) p (ground arith))
    ]

pub deciding-Good :
    (s : Snapshot) (now : ℕ) (c : Option (List ℕ)) (d : Text) (p : Policy)
    → deciding s now c d ≡ some p
    → IsCandidate s d p × (active p now ≡ true) × (matches_client s.client_nets p c ≡ true)
unfolding deciding match_dynamic
deciding-Good s now c d p h = elim (Option-cases (walk s now c (split_at b'.' d))) [
  | inl miss ↦
      let (m, a, sc) = picked-Good s now c (dynamic_candidates s d) p (ground arith) in
      (inr m, a, sc)
  | inr (q, hit) ↦
      let (n, i, g) = walk-Good s now c (split_at b'.' d) p (ground arith) in
      (inl (n, i, g.0), g.1, g.2)
]

-- nothing is picked only from candidates of which none is active and in scope
pub not-picked :
    (s : Snapshot) (now : ℕ) (c : Option (List ℕ)) (ps : List Policy) (p : Policy)
    → pick_highest s c (filter_active ps now) ≡ none
    → Good s now c ps p
    → ⊥
not-picked s now c ps p h (m, a, sc) = elim (pick_highest_lem s c (filter_active ps now)) [
  | inl (e, out) ↦
      let m' = keep-Member (λ p. active p now) p ps m a in
      let o =
        All-Member (λ p. matches_client s.client_nets p c ≡ false) p (keep (λ p. active p now) ps)
          (rw filter_active_lem at out) m' in
      cc
  | inr (r, e, _, _, _) ↦ cc
]

not-walked :
    (s : Snapshot) (now : ℕ) (c : Option (List ℕ)) (parts : List Text) (n : Text) (p : Policy)
    → walk s now c parts ≡ none
    → Member n (names_of_two_labels parts)
    → Good s now c (exact_at s n) p
    → ⊥
unfolding walk level
not-walked s now c [] n p h i g = absurd i
not-walked s now c (x ∷ []) n p h i g = absurd i
not-walked s now c (x ∷ y ∷ parts) n p h (inl e) g =
    not-picked s now c (exact_at s (join_with b'.' (x ∷ y ∷ parts))) p (ground arith) (rw e at g)
not-walked s now c (x ∷ y ∷ parts) n p h (inr i) g =
    not-walked s now c (y ∷ parts) n p (ground arith) i g

pub not-decided :
    (s : Snapshot) (now : ℕ) (c : Option (List ℕ)) (d : Text) (p : Policy)
    → deciding s now c d ≡ none
    → IsCandidate s d p
    → active p now ≡ true
    → matches_client s.client_nets p c ≡ true
    → ⊥
unfolding deciding match_dynamic
not-decided s now c d p h (inl (n, i, m)) a sc =
    not-walked s now c (split_at b'.' d) n p (ground arith) i (m, a, sc)
not-decided s now c d p h (inr m) a sc =
    not-picked s now c (dynamic_candidates s d) p (ground arith) (m, a, sc)

-- `p` is consulted for a query: it is filed under the domain or a parent of it, of two labels or more,
-- or has a wildcard or a regular expression that matches, and it is active at the time and in scope.
-- A policy filed under a name of one label is not consulted, for a query of that very name neither.
abbrev pub IsConsulted : Platform → Snapshot → ℕ → Text → Text → Policy → Type 0
IsConsulted os s now domain client p =
    IsCandidate s (normalize_domain domain) p
    × (active p now ≡ true)
    × (matches_client s.client_nets p (parse_client_ip os client) ≡ true)

pub evaluate-IsConsulted :
    (os : Platform) (s : Snapshot) (now : ℕ) (domain client : Text)
    → ((p : Policy) × IsConsulted os s now domain client p
        × (evaluate os s now domain client ≡ policy_decision p))
      ⊎ ((evaluate os s now domain client ≡ default_decision)
          × ((p : Policy) → ¬ IsConsulted os s now domain client p))
unfolding evaluate
evaluate-IsConsulted os s now domain client =
    let c = parse_client_ip os client in
    let d = normalize_domain domain in
    elim (Option-cases (deciding s now c d)) [
      | inl e ↦ inr (ap decision_of e, λ p a. not-decided s now c d p e a.0 a.1 a.2)
      | inr (p, e) ↦ inl (p, deciding-Good s now c d p e, ap decision_of e)
    ]

-- An ALLOW policy by its action text.
abbrev pub IsAllow : Policy → Type 0
IsAllow p = same_text (to_upper p.action) (text "ALLOW") ≡ true

scoped_out :
    (s : Snapshot) (now : ℕ) (c : Option (List ℕ)) (ps : List Policy)
    → has_scoped_allow s c (filter_active ps now) ≡ true
    → (p : Policy) × Good s now c ps p × IsAllow p
unfolding has_scoped_allow
scoped_out s now c ps h =
    let test = λ (p : Policy).
      matches_client s.client_nets p c && same_text (to_upper p.action) (text "ALLOW") in
    let (p, m, t) = any-Member test (filter_active ps now) h in
    let (m', a) = Member-keep (λ p. active p now) p ps (rw filter_active_lem at m) in
    (p, (m', a, ground arith), ground arith)

scoped_allow_in :
    (s : Snapshot) (now : ℕ) (c : Option (List ℕ)) (ps : List Policy) (p : Policy)
    → Good s now c ps p
    → IsAllow p
    → has_scoped_allow s c (filter_active ps now) ≡ true
unfolding has_scoped_allow
scoped_allow_in s now c ps p (m, a, sc) al =
    any_of_Member _ p (filter_active ps now)
      (rw filter_active_lem (keep-Member (λ p. active p now) p ps m a)) (rw (sc, al))

walk_allow_out :
    (s : Snapshot) (now : ℕ) (c : Option (List ℕ)) (parts : List Text)
    → walk_allow s now c parts ≡ true
    → (p : Policy) × ((n : Text) × Member n (names_of_two_labels parts)
        × Good s now c (exact_at s n) p)
      × IsAllow p
unfolding walk_allow
walk_allow_out s now c [] h = cc
walk_allow_out s now c (x ∷ []) h = cc
walk_allow_out s now c (x ∷ y ∷ parts) h =
    let n = join_with b'.' (x ∷ y ∷ parts) in
    elim (Bool-cases (has_scoped_allow s c (filter_active (exact_at s n) now))) [
      | inl e ↦ let (p, g, al) = scoped_out s now c (exact_at s n) e in (p, (n, inl refl, g), al)
      | inr e ↦
          let (p, (m, i, g), al) = walk_allow_out s now c (y ∷ parts) (ground arith) in
          (p, (m, inr i, g), al)
    ]

walk_allow_in :
    (s : Snapshot) (now : ℕ) (c : Option (List ℕ)) (parts : List Text) (n : Text) (p : Policy)
    → Member n (names_of_two_labels parts)
    → Good s now c (exact_at s n) p
    → IsAllow p
    → walk_allow s now c parts ≡ true
unfolding walk_allow
walk_allow_in s now c [] n p i g al = absurd i
walk_allow_in s now c (x ∷ []) n p i g al = absurd i
walk_allow_in s now c (x ∷ y ∷ parts) n p (inl e) g al =
    rw (scoped_allow_in s now c (exact_at s (join_with b'.' (x ∷ y ∷ parts))) p (rw e at g) al)
walk_allow_in s now c (x ∷ y ∷ parts) n p (inr i) g al =
    ground (arith, walk_allow_in s now c (y ∷ parts) n p i g al)

-- `IsExplicitlyAllowed` answers yes exactly when some policy has the action ALLOW, is active and in
-- scope, and is filed under the domain or a parent of it, of two labels or more, or has a wildcard or a
-- regular expression that matches: at any of these levels and whatever its priority. An ALLOW policy
-- that is only filed under a name of one label does not count, for a query of that name neither.
pub is_explicitly_allowed_iff :
    (os : Platform) (s : Snapshot) (now : ℕ) (domain client : Text)
    → (is_explicitly_allowed os s now domain client ≡ true)
      ↔ ((p : Policy) × IsConsulted os s now domain client p × IsAllow p)
unfolding is_explicitly_allowed allows
is_explicitly_allowed_iff os s now domain client = (out, λ h. back h.0 h.1 h.2)
  where
    c : Option (List ℕ)
    c = parse_client_ip os client

    d : Text
    d = normalize_domain domain

    out : allows s now c d ≡ true → (p : Policy) × IsConsulted os s now domain client p × IsAllow p
    out h = elim (Bool-cases (walk_allow s now c (split_at b'.' d))) [
      | inl e ↦
          let (p, (n, i, g), al) = walk_allow_out s now c (split_at b'.' d) e in
          (p, (inl (n, i, g.0), g.1, g.2), al)
      | inr e ↦
          let (p, g, al) = scoped_out s now c (dynamic_candidates s d) (ground arith) in
          (p, (inr g.0, g.1, g.2), al)
    ]

    back : (p : Policy) → IsConsulted os s now domain client p → IsAllow p → allows s now c d ≡ true
    back p (inl (n, i, m), a, sc) al =
        rw (walk_allow_in s now c (split_at b'.' d) n p i (m, a, sc) al)
    back p (inr m, a, sc) al =
        ground (arith, scoped_allow_in s now c (dynamic_candidates s d) p (m, a, sc) al)
