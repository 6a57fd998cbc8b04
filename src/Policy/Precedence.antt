-- ===== src/Policy/Precedence.antt =====
-- internal/policy/engine.go: which of the policies that apply decides.
use phantomcore.Base.{
  ℕ, ◌≡◌, ap, subst, ◌⊎◌, inl, inr, true, Option, none, some, List, [], ◌∷◌, ◌++◌, keep, map, arith,
  Text, split_at, join_with, Option-cases, keep-Member, All-Member,
}
use phantomcore.Policy.Types.{Policy, Platform, normalize_domain, policy_decision, default_decision}
use phantomcore.Policy.Schedule.{active}
use phantomcore.Policy.Scope.{parse_client_ip, matches_client}
use phantomcore.Policy.Snapshot.{Snapshot}
use phantomcore.Policy.Engine.{
  filter_active, pick_highest, exact_at, level, walk, deciding, evaluate, match_dynamic,
  dynamic_candidates, decision_of,
}
use phantomcore.Policy.Choice.{Outranks, pick_highest_lem, filter_active_lem}
use phantomcore.Policy.Override.{
  Good, picked-Good, not-picked, names_of_two_labels, IsConsulted, not-decided, deciding-Good,
}

module _ (s : Snapshot) (now : ℕ) (c : Option (List ℕ)) where
  -- The groups of policies in their order of precedence: those of each name of two labels or more, from
  -- the domain up, and then the wildcards and regular expressions together.
  abbrev pub groups : Text → List (List Policy)
  groups d =
      map (λ n. exact_at s n) (names_of_two_labels (split_at b'.' d)) ++ dynamic_candidates s d ∷ []

  -- `p` is in force in the first group that has a policy in force, and no other one there outranks it.
  abbrev pub Decides : List (List Policy) → Policy → Type 0
  Decides [] p = ⊥
  Decides (ps ∷ rest) p =
      Good s now c ps p × ((q : Policy) → Good s now c ps q → Outranks p q)
      ⊎ ((q : Policy) → ¬ Good s now c ps q) × Decides rest p

  picked-Outranks :
      (ps : List Policy) (p q : Policy)
      → pick_highest s c (filter_active ps now) ≡ some p
      → Good s now c ps q
      → Outranks p q
  picked-Outranks ps p q h (m, a, sc) = elim (pick_highest_lem s c (filter_active ps now)) [
    | inl (e, _) ↦ absurd cc
    | inr (r, e, _, _, all) ↦
        let same : r ≡ p = cc in
        let m' = keep-Member (λ p. active p now) q ps m a in
        let out =
          All-Member (λ q. matches_client s.client_nets q c ≡ true → Outranks r q) q
            (keep (λ p. active p now) ps) (rw filter_active_lem at all) m' in
        subst (λ x. Outranks x q) same (out sc)
  ]

  walk-Decides :
      (parts : List Text) (last : List (List Policy)) (p : Policy)
      → (walk s now c parts ≡ some p) ⊎ (walk s now c parts ≡ none) × Decides last p
      → Decides (map (λ n. exact_at s n) (names_of_two_labels parts) ++ last) p
  unfolding walk level
  walk-Decides [] last p (inl h) = absurd cc
  walk-Decides [] last p (inr h) = h.1
  walk-Decides (x ∷ []) last p (inl h) = absurd cc
  walk-Decides (x ∷ []) last p (inr h) = h.1
  walk-Decides (x ∷ y ∷ parts) last p h =
      let here = exact_at s (join_with b'.' (x ∷ y ∷ parts)) in
      elim (Option-cases (pick_highest s c (filter_active here now))) [
        | inl miss ↦ inr (
          λ q g. not-picked s now c here q miss g,
          walk-Decides (y ∷ parts) last p (elim h [
            | inl e ↦ inl (ground (arith, e, miss))
            | inr (e, k) ↦ inr (ground (arith, e, miss), k)
          ]),
        )
        | inr (q, hit) ↦ elim h [
          | inl e ↦
              let it : pick_highest s c (filter_active here now) ≡ some p =
                ground (arith, e, hit) in
              inl (picked-Good s now c here p it, λ r g. picked-Outranks here p r it g)
          | inr (e, k) ↦ absurd (ground (arith, e, hit))
        ]
      ]

  deciding-Decides : (d : Text) (p : Policy) → deciding s now c d ≡ some p → Decides (groups d) p
  unfolding deciding match_dynamic
  deciding-Decides d p h =
      let last = dynamic_candidates s d in
      walk-Decides (split_at b'.' d) (last ∷ []) p
        (elim (Option-cases (walk s now c (split_at b'.' d))) [
          | inl miss ↦
              let it : pick_highest s c (filter_active last now) ≡ some p =
                ground (arith, h, miss) in
              inr (miss, inl (picked-Good s now c last p it, λ r g. picked-Outranks last p r it g))
          | inr (q, hit) ↦ inl (ground (arith, h, hit))
        ])

-- Every decision is that of a policy which is consulted for the query, and it is the one that the order of
-- precedence names: of the names of two labels or more from the domain up to its parents, and the
-- wildcards and regular expressions after them, the first that has a policy in force, and there the
-- one that no other policy in force outranks, by priority and then by id. Or the decision is the
-- default ALLOW and no policy is consulted. A policy filed under a name of one label only is never
-- consulted, for a query of that very name neither.
pub evaluate_cases :
    (os : Platform) (s : Snapshot) (now : ℕ) (domain client : Text)
    → ((p : Policy) × IsConsulted os s now domain client p
        × Decides s now
            (parse_client_ip os client)
            (groups s now (parse_client_ip os client) (normalize_domain domain))
            p
        × (evaluate os s now domain client ≡ policy_decision p))
      ⊎ ((evaluate os s now domain client ≡ default_decision)
          × ((p : Policy) → ¬ IsConsulted os s now domain client p))
unfolding evaluate
evaluate_cases os s now domain client =
    let c = parse_client_ip os client in
    let d = normalize_domain domain in
    elim (Option-cases (deciding s now c d)) [
      | inl e ↦ inr (ap decision_of e, λ p a. not-decided s now c d p e a.0 a.1 a.2)
      | inr (p, e) ↦
          inl (p, deciding-Good s now c d p e, deciding-Decides s now c d p e, ap decision_of e)
    ]
