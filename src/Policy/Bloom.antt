-- ===== src/Policy/Bloom.antt =====
-- internal/policy/engine.go: the Bloom filter in front of the exact map changes no decision.
use phantomcore.Base.{
  ℕ, ◌≡◌, refl, sym, ap, inl, inr, true, false, Option, none, some, List, [], ◌∷◌, map, Member,
  arith, Text, lookup, text_discrete, join_with, split_at, if◌then◌else◌, Bool-cases, Option-cases,
  ◌==◌,
}
use phantomcore.Policy.Flat.{Member-append_left}
use phantomcore.Policy.Types.{Policy, Platform, normalize_domain}
use phantomcore.Policy.Scope.{parse_client_ip}
use phantomcore.Policy.Snapshot.{Snapshot, policies_at, bloom_texts, build_snapshot, build_rules}
use phantomcore.Policy.Engine.{
  filter_active, pick_highest, exact_at, level, walk, walk_allow, deciding, evaluate,
  dynamic_candidates, is_explicitly_allowed, allows, has_scoped_allow, pick_from, decision_of,
}

-- A snapshot with a filter that lets every name through.
abbrev pub without_bloom : Snapshot → Snapshot
without_bloom s = record s { bloom = λ _. true }

-- The filter lets through every name that the exact map holds.
abbrev pub Passes : Snapshot → Type 0
Passes s = (n : Text) → s.bloom n ≡ false → policies_at s.exact n ≡ []

exact_at-without_bloom :
    (s : Snapshot) → Passes s → (n : Text) → exact_at s n ≡ exact_at (without_bloom s) n
unfolding exact_at
exact_at-without_bloom s h n = elim (Bool-cases (s.bloom n)) [
  | inl e ↦ rw e
  | inr e ↦ rw e (sym (h n e))
]

Member-keys :
    (n : Text) (ps : List Policy) (m : List (Text × List Policy))
    → lookup text_discrete n m ≡ some ps
    → Member n (map (λ e. e.0) m)
unfolding lookup
Member-keys n ps [] h = cc
Member-keys n ps ((k, qs) ∷ m) h = elim (text_discrete k n) [
  | yes e ↦ inl (sym e)
  | no e ↦ inr (Member-keys n ps m (ground arith))
]

pub build_snapshot-Passes : (os : Platform) (ps : List Policy) → Passes (build_snapshot os ps)
unfolding build_snapshot
build_snapshot-Passes os ps n h =
    elim (Option-cases (lookup text_discrete n (build_rules os ps).exact)) [
      | inl e ↦ ground arith
      | inr (qs, e) ↦
          let size = (build_rules os ps).total in
          let texts = bloom_texts os (build_rules os ps).exact ps in
          let seen = os.bloom_complete (if size == 0 then 1 else size) texts n (
            unfold bloom_texts in
            Member-append_left n (map (λ e. e.0) (build_rules os ps).exact) _
              (Member-keys n qs (build_rules os ps).exact e)) in
          cc
    ]

level-without_bloom :
    (s : Snapshot)
    → Passes s
    → (now : ℕ) (c : Option (List ℕ)) (n : Text)
    → level s now c n ≡ pick_highest s c (filter_active (exact_at (without_bloom s) n) now)
unfolding level
level-without_bloom s h now c n = rw (exact_at-without_bloom s h n)

pick_from-without_bloom :
    (s : Snapshot) (c : Option (List ℕ)) (ps : List Policy) (b : Option Policy)
    → pick_from s c b ps ≡ pick_from (without_bloom s) c b ps
unfolding pick_from
pick_from-without_bloom s c [] b = refl
pick_from-without_bloom s c (p ∷ ps) b = pick_from-without_bloom s c ps _

pick_highest-without_bloom :
    (s : Snapshot) (c : Option (List ℕ)) (ps : List Policy)
    → pick_highest s c ps ≡ pick_highest (without_bloom s) c ps
unfolding pick_highest
pick_highest-without_bloom s c ps = pick_from-without_bloom s c ps none

walk-without_bloom :
    (s : Snapshot)
    → Passes s
    → (now : ℕ) (c : Option (List ℕ)) (parts : List Text)
    → walk s now c parts ≡ walk (without_bloom s) now c parts
unfolding walk level
walk-without_bloom s h now c [] = refl
walk-without_bloom s h now c (x ∷ []) = refl
walk-without_bloom s h now c (x ∷ y ∷ parts) =
    let n = join_with b'.' (x ∷ y ∷ parts) in
    ground (
      arith,
      exact_at-without_bloom s h n,
      pick_highest-without_bloom s c (filter_active (exact_at (without_bloom s) n) now),
      walk-without_bloom s h now c (y ∷ parts),
    )

deciding-without_bloom :
    (s : Snapshot)
    → Passes s
    → (now : ℕ) (c : Option (List ℕ)) (d : Text)
    → deciding s now c d ≡ deciding (without_bloom s) now c d
unfolding deciding dynamic_candidates
deciding-without_bloom s h now c d = ground (
  arith,
  walk-without_bloom s h now c (split_at b'.' d),
  pick_highest-without_bloom s c (filter_active (dynamic_candidates s d) now),
)

walk_allow-without_bloom :
    (s : Snapshot)
    → Passes s
    → (now : ℕ) (c : Option (List ℕ)) (parts : List Text)
    → walk_allow s now c parts ≡ walk_allow (without_bloom s) now c parts
unfolding walk_allow has_scoped_allow
walk_allow-without_bloom s h now c [] = refl
walk_allow-without_bloom s h now c (x ∷ []) = refl
walk_allow-without_bloom s h now c (x ∷ y ∷ parts) = ground (
  arith,
  exact_at-without_bloom s h (join_with b'.' (x ∷ y ∷ parts)),
  walk_allow-without_bloom s h now c (y ∷ parts),
)

allows-without_bloom :
    (s : Snapshot)
    → Passes s
    → (now : ℕ) (c : Option (List ℕ)) (d : Text)
    → allows s now c d ≡ allows (without_bloom s) now c d
unfolding allows has_scoped_allow dynamic_candidates
allows-without_bloom s h now c d =
    ground (arith, walk_allow-without_bloom s h now c (split_at b'.' d))

-- On a snapshot built from policies, the Bloom filter is only an optimisation: for every domain,
-- client and time, the decision and the explicit-allow test are those of the snapshot with a
-- filter that lets every name through.
pub evaluate-without_bloom :
    (os : Platform) (ps : List Policy) (now : ℕ) (domain client : Text)
    → let s = build_snapshot os ps in
      (evaluate os s now domain client ≡ evaluate os (without_bloom s) now domain client)
      × (is_explicitly_allowed os s now domain client
          ≡ is_explicitly_allowed os (without_bloom s) now domain client)
unfolding evaluate is_explicitly_allowed
evaluate-without_bloom os ps now domain client =
    let s = build_snapshot os ps in
    let h = build_snapshot-Passes os ps in
    let c = parse_client_ip os client in
    (
      ap decision_of (deciding-without_bloom s h now c (normalize_domain domain)),
      allows-without_bloom s h now c (normalize_domain domain),
    )
