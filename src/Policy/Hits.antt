-- ===== src/Policy/Hits.antt =====
-- internal/policy/snapshot.go and engine.go: what is found under a name, among the wildcards and among
-- the regular expressions.
use phantomcore.Base.{
  ◌≡◌, refl, sym, ap, ◌∙◌, ◌⊎◌, inl, inr, Bool, true, false, not, ◌&&◌, some, List, [], ◌∷◌, arith,
  Text, is_empty, same_text, same_text-true, same_text_yes, contains_byte, Member, Bool-cases,
  subst, Option-cases,
}
use phantomcore.Policy.Types.{Policy, Platform, normalize_domain}
use phantomcore.Policy.Snapshot.{WildcardRule, RegexRule, wildcard_base, Snapshot, policies_at}
use phantomcore.Policy.Engine.{wildcard_matches, wildcard_candidates, regex_candidates, exact_at}
use phantomcore.Policy.Lookup.{exact_hits, all_hits}
use phantomcore.Policy.Bloom.{Passes}
use phantomcore.Policy.Coverage.{wildcards_of, regexes_of}
use phantomcore.Policy.Flat.{Member-append_left, Member-or_append, append_right-Member}

pub Member-wildcard_candidates :
    (q : Policy) (ws : List WildcardRule) (d : Text)
    → Member q (wildcard_candidates ws d)
    → (w : WildcardRule) × Member w ws × (wildcard_matches d w.base ≡ true) × (q ≡ w.policy)
unfolding wildcard_candidates
Member-wildcard_candidates q [] d m = absurd m
Member-wildcard_candidates q (w ∷ ws) d m = elim (Bool-cases (wildcard_matches d w.base)) [
  | inl e ↦
      let m' : (q ≡ w.policy) ⊎ Member q (wildcard_candidates ws d) =
        rw (wildcard_candidates, e) at m in
      elim m' [
        | inl same ↦ (w, inl refl, e, same)
        | inr k ↦ let (v, i, h, s) = Member-wildcard_candidates q ws d k in (v, inr i, h, s)
      ]
  | inr e ↦
      let (v, i, h, s) = Member-wildcard_candidates q ws d (rw (wildcard_candidates, e) at m) in
      (v, inr i, h, s)
]

pub Member-regex_candidates :
    (q : Policy) (rs : List RegexRule) (d : Text)
    → Member q (regex_candidates rs d)
    → (r : RegexRule) × Member r rs × (r.re d ≡ true) × (q ≡ r.policy)
unfolding regex_candidates
Member-regex_candidates q [] d m = absurd m
Member-regex_candidates q (r ∷ rs) d m = elim (Bool-cases (r.re d)) [
  | inl e ↦
      let m' : (q ≡ r.policy) ⊎ Member q (regex_candidates rs d) = rw (regex_candidates, e) at m in
      elim m' [
        | inl same ↦ (r, inl refl, e, same)
        | inr k ↦ let (v, i, h, s) = Member-regex_candidates q rs d k in (v, inr i, h, s)
      ]
  | inr e ↦
      let (v, i, h, s) = Member-regex_candidates q rs d (rw (regex_candidates, e) at m) in
      (v, inr i, h, s)
]

pub Member-exact_hits :
    (n : Text) (ds : List Text) (p q : Policy)
    → Member q (exact_hits n ds p)
    → (q ≡ p)
      × ((raw : Text) × Member raw ds × (normalize_domain raw ≡ n) × (contains_byte b'*' n ≡ false))
Member-exact_hits n [] p q m = absurd m
Member-exact_hits n (d ∷ ds) p q m =
    let hit = same_text (normalize_domain d) n && not (contains_byte b'*' n) in
    elim (Bool-cases hit) [
      | inl e ↦
          let m' : (q ≡ p) ⊎ Member q (exact_hits n ds p) = rw (exact_hits, e) at m in
          elim m' [
            | inl same ↦ (
              same,
              (
                d,
                inl refl,
                same_text-true (normalize_domain d) n (ground (arith, e)),
                ground (arith, e),
              ),
            )
            | inr k ↦
                let (s, (raw, i, h, c)) = Member-exact_hits n ds p q k in (s, (raw, inr i, h, c))
          ]
      | inr e ↦
          let (s, (raw, i, h, c)) = Member-exact_hits n ds p q (rw (exact_hits, e) at m) in
          (s, (raw, inr i, h, c))
    ]

pub exact_hits-Member :
    (n : Text) (ds : List Text) (p : Policy) (raw : Text)
    → Member raw ds
    → normalize_domain raw ≡ n
    → contains_byte b'*' n ≡ false
    → Member p (exact_hits n ds p)
exact_hits-Member n [] p raw m e c = absurd m
exact_hits-Member n (d ∷ ds) p raw (inl q) e c =
    let hit : (same_text (normalize_domain d) n && not (contains_byte b'*' n)) ≡ true =
      rw (same_text_yes (normalize_domain d) n (ap normalize_domain (sym q) ∙ e), c) refl in
    rw (exact_hits, hit) (inl refl)
exact_hits-Member n (d ∷ ds) p raw (inr m) e c =
    let rest = exact_hits-Member n ds p raw m e c in
    elim (Bool-cases (same_text (normalize_domain d) n && not (contains_byte b'*' n))) [
      | inl h ↦ rw (exact_hits, h) (inr rest)
      | inr h ↦ rw (exact_hits, h) rest
    ]

pub wildcard_candidates-Member :
    (w : WildcardRule) (ws : List WildcardRule) (d : Text)
    → Member w ws
    → wildcard_matches d w.base ≡ true
    → Member w.policy (wildcard_candidates ws d)
unfolding wildcard_candidates
wildcard_candidates-Member w [] d m h = absurd m
wildcard_candidates-Member w (v ∷ ws) d (inl e) h =
    let hit : wildcard_matches d v.base ≡ true =
      subst (λ x. wildcard_matches d x.base ≡ true) e h in
    rw (wildcard_candidates, hit) (inl (ap WildcardRule.policy e))
wildcard_candidates-Member w (v ∷ ws) d (inr m) h =
    let rest = wildcard_candidates-Member w ws d m h in
    elim (Bool-cases (wildcard_matches d v.base)) [
      | inl e ↦ rw (wildcard_candidates, e) (inr rest)
      | inr e ↦ rw (wildcard_candidates, e) rest
    ]

pub regex_candidates-Member :
    (r : RegexRule) (rs : List RegexRule) (d : Text)
    → Member r rs
    → r.re d ≡ true
    → Member r.policy (regex_candidates rs d)
unfolding regex_candidates
regex_candidates-Member r [] d m h = absurd m
regex_candidates-Member r (v ∷ rs) d (inl e) h =
    let hit : v.re d ≡ true = subst (λ x. RegexRule.re x d ≡ true) e h in
    rw (regex_candidates, hit) (inl (ap RegexRule.policy e))
regex_candidates-Member r (v ∷ rs) d (inr m) h =
    let rest = regex_candidates-Member r rs d m h in
    elim (Bool-cases (v.re d)) [
      | inl e ↦ rw (regex_candidates, e) (inr rest)
      | inr e ↦ rw (regex_candidates, e) rest
    ]

pub Member-all_hits :
    (n : Text) (q : Policy) (ps : List Policy)
    → Member q (all_hits n ps)
    → (p : Policy) × Member p ps × Member q (exact_hits n p.domains p)
Member-all_hits n q [] m = absurd m
Member-all_hits n q (p ∷ ps) m =
    elim (Member-or_append q (exact_hits n p.domains p) (all_hits n ps) m) [
      | inl k ↦ (p, inl refl, k)
      | inr k ↦ let (r, i, j) = Member-all_hits n q ps k in (r, inr i, j)
    ]

pub all_hits-Member :
    (n : Text) (q p : Policy) (ps : List Policy)
    → Member p ps
    → Member q (exact_hits n p.domains p)
    → Member q (all_hits n ps)
all_hits-Member n q p [] m k = absurd m
all_hits-Member n q p (r ∷ ps) (inl e) k =
    Member-append_left q (exact_hits n r.domains r) (all_hits n ps)
      (subst (λ x. Member q (exact_hits n (Policy.domains x) x)) e k)
all_hits-Member n q p (r ∷ ps) (inr m) k =
    append_right-Member q (exact_hits n r.domains r) (all_hits n ps) (all_hits-Member n q p ps m k)

pub exact_at-policies_at :
    (s : Snapshot) (n : Text) → Passes s → exact_at s n ≡ policies_at s.exact n
unfolding exact_at
exact_at-policies_at s n h = elim (Bool-cases (s.bloom n)) [
  | inl e ↦ rw e refl
  | inr e ↦ rw e (sym (h n e))
]

module _ (os : Platform) (p : Policy) where
  pub Member-wildcards_of :
      (raw : Text) (w : WildcardRule)
      → Member w (wildcards_of os p raw)
      → (w.policy ≡ p)
        × (w.base ≡ wildcard_base (normalize_domain raw))
        × (contains_byte b'*' (normalize_domain raw) ≡ true)
        × (is_empty (wildcard_base (normalize_domain raw)) ≡ false)
  Member-wildcards_of raw w m =
      let n = normalize_domain raw in
      elim (Bool-cases (contains_byte b'*' n && not (is_empty (wildcard_base n)))) [
        | inl e ↦
            let m' : (w ≡ record { base = wildcard_base n; policy = p }) ⊎ ⊥ =
              rw (wildcards_of, e) at m in
            elim m' [
              | inl q ↦ (
                ap WildcardRule.policy q,
                ap WildcardRule.base q,
                ground (arith, e),
                ground (arith, e),
              )
              | inr k ↦ absurd k
            ]
        | inr e ↦ absurd (rw (wildcards_of, e) at m)
      ]

  pub wildcards_of-Member :
      (raw : Text)
      → contains_byte b'*' (normalize_domain raw) ≡ true
      → is_empty (wildcard_base (normalize_domain raw)) ≡ false
      → Member
          (record { base = wildcard_base (normalize_domain raw); policy = p })
          (wildcards_of os p raw)
  wildcards_of-Member raw c e = rw (wildcards_of, c, e) (inl refl)

  pub Member-regexes_of :
      (rx : Text) (r : RegexRule)
      → Member r (regexes_of os p rx)
      → (r.policy ≡ p) × (os.compile_regex rx ≡ some r.re)
  Member-regexes_of rx r m = elim (Option-cases (os.compile_regex rx)) [
    | inl e ↦ absurd (rw (regexes_of, e) at m)
    | inr (re, e) ↦
        let m' : (r ≡ record { re = re; policy = p }) ⊎ ⊥ = rw (regexes_of, e) at m in
        elim m' [
          | inl q ↦ (ap RegexRule.policy q, e ∙ ap some (sym (ap RegexRule.re q)))
          | inr k ↦ absurd k
        ]
  ]

  pub regexes_of-Member :
      (rx : Text) (re : Text → Bool)
      → os.compile_regex rx ≡ some re
      → Member (record { re = re; policy = p }) (regexes_of os p rx)
  regexes_of-Member rx re e = rw (regexes_of, e) (inl refl)
