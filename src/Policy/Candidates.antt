-- ===== src/Policy/Candidates.antt =====
-- internal/policy/snapshot.go and engine.go: the candidates for a domain are the policies that cover
-- it, no more and no fewer.
use phantomcore.Base.{
  ◌≡◌, sym, ◌∙◌, inl, inr, Bool, true, false, some, List, map, Text, is_empty, contains_byte,
  split_at, Member, subst, ◌↔◌,
}
use phantomcore.Policy.Types.{Policy, Platform, normalize_domain}
use phantomcore.Policy.Snapshot.{
  WildcardRule, RegexRule, wildcard_base, with_schedule, build_snapshot, Snapshot,
}
use phantomcore.Policy.Engine.{
  wildcard_matches, wildcard_candidates, regex_candidates, dynamic_candidates, exact_at,
}
use phantomcore.Policy.Lookup.{policies_at-build_snapshot}
use phantomcore.Policy.Override.{names_of_two_labels, IsCandidate}
use phantomcore.Policy.Bloom.{build_snapshot-Passes}
use phantomcore.Policy.Coverage.{
  Covers, wildcards_of, regexes_of, build_snapshot-wildcards, build_snapshot-regexes,
}
use phantomcore.Policy.Flat.{
  Member-append_left, flat_map, Member-or_append, append_right-Member, Member-flat_map,
  flat_map-Member, Member-map, map-Member,
}
use phantomcore.Policy.Hits.{
  Member-wildcard_candidates, Member-regex_candidates, Member-exact_hits, exact_hits-Member,
  wildcard_candidates-Member, regex_candidates-Member, Member-all_hits, all_hits-Member,
  exact_at-policies_at, Member-wildcards_of, wildcards_of-Member, Member-regexes_of,
  regexes_of-Member,
}

module _ (os : Platform) (ps : List Policy) (d : Text) where
  abbrev built : Snapshot
  built = build_snapshot os ps

  -- What a candidate comes from.
  abbrev pub IsSource : Policy → Type 0
  IsSource q = (p : Policy) × Member p ps × (q ≡ with_schedule os p) × Covers os d p

  exact_at-IsSource :
      (q : Policy) (n : Text)
      → Member n (names_of_two_labels (split_at b'.' d))
      → Member q (exact_at built n)
      → IsSource q
  unfolding with_schedule
  exact_at-IsSource q n i m =
      let filed =
        exact_at-policies_at built n (build_snapshot-Passes os ps)
        ∙ policies_at-build_snapshot os ps n in
      let (r, j, k) = Member-all_hits n q (map (with_schedule os) ps) (subst (Member q) filed m) in
      let (same, (raw, l, e, c)) = Member-exact_hits n r.domains r q k in
      let (p, u, is) = Member-map (with_schedule os) r ps j in
      let listed : Member raw p.domains = subst (λ x. Member raw (Policy.domains x)) is l in
      (p, u, same ∙ is, inl (n, raw, i, listed, e, c))

  IsSource-exact_at :
      (p : Policy) (n raw : Text)
      → Member p ps
      → Member raw p.domains
      → normalize_domain raw ≡ n
      → contains_byte b'*' n ≡ false
      → Member (with_schedule os p) (exact_at built n)
  unfolding with_schedule
  IsSource-exact_at p n raw u l e c =
      let filed =
        exact_at-policies_at built n (build_snapshot-Passes os ps)
        ∙ policies_at-build_snapshot os ps n in
      let q = with_schedule os p in
      subst (Member q) (sym filed) (
        all_hits-Member n q q (map (with_schedule os) ps) (map-Member (with_schedule os) p ps u)
          (exact_hits-Member n q.domains q raw l e c))

  wildcards-IsSource : (q : Policy) → Member q (wildcard_candidates built.wildcards d) → IsSource q
  unfolding with_schedule
  wildcards-IsSource q m =
      let (w, i, h, same) = Member-wildcard_candidates q built.wildcards d m in
      let (r, j, k) =
        Member-flat_map (λ p. flat_map (wildcards_of os p) p.domains) w (map (with_schedule os) ps)
          (subst (Member w) (build_snapshot-wildcards os ps) i) in
      let (raw, l, x) = Member-flat_map (wildcards_of os r) w r.domains k in
      let (p, u, is) = Member-map (with_schedule os) r ps j in
      let (of, base, star, full) = Member-wildcards_of os r raw w x in
      let listed : Member raw p.domains = subst (λ x. Member raw (Policy.domains x)) is l in
      let hit = subst (λ b. wildcard_matches d b ≡ true) base h in
      (p, u, same ∙ of ∙ is, inr (inl (raw, listed, star, full, hit)))

  IsSource-wildcards :
      (p : Policy) (raw : Text)
      → Member p ps
      → Member raw p.domains
      → contains_byte b'*' (normalize_domain raw) ≡ true
      → is_empty (wildcard_base (normalize_domain raw)) ≡ false
      → wildcard_matches d (wildcard_base (normalize_domain raw)) ≡ true
      → Member (with_schedule os p) (wildcard_candidates built.wildcards d)
  unfolding with_schedule
  IsSource-wildcards p raw u l star full hit =
      let q = with_schedule os p in
      let w : WildcardRule = record { base = wildcard_base (normalize_domain raw); policy = q } in
      wildcard_candidates-Member w built.wildcards d
        (subst (Member w) (sym (build_snapshot-wildcards os ps)) (
          flat_map-Member (λ p. flat_map (wildcards_of os p) p.domains) w q
            (map (with_schedule os) ps) (map-Member (with_schedule os) p ps u)
            (flat_map-Member (wildcards_of os q) w raw q.domains l
              (wildcards_of-Member os q raw star full))))
        hit

  regexes-IsSource : (q : Policy) → Member q (regex_candidates built.regexes d) → IsSource q
  unfolding with_schedule
  regexes-IsSource q m =
      let (w, i, h, same) = Member-regex_candidates q built.regexes d m in
      let (r, j, k) =
        Member-flat_map (λ p. flat_map (regexes_of os p) p.regexes) w (map (with_schedule os) ps)
          (subst (Member w) (build_snapshot-regexes os ps) i) in
      let (rx, l, x) = Member-flat_map (regexes_of os r) w r.regexes k in
      let (p, u, is) = Member-map (with_schedule os) r ps j in
      let (of, compiled) = Member-regexes_of os r rx w x in
      let listed : Member rx p.regexes = subst (λ x. Member rx (Policy.regexes x)) is l in
      (p, u, same ∙ of ∙ is, inr (inr (rx, w.re, listed, compiled, h)))

  IsSource-regexes :
      (p : Policy) (rx : Text) (re : Text → Bool)
      → Member p ps
      → Member rx p.regexes
      → os.compile_regex rx ≡ some re
      → re d ≡ true
      → Member (with_schedule os p) (regex_candidates built.regexes d)
  unfolding with_schedule
  IsSource-regexes p rx re u l compiled hit =
      let q = with_schedule os p in
      let w : RegexRule = record { re = re; policy = q } in
      regex_candidates-Member w built.regexes d
        (subst (Member w) (sym (build_snapshot-regexes os ps)) (
          flat_map-Member (λ p. flat_map (regexes_of os p) p.regexes) w q
            (map (with_schedule os) ps) (map-Member (with_schedule os) p ps u)
            (flat_map-Member (regexes_of os q) w rx q.regexes l
              (regexes_of-Member os q rx re compiled))))
        hit

  -- The candidates for a domain, at the names and among the wildcards and expressions of the built
  -- snapshot, are exactly the policies, with their schedules, that cover it.
  pub IsCandidate-iff : (q : Policy) → IsCandidate built d q ↔ IsSource q
  unfolding dynamic_candidates
  IsCandidate-iff q = (
    λ h. elim h [
      | inl (n, i, m) ↦ exact_at-IsSource q n i m
      | inr m ↦
          elim (Member-or_append q (wildcard_candidates built.wildcards d)
            (regex_candidates built.regexes d) m) [
              | inl k ↦ wildcards-IsSource q k
              | inr k ↦ regexes-IsSource q k
            ]
    ],
    λ (p, u, is, covers). subst (IsCandidate built d) (sym is) (elim covers [
      | inl (n, raw, i, l, e, c) ↦ inl (n, i, IsSource-exact_at p n raw u l e c)
      | inr (inl (raw, l, star, full, hit)) ↦ inr (
          Member-append_left _ (wildcard_candidates built.wildcards d)
            (regex_candidates built.regexes d) (IsSource-wildcards p raw u l star full hit))
      | inr (inr (rx, re, l, compiled, hit)) ↦ inr (
          append_right-Member _ (wildcard_candidates built.wildcards d)
            (regex_candidates built.regexes d) (IsSource-regexes p rx re u l compiled hit))
    ]),
  )
