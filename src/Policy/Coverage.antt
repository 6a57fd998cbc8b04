-- ===== src/Policy/Coverage.antt =====
-- internal/policy/snapshot.go: which policies a built snapshot turns to for a domain, told from the
-- policies themselves.
use phantomcore.Base.{
  ◌≡◌, sym, ap, ◌∙◌, ◌⊎◌, Bool, true, false, not, ◌&&◌, none, some, List, [], ◌∷◌, ◌++◌, map, arith,
  Text, is_empty, contains_byte, split_at, Member, if◌then◌else◌,
}
use mathlib.Core.List.{append-nil, append_assoc}
use phantomcore.Policy.Types.{Policy, Platform, normalize_domain}
use phantomcore.Policy.Snapshot.{
  Rules, WildcardRule, RegexRule, wildcard_base, add_domain, add_regex, add_cidr, add_policy, each,
  with_schedule, no_rules, build_snapshot,
}
use phantomcore.Policy.Engine.{wildcard_matches}
use phantomcore.Policy.Lookup.{each_keeps}
use phantomcore.Policy.Override.{names_of_two_labels}
use phantomcore.Policy.Flat.{flat_map}

-- A policy covers a domain: it lists it or a parent of two labels or more, one of its wildcards
-- that name a base matches it, or one of its regular expressions does.
abbrev pub Covers : Platform → Text → Policy → Type 0
Covers os d p =
    ((n : Text) × (raw : Text) × Member n (names_of_two_labels (split_at b'.' d))
      × Member raw p.domains
      × (normalize_domain raw ≡ n)
      × (contains_byte b'*' n ≡ false))
    ⊎ ((raw : Text) × Member raw p.domains
        × (contains_byte b'*' (normalize_domain raw) ≡ true)
        × (is_empty (wildcard_base (normalize_domain raw)) ≡ false)
        × (wildcard_matches d (wildcard_base (normalize_domain raw)) ≡ true))
    ⊎ ((rx : Text) × (re : Text → Bool) × Member rx p.regexes
        × (os.compile_regex rx ≡ some re)
        × (re d ≡ true))

-- a loop whose body appends to a view of the state
each_appends :
    {S A B : Type 0} (f : S → A → S) (view : S → List B) (out : A → List B)
    → ((s : S) (a : A) → view (f s a) ≡ view s ++ out a)
    → (s : S) (xs : List A) → view (each f s xs) ≡ view s ++ flat_map out xs
unfolding each
each_appends f view out h s [] = sym (append-nil (view s))
each_appends f view out h s (x ∷ xs) =
    each_appends f view out h (f s x) xs
    ∙ ap (λ l. l ++ flat_map out xs) (h s x)
    ∙ append_assoc (view s) (out x) (flat_map out xs)

module _ (os : Platform) where
  abbrev pub wildcards_of : Policy → Text → List WildcardRule
  wildcards_of p raw =
      let n = normalize_domain raw in
      if contains_byte b'*' n && not (is_empty (wildcard_base n))
      then record { base = wildcard_base n; policy = p } ∷ []
      else []

  abbrev pub regexes_of : Policy → Text → List RegexRule
  regexes_of p rx = elim (os.compile_regex rx) [
    | none ↦ []
    | some re ↦ record { re = re; policy = p } ∷ []
  ]

  add_domain-wildcards :
      (p : Policy) (r : Rules) (raw : Text)
      → (add_domain p r raw).wildcards ≡ r.wildcards ++ wildcards_of p raw
  unfolding add_domain
  add_domain-wildcards p r raw = ground (arith, append-nil r.wildcards)

  add_regex-regexes :
      (p : Policy) (r : Rules) (rx : Text)
      → (add_regex os p r rx).regexes ≡ r.regexes ++ regexes_of p rx
  unfolding add_regex
  add_regex-regexes p r rx = ground (arith, append-nil r.regexes)

  add_policy-wildcards :
      (r : Rules) (p : Policy)
      → (add_policy os r p).wildcards ≡ r.wildcards ++ flat_map (wildcards_of p) p.domains
  unfolding add_policy
  add_policy-wildcards r p =
      let s = each (add_domain p) r p.domains in
      let t = each (add_regex os p) s p.regexes in
      each_keeps (add_cidr os p) (λ r. r.wildcards) (λ s c. unfold add_cidr in ground arith) t
        p.client_cidrs
      ∙ each_keeps (add_regex os p) (λ r. r.wildcards) (λ s c. unfold add_regex in ground arith) s
          p.regexes
      ∙ each_appends (add_domain p) (λ r. r.wildcards) (wildcards_of p) (add_domain-wildcards p) r
          p.domains

  add_policy-regexes :
      (r : Rules) (p : Policy)
      → (add_policy os r p).regexes ≡ r.regexes ++ flat_map (regexes_of p) p.regexes
  unfolding add_policy
  add_policy-regexes r p =
      let s = each (add_domain p) r p.domains in
      let t = each (add_regex os p) s p.regexes in
      each_keeps (add_cidr os p) (λ r. r.regexes) (λ s c. unfold add_cidr in ground arith) t
        p.client_cidrs
      ∙ each_appends (add_regex os p) (λ r. r.regexes) (regexes_of p) (add_regex-regexes p) s
          p.regexes
      ∙ ap (λ l. l ++ flat_map (regexes_of p) p.regexes)
          (each_keeps (add_domain p) (λ r. r.regexes) (λ s c. unfold add_domain in ground arith) r
            p.domains)

  pub build_snapshot-wildcards :
      (ps : List Policy)
      → (build_snapshot os ps).wildcards
        ≡ flat_map (λ p. flat_map (wildcards_of p) p.domains) (map (with_schedule os) ps)
  unfolding build_snapshot
  build_snapshot-wildcards ps =
      each_appends (add_policy os) (λ r. r.wildcards) (λ p. flat_map (wildcards_of p) p.domains)
        add_policy-wildcards (no_rules os) (map (with_schedule os) ps)

  pub build_snapshot-regexes :
      (ps : List Policy)
      → (build_snapshot os ps).regexes
        ≡ flat_map (λ p. flat_map (regexes_of p) p.regexes) (map (with_schedule os) ps)
  unfolding build_snapshot
  build_snapshot-regexes ps =
      each_appends (add_policy os) (λ r. r.regexes) (λ p. flat_map (regexes_of p) p.regexes)
        add_policy-regexes (no_rules os) (map (with_schedule os) ps)
