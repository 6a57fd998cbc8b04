-- ===== src/Geo/Listing.antt =====
-- internal/geoip/geoip.go: the set of countries, and the two tests of Evaluate.
use phantomcore.Base.{
  ℕ, not, ◌&&◌, ◌||◌, ◌≡◌, ◌≢◌, ◌↔◌, ◌⊎◌, inl, inr, refl, sym, ◌∙◌, Bool, true, false, List, [],
  ◌∷◌, any, Text, is_empty, same_text, same_text_yes, same_text-true, to_upper, trim_space, Member,
  any-Member, any_of_Member, arith, ◌==◌, Bool-cases, subst,
}
use phantomcore.Geo.{Filter, country_set}

-- A country of the configuration names the country, up to blanks and case.
abbrev pub IsNamed : List Text → Text → Type 0
IsNamed countries c =
    (c ≢ []) × ((raw : Text) × Member raw countries × (to_upper (trim_space raw) ≡ c))

is_empty_no : (s : Text) → s ≢ [] → is_empty s ≡ false
is_empty_no [] k = absurd (k refl)
is_empty_no (b ∷ s) k = refl

is_empty_cons : (s : Text) → is_empty s ≡ false → s ≢ []
is_empty_cons s h e = ground (arith, h, e)

pub country_set-IsNamed :
    (countries : List Text) (c : Text) → Member c (country_set countries) → IsNamed countries c
unfolding country_set
country_set-IsNamed [] c m = absurd m
country_set-IsNamed (raw ∷ countries) c m =
    let u = to_upper (trim_space raw) in
    let later : Member c (country_set countries) → IsNamed (raw ∷ countries) c =
      λ k. let (n, (r, i, q)) = country_set-IsNamed countries c k in (n, (r, inr i, q)) in
    elim (Bool-cases (is_empty u)) [
      | inl e ↦ later (rw (country_set, e) at m)
      | inr e ↦
          let i : (c ≡ u) ⊎ Member c (country_set countries) = rw (country_set, e) at m in
          elim i [
            | inl q ↦ ((λ k. is_empty_cons u e (sym q ∙ k)), (raw, inl refl, sym q))
            | inr k ↦ later k
          ]
    ]

pub IsNamed-country_set :
    (countries : List Text) (c : Text) → IsNamed countries c → Member c (country_set countries)
unfolding country_set
IsNamed-country_set [] c (k, (r, m, e)) = absurd m
IsNamed-country_set (x ∷ countries) c (k, (r, inl q, e)) =
    let u = to_upper (trim_space x) in
    let same : u ≡ c = cc in
    let full : is_empty u ≡ false = is_empty_no u (λ n. k (sym same ∙ n)) in
    rw (country_set, full) (inl (sym same))
IsNamed-country_set (x ∷ countries) c (k, (r, inr m, e)) =
    let u = to_upper (trim_space x) in
    let later = IsNamed-country_set countries c (k, (r, m, e)) in
    elim (Bool-cases (is_empty u)) [
      | inl q ↦ rw (country_set, q) later
      | inr q ↦ rw (country_set, q) (inr later)
    ]

pub or_cases : (a b : Bool) → (a || b) ≡ true → (a ≡ true) ⊎ (b ≡ true)
or_cases true b h = inl refl
or_cases false b h = inr h

pub or_right : (a b : Bool) → b ≡ true → (a || b) ≡ true
or_right true b h = refl
or_right false b h = h

module _ (f : Filter) (asn : ℕ) (country : Text) where
  -- The two tests of Evaluate.
  abbrev pub asn_hit : Bool
  asn_hit = not (asn == 0) && any (λ n. asn == n) f.blocked_asns

  abbrev pub country_hit : Bool
  country_hit = not (is_empty country) && any (same_text country) f.blocked_countries

  pub asn_hit_iff : (asn_hit ≡ true) ↔ ((asn ≢ 0) × Member asn f.blocked_asns)
  asn_hit_iff = (
    λ h.
        let (n, m, q) = any-Member (λ n. asn == n) f.blocked_asns (ground (arith, h)) in
        let same : n ≡ asn = ground (arith, q) in
        (ground (arith, h), subst (λ k. Member k f.blocked_asns) same m),
    λ h.
        let found = any_of_Member (λ n. asn == n) asn f.blocked_asns h.1 (ground arith) in
        let k = h.0 in ground (arith, found, k),
  )

  pub country_hit_iff : (country_hit ≡ true) ↔ ((country ≢ []) × Member country f.blocked_countries)
  country_hit_iff = (
    λ h.
        let (n, m, q) = any-Member (same_text country) f.blocked_countries (ground (arith, h)) in
        (
          is_empty_cons country (ground (arith, h)),
          subst (λ k. Member k f.blocked_countries) (sym (same_text-true country n q)) m,
        ),
    λ h.
        let found =
          any_of_Member (same_text country) country f.blocked_countries h.1
            (same_text_yes country country refl) in
        rw (found, is_empty_no country h.0) refl,
  )
