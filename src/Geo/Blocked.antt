-- ===== src/Geo/Blocked.antt =====
-- internal/geoip/geoip.go: which answers a filter matches.
use phantomcore.Base.{
  ℕ, ap, ◌||◌, ◌≡◌, ◌≢◌, ◌⊎◌, inl, inr, refl, ◌∙◌, Bool, true, false, Option, none, some, List, [],
  ◌∷◌, Text, to_upper, Member, arith, Bool-cases, Option-cases, subst,
}
use phantomcore.Geo.{
  asn_match, country_match, GeoDecision, Filter, Resolver, no_match, country_set, new_filter,
  match_record, match_ip, first_match, evaluate,
}
use phantomcore.Geo.Listing.{
  IsNamed, country_set-IsNamed, IsNamed-country_set, or_cases, or_right, asn_hit, country_hit,
  asn_hit_iff, country_hit_iff,
}

-- The network or the country of an address is among those of the configuration.
abbrev pub IsBlocked : Resolver → List ℕ → List Text → List ℕ → Type 0
IsBlocked resolver asns countries ip =
    (ip ≢ [])
    × ((asn : ℕ) × (found : Text) × (resolver ip ≡ some (asn, found))
        × ((asn ≢ 0) × Member asn asns ⊎ IsNamed countries (to_upper found)))

-- Whether a filter matches what was looked up.
abbrev hits : Filter → ℕ × Text → Bool
hits f (asn, found) = asn_hit f asn (to_upper found) || country_hit f asn (to_upper found)

-- A match of the filter, with its way to answer.
abbrev IsMatch : Filter → Option GeoDecision → Type 0
IsMatch f o = (d : GeoDecision) × (o ≡ some d) × (d.matched ≡ true) × (d.block ≡ f.block)

module _ (ip_string : List ℕ → Text) (f : Filter) where
  match_record_cases :
      (ip : List ℕ) (asn : ℕ) (found : Text)
      → IsMatch f (match_record ip_string f ip (asn, found)) × (hits f (asn, found) ≡ true)
        ⊎ (match_record ip_string f ip (asn, found) ≡ none) × (hits f (asn, found) ≡ false)
  unfolding match_record
  match_record_cases ip asn found = elim (Bool-cases (asn_hit f asn (to_upper found))) [
    | inl e ↦ inl ((asn_match ip_string f ip asn, rw (match_record, e) refl, refl, refl), rw e refl)
    | inr e ↦ elim (Bool-cases (country_hit f asn (to_upper found))) [
      | inl e' ↦ inl (
        (country_match ip_string f ip (to_upper found), rw (match_record, e, e') refl, refl, refl),
        rw (e, e') refl,
      )
      | inr e' ↦ inr (rw (match_record, e, e') refl, rw (e, e') refl)
    ]
  ]

  -- The filter matches an address.
  abbrev Hits : List ℕ → Type 0
  Hits ip = (ip ≢ []) × ((r : ℕ × Text) × (f.resolver ip ≡ some r) × (hits f r ≡ true))

  match_ip_cases :
      (ip : List ℕ)
      → IsMatch f (match_ip ip_string f ip) × Hits ip
        ⊎ (match_ip ip_string f ip ≡ none) × (Hits ip → ⊥)
  unfolding match_ip
  match_ip_cases [] = inr (refl, λ h. h.0 refl)
  match_ip_cases (b ∷ bytes) = elim (Option-cases (f.resolver (b ∷ bytes))) [
    | inl e ↦ inr (rw (match_ip, e) refl, λ h. let (n, (r, q, k)) = h in ground (arith, e, q))
    | inr ((asn, found), e) ↦ elim (match_record_cases (b ∷ bytes) asn found) [
      | inl ((d, q, m, b), h) ↦
          inl ((d, rw (match_ip, e) q, m, b), (λ k. ground (arith, k), ((asn, found), e, h)))
      | inr (q, h) ↦
          inr (rw (match_ip, e) q, λ k. let (n, (r, q', h')) = k in ground (arith, e, q', h, h'))
    ]
  ]

  first_match_cases :
      (ips : List (List ℕ))
      → IsMatch f (some (first_match ip_string f ips)) × ((ip : List ℕ) × Member ip ips × Hits ip)
        ⊎ (first_match ip_string f ips ≡ no_match) × ((ip : List ℕ) → Member ip ips → Hits ip → ⊥)
  unfolding first_match
  first_match_cases [] = inr (refl, λ ip m h. absurd m)
  first_match_cases (ip ∷ ips) = elim (match_ip_cases ip) [
    | inl ((d, q, m, b), h) ↦ inl ((d, rw (first_match, q) refl, m, b), (ip, inl refl, h))
    | inr (q, misses) ↦ elim (first_match_cases ips) [
      | inl (k, (ip', i, h)) ↦ inl (rw (first_match, q) k, (ip', inr i, h))
      | inr (k, none_of) ↦ inr (
        rw (first_match, q) k,
        λ ip' i h. elim i [ inl e ↦ misses (subst Hits e h) | inr i' ↦ none_of ip' i' h ],
      )
    ]
  ]

module _ (resolver : Resolver) (asns : List ℕ) (countries : List Text) (block : Bool) where
  abbrev built : Filter
  built = record {
    resolver = resolver;
    blocked_asns = asns;
    blocked_countries = country_set countries;
    block = block;
  }

  new_filter-built :
      (f : Filter) → new_filter (some resolver) asns countries block ≡ some f → built ≡ f
  unfolding new_filter
  new_filter-built f h = ground (arith, h)

  Hits-IsBlocked :
      (ip_string : List ℕ → Text) (ip : List ℕ)
      → Hits ip_string built ip
      → IsBlocked resolver asns countries ip
  Hits-IsBlocked ip_string ip (k, ((asn, found), e, h)) = elim (or_cases _ _ h) [
    | inl a ↦ (k, (asn, found, e, inl ((asn_hit_iff built asn (to_upper found)).0 a)))
    | inr c ↦
        let (n, m) = (country_hit_iff built asn (to_upper found)).0 c in
        (k, (asn, found, e, inr (country_set-IsNamed countries (to_upper found) m)))
  ]

  IsBlocked-Hits :
      (ip_string : List ℕ → Text) (ip : List ℕ)
      → IsBlocked resolver asns countries ip
      → Hits ip_string built ip
  IsBlocked-Hits ip_string ip (k, (asn, found, e, h)) = (
    k,
    (
      (asn, found),
      e,
      elim h [
        | inl a ↦ rw ((asn_hit_iff built asn (to_upper found)).1 a) refl
        | inr c ↦ or_right _ _ (
            (country_hit_iff built asn (to_upper found)).1
              (c.0, IsNamed-country_set countries (to_upper found) c))
      ],
    ),
  )

  -- Evaluate of a filter that was built from a configuration either matches, in the mode of the
  -- configuration, and one of the addresses is blocked: it is not nil, could be looked up, and has a
  -- network other than 0 or a country that the configuration lists, countries up to blanks and case;
  -- or it does not match, and none of the addresses is.
  pub evaluate_lem :
      (f : Filter) (ip_string : List ℕ → Text) (ips : List (List ℕ))
      → new_filter (some resolver) asns countries block ≡ some f
      → ((evaluate ip_string (some f) ips).matched ≡ true)
          × ((evaluate ip_string (some f) ips).block ≡ block)
          × ((ip : List ℕ) × Member ip ips × IsBlocked resolver asns countries ip)
        ⊎ (evaluate ip_string (some f) ips ≡ no_match)
          × ((ip : List ℕ) → Member ip ips → ¬ IsBlocked resolver asns countries ip)
  unfolding evaluate
  evaluate_lem f ip_string ips h =
      rw (← new_filter-built f h) (elim (first_match_cases ip_string built ips) [
        | inl ((d, q, m, b), (ip, i, k)) ↦
            let same : first_match ip_string built ips ≡ d = ground (arith, q) in
            inl (
              ap GeoDecision.matched same ∙ m,
              ap GeoDecision.block same ∙ b,
              (ip, i, Hits-IsBlocked ip_string ip k),
            )
        | inr (q, none_of) ↦ inr (q, λ ip i k. none_of ip i (IsBlocked-Hits ip_string ip k))
      ])
