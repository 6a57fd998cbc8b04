-- ===== src/FastFlux/Evidence.antt =====
-- internal/dnsengine/fastflux.go: which addresses count as evidence, and what an observation leaves.
use phantomcore.Base.{
  ℕ, subst, ◌+◌, ◌-◌, ◌^◌, ◌≤◌, ◌<◌, ◌≡◌, ◌⊎◌, inl, inr, ◌↔◌, refl, ap, ◌∙◌, sym, Bool, true, false,
  not, Option, none, some, List, [], ◌∷◌, length, ◌==◌, ltb, arith, Text, is_empty, Member, lookup,
  insert, Distinct, lookup-insert, lookup-insert_self, lookup-retain, lookup-retain-none,
  text_discrete, Option-cases,
}
use phantomcore.FastFlux.{
  IpRecord, DomainEntry, Tracker, add_ips, prune, find_entry, no_ips, observe,
}
use phantomcore.FastFlux.Detection.{
  IsTracked, HasTtl, kept, kept-Distinct, add_ips-Distinct, find_entry-Distinct, observe-kept_iff,
}

-- What the tracker may hold against a domain for an address, once an answer came: its record from this
-- answer, or the one from before, if this answer does not have it and it was seen inside the window.
abbrev pub Sighting : Tracker → ℕ → Text → List (Option Text) → ℕ → Text → IpRecord → Type 0
Sighting t now domain ips ttl a r =
    Member (some a) ips × (r ≡ record { last_seen = now; ttl = ttl })
    ⊎ (Member (some a) ips → ⊥)
      × ((e : DomainEntry) × (lookup text_discrete domain t.domains ≡ some e)
          × (lookup text_discrete a e.ips ≡ some r)
          × (now ≤ r.last_seen + t.window))

Member-or : (a : Text) (ips : List (Option Text)) → Member (some a) ips ⊎ (Member (some a) ips → ⊥)
Member-or a [] = inr (λ m. m)
Member-or a (none ∷ ips) = elim (Member-or a ips) [
  | inl m ↦ inl (inr m)
  | inr out ↦ inr (λ m. elim m [ inl e ↦ cc | inr k ↦ out k ])
]
Member-or a (some ip ∷ ips) = elim (text_discrete a ip) [
  | yes e ↦ inl (inl (ap some e))
  | no n ↦ elim (Member-or a ips) [
    | inl m ↦ inl (inr m)
    | inr out ↦ inr (λ m. elim m [ inl e ↦ n cc | inr k ↦ out k ])
  ]
]

module _ (now ttl : ℕ) (a : Text) where
  abbrev fresh : IpRecord
  fresh = record { last_seen = now; ttl = ttl }

  add_ips_stays :
      (recs : List (Text × IpRecord)) (ips : List (Option Text))
      → lookup text_discrete a recs ≡ some fresh
      → lookup text_discrete a (add_ips now ttl recs ips) ≡ some fresh
  unfolding add_ips
  add_ips_stays recs [] h = h
  add_ips_stays recs (none ∷ ips) h = add_ips_stays recs ips h
  add_ips_stays recs (some ip ∷ ips) h =
      add_ips_stays (insert text_discrete ip fresh recs) ips
        (ground (arith, h, lookup-insert text_discrete ip a fresh recs))

  add_ips_in :
      (recs : List (Text × IpRecord)) (ips : List (Option Text))
      → Member (some a) ips
      → lookup text_discrete a (add_ips now ttl recs ips) ≡ some fresh
  unfolding add_ips
  add_ips_in recs [] m = absurd m
  add_ips_in recs (none ∷ ips) (inl e) = cc
  add_ips_in recs (none ∷ ips) (inr m) = add_ips_in recs ips m
  add_ips_in recs (some ip ∷ ips) (inl e) =
      let same : a ≡ ip = cc in
      add_ips_stays (insert text_discrete ip fresh recs) ips
        (rw same (lookup-insert_self text_discrete ip fresh recs))
  add_ips_in recs (some ip ∷ ips) (inr m) = add_ips_in (insert text_discrete ip fresh recs) ips m

  add_ips_out :
      (recs : List (Text × IpRecord)) (ips : List (Option Text))
      → (Member (some a) ips → ⊥)
      → lookup text_discrete a (add_ips now ttl recs ips) ≡ lookup text_discrete a recs
  unfolding add_ips
  add_ips_out recs [] out = refl
  add_ips_out recs (none ∷ ips) out = add_ips_out recs ips (λ m. out (inr m))
  add_ips_out recs (some ip ∷ ips) out =
      let other : ip ≡ a → ⊥ = λ e. out (inl (ap some (sym e))) in
      add_ips_out (insert text_discrete ip fresh recs) ips (λ m. out (inr m))
      ∙ ground (arith, lookup-insert text_discrete ip a fresh recs, other)

lookup-prune_iff :
    (window now : ℕ) (recs : List (Text × IpRecord)) (a : Text) (r : IpRecord)
    → Distinct text_discrete recs
    → (lookup text_discrete a (prune window now recs) ≡ some r)
      ↔ ((lookup text_discrete a recs ≡ some r) × (now ≤ r.last_seen + window))
unfolding prune
lookup-prune_iff window now recs a r d =
    let p : IpRecord → Bool = λ r. not (ltb (r.last_seen + window) now) in
    elim (Option-cases (lookup text_discrete a recs)) [
      | inl e ↦
          let gone = lookup-retain-none text_discrete p a recs e in
          (λ h. absurd (ground (arith, h, gone)), λ h. absurd (let q = h.0 in ground (arith, e, q)))
      | inr (v, e) ↦
          let stays = lookup-retain text_discrete p a v recs d e in
          (
            λ h.
                let q : v ≡ r = ground (arith, h, stays) in
                subst (λ x. (lookup text_discrete a recs ≡ some x) × (now ≤ x.last_seen + window)) q
                  (e, ground (arith, h, stays)),
            λ h.
                let (k, young) = h in
                let q : v ≡ r = ground (arith, e, k) in
                subst (λ x. lookup text_discrete a (prune window now recs) ≡ some x) q
                  (ground (arith, stays, young, ap IpRecord.last_seen q)),
          )
    ]

lookup-find_entry_iff :
    (t : Tracker) (domain a : Text) (r : IpRecord)
    → (lookup text_discrete a (find_entry t domain).1 ≡ some r) ↔ (
        (e : DomainEntry) × (lookup text_discrete domain t.domains ≡ some e)
        × (lookup text_discrete a e.ips ≡ some r))
unfolding find_entry lookup
lookup-find_entry_iff t domain a r = elim (Option-cases (lookup text_discrete domain t.domains)) [
  | inl none_known ↦
      rw (find_entry, none_known) (λ h. absurd (ground (arith, h)), λ (e, q, k). absurd cc)
  | inr (d, known) ↦
      rw (find_entry, known)
        (
          λ h. (d, refl, h),
          λ (e, q, k).
              let same : d ≡ e = cc in
              subst (λ x. lookup text_discrete a x.ips ≡ some r) (sym same) k,
        )
]

lookup-kept_iff :
    (t : Tracker) (now : ℕ) (domain : Text) (ips : List (Option Text)) (ttl : ℕ) (a : Text)
    (r : IpRecord)
    → IsTracked t
    → (lookup text_discrete a (kept t now domain ips ttl) ≡ some r)
      ↔ Sighting t now domain ips ttl a r
lookup-kept_iff t now domain ips ttl a r v =
    let recs = (find_entry t domain).1 in
    let all = add_ips now ttl recs ips in
    let (f, g) =
      lookup-prune_iff t.window now all a r
        (add_ips-Distinct now ttl recs ips (find_entry-Distinct t domain v)) in
    elim (Member-or a ips) [
      | inl m ↦
          let here = add_ips_in now ttl a recs ips m in
          (
            λ h. let (k, young) = f h in inl (m, ground (arith, k, here)),
            λ h. elim h [
              | inl (m', e) ↦ g (here ∙ ap some (sym e), omega (arith, ap IpRecord.last_seen e))
              | inr (out, k) ↦ absurd (out m)
            ],
          )
      | inr out ↦
          let same = add_ips_out now ttl a recs ips out in
          (
            λ h.
                let (k, young) = f h in
                let (e, known, q) =
                  (lookup-find_entry_iff t domain a r).0 (ground (arith, k, same)) in
                inr (out, (e, known, q, young)),
            λ h. elim h [
              | inl (m, e) ↦ absurd (out m)
              | inr (out', (e, known, k, young)) ↦
                  g (same ∙ (lookup-find_entry_iff t domain a r).1 (e, known, k), young)
            ],
          )
    ]

observe-kept :
    (t : Tracker) (now : ℕ) (domain : Text) (ips : List (Option Text)) (ttl : ℕ)
    → is_empty domain ≡ false
    → no_ips ips ≡ false
    → 0 < length (kept t now domain ips ttl)
    → lookup text_discrete domain (observe t now domain ips ttl).0.domains
      ≡ some (record { ips = kept t now domain ips ttl; last_seen = now })
unfolding observe
observe-kept t now domain ips ttl named some_ips left =
    let recs = kept t now domain ips ttl in
    let many : (length recs == 0) ≡ false = ground (arith, left) in
    rw (observe, named, some_ips, many)
      (lookup-insert_self text_discrete domain (record { ips = recs; last_seen = now })
        (find_entry t domain).0)

-- By a valid tracker, there is after an observation a list of records, no address twice, which has an
-- address exactly when this answer has it, with the answer's time and TTL, or when this answer does
-- not and it was recorded for the domain and last seen inside the window. A named domain with some
-- addresses is flagged exactly when the list is not empty and not shorter than the threshold, and one
-- of its records came with a TTL no higher than the maximum (a maximum of 2^32 - 1 or more accepts
-- any). The list, if not empty, is what the tracker then holds for such a domain.
pub observe_flag_iff :
    (t : Tracker) (now : ℕ) (domain : Text) (ips : List (Option Text)) (ttl : ℕ)
    → IsTracked t
    → (recs : List (Text × IpRecord)) × Distinct text_discrete recs
      × ((a : Text) (r : IpRecord)
          → (lookup text_discrete a recs ≡ some r) ↔ Sighting t now domain ips ttl a r)
      × (((observe t now domain ips ttl).1 ≡ true) ↔ (
          (is_empty domain ≡ false)
          × (no_ips ips ≡ false)
          × (0 < length recs)
          × (t.ip_threshold ≤ length recs)
          × ((2 ^ 32 - 1 ≤ t.ttl_max) ⊎ HasTtl t.ttl_max recs)))
      × (is_empty domain ≡ false
          → no_ips ips ≡ false
          → 0 < length recs
          → lookup text_discrete domain (observe t now domain ips ttl).0.domains
            ≡ some (record { ips = recs; last_seen = now }))
observe_flag_iff t now domain ips ttl v = (
  kept t now domain ips ttl,
  kept-Distinct t now domain ips ttl v,
  λ a r. lookup-kept_iff t now domain ips ttl a r v,
  (observe-kept_iff t now domain ips ttl v).0,
  observe-kept t now domain ips ttl,
)
