-- ===== src/FastFlux/Detection.antt =====
-- internal/dnsengine/fastflux.go: the evidence on which a domain is flagged.
use phantomcore.Base.{
  ℕ, ◌+◌, ◌-◌, ◌^◌, ◌≤◌, ◌<◌, ◌≡◌, ◌⊎◌, inl, inr, ◌↔◌, true, false, Option, none, some, List, [],
  ◌∷◌, length, ltb, arith, Text, is_empty, All, lookup, insert, retain, Distinct, insert-Distinct,
  retain-Distinct, text_discrete, Bool-cases, Option-cases,
}
use phantomcore.FastFlux.{
  IpRecord, DomainEntry, Tracker, add_ips, min_ttl, prune, find_entry, no_ips, observe,
}

pub record IsTracked (t : Tracker) : Type 0 where
  pub positive : 0 < t.max_domains
  pub bounded : length t.domains ≤ t.max_domains
  pub distinct : Distinct text_discrete t.domains
  pub named : lookup text_discrete [] t.domains ≡ none
  pub each_distinct :
      (d : Text) (e : DomainEntry)
      → lookup text_discrete d t.domains ≡ some e
      → Distinct text_discrete e.ips

pub add_ips-Distinct :
    (now ttl : ℕ) (recs : List (Text × IpRecord)) (ips : List (Option Text))
    → Distinct text_discrete recs
    → Distinct text_discrete (add_ips now ttl recs ips)
unfolding add_ips
add_ips-Distinct now ttl recs [] d = d
add_ips-Distinct now ttl recs (none ∷ ips) d = add_ips-Distinct now ttl recs ips d
add_ips-Distinct now ttl recs (some ip ∷ ips) d =
    let r : IpRecord = record { last_seen = now; ttl = ttl } in
    add_ips-Distinct now ttl (insert text_discrete ip r recs) ips
      (insert-Distinct text_discrete ip r recs d)

-- what survives the pruning was seen inside the window
prune-All :
    (window now : ℕ) (recs : List (Text × IpRecord))
    → All (λ r. now ≤ r.1.last_seen + window) (prune window now recs)
unfolding prune retain
prune-All window now [] = tt
prune-All window now ((k, r) ∷ recs) = ground (arith, prune-All window now recs)

-- An address that was recorded with a TTL of at most `m`.
abbrev pub HasTtl : ℕ → List (Text × IpRecord) → Type 0
HasTtl m [] = ⊥
HasTtl m ((k, r) ∷ recs) = (r.ttl ≤ m) ⊎ HasTtl m recs

min_ttl_iff :
    (m least : ℕ) (recs : List (Text × IpRecord))
    → (min_ttl least recs ≤ m) ↔ ((least ≤ m) ⊎ HasTtl m recs)
unfolding min_ttl
min_ttl_iff m least [] = ground arith
min_ttl_iff m least ((k, r) ∷ recs) = elim (Bool-cases (ltb r.ttl least)) [
  | inl e ↦
      let (f, g) = min_ttl_iff m r.ttl recs in
      (λ h. ground (arith, f (rw e at h)), λ h. rw e (g (ground arith)))
  | inr e ↦
      let (f, g) = min_ttl_iff m least recs in
      (λ h. ground (arith, f (rw e at h)), λ h. rw e (g (ground arith)))
]

-- The records that an observation leaves for its domain.
abbrev pub kept : Tracker → ℕ → Text → List (Option Text) → ℕ → List (Text × IpRecord)
kept t now domain ips ttl = prune t.window now (add_ips now ttl (find_entry t domain).1 ips)

pub find_entry-Distinct :
    (t : Tracker) (domain : Text) → IsTracked t → Distinct text_discrete (find_entry t domain).1
unfolding find_entry
find_entry-Distinct t domain v = elim (Option-cases (lookup text_discrete domain t.domains)) [
  | inl e ↦ rw (e, Distinct) tt
  | inr (d, e) ↦ rw (e, Distinct) (v.each_distinct domain d e)
]

pub kept-Distinct :
    (t : Tracker) (now : ℕ) (domain : Text) (ips : List (Option Text)) (ttl : ℕ)
    → IsTracked t
    → Distinct text_discrete (kept t now domain ips ttl)
unfolding prune
kept-Distinct t now domain ips ttl v =
    retain-Distinct text_discrete _ _
      (add_ips-Distinct now ttl (find_entry t domain).1 ips (find_entry-Distinct t domain v))

-- The flag in terms of the records that are left.
pub observe-kept_iff :
    (t : Tracker) (now : ℕ) (domain : Text) (ips : List (Option Text)) (ttl : ℕ)
    → IsTracked t
    → let recs = kept t now domain ips ttl in
      (((observe t now domain ips ttl).1 ≡ true) ↔ (
        (is_empty domain ≡ false)
        × (no_ips ips ≡ false)
        × (0 < length recs)
        × (t.ip_threshold ≤ length recs)
        × ((2 ^ 32 - 1 ≤ t.ttl_max) ⊎ HasTtl t.ttl_max recs)))
      × Distinct text_discrete recs
      × All (λ r. now ≤ r.1.last_seen + t.window) recs
unfolding observe
observe-kept_iff t now domain ips ttl v =
    let recs = kept t now domain ips ttl in
    let (f, g) = min_ttl_iff t.ttl_max (2 ^ 32 - 1) recs in
    (
      (
        λ h. (ground arith, ground arith, ground arith, ground arith, f (ground arith)),
        λ h. ground (arith, h.0, h.1, h.2, h.3, g h.4),
      ),
      kept-Distinct t now domain ips ttl v,
      prune-All t.window now (add_ips now ttl (find_entry t domain).1 ips),
    )
