-- ===== src/FastFlux/Bounded.antt =====
-- internal/dnsengine/fastflux.go: the bounds of the tracker.
use phantomcore.Base.{
  ℕ, ◌≤◌, ◌<◌, ◌≡◌, refl, sym, subst, ◌∙◌, ◌⊎◌, inl, inr, false, Option, none, some, List, [],
  length, leb, ◌==◌, arith, ℤ, Text, is_empty, lookup, insert, delete, Distinct, lookup-insert,
  lookup-delete, insert-Distinct, delete-Distinct, length-insert-none, length-insert-some,
  length-delete-le, length-delete-lt, text_discrete, Bool-cases, Option-cases,
}
use phantomcore.Oldest.{oldest_lem, Member-lookup}
use phantomcore.FastFlux.{DomainEntry, Tracker, new, evict_oldest, find_entry, no_ips, observe}
use phantomcore.FastFlux.Detection.{IsTracked, kept, kept-Distinct}

-- with no unnamed domain, an eviction from a map that is not empty drops an entry of it, and none
-- is older
evict_oldest_lem :
    (ds : List (Text × DomainEntry))
    → 0 < length ds
    → Distinct text_discrete ds
    → lookup text_discrete [] ds ≡ none
    → (k : Text) × (e : DomainEntry) × (lookup text_discrete k ds ≡ some e)
      × (evict_oldest ds ≡ delete text_discrete k ds)
unfolding evict_oldest
evict_oldest_lem ds h d named =
    let (k, e, f, m, n) = oldest_lem (λ (e : DomainEntry). e.last_seen) ds h in
    let here = Member-lookup k e ds d m in (k, e, here, ground arith)

-- What an observation may do to the domains other than its own.
abbrev pub Kept : Tracker → List (Text × DomainEntry) → Type 0
Kept t ds =
    (d : Text)
    → (lookup text_discrete d ds ≡ none)
      ⊎ (lookup text_discrete d ds ≡ lookup text_discrete d t.domains)

find_entry_cases :
    (t : Tracker) (domain : Text)
    → ((e : DomainEntry) × (lookup text_discrete domain t.domains ≡ some e)
        × ((find_entry t domain).0 ≡ t.domains))
      ⊎ ((lookup text_discrete domain t.domains ≡ none)
          × (((length t.domains < t.max_domains) × ((find_entry t domain).0 ≡ t.domains))
              ⊎ ((t.max_domains ≤ length t.domains)
                  × ((find_entry t domain).0 ≡ evict_oldest t.domains))))
unfolding find_entry
find_entry_cases t domain = elim (Option-cases (lookup text_discrete domain t.domains)) [
  | inr (e, known) ↦ inl (e, known, ground arith)
  | inl unknown ↦ inr (
    unknown,
    elim (Bool-cases (leb t.max_domains (length t.domains))) [
      | inr room ↦ inl (ground arith, ground arith)
      | inl full ↦ inr (ground arith, ground arith)
    ],
  )
]

-- What `find_entry` leaves: distinct domains, no unnamed one, the entries that were there, and
-- room for a domain that was not.
record IsRoomy (t : Tracker) (domain : Text) (ds : List (Text × DomainEntry)) : Type 0 where
  distinct : Distinct text_discrete ds
  kept_entries : Kept t ds
  roomy : lookup text_discrete domain ds ≡ none → length ds < t.max_domains
  bounded : length ds ≤ t.max_domains

evicted-IsRoomy :
    (t : Tracker) (domain : Text)
    → IsTracked t
    → t.max_domains ≤ length t.domains
    → IsRoomy t domain (evict_oldest t.domains)
evicted-IsRoomy t domain v full =
    let (k, e, here, same) =
      evict_oldest_lem t.domains (omega (arith, v.positive)) v.distinct v.named in
    let lt = length-delete-lt text_discrete k e t.domains here in
    subst (IsRoomy t domain) (sym same) (record {
      distinct = delete-Distinct text_discrete k t.domains v.distinct;
      kept_entries = λ d. elim (text_discrete k d) [
        | yes p ↦ inl (ground (arith, lookup-delete text_discrete k d t.domains))
        | no p ↦ inr (ground (arith, lookup-delete text_discrete k d t.domains))
      ];
      roomy = λ h. omega (arith, lt, v.bounded);
      bounded = omega (arith, lt, v.bounded);
    })

find_entry-IsRoomy :
    (t : Tracker) (domain : Text) → IsTracked t → IsRoomy t domain (find_entry t domain).0
find_entry-IsRoomy t domain v = elim (find_entry_cases t domain) [
  | inl (e, known, same) ↦ subst (IsRoomy t domain) (sym same) (record {
    distinct = v.distinct;
    kept_entries = λ d. inr refl;
    roomy = λ h. cc;
    bounded = v.bounded;
  })
  | inr (unknown, inl (room, same)) ↦ subst (IsRoomy t domain) (sym same) (record {
    distinct = v.distinct;
    kept_entries = λ d. inr refl;
    roomy = λ h. room;
    bounded = v.bounded;
  })
  | inr (unknown, inr (full, same)) ↦
      subst (IsRoomy t domain) (sym same) (evicted-IsRoomy t domain v full)
]

absent-unnamed :
    (t : Tracker) (ds : List (Text × DomainEntry))
    → IsTracked t
    → Kept t ds
    → lookup text_discrete [] ds ≡ none
absent-unnamed t ds v k = elim (k []) [ inl e ↦ e | inr e ↦ e ∙ v.named ]

each_lem :
    (t : Tracker) (ds : List (Text × DomainEntry)) (d : Text) (e : DomainEntry)
    → IsTracked t
    → Kept t ds
    → lookup text_discrete d ds ≡ some e
    → Distinct text_discrete e.ips
each_lem t ds d e v k h = elim (k d) [ inl n ↦ cc | inr same ↦ v.each_distinct d e (sym same ∙ h) ]

stored-IsTracked :
    (t : Tracker) (domain : Text) (ds : List (Text × DomainEntry)) (e : DomainEntry)
    → IsTracked t
    → IsRoomy t domain ds
    → is_empty domain ≡ false
    → Distinct text_discrete e.ips
    → IsTracked (record t { domains = insert text_discrete domain e ds })
stored-IsTracked t domain ds e v r named d = record {
  positive = v.positive;
  bounded = elim (Option-cases (lookup text_discrete domain ds)) [
    | inl n ↦ omega (arith, length-insert-none text_discrete domain e ds n, r.roomy n)
    | inr (u, s) ↦ omega (arith, length-insert-some text_discrete domain e u ds s, r.bounded)
  ];
  distinct = insert-Distinct text_discrete domain e ds r.distinct;
  named =
      ground
        (arith, lookup-insert text_discrete domain [] e ds, absent-unnamed t ds v r.kept_entries);
  each_distinct = λ k u h. elim (text_discrete domain k) [
    | yes p ↦
        let same : e ≡ u = ground (arith, lookup-insert text_discrete domain k e ds) in
        subst (λ (x : DomainEntry). Distinct text_discrete x.ips) same d
    | no p ↦
        each_lem t ds k u v r.kept_entries
          (ground (arith, lookup-insert text_discrete domain k e ds))
  ];
}

dropped-IsTracked :
    (t : Tracker) (domain : Text) (ds : List (Text × DomainEntry))
    → IsTracked t
    → IsRoomy t domain ds
    → IsTracked (record t { domains = delete text_discrete domain ds })
dropped-IsTracked t domain ds v r = record {
  positive = v.positive;
  bounded = omega (arith, length-delete-le text_discrete domain ds, r.bounded);
  distinct = delete-Distinct text_discrete domain ds r.distinct;
  named =
      ground
        (arith, lookup-delete text_discrete domain [] ds, absent-unnamed t ds v r.kept_entries);
  each_distinct = λ k u h.
      each_lem t ds k u v r.kept_entries (ground (arith, lookup-delete text_discrete domain k ds));
}

-- Each observation keeps the tracker within its bound of domains, with no domain and no address
-- of a domain recorded twice.
pub observe-IsTracked :
    (t : Tracker) (now : ℕ) (domain : Text) (ips : List (Option Text)) (ttl : ℕ)
    → IsTracked t
    → IsTracked (observe t now domain ips ttl).0
unfolding observe
observe-IsTracked t now domain ips ttl v =
    let ds = (find_entry t domain).0 in
    let r = find_entry-IsRoomy t domain v in
    elim (Bool-cases (is_empty domain)) [
      | inl e ↦ rw e v
      | inr named ↦ elim (Bool-cases (no_ips ips)) [
        | inl e ↦ rw (named, e) v
        | inr some_ips ↦ elim (Bool-cases (length (kept t now domain ips ttl) == 0)) [
          | inl gone ↦ rw (named, some_ips, gone) (dropped-IsTracked t domain ds v r)
          | inr stay ↦
              rw (named, some_ips, stay)
                (stored-IsTracked t domain ds _ v r named (kept-Distinct t now domain ips ttl v))
        ]
      ]
    ]

pub new-IsTracked :
    (ip_threshold ttl_max window n : ℤ) → IsTracked (new ip_threshold ttl_max window n)
unfolding new lookup
new-IsTracked ip_threshold ttl_max window n = record {
  positive = ground arith;
  bounded = omega arith;
  distinct = tt;
  named = refl;
  each_distinct = λ d e h. cc;
}
