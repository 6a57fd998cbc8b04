-- ===== src/Nod/Ledger.antt =====
-- internal/dnsengine/nod.go: the ledger stays bounded, forgets the oldest entry only, and calls a
-- domain new inside the window of its first time.
use phantomcore.Base.{
  ℕ, ◌+◌, ◌≤◌, ◌<◌, ◌≡◌, subst, ◌≢◌, ◌⊎◌, inl, inr, ◌↔◌, true, false, none, some, length, ltb,
  arith, ℤ, Text, is_empty, lookup, delete, Distinct, lookup-insert_self, lookup-insert_ne,
  lookup-delete, insert-Distinct, delete-Distinct, length-insert-none, length-delete-lt,
  text_discrete, Bool-cases, Option-cases,
}
use phantomcore.Oldest.{oldest_lem, NoneOlder, Member-lookup}
use phantomcore.Nod.{NodLedger, new, evict_if_full, observe}

pub record IsValid (l : NodLedger) : Type 0 where
  pub positive : 0 < l.max_entries
  pub bounded : length l.first_seen ≤ l.max_entries
  pub distinct : Distinct text_discrete l.first_seen

pub new-IsValid : (window : ℕ) (n : ℤ) → IsValid (new window n)
unfolding new
new-IsValid window n = ground arith

-- What making room does: nothing, if there is room; else one entry goes, and none is older.
pub data Eviction (l : NodLedger) : NodLedger → Type 0 where
  roomy : length l.first_seen < l.max_entries → Eviction l l
  evicted :
      (k : Text) (t : ℕ)
      → lookup text_discrete k l.first_seen ≡ some t
      → NoneOlder (λ t. t) t l.first_seen
      → Eviction l (record l { first_seen = delete text_discrete k l.first_seen })

evict_if_full-Eviction : (l : NodLedger) → IsValid l → Eviction l (evict_if_full l)
unfolding evict_if_full
evict_if_full-Eviction l v = elim (Bool-cases (ltb (length l.first_seen) l.max_entries)) [
  | inl room ↦ rw room (roomy (ground arith))
  | inr full ↦
      let (k, t, e, m, n) = oldest_lem (λ t. t) l.first_seen (ground (arith, v.positive)) in
      rw (full, e) (evicted k t (Member-lookup k t l.first_seen v.distinct m) n)
]

Eviction-room :
    {l l' : NodLedger}
    → IsValid l
    → Eviction l l'
    → (length l'.first_seen < l.max_entries) × Distinct text_discrete l'.first_seen
Eviction-room v (roomy h) = (h, v.distinct)
Eviction-room {l} v (evicted k t e n) = (
  omega (arith, length-delete-lt text_discrete k t l.first_seen e, v.bounded),
  delete-Distinct text_discrete k l.first_seen v.distinct,
)

evict-absent :
    {l l' : NodLedger} (d : Text)
    → Eviction l l'
    → lookup text_discrete d l.first_seen ≡ none
    → lookup text_discrete d l'.first_seen ≡ none
evict-absent d (roomy h) e = e
evict-absent {l} d (evicted k t h n) e =
    ground (arith, lookup-delete text_discrete k d l.first_seen)

evict-fields :
    (l : NodLedger)
    → ((evict_if_full l).max_entries ≡ l.max_entries) × ((evict_if_full l).window ≡ l.window)
unfolding evict_if_full
evict-fields l = ground arith

-- Each observation keeps the ledger within its bound, with no domain twice.
pub observe-IsValid :
    (l : NodLedger) (now : ℕ) (domain : Text) → IsValid l → IsValid (observe l now domain).0
unfolding observe
observe-IsValid l now domain v = elim (Bool-cases (is_empty domain)) [
  | inl blank ↦ rw blank v
  | inr named ↦ elim (Option-cases (lookup text_discrete domain l.first_seen)) [
    | inr (t, known) ↦ rw (named, known) v
    | inl unknown ↦
        let l' = evict_if_full l in
        let ev = evict_if_full-Eviction l v in
        let (room, dist) = Eviction-room v ev in
        let absent = evict-absent domain ev unknown in
        rw (named, unknown)
          (record {
            positive = rw ((evict-fields l).0) v.positive;
            bounded = omega (
              arith,
              length-insert-none text_discrete domain now l'.first_seen absent,
              evict-fields l,
            );
            distinct = insert-Distinct text_discrete domain now l'.first_seen dist;
          })
  ]
]

pub lookup-observe_self :
    (l : NodLedger) (now : ℕ) (domain : Text)
    → is_empty domain ≡ false
    → lookup text_discrete domain (observe l now domain).0.first_seen
      ≡ some (elim (lookup text_discrete domain l.first_seen) [ none ↦ now | some t ↦ t ])
unfolding observe
lookup-observe_self l now domain h =
    elim (Option-cases (lookup text_discrete domain l.first_seen)) [
      | inl e ↦ rw (h, e) (lookup-insert_self text_discrete domain now (evict_if_full l).first_seen)
      | inr (t, e) ↦ rw (h, e) e
    ]

pub observe_first_iff :
    (l : NodLedger) (now : ℕ) (domain : Text)
    → ((observe l now domain).1 ≡ true) ↔ (
        (is_empty domain ≡ false)
        × ((lookup text_discrete domain l.first_seen ≡ none)
            ⊎ ((first : ℕ) × (lookup text_discrete domain l.first_seen ≡ some first)
                × (now < first + l.window))))
unfolding observe
observe_first_iff l now domain = elim (Option-cases (lookup text_discrete domain l.first_seen)) [
  | inl e ↦ (λ h. (ground arith, inl e), λ h. ground (arith, h.0))
  | inr (t, e) ↦ (
    λ h. (ground arith, inr (t, e, ground arith)),
    λ h. elim h.1 [ inl q ↦ cc | inr (u, q, lt) ↦ ground (arith, h.0) ],
  )
]

Eviction-other :
    {l l' : NodLedger} (k : Text) (t : ℕ)
    → Eviction l l'
    → lookup text_discrete k l.first_seen ≡ some t
    → (lookup text_discrete k l'.first_seen ≡ some t)
      ⊎ ((lookup text_discrete k l'.first_seen ≡ none) × NoneOlder (λ t. t) t l.first_seen)
Eviction-other k t (roomy h) e = inl e
Eviction-other {l} k t (evicted j u h n) e = elim (text_discrete j k) [
  | yes p ↦
      let q : u ≡ t = ground arith in
      inr (
        ground (arith, lookup-delete text_discrete j k l.first_seen),
        subst (λ z. NoneOlder (λ t. t) z l.first_seen) q n,
      )
  | no p ↦ inl (ground (arith, lookup-delete text_discrete j k l.first_seen))
]

full_of_gone :
    (l : NodLedger) (k : Text) (t : ℕ)
    → lookup text_discrete k l.first_seen ≡ some t
    → lookup text_discrete k (evict_if_full l).first_seen ≡ none
    → l.max_entries ≤ length l.first_seen
unfolding evict_if_full
full_of_gone l k t e gone = ground arith

-- An observation by a valid ledger leaves every other domain's entry as it was, or it drops it;
-- and it drops only an entry of which none in the ledger is older, when the ledger is full.
pub lookup-observe_other :
    (l : NodLedger) (now : ℕ) (domain k : Text) (t : ℕ)
    → IsValid l
    → domain ≢ k
    → lookup text_discrete k l.first_seen ≡ some t
    → (lookup text_discrete k (observe l now domain).0.first_seen ≡ some t)
      ⊎ ((lookup text_discrete k (observe l now domain).0.first_seen ≡ none)
          × NoneOlder (λ t. t) t l.first_seen
          × (l.max_entries ≤ length l.first_seen))
unfolding observe
lookup-observe_other l now domain k t v ne e = elim (Bool-cases (is_empty domain)) [
  | inl blank ↦ rw blank (inl e)
  | inr named ↦ elim (Option-cases (lookup text_discrete domain l.first_seen)) [
    | inr (u, known) ↦ rw (named, known) (inl e)
    | inl unknown ↦
        rw
          (
            named,
            unknown,
            lookup-insert_ne text_discrete domain k now (evict_if_full l).first_seen ne,
          )
          (elim (Eviction-other k t (evict_if_full-Eviction l v) e) [
            | inl same ↦ inl same
            | inr (gone, old) ↦ inr (gone, old, full_of_gone l k t e gone)
          ])
  ]
]
