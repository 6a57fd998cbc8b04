-- ===== src/Oldest.antt =====
-- The scan for the oldest entry of a bounded map, shared by internal/dnsengine/nod.go
-- (`evictIfFullLocked`) and fastflux.go (`evictOldestLocked`).
use phantomcore.Base.{
  ℕ, ◌≤◌, ◌<◌, ◌≡◌, refl, sym, subst, Member, ◌⊎◌, inl, inr, Option, none, some, List, [], ◌∷◌,
  length, ltb, arith, Text, lookup, Distinct, text_discrete, if◌then◌else◌, Bool-cases,
}

module _ {V : Type 0} (time : V → ℕ) where
  -- `if first || t.Before(oldest) { … }`, over the entries in the order of the loop
  unfoldable pub oldest_from : Option (Text × ℕ) → List (Text × V) → Option (Text × ℕ)
  oldest_from best [] = best
  oldest_from none ((k, v) ∷ m) = oldest_from (some (k, time v)) m
  oldest_from (some (j, t)) ((k, v) ∷ m) =
      oldest_from (if ltb (time v) t then some (k, time v) else some (j, t)) m

  unfoldable pub oldest : List (Text × V) → Option (Text × ℕ)
  unfolding oldest_from
  oldest m = oldest_from none m

  -- No entry is older than `t`.
  abbrev pub NoneOlder : ℕ → List (Text × V) → Type 0
  NoneOlder t [] = Unit
  NoneOlder t ((k, v) ∷ m) = (t ≤ time v) × NoneOlder t m

  NoneOlder-mono : (s t : ℕ) (m : List (Text × V)) → s ≤ t → NoneOlder t m → NoneOlder s m
  NoneOlder-mono s t [] le h = tt
  NoneOlder-mono s t ((k, v) ∷ m) le h = (omega arith, NoneOlder-mono s t m le h.1)

  -- the scan ends at an entry of the map, or at the one it began with, and none is older
  oldest_from_lem :
      (j : Text) (t : ℕ) (m : List (Text × V))
      → (k : Text) × (s : ℕ) × (oldest_from (some (j, t)) m ≡ some (k, s))
        × (s ≤ t)
        × NoneOlder s m
        × (((k ≡ j) × (s ≡ t)) ⊎ ((v : V) × Member (k, v) m × (time v ≡ s)))
  unfolding oldest_from
  oldest_from_lem j t [] = (j, t, refl, omega arith, tt, inl (refl, refl))
  oldest_from_lem j t ((i, v) ∷ m) = elim (Bool-cases (ltb (time v) t)) [
    | inl e ↦
        let (k, s, r, le, n, o) = oldest_from_lem i (time v) m in
        (
          k,
          s,
          rw e r,
          ground arith,
          (le, n),
          inr (elim o [ inl q ↦ (v, inl (cc (q.0)), sym q.1) | inr q ↦ (q.0, inr q.1, q.2) ]),
        )
    | inr e ↦
        let (k, s, r, le, n, o) = oldest_from_lem j t m in
        (
          k,
          s,
          rw e r,
          le,
          (ground arith, n),
          elim o [ inl q ↦ inl q | inr q ↦ inr (q.0, inr q.1, q.2) ],
        )
  ]

  -- In a map that is not empty the scan finds an entry of the map, and none is older.
  pub oldest_lem :
      (m : List (Text × V))
      → 0 < length m
      → (k : Text) × (v : V) × (oldest m ≡ some (k, time v))
        × Member (k, v) m
        × NoneOlder (time v) m
  unfolding oldest
  oldest_lem [] h = absurd (omega arith)
  oldest_lem ((j, u) ∷ m) h =
      let (k, s, r, le, n, o) = oldest_from_lem j (time u) m in
      elim o [
        | inl q ↦ (j, u, ground arith, inl refl, ground arith)
        | inr (v, i, q) ↦
            (k, v, rw q r, inr i, subst (λ z. NoneOlder z ((j, u) ∷ m)) (sym q) (le, n))
      ]

pub Member-lookup :
    {V : Type 0} (k : Text) (v : V) (m : List (Text × V))
    → Distinct text_discrete m
    → Member (k, v) m
    → lookup text_discrete k m ≡ some v
unfolding lookup
Member-lookup k v [] d i = absurd i
Member-lookup k v ((j, w) ∷ m) d (inl e) = ground arith
Member-lookup k v ((j, w) ∷ m) d (inr i) = ground (arith, Member-lookup k v m d.1 i)
