-- ===== src/Nod.antt =====
-- internal/dnsengine/nod.go: the ledger of newly observed domains. Times and the window are
-- nanoseconds; `now.Sub(first) < window` is read as `now < first + window`.
pub mod Ledger
pub mod History
use phantomcore.Base.{
  ℕ, ◌+◌, Bool, true, false, Option, none, some, List, [], ◌∷◌, length, leb, ltb, ℤ, pos, pos_part,
  ltb_ℤ, Text, is_empty, lookup, insert, delete, text_discrete, if◌then◌else◌,
}
use phantomcore.Oldest.{oldest}

abbrev pub default_max_entries : ℕ
default_max_entries = 100_000

-- `nodLedger`
pub record NodLedger : Type 0 where
  pub first_seen : List (Text × ℕ)
  pub window : ℕ
  pub max_entries : ℕ

-- `newNODLedger`
unfoldable pub new : ℕ → ℤ → NodLedger
new window max_entries = record {
  first_seen = [];
  window = window;
  max_entries = if ltb_ℤ (pos 0) max_entries then pos_part max_entries else default_max_entries;
}

-- `evictIfFullLocked`
unfoldable pub evict_if_full : NodLedger → NodLedger
evict_if_full l =
    if ltb (length l.first_seen) l.max_entries then l else elim (oldest (λ t. t) l.first_seen) [
      | none ↦ l
      | some (k, _) ↦ record l { first_seen = delete text_discrete k l.first_seen }
    ]

-- `observe`: the ledger, and whether the domain is newly observed.
unfoldable pub observe : NodLedger → ℕ → Text → NodLedger × Bool
unfolding evict_if_full
observe l now domain =
    if is_empty domain then (l, false) else elim (lookup text_discrete domain l.first_seen) [
      | some first ↦ (l, ltb now (first + l.window))
      | none ↦
          let l' = evict_if_full l in
          (record l' { first_seen = insert text_discrete domain now l'.first_seen }, true)
    ]
