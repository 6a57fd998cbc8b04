-- ===== src/Tests/Sightings.antt =====
-- internal/dnsengine/nod.go and fastflux.go at concrete inputs.
use phantomcore.Base.{
  ℕ, ◌+◌, ◌-◌, ◌^◌, ◌≤◌, ◌<◌, ◌≡◌, ◌≢◌, refl, ◌⊎◌, ◌↔◌, Bool, true, false, Option, none, some, List,
  [], ◌∷◌, length, pos, arith, Text, text, is_empty, lookup, insert, delete, Distinct, All,
  text_discrete,
}
use phantomcore.Oldest.{NoneOlder}
use phantomcore.Nod
use phantomcore.Nod.{NodLedger}
use phantomcore.Nod.Ledger.{IsValid}
use phantomcore.Nod.History.{observe_all, observe_new_iff}
use phantomcore.FastFlux
use phantomcore.FastFlux.{IpRecord, Tracker, no_ips}
use phantomcore.FastFlux.Detection.{HasTtl}
use phantomcore.FastFlux.Evidence.{Sighting, observe_flag_iff}
use phantomcore.FastFlux.Bounded.{new-IsTracked}

-- A full ledger of two domains.
abbrev ledger : NodLedger
ledger = record {
  first_seen = (text "a.com", 30) ∷ (text "b.com", 20) ∷ [];
  window = 100;
  max_entries = 2;
}

ledger-IsValid : IsValid ledger
unfolding lookup text_discrete
ledger-IsValid = record {
  positive = omega arith;
  bounded = omega arith;
  distinct = (refl, (refl, tt));
}

test_nod :
    ((Nod.observe ledger 40 (text "c.com")).0.first_seen
      ≡ (text "a.com", 30) ∷ (text "c.com", 40) ∷ [])
    × ((Nod.observe ledger 40 (text "c.com")).1 ≡ true)
    × ((Nod.observe ledger 120 (text "b.com")).1 ≡ false)
unfolding Nod.observe Nod.evict_if_full phantomcore.Oldest.oldest phantomcore.Oldest.oldest_from
    lookup insert delete text_discrete
test_nod = (refl, refl, refl)

-- A ledger with room for two more.
abbrev roomy : NodLedger
roomy = record ledger { max_entries = 4 }

abbrev between : List (ℕ × Text)
between = (50, text "c.com") ∷ []

observe_new_iff_example :
    ((Nod.observe roomy 40 (text "c.com")).1 ≡ true)
    × (((Nod.observe
            (observe_all (Nod.observe roomy 40 (text "c.com")).0 between)
            60
            (text "c.com")).1
          ≡ true)
        ↔ (60 < 40 + 100))
unfolding lookup text_discrete
observe_new_iff_example = observe_new_iff roomy 40 60 (text "c.com") between refl refl (omega arith)

abbrev tracker : Tracker
tracker = FastFlux.new (pos 2) (pos 60) (pos 100) (pos 0)

abbrev addresses : List (Option Text)
addresses = some (text "192.0.2.1") ∷ none ∷ some (text "192.0.2.2") ∷ []

test_flux :
    ((FastFlux.observe tracker 5 (text "flux.net") addresses 30).1 ≡ true)
    × ((FastFlux.observe tracker 5 (text "flux.net") addresses 300).1 ≡ false)
unfolding FastFlux.observe FastFlux.new FastFlux.find_entry FastFlux.add_ips FastFlux.prune
    FastFlux.min_ttl lookup insert phantomcore.Base.retain text_discrete
test_flux = (refl, refl)

observe_flag_iff_example :
    (recs : List (Text × IpRecord)) × Distinct text_discrete recs
    × ((a : Text) (r : IpRecord)
        → (lookup text_discrete a recs ≡ some r)
          ↔ Sighting tracker 5 (text "flux.net") addresses 30 a r)
    × (((FastFlux.observe tracker 5 (text "flux.net") addresses 30).1 ≡ true) ↔ (
        (is_empty (text "flux.net") ≡ false)
        × (no_ips addresses ≡ false)
        × (0 < length recs)
        × (tracker.ip_threshold ≤ length recs)
        × ((2 ^ 32 - 1 ≤ tracker.ttl_max) ⊎ HasTtl tracker.ttl_max recs)))
    × (is_empty (text "flux.net") ≡ false
        → no_ips addresses ≡ false
        → 0 < length recs
        → lookup text_discrete
            (text "flux.net")
            (FastFlux.observe tracker 5 (text "flux.net") addresses 30).0.domains
          ≡ some (record { ips = recs; last_seen = 5 }))
observe_flag_iff_example =
    observe_flag_iff tracker 5 (text "flux.net") addresses 30
      (new-IsTracked (pos 2) (pos 60) (pos 100) (pos 0))
