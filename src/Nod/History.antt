-- ===== src/Nod/History.antt =====
-- internal/dnsengine/nod.go: what the ledger calls new over a history of observations.
use phantomcore.Base.{
  suc, List, [], ◌∷◌, refl, ◌∙◌, lookup-insert, ℕ, ◌+◌, ◌≤◌, ◌<◌, ◌≡◌, inl, inr, ◌↔◌, true, false,
  none, some, length, arith, Text, is_empty, lookup, length-insert-none, text_discrete,
  Option-cases,
}
use phantomcore.Nod.{NodLedger, evict_if_full, observe}
use phantomcore.Nod.Ledger.{lookup-observe_self, observe_first_iff}

-- A ledger with room grows by one entry at most, and keeps what it holds.
observe-grows :
    (l : NodLedger) (now : ℕ) (domain : Text)
    → length l.first_seen < l.max_entries
    → (length (observe l now domain).0.first_seen ≤ suc (length l.first_seen))
      × ((observe l now domain).0.max_entries ≡ l.max_entries)
      × ((observe l now domain).0.window ≡ l.window)
unfolding observe evict_if_full
observe-grows l now domain room = elim (Option-cases (lookup text_discrete domain l.first_seen)) [
  | inr (u, known) ↦ ground (arith, known)
  | inl unknown ↦
      let grown = length-insert-none text_discrete domain now l.first_seen unknown in
      ground (arith, unknown, room, grown)
]

lookup-observe_room :
    (l : NodLedger) (now : ℕ) (domain k : Text) (t : ℕ)
    → length l.first_seen < l.max_entries
    → lookup text_discrete k l.first_seen ≡ some t
    → lookup text_discrete k (observe l now domain).0.first_seen ≡ some t
unfolding observe evict_if_full
lookup-observe_room l now domain k t room e =
    let other = lookup-insert text_discrete domain k now l.first_seen in
    elim (Option-cases (lookup text_discrete domain l.first_seen)) [
      | inr (u, known) ↦ ground (arith, known, e)
      | inl unknown ↦ ground (arith, unknown, room, other, e)
    ]

-- The observations of a list, each with its time.
abbrev pub observe_all : NodLedger → List (ℕ × Text) → NodLedger
observe_all l [] = l
observe_all l ((now, domain) ∷ events) = observe_all (observe l now domain).0 events

lookup-observe_all :
    (l : NodLedger) (events : List (ℕ × Text)) (k : Text) (t : ℕ)
    → length l.first_seen + length events ≤ l.max_entries
    → lookup text_discrete k l.first_seen ≡ some t
    → (lookup text_discrete k (observe_all l events).first_seen ≡ some t)
      × ((observe_all l events).window ≡ l.window)
lookup-observe_all l [] k t h e = (e, refl)
lookup-observe_all l ((now, domain) ∷ events) k t h e =
    let (grown, same, w) = observe-grows l now domain (omega (arith, h)) in
    let e' = lookup-observe_room l now domain k t (omega (arith, h)) e in
    let (f, w') =
      lookup-observe_all (observe l now domain).0 events k t (omega (arith, h, grown, same)) e' in
    (f, w' ∙ w)

-- A named domain that the ledger does not hold is new; and after any further observations, as long as
-- there is room for them all, it is new again exactly when less than the window has passed since that
-- first time, however often it was seen in between.
pub observe_new_iff :
    (l : NodLedger) (first now : ℕ) (domain : Text) (events : List (ℕ × Text))
    → is_empty domain ≡ false
    → lookup text_discrete domain l.first_seen ≡ none
    → length l.first_seen + length events < l.max_entries
    → ((observe l first domain).1 ≡ true)
      × (((observe (observe_all (observe l first domain).0 events) now domain).1 ≡ true)
          ↔ (now < first + l.window))
observe_new_iff l first now domain events named unknown room =
    let l' = (observe l first domain).0 in
    let (grown, same, w) = observe-grows l first domain (omega (arith, room)) in
    let start : lookup text_discrete domain l'.first_seen ≡ some first =
      ground (arith, lookup-observe_self l first domain named, unknown) in
    let (held, w') =
      lookup-observe_all l' events domain first (omega (arith, room, grown, same)) start in
    let (f, g) = observe_first_iff (observe_all l' events) now domain in
    (
      (observe_first_iff l first domain).1 (named, inl unknown),
      (
        λ h. elim (f h).1 [
          | inl gone ↦ absurd (ground (arith, held, gone))
          | inr (t, e, young) ↦ ground (arith, held, e, young, w, w')
        ],
        λ h. g (named, inr (first, held, omega (arith, h, w, w'))),
      ),
    )
