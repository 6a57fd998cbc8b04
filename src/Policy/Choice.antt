-- ===== src/Policy/Choice.antt =====
-- internal/policy/engine.go: which of the candidates is picked.
use phantomcore.Base.{
  ℕ, ◌≡◌, refl, ◌⊎◌, inl, inr, Bool, true, false, ◌&&◌, Option, none, some, List, [], ◌∷◌, any,
  keep, Member, All, arith, ◌≤ℤ◌, Text, Bool-cases,
}
use phantomcore.Policy.Types.{Policy, text_lt}
use phantomcore.Policy.Schedule.{active}
use phantomcore.Policy.Scope.{matches_client}
use phantomcore.Policy.Snapshot.{Snapshot}
use phantomcore.Policy.Engine.{is_scheduled, filter_active, beats, pick_from, pick_highest}

text_lt_trans : (s t u : Text) → text_lt s t ≡ true → text_lt t u ≡ true → text_lt s u ≡ true
unfolding text_lt
text_lt_trans s t [] h k = cc
text_lt_trans s [] (e ∷ u) h k = cc
text_lt_trans [] (d ∷ t) (e ∷ u) h k = refl
text_lt_trans (c ∷ s) (d ∷ t) (e ∷ u) h k = ground (arith, text_lt_trans s t u)

text_lt_total : (s t : Text) → text_lt s t ≡ false → (text_lt t s ≡ true) ⊎ (t ≡ s)
unfolding text_lt
text_lt_total [] [] h = inr refl
text_lt_total (c ∷ s) [] h = inl refl
text_lt_total [] (d ∷ t) h = cc
text_lt_total (c ∷ s) (d ∷ t) h = ground (arith, text_lt_total s t)

text_lt_asym : (s t : Text) → text_lt s t ≡ true → text_lt t s ≡ false
unfolding text_lt
text_lt_asym s [] h = cc
text_lt_asym [] (d ∷ t) h = refl
text_lt_asym (c ∷ s) (d ∷ t) h = ground (arith, text_lt_asym s t)

-- `p` is no better than `best`: the order of `pickHighestPriorityScoped`.
abbrev pub Yields : Policy → Policy → Type 0
Yields best p = beats p (some best) ≡ false

beats_trans : (p q best : Policy) → Yields best q → beats p (some q) ≡ false → Yields best p
unfolding beats
beats_trans p q best h k =
    ground (arith, text_lt_total q.id best.id, text_lt_trans p.id best.id q.id)

beats_won : (p best : Policy) → beats p (some best) ≡ true → Yields p best
unfolding beats
beats_won p best h = ground (arith, text_lt_total p.id best.id, text_lt_asym p.id best.id)

beats_self : (p : Policy) → Yields p p
unfolding beats
beats_self p = ground (arith, text_lt_asym p.id p.id)

-- The order that the source documents: `p` has no higher priority than `best`, and at the same
-- priority its id does not come first.
abbrev pub Outranks : Policy → Policy → Type 0
Outranks best p =
    (p.priority ≤ℤ best.priority) × (best.priority ≤ℤ p.priority → text_lt p.id best.id ≡ false)

Yields-Outranks : (best p : Policy) → Yields best p → Outranks best p
unfolding beats
Yields-Outranks best p h = (ground arith, λ e. ground arith)

module _ (snap : Snapshot) (client : Option (List ℕ)) where
  abbrev pub in_scope : Policy → Bool
  in_scope p = matches_client snap.client_nets p client

  All-Outranks :
      (r : Policy) (ps : List Policy)
      → All (λ p. in_scope p ≡ true → Yields r p) ps
      → All (λ p. in_scope p ≡ true → Outranks r p) ps
  All-Outranks r [] a = tt
  All-Outranks r (p ∷ ps) a = ((λ s. Yields-Outranks r p (a.0 s)), All-Outranks r ps a.1)

  pick_some :
      (b : Policy) (ps : List Policy)
      → (r : Policy) × (pick_from snap client (some b) ps ≡ some r)
        × Yields r b
        × ((r ≡ b) ⊎ Member r ps × (in_scope r ≡ true))
        × All (λ p. in_scope p ≡ true → Yields r p) ps
  unfolding pick_from
  pick_some b [] = (b, refl, beats_self b, inl refl, tt)
  pick_some b (p ∷ ps) = elim (Bool-cases (in_scope p && beats p (some b))) [
    | inl wins ↦
        let (r, e, y, m, a) = pick_some p ps in
        (
          r,
          rw wins e,
          beats_trans b p r y (beats_won p b (ground arith)),
          inr (elim m [ inl q ↦ (inl q, rw q (ground arith)) | inr q ↦ (inr q.0, q.1) ]),
          ((λ _. y), a),
        )
    | inr stays ↦
        let (r, e, y, m, a) = pick_some b ps in
        (
          r,
          rw stays e,
          y,
          elim m [ inl q ↦ inl q | inr q ↦ inr (inr q.0, q.1) ],
          ((λ s. beats_trans p b r y (ground arith)), a),
        )
  ]

  -- The pick is none exactly when no candidate is in scope for the client; else it is a candidate
  -- in scope that outranks every candidate in scope: the highest priority, and among those the
  -- first id.
  pub pick_highest_lem :
      (ps : List Policy)
      → ((pick_highest snap client ps ≡ none) × All (λ p. in_scope p ≡ false) ps)
        ⊎ ((r : Policy) × (pick_highest snap client ps ≡ some r)
            × Member r ps
            × (in_scope r ≡ true)
            × All (λ p. in_scope p ≡ true → Outranks r p) ps)
  unfolding pick_highest beats
  pick_highest_lem [] = inl (refl, tt)
  pick_highest_lem (p ∷ ps) = elim (Bool-cases (in_scope p)) [
    | inl s ↦
        let (r, e, y, m, a) = pick_some p ps in
        inr (
          r,
          rw s e,
          elim m [ inl q ↦ inl q | inr q ↦ inr q.0 ],
          elim m [ inl q ↦ rw q s | inr q ↦ q.1 ],
          ((λ _. Yields-Outranks r p y), All-Outranks r ps a),
        )
    | inr s ↦ elim (pick_highest_lem ps) [
      | inl h ↦ inl (rw s h.0, (s, h.1))
      | inr h ↦ inr (h.0, rw s h.1, inr h.2, h.3, ((λ t. cc), h.4))
    ]
  ]

-- When no policy is scheduled the filter hands its input back, and that is what filtering gives.
unscheduled_active :
    (now : ℕ) (ps : List Policy) → any is_scheduled ps ≡ false → keep (λ p. active p now) ps ≡ ps
unfolding any keep active
unscheduled_active now [] h = refl
unscheduled_active now (p ∷ ps) h = ground (arith, unscheduled_active now ps)

-- `filterActive`, with its fast path, is the plain filter by `active`.
pub filter_active_lem :
    (ps : List Policy) (now : ℕ) → filter_active ps now ≡ keep (λ p. active p now) ps
unfolding filter_active
filter_active_lem ps now = ground (arith, unscheduled_active now ps)
