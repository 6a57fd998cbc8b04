-- ===== src/Blocklist/Healthy.antt =====
-- internal/blocklist/health.go: when a source and the whole are healthy.
use phantomcore.Base.{
  ℕ, ◌+◌, ◌*◌, ◌≤◌, ◌<◌, ◌≡◌, ◌↔◌, inl, inr, refl, Bool, true, false, not, ◌&&◌, ◌||◌, Option, none,
  some, List, [], ◌∷◌, map, ltb, arith, Text, any, lookup, text_discrete, Bool-cases, zero, suc,
  ltb→lt,
}
use native.Mathlib.Nat.{mul-zero, zero-mul}
use phantomcore.Blocklist.Engine.{Source}
use phantomcore.Blocklist.Health.{
  Snapshot, Status, Thresholds, has_collapsed, is_stale, reason_of, evaluate, check_source, index,
}

abbrev pub Keeps : Thresholds → Snapshot → Option Snapshot → Type 0
Keeps t latest none = Unit
Keeps t latest (some prev) = prev.size * t.collapse_ratio ≤ latest.size * 100

-- What a source needs: a snapshot with entries, enough of them beside the one before, and recent.
abbrev pub IsFresh : Thresholds → ℕ → Option Snapshot → Option Snapshot → Type 0
IsFresh t now none prev = ⊥
IsFresh t now (some latest) prev =
    (0 < latest.size)
    × Keeps t latest prev
    × (0 < t.stale_after → now ≤ latest.created_at + t.stale_after)

share_lem : (p r l : ℕ) → ltb 0 r && ltb 0 p && ltb (l * 100) (p * r) ≡ false → p * r ≤ l * 100
share_lem zero r l h = omega (arith, zero-mul r)
share_lem (suc p) zero l h = omega (arith, mul-zero (suc p))
share_lem (suc p) (suc r) l h = ground (arith, h)

collapsed_iff :
    (t : Thresholds) (latest : Snapshot) (prev : Option Snapshot)
    → (has_collapsed t latest prev ≡ false) ↔ Keeps t latest prev
unfolding has_collapsed
collapsed_iff t latest none = (λ h. tt, λ h. refl)
collapsed_iff t latest (some prev) =
    (λ h. share_lem prev.size t.collapse_ratio latest.size h, λ h. ground (arith, h))

stale_iff :
    (t : Thresholds) (latest : Snapshot) (now : ℕ)
    → (is_stale t latest now ≡ false)
      ↔ (0 < t.stale_after → now ≤ latest.created_at + t.stale_after)
unfolding is_stale
stale_iff t latest now = (
  λ h k. ground (arith, h, k),
  λ h. elim (Bool-cases (ltb 0 t.stale_after)) [
    | inl e ↦ let k = h (ltb→lt 0 t.stale_after e) in ground (arith, k)
    | inr e ↦ ground (arith, e)
  ],
)

-- A source is healthy exactly when its newest snapshot has entries, has not fallen below the given
-- share of the one before, if there is one, and is not older than the limit; a ratio or a limit of 0
-- turns its check off.
pub evaluate_ok_iff :
    (src : Source) (latest prev : Option Snapshot) (now : ℕ) (t : Thresholds)
    → ((evaluate src latest prev now t).ok ≡ true) ↔ IsFresh t now latest prev
unfolding evaluate reason_of
evaluate_ok_iff src none prev now t = (λ h. cc, λ h. absurd h)
evaluate_ok_iff src (some latest) prev now t =
    let (f, g) = collapsed_iff t latest prev in
    let (f', g') = stale_iff t latest now in
    elim (Bool-cases (has_collapsed t latest prev)) [
      | inl c ↦ (λ h. absurd (ground (arith, h, c)), λ (a, b, d). absurd (let e = g b in cc))
      | inr c ↦ elim (Bool-cases (is_stale t latest now)) [
        | inl s ↦ (λ h. absurd (ground (arith, h, c, s)), λ (a, b, d). absurd (let e = g' d in cc))
        | inr s ↦ (λ h. (ground (arith, h, c, s), f c, f' s), λ (a, b, d). ground (arith, a, c, s))
      ]
    ]

-- What a source needs of its snapshots, newest first: they could be read, and the newest holds up
-- against the limits and against the one before it, if there is one.
abbrev pub Judged : Thresholds → ℕ → Option (List Snapshot) → Type 0
Judged t now none = ⊥
Judged t now (some []) = ⊥
Judged t now (some (latest ∷ [])) = IsFresh t now (some latest) none
Judged t now (some (latest ∷ prev ∷ older)) = IsFresh t now (some latest) (some prev)

-- The statuses of a map.
abbrev values : List (Text × Status) → List Status
values m = map (λ e. e.1) m

abbrev is_bad : Status → Bool
is_bad st = not st.ok

module _ (recent : Text → Option (List Snapshot)) (now : ℕ) (t : Thresholds) where
  -- The status depends on the identifier only.
  abbrev status_at : Text → Status
  status_at id =
      check_source recent now t
        (record { id = id; url = []; format = []; category = []; enabled = true })

  check_source-status_at : (src : Source) → check_source recent now t src ≡ status_at src.id
  unfolding check_source evaluate
  check_source-status_at src = refl

  abbrev IsConsistent : List (Text × Status) → Type 0
  IsConsistent m =
      (id : Text) (st : Status) → lookup text_discrete id m ≡ some st → st ≡ status_at id

  abbrev Sums : List (Text × Status) → List Status → Type 0
  Sums m sts = any is_bad (values (index m sts)) ≡ any is_bad sts || any is_bad (values m)
