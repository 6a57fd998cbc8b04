-- ===== src/Blocklist/Health.antt =====
-- internal/blocklist/health.go: the health of a source by its last two snapshots, and the checker that
-- keeps a status for each. Sizes are counts; the collapse ratio is in hundredths; the text of the
-- detail is left out.
use phantomcore.Base.{
  ℕ, zero, suc, ◌+◌, ◌*◌, Bool, true, false, ◌&&◌, not, Option, none, some, List, [], ◌∷◌, map, ltb,
  leb, Text, insert, any, keep, text_discrete, if◌then◌else◌, ℤ, pos, negsuc,
}
use phantomcore.Blocklist.Engine.{Source}

-- `models.BlocklistSnapshot`
pub record Snapshot : Type 0 where
  pub size : ℕ
  pub created_at : ℕ

-- `HealthReason`
pub data Reason : Type 0 where
  reason_ok : Reason
  no_data : Reason
  collapsed : Reason
  stale : Reason

-- `HealthStatus`
pub record Status : Type 0 where
  pub source_id : Text
  pub ok : Bool
  pub reason : Reason
  pub checked_at : ℕ

-- `HealthThresholds`, in nanoseconds and hundredths; 0 turns a check off.
pub record Thresholds : Type 0 where
  pub stale_after : ℕ
  pub collapse_ratio : ℕ

-- `DefaultHealthThresholds`
abbrev pub default_health_thresholds : Thresholds
default_health_thresholds = record { stale_after = 7 * 24 * 3600 * 1000000000; collapse_ratio = 50 }

unfoldable pub has_collapsed : Thresholds → Snapshot → Option Snapshot → Bool
has_collapsed t latest none = false
has_collapsed t latest (some prev) =
    ltb 0 t.collapse_ratio
    && ltb 0 prev.size
    && ltb (latest.size * 100) (prev.size * t.collapse_ratio)

unfoldable pub is_stale : Thresholds → Snapshot → ℕ → Bool
is_stale t latest now = ltb 0 t.stale_after && ltb (latest.created_at + t.stale_after) now

-- The reason that the returns of `evaluate` give, in their order.
unfoldable pub reason_of : Option Snapshot → Option Snapshot → ℕ → Thresholds → Reason
unfolding has_collapsed is_stale
reason_of none prev now t = no_data
reason_of (some latest) prev now t =
    if leb latest.size 0
    then no_data
    else if has_collapsed t latest prev
    then collapsed
    else if is_stale t latest now
    then stale
    else reason_ok

abbrev pub is_ok : Reason → Bool
is_ok reason_ok = true
is_ok no_data = false
is_ok collapsed = false
is_ok stale = false

-- `evaluate`
unfoldable pub evaluate : Source → Option Snapshot → Option Snapshot → ℕ → Thresholds → Status
unfolding reason_of
evaluate src latest prev now t =
    let reason = reason_of latest prev now t in
    record { source_id = src.id; ok = is_ok reason; reason = reason; checked_at = now }

-- `HealthChecker`
pub record Checker : Type 0 where
  pub thresholds : Thresholds
  pub statuses : List (Text × Status)

-- `NewHealthChecker`
unfoldable pub new_health_checker : Thresholds → Checker
new_health_checker t = record { thresholds = t; statuses = [] }

-- `snaps[0]` and `snaps[1]`, where they are there
abbrev pub first_of : List Snapshot → Option Snapshot
first_of [] = none
first_of (s ∷ ss) = some s

abbrev pub second_of : List Snapshot → Option Snapshot
second_of [] = none
second_of (s ∷ ss) = first_of ss

module _ (recent : Text → Option (List Snapshot)) (now : ℕ) (t : Thresholds) where
  -- One source in the loop of `CheckOnce`; `recent` is `GetRecentSnapshots`, none on an error.
  unfoldable pub check_source : Source → Status
  unfolding evaluate
  check_source src = elim (recent src.id) [
    | none ↦ evaluate src none none now t
    | some snaps ↦ evaluate src (first_of snaps) (second_of snaps) now t
  ]

  -- The loop: the enabled sources.
  unfoldable pub check_sources : List Source → List Status
  unfolding check_source
  check_sources [] = []
  check_sources (src ∷ sources) =
      let rest = check_sources sources in if src.enabled then check_source src ∷ rest else rest

-- The fresh map of the loop.
unfoldable pub index : List (Text × Status) → List Status → List (Text × Status)
unfolding insert text_discrete
index m [] = m
index m (st ∷ sts) = index (insert text_discrete st.source_id st m) sts

-- `CheckOnce`: its results, none when the sources could not be listed, and the checker after it.
unfoldable pub check_once :
    Option (List Source)
    → (Text → Option (List Snapshot))
    → ℕ
    → Checker
    → Option (List Status) × Checker
unfolding check_sources index
check_once none recent now h = (none, h)
check_once (some sources) recent now h =
    let results = check_sources recent now h.thresholds sources in
    (some results, record h { statuses = index [] results })

-- `Statuses`
unfoldable pub statuses_of : Checker → List Status
statuses_of h = map (λ e. e.1) h.statuses

-- `Unhealthy`
unfoldable pub unhealthy : Checker → List Status
unfolding statuses_of keep
unhealthy h = keep (λ st. not st.ok) (statuses_of h)

-- `Healthy`
unfoldable pub healthy : Checker → Bool
unfolding statuses_of any
healthy h = not (any (λ st. not st.ok) (statuses_of h))

-- `Run`: one check, and one for each tick when the interval is positive. A tick brings what the
-- storage answers at its time.
unfoldable pub run_ticks :
    List (Option (List Source) × (Text → Option (List Snapshot)) × ℕ) → Checker → Checker
unfolding check_once
run_ticks [] h = h
run_ticks ((sources, recent, now) ∷ ticks) h = run_ticks ticks (check_once sources recent now h).1

unfoldable pub run :
    ℤ
    → Option (List Source) × (Text → Option (List Snapshot)) × ℕ
    → List (Option (List Source) × (Text → Option (List Snapshot)) × ℕ)
    → Checker
    → Checker
unfolding run_ticks check_once
run (pos zero) (sources, recent, now) ticks h = (check_once sources recent now h).1
run (pos (suc i)) (sources, recent, now) ticks h =
    run_ticks ticks (check_once sources recent now h).1
run (negsuc i) (sources, recent, now) ticks h = (check_once sources recent now h).1
