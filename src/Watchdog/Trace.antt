-- ===== src/Watchdog/Trace.antt =====
-- What holds of the watchdog over every sequence of probes (internal/watchdog/watchdog.go).
use phantomcore.Base.{
  ℕ, zero, suc, ◌+◌, ◌*◌, ◌≤◌, ◌<◌, ◌≡◌, refl, Bool, true, false, Option, List, [], ◌∷◌, replicate,
  arith, if◌then◌else◌,
}
use phantomcore.Watchdog.{
  Config, ProbeOutcome, RecoveryOutcome, Watchdog, new, start, safe_probe, check, run,
}

-- Between two cycles.
pub record IsValid (w : Watchdog) : Type 0 where
  pub positive : 0 < w.threshold
  pub below : w.failures < w.threshold
  pub flagged : 0 < w.failures → w.healthy ≡ false

pub new-IsValid : (cfg : Config) → IsValid (new cfg)
unfolding new
new-IsValid cfg = ground arith

pub check-IsValid :
    (w : Watchdog) (p : Option ProbeOutcome) (r : Option RecoveryOutcome)
    → IsValid w
    → IsValid (check w p r).after
unfolding check
check-IsValid w p r v = ground arith

-- How often a list of results reports a recovery.
abbrev pub recoveries : List Bool → ℕ
recoveries [] = 0
recoveries (r ∷ rs) = (if r then 1 else 0) + recoveries rs

-- The number of unhealthy probes in a list.
abbrev pub unhealthy : List (Option ProbeOutcome) → ℕ
unhealthy [] = 0
unhealthy (p ∷ ps) = (if safe_probe p then 0 else 1) + unhealthy ps

-- one cycle, as a budget of failures
check_budget :
    (w : Watchdog) (p : Option ProbeOutcome) (ps : List (Option ProbeOutcome))
    (r : Option RecoveryOutcome) (rs : List Bool)
    → IsValid w
    → recoveries rs * w.threshold ≤ (check w p r).after.failures + unhealthy ps
    → recoveries ((check w p r).triggered ∷ rs) * w.threshold ≤ w.failures + unhealthy (p ∷ ps)
unfolding check
check_budget w p ps r rs v h = ground arith

check-threshold :
    (w : Watchdog) (p : Option ProbeOutcome) (r : Option RecoveryOutcome)
    → (check w p r).after.threshold ≡ w.threshold
unfolding check
check-threshold w p r = ground arith

run_budget :
    (r : Option RecoveryOutcome) (w : Watchdog) (ps : List (Option ProbeOutcome))
    → IsValid w
    → IsValid (run r w ps).0 × (recoveries (run r w ps).1 * w.threshold ≤ w.failures + unhealthy ps)
unfolding run
run_budget r w [] v = (v, omega arith)
run_budget r w (p ∷ ps) v =
    let w' = (check w p r).after in
    let (v', h) = run_budget r w' ps (check-IsValid w p r v) in
    (v', check_budget w p ps r (run r w' ps).1 v (rw (check-threshold w p r) at h))

-- From a valid watchdog, over any probes, with panics counted as unhealthy, the recovery is
-- triggered at most once for each full threshold of unhealthy probes: the number of triggers times
-- the threshold never exceeds the failures at the start plus the unhealthy probes.
pub recoveries-run-le :
    (r : Option RecoveryOutcome) (w : Watchdog) (ps : List (Option ProbeOutcome))
    → IsValid w
    → recoveries (run r w ps).1 * w.threshold ≤ w.failures + unhealthy ps
recoveries-run-le r w ps v = (run_budget r w ps v).1

check_failing :
    (w : Watchdog) (p : Option ProbeOutcome) (r : Option RecoveryOutcome) (rs : List Bool) (f k : ℕ)
    → IsValid w
    → safe_probe p ≡ false
    → recoveries rs * w.threshold + f ≡ (check w p r).after.failures + k
    → recoveries ((check w p r).triggered ∷ rs) * w.threshold + f ≡ w.failures + suc k
unfolding check
check_failing w p r rs f k v bad h = ground arith

-- From a valid watchdog, while every probe is unhealthy the recoveries come exactly one threshold
-- apart: after `k` such probes, triggers times threshold plus the failures left is the failures at
-- the start plus `k`, and the failures left are fewer than the threshold. So one sustained unhealthy
-- episode has a recovery for each threshold of its probes, and not at most one.
pub run_failing :
    (r : Option RecoveryOutcome) (p : Option ProbeOutcome) (k : ℕ) (w : Watchdog)
    → IsValid w
    → safe_probe p ≡ false
    → (recoveries (run r w (replicate k p)).1 * w.threshold + (run r w (replicate k p)).0.failures
        ≡ w.failures + k)
      × ((run r w (replicate k p)).0.failures < w.threshold)
unfolding run
run_failing r p zero w v bad = (omega arith, v.below)
run_failing r p (suc k) w v bad =
    let c = check w p r in
    let (h, l) = run_failing r p k c.after (check-IsValid w p r v) bad in
    let e = check-threshold w p r in
    (
      check_failing w p r (run r c.after (replicate k p)).1
          (run r c.after (replicate k p)).0.failures k v bad (rw e at h),
      rw e at l,
    )

-- A healthy probe ends the episode: no trigger, no failures left, and the node reads healthy.
pub check_healthy :
    (w : Watchdog) (p : Option ProbeOutcome) (r : Option RecoveryOutcome)
    → safe_probe p ≡ true
    → ((check w p r).triggered ≡ false)
      × ((check w p r).calls ≡ 0)
      × ((check w p r).after.failures ≡ 0)
      × ((check w p r).after.healthy ≡ true)
unfolding check
check_healthy w p r h = ground arith

-- `n` calls of `Start` in a row: how many of them launched the loop.
abbrev pub launches : ℕ → Watchdog → ℕ
launches zero w = 0
launches (suc n) w = (if (start w).1 then 1 else 0) + launches n (start w).0

launches_started : (n : ℕ) (w : Watchdog) → w.started ≡ true → launches n w ≡ 0
unfolding start
launches_started zero w h = refl
launches_started (suc n) w h = ground (arith, launches_started n w)

launches_disabled : (n : ℕ) (w : Watchdog) → w.enabled ≡ false → launches n w ≡ 0
unfolding start
launches_disabled zero w h = refl
launches_disabled (suc n) w h = ground (arith, launches_disabled n w)

-- However often a new watchdog is started, its loop is launched exactly once, if the configured
-- interval is positive, and otherwise never.
pub launches-new :
    (cfg : Config) (n : ℕ) → launches (suc n) (new cfg) ≡ (if (new cfg).enabled then 1 else 0)
unfolding start new
launches-new cfg n =
    ground (arith, launches_started n (start (new cfg)).0, launches_disabled n (start (new cfg)).0)
