-- ===== src/Tests/Selfheal.antt =====
-- internal/watchdog/watchdog.go at concrete inputs.
use phantomcore.Base.{
  ◌+◌, ◌*◌, ◌≤◌, ◌<◌, ◌≡◌, refl, true, false, Option, none, some, List, [], ◌∷◌, replicate, pos,
}
use phantomcore.Watchdog.{Config, ProbeOutcome, new, safe_probe, check, run}
use phantomcore.Watchdog.ProbeOutcome.{reports}
use phantomcore.Watchdog.RecoveryOutcome.{returns}
use phantomcore.Watchdog.Trace.{new-IsValid, recoveries, unhealthy, recoveries-run-le, run_failing}

abbrev cfg : Config
cfg = record { interval = pos 5_000_000_000; failure_threshold = pos 2 }

abbrev probes : List (Option ProbeOutcome)
probes =
    some (reports false)
    ∷ some ProbeOutcome.panics
    ∷ some (reports false)
    ∷ some (reports true)
    ∷ some (reports false)
    ∷ none
    ∷ []

test_run :
    ((run (some returns) (new cfg) probes).1 ≡ false ∷ true ∷ false ∷ false ∷ false ∷ false ∷ [])
    × ((run (some returns) (new cfg) probes).0.healthy ≡ true)
unfolding run check safe_probe new
test_run = (refl, refl)

recoveries-run-le_example :
    recoveries (run (some returns) (new cfg) probes).1 * (new cfg).threshold
    ≤ (new cfg).failures + unhealthy probes
recoveries-run-le_example = recoveries-run-le (some returns) (new cfg) probes (new-IsValid cfg)

run_failing_example :
    (recoveries (run (some returns) (new cfg) (replicate 5 (some ProbeOutcome.panics))).1
          * (new cfg).threshold
        + (run (some returns) (new cfg) (replicate 5 (some ProbeOutcome.panics))).0.failures
      ≡ (new cfg).failures + 5)
    × ((run (some returns) (new cfg) (replicate 5 (some ProbeOutcome.panics))).0.failures
        < (new cfg).threshold)
unfolding safe_probe
run_failing_example =
    run_failing (some returns) (some ProbeOutcome.panics) 5 (new cfg) (new-IsValid cfg) refl
