-- ===== src/Watchdog.antt =====
-- internal/watchdog/watchdog.go: the self-heal supervisor. A probe and a recovery callback are
-- run by the environment; their outcome in a cycle, a panic included, is an argument.
pub mod Trace
use phantomcore.Base.{
  ℕ, ◌+◌, Bool, true, false, Option, none, some, List, [], ◌∷◌, ℤ, pos, pos_part, ltb_ℤ, leb,
  if◌then◌else◌,
}

abbrev pub default_failure_threshold : ℕ
default_failure_threshold = 3

pub record Config : Type 0 where
  pub interval : ℤ
  pub failure_threshold : ℤ

-- How a call of the injected probe ends.
pub data ProbeOutcome : Type 0 where
  reports : Bool → ProbeOutcome
  panics : ProbeOutcome

-- How a call of the injected recovery callback ends.
pub data RecoveryOutcome : Type 0 where
  returns panics : RecoveryOutcome

pub record Watchdog : Type 0 where
  pub threshold : ℕ
  pub enabled : Bool
  pub started : Bool
  pub failures : ℕ
  pub healthy : Bool

-- `New`
unfoldable pub new : Config → Watchdog
new cfg = record {
  threshold =
      if ltb_ℤ cfg.failure_threshold (pos 1)
      then default_failure_threshold
      else pos_part cfg.failure_threshold;
  enabled = ltb_ℤ (pos 0) cfg.interval;
  started = false;
  failures = 0;
  healthy = true;
}

-- `Start`: the watchdog, and whether this call launched the loop.
unfoldable pub start : Watchdog → Watchdog × Bool
start w =
    if w.enabled
    then (if w.started then (w, false) else (record w { started = true }, true))
    else (w, false)

-- `safeProbe`: `none` is a nil probe.
unfoldable pub safe_probe : Option ProbeOutcome → Bool
safe_probe none = true
safe_probe (some (reports healthy)) = healthy
safe_probe (some ProbeOutcome.panics) = false

-- `safeRecover`: how many times the callback is entered. A panic of it is contained.
unfoldable pub safe_recover : Option RecoveryOutcome → ℕ
safe_recover none = 0
safe_recover (some returns) = 1
safe_recover (some RecoveryOutcome.panics) = 1

-- What a cycle leaves behind: the watchdog, the result of `check`, the calls of the callback.
pub record Cycle : Type 0 where
  pub after : Watchdog
  pub triggered : Bool
  pub calls : ℕ

-- `check`
unfoldable pub check : Watchdog → Option ProbeOutcome → Option RecoveryOutcome → Cycle
unfolding safe_probe safe_recover
check w probe recovery =
    if safe_probe probe
    then record { after = record w { failures = 0; healthy = true }; triggered = false; calls = 0 }
    else if leb w.threshold (w.failures + 1)
    then record {
      after = record w { failures = 0; healthy = false };
      triggered = true;
      calls = safe_recover recovery;
    }
    else record {
      after = record w { failures = w.failures + 1; healthy = false };
      triggered = false;
      calls = 0;
    }

-- The loop of `run`: one cycle for each tick, with the outcome of its probe, and a recovery
-- callback that ends in the same way each time. The result of each `check` is kept, oldest first.
unfoldable pub run :
    Option RecoveryOutcome → Watchdog → List (Option ProbeOutcome) → Watchdog × List Bool
run recovery w [] = (w, [])
run recovery w (probe ∷ probes) =
    let c = check w probe recovery in
    let (w', results) = run recovery c.after probes in (w', c.triggered ∷ results)
