-- ===== src/Ha.antt =====
-- internal/ha: the active-passive pair. This module is manager.go and config.go.
pub mod Configuration
pub mod Hysteresis
pub mod Takeover
pub mod Keepalived
use phantomcore.Base.{
  ℕ, ◌+◌, Bool, true, false, not, ◌&&◌, ◌||◌, Option, none, some, List, [], ◌∷◌, leb, if◌then◌else◌,
}
use phantomcore.Ha.Configuration.{
  Config, Settings, Role, primary, backup, other, with_defaults, validate, Error,
}

pub data State : Type 0 where
  active standby : State

abbrev pub is_active : State → Bool
is_active active = true
is_active standby = false

abbrev pub same_state : State → State → Bool
same_state active active = true
same_state standby standby = true
same_state _ _ = false

pub record Manager : Type 0 where
  pub cfg : Config
  pub state : State
  pub peer_up : Bool
  pub consec_failures : ℕ
  pub consec_successes : ℕ
  pub last_transition : ℕ

-- A `Role` in the test `m.cfg.Role == RolePrimary`.
abbrev pub is_primary : Role → Bool
is_primary primary = true
is_primary backup = false
is_primary (other _) = false

abbrev pub is_backup : Role → Bool
is_backup primary = false
is_backup backup = true
is_backup (other _) = false

-- `desiredStateLocked`, from the configuration and the liveness of the peer.
unfoldable pub desired_state : Config → Bool → State
desired_state cfg peer_up =
    if not cfg.enabled
    then active
    else if is_primary cfg.role
    then active
    else if peer_up
    then standby
    else active

pub data Made : Type 0 where
  made : Manager → Made
  refused : Error → Made

-- `New`, at the time `now` of the injected clock.
unfoldable pub new : Settings → ℕ → Made
unfolding with_defaults validate desired_state
new settings now =
    let cfg = with_defaults settings in
    elim (validate cfg) [
      | some e ↦ refused e
      | none ↦ made (record {
        cfg = cfg;
        state = desired_state cfg true;
        peer_up = true;
        consec_failures = 0;
        consec_successes = 0;
        last_transition = now;
      })
    ]

-- The hysteresis of `Tick`: the counters and the liveness of the peer after one observation.
unfoldable pub observe : Manager → Bool → Manager
observe m peer_healthy =
    if peer_healthy
    then record m {
      consec_successes = m.consec_successes + 1;
      consec_failures = 0;
      peer_up = m.peer_up || leb m.cfg.recovery_threshold (m.consec_successes + 1);
    }
    else record m {
      consec_failures = m.consec_failures + 1;
      consec_successes = 0;
      peer_up = m.peer_up && not (leb m.cfg.failure_threshold (m.consec_failures + 1));
    }

-- The end of `Tick`: the state that follows, and the time if it changes.
unfoldable pub settle : Manager → ℕ → Manager
unfolding desired_state
settle m now =
    let next = desired_state m.cfg m.peer_up in
    if same_state next m.state then m else record m { state = next; last_transition = now }

-- `Tick`: the manager after an observation at the time `now`, and the state returned.
unfoldable pub tick : Manager → Bool → ℕ → Manager × State
unfolding observe settle
tick m peer_healthy now =
    if m.cfg.enabled
    then (let m' = settle (observe m peer_healthy) now in (m', m'.state))
    else (m, active)

-- `Run`, over the observations and times of its ticks.
unfoldable pub run : Manager → List (Bool × ℕ) → Manager
unfolding tick
run m [] = m
run m ((peer_healthy, now) ∷ ticks) = run (tick m peer_healthy now).0 ticks

-- `ShouldTakeOver`
unfoldable pub should_take_over : Manager → Bool
should_take_over m = m.cfg.enabled && (is_backup m.cfg.role && is_active m.state)
