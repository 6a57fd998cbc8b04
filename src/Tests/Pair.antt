-- ===== src/Tests/Pair.antt =====
-- internal/ha at concrete inputs.
use phantomcore.Base.{
  ℕ, ◌+◌, ◌*◌, ◌≤◌, ◌≡◌, refl, inl, inr, Bool, true, false, List, [], ◌∷◌, ltb, pos, arith, text,
  if◌then◌else◌,
}
use phantomcore.Ha.Configuration.{Settings, primary, backup, with_defaults}
use phantomcore.Ha.{
  State, active, standby, Manager, made, new, desired_state, tick, run, should_take_over,
}
use phantomcore.Ha.Hysteresis.{IsValid, failing}
use phantomcore.Ha.Takeover.{flips, pending, run-failing_backup, flips-le}
use phantomcore.Ha.Keepalived.{Params, View, master}

abbrev settings : Settings
settings = record {
  enabled = true;
  role = backup;
  peer_addr = text "10.0.0.2:53";
  vip = text "10.0.0.1/24";
  check_interval = pos 0;
  failure_threshold = pos 2;
  recovery_threshold = pos 0;
  dial_timeout = pos 0;
}

-- A backup, as `New` makes it.
abbrev waiting : Manager
waiting = record {
  cfg = with_defaults settings;
  state = standby;
  peer_up = true;
  consec_failures = 0;
  consec_successes = 0;
  last_transition = 7;
}

-- A backup that has taken over.
abbrev serving : Manager
serving = record waiting {
  state = active;
  peer_up = false;
  consec_failures = 2;
  last_transition = 9;
}

waiting-IsValid : IsValid waiting
unfolding desired_state with_defaults
waiting-IsValid = record {
  failure_positive = ground arith;
  recovery_positive = ground arith;
  settled = refl;
  up_below = λ e. ground arith;
  down_below = λ e. ground arith;
  one_counter = inl refl;
}

serving-IsValid : IsValid serving
unfolding desired_state with_defaults
serving-IsValid = record {
  failure_positive = ground arith;
  recovery_positive = ground arith;
  settled = refl;
  up_below = λ e. cc;
  down_below = λ e. ground arith;
  one_counter = inr refl;
}

test_takeover :
    ((run waiting (failing (8 ∷ []))).state ≡ standby)
    × ((run waiting (failing (8 ∷ 9 ∷ []))).state ≡ active)
unfolding run tick phantomcore.Ha.observe phantomcore.Ha.settle desired_state with_defaults
test_takeover = (refl, refl)

run-failing_backup_example :
    (run waiting (failing (8 ∷ 9 ∷ []))).state
    ≡ (if ltb (waiting.consec_failures + 2) waiting.cfg.failure_threshold then standby else active)
unfolding with_defaults
run-failing_backup_example = run-failing_backup waiting 8 (9 ∷ []) waiting-IsValid refl refl refl

abbrev ticks : List (Bool × ℕ)
ticks = (false, 8) ∷ (true, 9) ∷ (false, 10) ∷ (false, 11) ∷ []

flips-le_example : flips waiting ticks * 2 ≤ pending waiting + 4
unfolding with_defaults
flips-le_example = flips-le 2 waiting ticks waiting-IsValid (omega arith) (omega arith)

-- The other node of the pair.
abbrev main : Manager
main = record waiting { cfg = with_defaults (record settings { role = primary }); state = active }

main-IsValid : IsValid main
unfolding desired_state with_defaults
main-IsValid = record {
  failure_positive = ground arith;
  recovery_positive = ground arith;
  settled = refl;
  up_below = λ e. ground arith;
  down_below = λ e. ground arith;
  one_counter = inl refl;
}

abbrev params : Params
params = record {
  role = primary;
  interface = text " eth0 ";
  vip = text "10.0.0.1/24";
  instance_name = [];
  router_id = pos 0;
  advert_int = pos 0;
  auth_pass = [];
  priority = pos 0;
}

abbrev rendered : View
rendered = record {
  instance_name = text "VI_HYDRA";
  vrrp_state = master;
  interface = text "eth0";
  router_id = pos 51;
  priority = pos 200;
  advert_int = pos 1;
  auth_pass = text "hydradns";
  vip = text "10.0.0.1/24";
}
