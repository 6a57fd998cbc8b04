-- ===== src/Ha/Hysteresis.antt =====
-- internal/ha/manager.go: the invariant of the manager, and when the peer counts as down or up.
use phantomcore.Base.{
  ℕ, ◌+◌, ◌<◌, ◌≡◌, refl, ◌∙◌, ◌⊎◌, Bool, true, false, ◌&&◌, ◌||◌, List, [], ◌∷◌, length, arith,
  ltb, leb, map,
}
use phantomcore.Ha.Configuration.{Settings, with_defaults}
use phantomcore.Ha.{Manager, desired_state, made, new, tick, run}

-- Between two ticks.
pub record IsValid (m : Manager) : Type 0 where
  pub failure_positive : 0 < m.cfg.failure_threshold
  pub recovery_positive : 0 < m.cfg.recovery_threshold
  pub settled : m.state ≡ desired_state m.cfg m.peer_up
  pub up_below : m.peer_up ≡ true → m.consec_failures < m.cfg.failure_threshold
  pub down_below : m.peer_up ≡ false → m.consec_successes < m.cfg.recovery_threshold
  pub one_counter : (m.consec_failures ≡ 0) ⊎ (m.consec_successes ≡ 0)

-- a manager that `New` returns is valid, and starts with its peer taken to be up
pub new-IsValid :
    (s : Settings) (now : ℕ) (m : Manager)
    → new s now ≡ made m
    → IsValid m × (m.peer_up ≡ true) × (m.cfg ≡ with_defaults s)
unfolding new
new-IsValid s now m h = ground arith

-- `Tick` keeps the invariant, on every observation
pub tick-IsValid :
    (m : Manager) (healthy : Bool) (now : ℕ) → IsValid m → IsValid (tick m healthy now).0
unfolding tick
tick-IsValid m healthy now v = ground arith

pub tick-cfg : (m : Manager) (healthy : Bool) (now : ℕ) → (tick m healthy now).0.cfg ≡ m.cfg
unfolding tick
tick-cfg m healthy now = ground arith

-- `Run` keeps the invariant and the configuration, over every sequence of observations
pub run-IsValid :
    (m : Manager) (ticks : List (Bool × ℕ))
    → IsValid m
    → IsValid (run m ticks) × ((run m ticks).cfg ≡ m.cfg)
unfolding run
run-IsValid m [] v = (v, refl)
run-IsValid m ((healthy, now) ∷ ticks) v =
    let (w, e) = run-IsValid (tick m healthy now).0 ticks (tick-IsValid m healthy now v) in
    (w, e ∙ tick-cfg m healthy now)

-- A tick with the peer unreachable, or reachable, at each of the given times.
abbrev pub failing : List ℕ → List (Bool × ℕ)
failing = map (λ t. (false, t))

abbrev pub answering : List ℕ → List (Bool × ℕ)
answering = map (λ t. (true, t))

tick_failing :
    (m : Manager) (now : ℕ)
    → m.cfg.enabled ≡ true
    → let m' = (tick m false now).0 in
      (m'.peer_up ≡ m.peer_up && ltb (m.consec_failures + 1) m.cfg.failure_threshold)
      × (m'.consec_failures ≡ m.consec_failures + 1)
unfolding tick
tick_failing m now e = ground arith

tick_answering :
    (m : Manager) (now : ℕ)
    → m.cfg.enabled ≡ true
    → let m' = (tick m true now).0 in
      (m'.peer_up ≡ m.peer_up || leb m.cfg.recovery_threshold (m.consec_successes + 1))
      × (m'.consec_successes ≡ m.consec_successes + 1)
unfolding tick
tick_answering m now e = ground arith

-- While every probe fails, the peer counts as up exactly for as long as it did before and the
-- failures in a row, those before included, stay below the threshold.
pub peer_failing :
    (m : Manager) (t : ℕ) (ts : List ℕ)
    → m.cfg.enabled ≡ true
    → (run m (failing (t ∷ ts))).peer_up
      ≡ m.peer_up && ltb (m.consec_failures + length (t ∷ ts)) m.cfg.failure_threshold
unfolding run
peer_failing m t [] e = (tick_failing m t e).0
peer_failing m t (t' ∷ ts) e =
    ground (arith, tick_failing m t e, tick-cfg m false t, peer_failing (tick m false t).0 t' ts)

pub peer_answering :
    (m : Manager) (t : ℕ) (ts : List ℕ)
    → m.cfg.enabled ≡ true
    → (run m (answering (t ∷ ts))).peer_up
      ≡ m.peer_up || leb m.cfg.recovery_threshold (m.consec_successes + length (t ∷ ts))
unfolding run
peer_answering m t [] e = (tick_answering m t e).0
peer_answering m t (t' ∷ ts) e =
    ground (arith, tick_answering m t e, tick-cfg m true t, peer_answering (tick m true t).0 t' ts)
