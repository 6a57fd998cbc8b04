-- ===== src/Ha/Takeover.antt =====
-- internal/ha/manager.go: which node of the pair is active, and how often that can change.
use phantomcore.Base.{
  ℕ, suc, ◌+◌, ◌*◌, ◌≤◌, ◌≡◌, ◌∙◌, ◌⊎◌, ◌↔◌, Bool, true, false, List, [], ◌∷◌, length, arith,
  if◌then◌else◌, ltb, leb, is_empty, trim_space,
}
use phantomcore.Ha.Configuration.{Config, Settings, primary, backup, is_known, with_defaults}
use phantomcore.Ha.{active, standby, Manager, desired_state, made, new, tick, run, should_take_over}
use phantomcore.Ha.Hysteresis.{
  IsValid, tick-IsValid, tick-cfg, run-IsValid, failing, answering, peer_failing, peer_answering,
}

desired-backup :
    (cfg : Config) (up : Bool)
    → cfg.enabled ≡ true
    → cfg.role ≡ backup
    → desired_state cfg up ≡ (if up then standby else active)
unfolding desired_state
desired-backup cfg up e r = ground arith

-- In a valid state, an enabled backup whose peer is up takes over exactly when the failed probes
-- in a row, those counted before included, reach the failure threshold: until then it is on
-- standby.
pub run-failing_backup :
    (m : Manager) (t : ℕ) (ts : List ℕ)
    → IsValid m
    → m.cfg.enabled ≡ true
    → m.cfg.role ≡ backup
    → m.peer_up ≡ true
    → (run m (failing (t ∷ ts))).state ≡ (
        if ltb (m.consec_failures + length (t ∷ ts)) m.cfg.failure_threshold
        then standby
        else active)
run-failing_backup m t ts v e r u =
    let (w, c) = run-IsValid m (failing (t ∷ ts)) v in
    ground (
      arith,
      w.settled,
      peer_failing m t ts e,
      desired-backup m.cfg (run m (failing (t ∷ ts))).peer_up e r,
    )

-- In a valid state, an enabled backup that took the peer to be down steps back exactly when the
-- successful probes in a row, those counted before included, reach the recovery threshold: until
-- then it stays active.
pub run-answering_backup :
    (m : Manager) (t : ℕ) (ts : List ℕ)
    → IsValid m
    → m.cfg.enabled ≡ true
    → m.cfg.role ≡ backup
    → m.peer_up ≡ false
    → (run m (answering (t ∷ ts))).state ≡ (
        if leb m.cfg.recovery_threshold (m.consec_successes + length (t ∷ ts))
        then standby
        else active)
run-answering_backup m t ts v e r u =
    let (w, c) = run-IsValid m (answering (t ∷ ts)) v in
    ground (
      arith,
      w.settled,
      peer_answering m t ts e,
      desired-backup m.cfg (run m (answering (t ∷ ts))).peer_up e r,
    )

desired-active :
    (cfg : Config) (up : Bool)
    → (cfg.enabled ≡ false) ⊎ (cfg.role ≡ primary)
    → desired_state cfg up ≡ active
unfolding desired_state
desired-active cfg up h = ground arith

not-take_over :
    (m : Manager) → (m.cfg.enabled ≡ false) ⊎ (m.cfg.role ≡ primary) → should_take_over m ≡ false
unfolding should_take_over
not-take_over m h = ground arith

-- From a valid state, a primary node and a node with the feature disabled are active after every
-- sequence of observations, and never report a takeover.
pub run-active :
    (m : Manager) (ticks : List (Bool × ℕ))
    → IsValid m
    → (m.cfg.enabled ≡ false) ⊎ (m.cfg.role ≡ primary)
    → ((run m ticks).state ≡ active) × (should_take_over (run m ticks) ≡ false)
run-active m ticks v h =
    let (w, c) = run-IsValid m ticks v in
    (
      w.settled ∙ rw c (desired-active m.cfg (run m ticks).peer_up h),
      not-take_over (run m ticks) (rw c h),
    )

-- How often the liveness of the peer changes along a sequence of ticks.
abbrev changed : Bool → Bool → ℕ
changed true true = 0
changed false false = 0
changed _ _ = 1

abbrev pub flips : Manager → List (Bool × ℕ) → ℕ
flips m [] = 0
flips m ((healthy, now) ∷ ticks) =
    let m' = (tick m healthy now).0 in changed m.peer_up m'.peer_up + flips m' ticks

-- The observations that count against the present liveness.
abbrev pub pending : Manager → ℕ
pending m = if m.peer_up then m.consec_failures else m.consec_successes

flips_step :
    (m : Manager) (healthy : Bool) (now k n r : ℕ)
    → IsValid m
    → k ≤ m.cfg.failure_threshold
    → k ≤ m.cfg.recovery_threshold
    → r * k ≤ pending (tick m healthy now).0 + n
    → (changed m.peer_up (tick m healthy now).0.peer_up + r) * k ≤ pending m + suc n
unfolding tick
flips_step m healthy now k n r v hf hr h = ground arith

-- The peer's liveness cannot flap: along any observations from a valid state, the number of its
-- changes times a number `k` that neither threshold is below is at most the observations plus
-- those pending.
pub flips-le :
    (k : ℕ) (m : Manager) (ticks : List (Bool × ℕ))
    → IsValid m
    → k ≤ m.cfg.failure_threshold
    → k ≤ m.cfg.recovery_threshold
    → flips m ticks * k ≤ pending m + length ticks
flips-le k m [] v hf hr = omega arith
flips-le k m ((healthy, now) ∷ ticks) v hf hr =
    let m' = (tick m healthy now).0 in
    let e = tick-cfg m healthy now in
    flips_step m healthy now k (length ticks) (flips m' ticks) v hf hr
      (flips-le k m' ticks (tick-IsValid m healthy now v) (rw e hf) (rw e hr))

-- `New` returns a manager exactly when the configuration is disabled, or has a known role and a
-- peer address that is not blank.
pub new_made_iff :
    (s : Settings) (now : ℕ)
    → ((m : Manager) × (new s now ≡ made m)) ↔ (
        (s.enabled ≡ false)
        ⊎ ((is_known s.role ≡ true) × (is_empty (trim_space s.peer_addr) ≡ false)))
unfolding new
new_made_iff s now = (λ h. ground (arith, h.1), λ h. made_manager h)
  where
    made_manager :
        (s.enabled ≡ false)
          ⊎ ((is_known s.role ≡ true) × (is_empty (trim_space s.peer_addr) ≡ false))
        → (m : Manager) × (new s now ≡ made m)
    made_manager h = (
      record {
        cfg = with_defaults s;
        state = desired_state (with_defaults s) true;
        peer_up = true;
        consec_failures = 0;
        consec_successes = 0;
        last_transition = now;
      },
      ground arith,
    )
