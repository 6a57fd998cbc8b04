-- ===== src/Alert/Rate.antt =====
-- internal/alert/alert.go: how many alerts there can be.
use phantomcore.Base.{
  ℕ, ◌+◌, ◌*◌, ◌≤◌, ◌≡◌, Option, none, some, List, [], ◌∷◌, length, keep, ltb, pos_part, ℤ, arith,
  Text, lookup, insert, text_discrete, length-append, length-keep-le, subst,
}
use native.Mathlib.Nat.{suc-mul, zero-mul}
use phantomcore.Alert.{
  DeviceInfo, Alert, Config, Alerter, new_alerter, hits_of, recent_hits, record_blocked, with_fired,
  run,
}

-- The hits that all counters hold.
abbrev pub held : List (Text × List ℕ) → ℕ
held [] = 0
held ((ip, hits) ∷ counters) = length hits + held counters

held-insert :
    (ip : Text) (new : List ℕ) (counters : List (Text × List ℕ))
    → held (insert text_discrete ip new counters) + length (hits_of ip counters)
      ≡ held counters + length new
unfolding insert lookup
held-insert ip new [] = omega arith
held-insert ip new ((k, hits) ∷ counters) = ground (arith, held-insert ip new counters)

recent_hits-le :
    (a : Alerter) (ip : Text) (now : ℕ)
    → length (recent_hits a ip now) ≤ length (hits_of ip a.counters) + 1
unfolding recent_hits
recent_hits-le a ip now =
    let p = λ (t : ℕ). ltb now (t + a.window) in
    omega (
      arith,
      length-append (keep p (hits_of ip a.counters)) (now ∷ []),
      length-keep-le p (hits_of ip a.counters),
    )

-- The hits that the alert of one call stands for.
abbrev spent : ℤ → Option Alert → ℕ
spent threshold none = 0
spent threshold (some alert) = pos_part threshold

length_fired :
    (fired : Option Alert) (alerts : List Alert) (threshold : ℤ)
    → length (with_fired fired alerts) * pos_part threshold
      ≡ spent threshold fired + length alerts * pos_part threshold
length_fired none alerts threshold = omega arith
length_fired (some al) alerts threshold =
    omega (arith, suc-mul (length alerts) (pos_part threshold))

record_blocked-held :
    (resolver : Option (Text → Option DeviceInfo)) (ip domain : Text) (now : ℕ) (a : Alerter)
    → (spent a.threshold (record_blocked resolver ip domain now a).0
          + held (record_blocked resolver ip domain now a).1.counters
        ≤ held a.counters + 1)
      × ((record_blocked resolver ip domain now a).1.threshold ≡ a.threshold)
unfolding record_blocked
record_blocked-held resolver ip domain now a =
    let kept = held-insert ip (recent_hits a ip now) a.counters in
    let reset = held-insert ip [] a.counters in
    let more = recent_hits-le a ip now in ground (arith, kept, reset, more)

run-held :
    (resolver : Option (Text → Option DeviceInfo)) (hits : List (Text × Text × ℕ)) (a : Alerter)
    → length (run resolver hits a).0 * pos_part a.threshold + held (run resolver hits a).1.counters
      ≤ held a.counters + length hits
unfolding run
run-held resolver [] a = omega (arith, zero-mul (pos_part a.threshold))
run-held resolver ((ip, domain, now) ∷ hits) a =
    let a' = (record_blocked resolver ip domain now a).1 in
    let (one, same) = record_blocked-held resolver ip domain now a in
    let (alerts, last) = run resolver hits a' in
    let rest =
      subst (λ x. length alerts * pos_part x + held last.counters ≤ held a'.counters + length hits)
        same (run-held resolver hits a') in
    let counted = length_fired (record_blocked resolver ip domain now a).0 alerts a.threshold in
    omega (arith, one, rest, counted)

-- Over any hits of any clients, a new alerter fires at most once for each threshold of hits.
pub run-le :
    (resolver : Option (Text → Option DeviceInfo)) (hits : List (Text × Text × ℕ)) (cfg : Config)
    → length (run resolver hits (new_alerter cfg)).0 * pos_part cfg.threshold ≤ length hits
unfolding new_alerter
run-le resolver hits cfg = let b = run-held resolver hits (new_alerter cfg) in omega (arith, b)
