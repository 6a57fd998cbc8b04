-- ===== src/Policy/Window.antt =====
-- internal/policy/schedule.go: what a schedule's time window contains, and what is accepted as one.
use phantomcore.Base.{
  ℕ, zero, suc, ◌+◌, ◌-◌, ◌/◌, ◌%◌, ◌≤◌, ◌<◌, ◌≡◌, refl, ◌∙◌, ◌≢◌, ◌↔◌, inl, inr, Bool, true, false,
  not, some, List, [], ◌∷◌, ◌++◌, length, set, replicate, ◌==◌, arith, Text, is_empty, trim_space,
  split_at, to_lower, if◌then◌else◌, Bool-cases, Option-cases,
}
use phantomcore.Policy.Types.{Schedule, Policy, Platform}
use phantomcore.Policy.Schedule.{
  Parsed, ok, err, ◌>>=◌, ranged, parse_parts, parse_hhmm, compile_days, compile_window,
  compile_zone, must_differ, compile_schedule, in_window, has_schedule, weekday,
}

-- A window is a half-open arc on the clock of 1440 minutes: for ends that are minutes of the day
-- and differ, a minute of the day is inside exactly when its distance after the start, going round
-- midnight, is less than the end's.
pub in_window_iff :
    (start end cur : ℕ)
    → start < 1440
    → end < 1440
    → cur < 1440
    → start ≢ end
    → (in_window start end cur ≡ true) ↔ ((cur + 1440 - start) % 1440 < (end + 1440 - start) % 1440)
unfolding in_window
in_window_iff start end cur hs he hc ne = ground arith

-- Two windows that swap their ends share the day: at each minute exactly one is active.
pub in_window_swap :
    (start end cur : ℕ) → start ≢ end → in_window end start cur ≡ not (in_window start end cur)
unfolding in_window
in_window_swap start end cur ne = ground arith

ranged-le : (hi : ℕ) (s : Text) (n : ℕ) → ranged hi s ≡ some n → n ≤ hi
unfolding ranged
ranged-le hi s n h = ground arith

parse_parts-lt : (parts : List Text) (m : ℕ) → parse_parts parts ≡ ok m → m < 1440
unfolding parse_parts
parse_parts-lt (hh ∷ mm ∷ []) m h = ground (
  arith,
  λ (n : ℕ) (e : ranged 23 (trim_space hh) ≡ some n). ranged-le 23 (trim_space hh) n e,
  λ (n : ℕ) (e : ranged 59 (trim_space mm) ≡ some n). ranged-le 59 (trim_space mm) n e,
)
parse_parts-lt _ m h = cc

-- an accepted time is a minute of the day
parse_hhmm-lt : (s : Text) (m : ℕ) → parse_hhmm s ≡ ok m → m < 1440
unfolding parse_hhmm
parse_hhmm-lt s m h = parse_parts-lt (split_at b':' (trim_space s)) m h

length-set : (xs : List Bool) (i : ℕ) (b : Bool) → length (set xs i b) ≡ length xs
length-set [] i b = refl
length-set (x ∷ xs) zero b = refl
length-set (x ∷ xs) (suc i) b = omega (arith, length-set xs i b)

pub record IsValid (s : Schedule) : Type 0 where
  pub week : length s.days ≡ 7
  pub start_below : s.start_min < 1440
  pub end_below : s.end_min < 1440
  pub differ : s.has_window ≡ true → s.start_min ≢ s.end_min

-- A chain that succeeds got a value out of its first step, and the rest accepts that value.
inspect :
    {A B : Type 0} (step : Parsed A) (rest : A → Parsed B) {result : B}
    → (step >>= rest) ≡ ok result
    → (found : A) × (step ≡ ok found) × (rest found ≡ ok result)
inspect (err why) rest h = cc
inspect (ok found) rest h = (found, refl, h)

window_lem :
    (a b : Text) (w : Bool) (sm em : ℕ)
    → compile_window a b ≡ ok (w, sm, em)
    → (sm < 1440) × (em < 1440) × (w ≡ true → sm ≢ em)
unfolding compile_window
window_lem a b w sm em h = elim (Bool-cases (is_empty a)) [
  | inl e ↦ ground arith
  | inr e ↦ elim (Bool-cases (is_empty b)) [
    | inl k ↦ ground arith
    | inr k ↦
        let bound : (parse_hhmm a >>= λ m.
        parse_hhmm b >>= λ n. if m == n then err must_differ else ok (true, m, n))
            ≡ ok (w, sm, em) =
          rw (e, k) at h in
        let (m, pa, rest) = inspect (parse_hhmm a) _ bound in
        let (n, pb, last) = inspect (parse_hhmm b) _ rest in
        ground (arith, parse_hhmm-lt a m pa, parse_hhmm-lt b n pb)
  ]
]

length-compile_days :
    (days : List Bool) (has : Bool) (ds : List Text) (out : List Bool) (b : Bool)
    → compile_days days has ds ≡ ok (out, b)
    → length out ≡ length days
unfolding compile_days
length-compile_days days has [] out b h = ground arith
length-compile_days days has (d ∷ ds) out b h =
    elim (Bool-cases (is_empty (to_lower (trim_space d)))) [
      | inl blank ↦ length-compile_days days has ds out b (rw blank at h)
      | inr named ↦ elim (Option-cases (weekday (to_lower (trim_space d)))) [
        | inl bad ↦ ground arith
        | inr (wd, e) ↦
            length-compile_days (set days wd true) true ds out b (ground arith)
            ∙ length-set days wd true
      ]
    ]

schedule_parts :
    (os : Platform) (p : Policy) (s : Schedule)
    → compile_schedule os p ≡ ok (some s)
    → (compile_days (replicate 7 false) false p.schedule_days ≡ ok (s.days, s.has_days))
      × (compile_window (trim_space p.start_time) (trim_space p.end_time)
          ≡ ok (s.has_window, s.start_min, s.end_min))
unfolding compile_schedule
schedule_parts os p s h = elim (Bool-cases (has_schedule p)) [
  | inr none_set ↦ ground arith
  | inl set_up ↦
      let (loc, zone, h₁) = inspect (compile_zone os (trim_space p.timezone)) _ (rw set_up at h) in
      let (ds, days, h₂) = inspect (compile_days (replicate 7 false) false p.schedule_days) _ h₁ in
      let (win, window, h₃) =
        inspect (compile_window (trim_space p.start_time) (trim_space p.end_time)) _ h₂ in
      (ground arith, ground arith)
]

-- Every schedule that `compileSchedule` returns is valid: it has seven days, and the ends of its
-- window are minutes of the day, different from each other if there is a window.
pub compile_schedule-IsValid :
    (os : Platform) (p : Policy) (s : Schedule) → compile_schedule os p ≡ ok (some s) → IsValid s
compile_schedule-IsValid os p s h =
    let (days, window) = schedule_parts os p s h in
    let (l, r, d) =
      window_lem (trim_space p.start_time) (trim_space p.end_time) s.has_window s.start_min
        s.end_min window in
    record {
      week = length-compile_days (replicate 7 false) false p.schedule_days s.days s.has_days days;
      start_below = l;
      end_below = r;
      differ = d;
    }

-- The time of day as it is written in a policy.
two_digits : ℕ → Text
two_digits n = (b'0' + n / 10) ∷ (b'0' + n % 10) ∷ []

unfoldable pub print_hhmm : ℕ → Text
unfolding two_digits
print_hhmm m = two_digits (m / 60) ++ b':' ∷ two_digits (m % 60)

reads_back : ℕ → Bool
reads_back m = elim (parse_hhmm (print_hhmm m)) [ ok n ↦ n == m | err _ ↦ false ]

-- The minutes before `m`, all tried.
tried : ℕ → Bool
tried zero = true
tried (suc m) = let earlier = tried m in if reads_back m then earlier else false

tried_day : tried 1440 ≡ true
unfolding tried reads_back parse_hhmm print_hhmm
tried_day = refl

tried_lem : (m day : ℕ) → m < day → tried day ≡ true → reads_back m ≡ true
unfolding tried
tried_lem m zero lt h = absurd (omega arith)
tried_lem m (suc day) lt h = ground (arith, tried_lem m day)

reads_back_lem : (m : ℕ) → reads_back m ≡ true → parse_hhmm (print_hhmm m) ≡ ok m
unfolding reads_back
reads_back_lem m h = ground arith

-- Every minute of the day, printed as HH:MM with two digits each, is read back as itself.
pub parse_hhmm-print_hhmm : (m : ℕ) → m < 1440 → parse_hhmm (print_hhmm m) ≡ ok m
parse_hhmm-print_hhmm m h = reads_back_lem m (tried_lem m 1440 h tried_day)
