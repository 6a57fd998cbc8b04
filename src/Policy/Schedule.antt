-- ===== src/Policy/Schedule.antt =====
-- internal/policy/schedule.go: the optional schedule of a policy.
use phantomcore.Base.{
  ℕ, zero, suc, ◌+◌, ◌-◌, ◌*◌, ◌≡◌, refl, Bool, true, false, not, ◌&&◌, ◌||◌, Option, none, some,
  List, [], ◌∷◌, set, get_elem?, replicate, ltb, leb, ◌==◌, ℤ, pos, negsuc, Text, text, is_empty,
  to_lower, trim_space, split_at, text_discrete, lookup, if◌then◌else◌,
}
use phantomcore.Policy.Types.{LocalTime, Schedule, Policy, Platform}

pub data Error : Type 0 where
  invalid_time invalid_hour invalid_minute : Error
  invalid_timezone invalid_day needs_both must_differ : Error

-- `weekdayByName`
abbrev pub weekday_by_name : List (Text × ℕ)
weekday_by_name =
    (text "sun", 0)
    ∷ (text "sunday", 0)
    ∷ (text "mon", 1)
    ∷ (text "monday", 1)
    ∷ (text "tue", 2)
    ∷ (text "tues", 2)
    ∷ (text "tuesday", 2)
    ∷ (text "wed", 3)
    ∷ (text "weds", 3)
    ∷ (text "wednesday", 3)
    ∷ (text "thu", 4)
    ∷ (text "thur", 4)
    ∷ (text "thurs", 4)
    ∷ (text "thursday", 4)
    ∷ (text "fri", 5)
    ∷ (text "friday", 5)
    ∷ (text "sat", 6)
    ∷ (text "saturday", 6)
    ∷ []

unfoldable pub weekday : Text → Option ℕ
weekday key = lookup text_discrete key weekday_by_name

abbrev pub is_digit : ℕ → Bool
is_digit c = leb b'0' c && leb c b'9'

-- The value of a text of decimal digits, after the digits of `acc`.
unfoldable pub digits_from : ℕ → Text → Option ℕ
digits_from acc [] = some acc
digits_from acc (c ∷ s) =
    let rest = digits_from (acc * 10 + (c - b'0')) s in if is_digit c then rest else none

-- A nonempty text of digits.
unfoldable pub number : Text → Option ℕ
unfolding digits_from
number [] = none
number (c ∷ s) = digits_from 0 (c ∷ s)

-- strconv.Atoi. Its error on a number that does not fit an int is not modelled: the callers refuse
-- such a number as out of range, with the same result.
unfoldable pub atoi : Text → Option ℤ
unfolding number
atoi [] = none
atoi (c ∷ s) =
    if c == b'-'
    then elim (number s) [
      | none ↦ none
      | some n ↦ some (elim n [ zero ↦ pos 0 | suc k ↦ negsuc k ])
    ]
    else if c == b'+'
    then elim (number s) [ none ↦ none | some n ↦ some (pos n) ]
    else elim (number (c ∷ s)) [ none ↦ none | some n ↦ some (pos n) ]

-- A number in `0 … hi`, as `parseHHMM` reads an hour or a minute.
unfoldable pub ranged : ℕ → Text → Option ℕ
unfolding atoi
ranged hi s = elim (atoi s) [
  | none ↦ none
  | some (pos n) ↦ if ltb hi n then none else some n
  | some (negsuc _) ↦ none
]

pub data Parsed (A : Type 0) : Type 0 where
  ok : A → Parsed A
  err : Error → Parsed A

infixl 5 ◌>>=◌
abbrev pub ◌>>=◌ : {A B : Type 0} → Parsed A → (A → Parsed B) → Parsed B
ok a >>= f = f a
err e >>= f = err e

abbrev pub or_err : {A : Type 0} → Option A → Error → Parsed A
or_err none e = err e
or_err (some a) e = ok a

-- `parseHHMM`, on the parts between the colons
unfoldable pub parse_parts : List Text → Parsed ℕ
unfolding ranged trim_space
parse_parts (hh ∷ mm ∷ []) = do
  h ← or_err (ranged 23 (trim_space hh)) invalid_hour
  m ← or_err (ranged 59 (trim_space mm)) invalid_minute
  ok (h * 60 + m)
parse_parts _ = err invalid_time

-- `parseHHMM`: minutes since midnight
unfoldable pub parse_hhmm : Text → Parsed ℕ
unfolding parse_parts split_at trim_space
parse_hhmm s = parse_parts (split_at b':' (trim_space s))

-- `hasSchedule`
unfoldable pub has_schedule : Policy → Bool
has_schedule p =
    not (is_empty (trim_space p.start_time))
    || (not (is_empty (trim_space p.end_time)) || some_day p.schedule_days)
  where
    some_day : List Text → Bool
    some_day [] = false
    some_day (_ ∷ _) = true

-- The loop over `p.ScheduleDays`: the days marked so far, and `hasDays`.
unfoldable pub compile_days : List Bool → Bool → List Text → Parsed (List Bool × Bool)
compile_days days has [] = ok (days, has)
compile_days days has (d ∷ ds) =
    let key = to_lower (trim_space d) in
    let skip = compile_days days has ds in
    let mark = λ (wd : ℕ). compile_days (set days wd true) true ds in
    if is_empty key then skip else elim (weekday key) [ none ↦ err invalid_day | some wd ↦ mark wd ]

-- The time window: `hasWindow`, `startMin`, `endMin`.
unfoldable pub compile_window : Text → Text → Parsed (Bool × ℕ × ℕ)
compile_window start end =
    if is_empty start
    then (if is_empty end then ok (false, 0, 0) else err needs_both)
    else if is_empty end
    then err needs_both
    else do
      sm ← parse_hhmm start
      em ← parse_hhmm end
      if sm == em then err must_differ else ok (true, sm, em)

module _ (os : Platform) where
  -- The timezone; UTC when unset.
  unfoldable pub compile_zone : Text → Parsed (ℕ → LocalTime)
  compile_zone tz = if is_empty tz then ok os.utc else or_err (os.load_location tz) invalid_timezone

  -- `compileSchedule`: `ok none` is a policy with no schedule.
  unfoldable pub compile_schedule : Policy → Parsed (Option Schedule)
  unfolding has_schedule compile_zone compile_days compile_window
  compile_schedule p =
      let compiled = do
        loc ← compile_zone (trim_space p.timezone)
        (days, has_days) ← compile_days (replicate 7 false) false p.schedule_days
        (has_window, start_min, end_min) ←
            compile_window (trim_space p.start_time) (trim_space p.end_time)
        ok (
            some (record {
              loc = loc;
              days = days;
              has_days = has_days;
              start_min = start_min;
              end_min = end_min;
              has_window = has_window;
            }))
      in if has_schedule p then compiled else ok none

-- `s.days[wd]`
abbrev pub day_set : List Bool → ℕ → Bool
day_set days wd = elim (get_elem? days wd) [ none ↦ false | some b ↦ b ]

-- The window test of `active`, at `cur` minutes since local midnight.
unfoldable pub in_window : ℕ → ℕ → ℕ → Bool
in_window start end cur =
    if leb start end then not (ltb cur start || leb end cur) else not (ltb cur start && leb end cur)

-- `active`, on a schedule that is not nil
unfoldable pub schedule_active : Schedule → ℕ → Bool
unfolding in_window
schedule_active s now =
    let t = s.loc now in
    if s.has_days && not (day_set s.days t.weekday)
    then false
    else if s.has_window
    then in_window s.start_min s.end_min (t.hour * 60 + t.minute)
    else true

-- `p.sched.active(now)`
unfoldable pub active : Policy → ℕ → Bool
unfolding schedule_active
active p now = elim p.sched [ none ↦ true | some s ↦ schedule_active s now ]

test_schedule :
    (parse_hhmm (text " 22:05") ≡ ok 1325)
    × (parse_hhmm (text "24:00") ≡ err invalid_hour)
    × (parse_hhmm (text "7:-1") ≡ err invalid_minute)
    × (parse_hhmm (text "700") ≡ err invalid_time)
    × (in_window 1320 360 100 ≡ true)
    × (in_window 1320 360 400 ≡ false)
unfolding parse_hhmm in_window
test_schedule = (refl, refl, refl, refl, refl, refl)
