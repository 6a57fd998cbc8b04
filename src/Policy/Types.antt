-- ===== src/Policy/Types.antt =====
-- internal/policy/types.go and util.go, with the parts of Go's library and of the Bloom filter
-- package that the engine relies on as one record.
use phantomcore.Base.{
  ℕ, ◌≡◌, Bool, true, false, Option, List, [], ◌∷◌, ◌==◌, ℤ, Text, text, same_text, to_lower,
  to_upper, trim_space, trim_dot, if◌then◌else◌, Member, ltb,
}

-- The local time of an instant in a timezone: weekday (0 is Sunday), hour and minute.
pub record LocalTime : Type 0 where
  pub weekday : ℕ
  pub hour : ℕ
  pub minute : ℕ

-- A timezone, by what it makes of an instant (nanoseconds).
abbrev pub Location : Type 0
Location = ℕ → LocalTime

-- `compiledSchedule`
pub record Schedule : Type 0 where
  pub loc : Location
  pub days : List Bool
  pub has_days : Bool
  pub start_min : ℕ
  pub end_min : ℕ
  pub has_window : Bool

pub data Action : Type 0 where
  allow deny redirect : Action

-- `Policy`: the fields that the engine reads. `sched` is `none` for a nil schedule.
pub record Policy : Type 0 where
  pub id : Text
  pub category : Text
  pub redirect_ip : Text
  pub priority : ℤ
  pub action : Text
  pub domains : List Text
  pub regexes : List Text
  pub schedule_days : List Text
  pub start_time : Text
  pub end_time : Text
  pub timezone : Text
  pub sched : Option Schedule
  pub client_cidrs : List Text

pub record Decision : Type 0 where
  pub action : Action
  pub policy_id : Text
  pub category : Text
  pub redirect_ip : Text

-- net.IPNet
pub record IpNet : Type 0 where
  pub ip : List ℕ
  pub mask : List ℕ

-- Functions of packages that are not part of the repository. A compiled regular expression is
-- given by what it matches, a Bloom filter by what it may contain.
pub record Platform : Type 0 where
  pub parse_ip : Text → Option (List ℕ)
  pub parse_cidr : Text → Option IpNet
  pub split_host_port : Text → Option Text
  pub load_location : Text → Option Location
  pub utc : Location
  pub compile_regex : Text → Option (Text → Bool)
  pub bloom : ℕ → List Text → Text → Bool
  -- a Bloom filter has no false negatives
  pub bloom_complete : (n : ℕ) (ds : List Text) (d : Text) → Member d ds → bloom n ds d ≡ true

-- `normalizeDomain` of util.go
unfoldable pub normalize_domain : Text → Text
normalize_domain d = trim_dot (to_lower (trim_space d))

-- The action that a policy's action text stands for, in `policyDecision`.
unfoldable pub action_of : Text → Action
action_of s =
    let t = to_upper s in
    if same_text t (text "BLOCK")
    then deny
    else if same_text t (text "REDIRECT")
    then redirect
    else allow

-- `policyDecision` of engine.go, on a policy that is not nil
unfoldable pub policy_decision : Policy → Decision
unfolding action_of
policy_decision p = record {
  action = action_of p.action;
  policy_id = p.id;
  category = p.category;
  redirect_ip = p.redirect_ip;
}

-- The zero Decision: no policy matched.
abbrev pub default_decision : Decision
default_decision = record { action = allow; policy_id = []; category = []; redirect_ip = [] }

-- `s < t` on Go strings: lexicographic by bytes
unfoldable pub text_lt : Text → Text → Bool
text_lt s [] = false
text_lt [] (d ∷ t) = true
text_lt (c ∷ s) (d ∷ t) = if c == d then text_lt s t else ltb c d
