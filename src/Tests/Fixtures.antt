-- ===== src/Tests/Fixtures.antt =====
-- Policies, a platform and a snapshot for the tests.
use phantomcore.Base.{
  refl, true, none, some, List, [], ◌∷◌, pos, Text, text, same_text, if◌then◌else◌,
}
use phantomcore.Policy.Types.{Policy, Platform}
use phantomcore.Policy.Snapshot.{Snapshot, build_snapshot}

-- A platform that knows one address and no range, whose clock shows Monday 23:30, and whose Bloom
-- filter lets everything through.
abbrev pub os : Platform
os = record {
  parse_ip = λ s. if same_text s (text "10.0.0.9") then some (10 ∷ 0 ∷ 0 ∷ 9 ∷ []) else none;
  parse_cidr = λ _. none;
  split_host_port = λ _. none;
  load_location = λ _. none;
  utc = λ _. record { weekday = 1; hour = 23; minute = 30 };
  compile_regex = λ _. none;
  bloom = λ _ _ _. true;
  bloom_complete = λ _ _ _ _. refl;
}

abbrev pub policy : Text → Text → Policy
policy id action = record {
  id = id;
  category = [];
  redirect_ip = [];
  priority = pos 10;
  action = action;
  domains = text "Bad.com" ∷ [];
  regexes = [];
  schedule_days = [];
  start_time = [];
  end_time = [];
  timezone = [];
  sched = none;
  client_cidrs = [];
}

abbrev pub block : Policy
block = policy (text "p1") (text "BLOCK")

-- ALLOW at night, for everything below bad.com
abbrev pub night : Policy
night = record (policy (text "p0") (text "allow")) {
  domains = text "*.bad.com" ∷ [];
  start_time = text "22:00";
  end_time = text "06:00";
}

abbrev pub policies : List Policy
policies = block ∷ night ∷ []

abbrev pub snapshot : Snapshot
snapshot = build_snapshot os policies
