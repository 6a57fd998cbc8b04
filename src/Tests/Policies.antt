-- ===== src/Tests/Policies.antt =====
-- internal/policy at concrete inputs.
use phantomcore.Base.{
  ℕ, ◌+◌, ◌-◌, ◌%◌, ◌<◌, ◌≡◌, ◌≢◌, ◌⊎◌, ◌↔◌, refl, Bool, true, false, not, Option, none, some, List,
  [], ◌∷◌, All, Member, keep, map, arith, Text, text, text_discrete, to_upper,
}
use phantomcore.Policy.Types.{Policy, Schedule, normalize_domain, policy_decision, default_decision}
use phantomcore.Policy.Schedule.{parse_hhmm, compile_schedule, in_window}
use phantomcore.Policy.Window.{in_window_iff}
use phantomcore.Policy.Snapshot.{policies_at, with_schedule, build_snapshot}
use phantomcore.Policy.Engine.{pick_highest, evaluate, is_explicitly_allowed}
use phantomcore.Policy.Scope.{matches_client, parse_client_ip}
use phantomcore.Policy.Choice.{Outranks, pick_highest_lem}
use phantomcore.Policy.Lookup.{all_hits, policies_at-build_snapshot}
use phantomcore.Policy.Bloom.{without_bloom, evaluate-without_bloom}
use phantomcore.Policy.Override.{IsConsulted, IsAllow, is_explicitly_allowed_iff}
use phantomcore.Policy.Precedence.{groups, Decides, evaluate_cases}
use phantomcore.Policy.Loader.{
  normalized, load_policies, check_policy, validate_policy, check_schedule, first_refusal, and_then,
  check_regex, check_scope,
}
use phantomcore.Policy.Accepted.{IsCompiled, load_policies-IsCompiled}
use phantomcore.Tests.Fixtures.{os, block, night, policies, snapshot}

in_window_iff_example :
    (in_window 1320 360 1410 ≡ true) ↔ ((1410 + 1440 - 1320) % 1440 < (360 + 1440 - 1320) % 1440)
in_window_iff_example =
    in_window_iff 1320 360 1410 (omega arith) (omega arith) (omega arith) (λ e. omega arith)

-- What `night` compiles to.
abbrev at_night : Schedule
at_night = record {
  loc = os.utc;
  days = false ∷ false ∷ false ∷ false ∷ false ∷ false ∷ false ∷ [];
  has_days = false;
  start_min = 1320;
  end_min = 360;
  has_window = true;
}

pick_highest_lem_example :
    ((pick_highest snapshot none policies ≡ none)
      × All (λ p. matches_client snapshot.client_nets p none ≡ false) policies)
    ⊎ ((r : Policy) × (pick_highest snapshot none policies ≡ some r)
        × Member r policies
        × (matches_client snapshot.client_nets r none ≡ true)
        × All (λ p. matches_client snapshot.client_nets p none ≡ true → Outranks r p) policies)
pick_highest_lem_example = pick_highest_lem snapshot none policies

policies_at-build_snapshot_example :
    policies_at (build_snapshot os policies).exact (text "bad.com")
    ≡ all_hits (text "bad.com") (map (with_schedule os) policies)
policies_at-build_snapshot_example = policies_at-build_snapshot os policies (text "bad.com")

evaluate-without_bloom_example :
    let s = build_snapshot os policies in
    (evaluate os s 7 (text "a.bad.com") [] ≡ evaluate os (without_bloom s) 7 (text "a.bad.com") [])
    × (is_explicitly_allowed os s 7 (text "a.bad.com") []
        ≡ is_explicitly_allowed os (without_bloom s) 7 (text "a.bad.com") [])
evaluate-without_bloom_example = evaluate-without_bloom os policies 7 (text "a.bad.com") []

evaluate_cases_example :
    ((p : Policy) × IsConsulted os snapshot 7 (text "a.bad.com") [] p
      × Decides snapshot 7
          (parse_client_ip os [])
          (groups snapshot 7 (parse_client_ip os []) (normalize_domain (text "a.bad.com")))
          p
      × (evaluate os snapshot 7 (text "a.bad.com") [] ≡ policy_decision p))
    ⊎ ((evaluate os snapshot 7 (text "a.bad.com") [] ≡ default_decision)
        × ((p : Policy) → ¬ IsConsulted os snapshot 7 (text "a.bad.com") [] p))
evaluate_cases_example = evaluate_cases os snapshot 7 (text "a.bad.com") []

is_explicitly_allowed_iff_example :
    (is_explicitly_allowed os snapshot 7 (text "a.bad.com") [] ≡ true)
    ↔ ((p : Policy) × IsConsulted os snapshot 7 (text "a.bad.com") [] p × IsAllow p)
is_explicitly_allowed_iff_example = is_explicitly_allowed_iff os snapshot 7 (text "a.bad.com") []

-- The fixtures as the loader returns them.
abbrev accepted : List Policy
accepted = normalized block ∷ normalized night ∷ []

load_policies-IsCompiled_example : All (IsCompiled os) accepted
unfolding load_policies check_policy validate_policy check_schedule first_refusal and_then
    check_regex check_scope compile_schedule phantomcore.Base.trim_space parse_hhmm text_discrete
    to_upper
load_policies-IsCompiled_example = load_policies-IsCompiled os policies accepted refl
