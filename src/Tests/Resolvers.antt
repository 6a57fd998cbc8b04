-- ===== src/Tests/Resolvers.antt =====
-- internal/dnsengine/upstream_manager.go and case_randomize.go at concrete inputs.
use phantomcore.Base.{
  ℕ, ◌*◌, ◌≤◌, ◌≡◌, refl, Bool, true, false, Option, none, some, List, [], ◌∷◌, length, ◌==◌, Text,
  text, text_discrete, to_lower, if◌then◌else◌,
}
use phantomcore.Message.{Msg}
use phantomcore.Upstream.{
  Resolver, UpstreamManager, encode_case, restore_case, try_all, exchange, randomize_case,
}
use phantomcore.Upstream.Casing.{restore_case-encode_case}
use phantomcore.Upstream.Failover.{plan, first, try_all_lem}

abbrev query : Msg
query = record {
  id = 7;
  response = false;
  rcode = 0;
  question = record { name = text "a-1.Com."; qtype = 1; qclass = 1 } ∷ [];
  answer = [];
  ns = [];
  extra = [];
}

abbrev draws : List Bool
draws = true ∷ false ∷ true ∷ true ∷ []

-- What a resolver replies: the message itself, with an answer of the name that it was asked.
abbrev replied : Msg → Msg
replied q = record q { response = true }

-- One resolver that is down, and one that answers at its second attempt.
abbrev dead : Resolver
dead _ _ = none

abbrev slow : Resolver
slow attempt q = if attempt == 1 then some (replied q) else none

test_randomize : randomize_case (text "a-1.Com.") draws ≡ (text "A-1.COM.", [])
unfolding randomize_case phantomcore.Upstream.flip_case
test_randomize = refl

test_exchange :
    exchange (record { upstreams = dead ∷ slow ∷ []; dns0x20 = true }) draws query 2
    ≡ (some (replied query), 4)
unfolding exchange try_all phantomcore.Upstream.try_resolver encode_case restore_case randomize_case
    phantomcore.Upstream.flip_case phantomcore.Upstream.encode_questions
    phantomcore.Upstream.restore_questions phantomcore.Upstream.restore_owner_names
    phantomcore.Upstream.equal_name_fold to_lower phantomcore.Base.lower_byte text_discrete
test_exchange = refl

restore_case-encode_case_example :
    (restore_case (replied (encode_case query draws).0) (encode_case query draws).1).question
    ≡ query.question
restore_case-encode_case_example =
    restore_case-encode_case query (replied (encode_case query draws).0) draws refl

try_all_lem_example :
    (try_all (dead ∷ slow ∷ []) query 2 ≡ first (plan (dead ∷ slow ∷ []) query 2))
    × ((try_all (dead ∷ slow ∷ []) query 2).1 ≤ length (dead ∷ slow ∷ []) * 2)
try_all_lem_example = try_all_lem (dead ∷ slow ∷ []) query 2
