-- ===== src/Upstream.antt =====
-- internal/dnsengine/upstream_manager.go and case_randomize.go: failover between the resolvers, and
-- the random case of outbound names. The draws of math/rand are a list of bits, the answers of a
-- resolver a function from the number of the attempt. Names are ASCII, where strings.EqualFold
-- compares the lowered texts.
pub mod Casing
pub mod Failover
pub mod Schemes
use phantomcore.Base.{
  ℕ, zero, suc, ◌+◌, ◌-◌, Bool, true, false, ◌&&◌, Option, none, some, List, [], ◌∷◌, map, leb,
  Text, to_lower, same_text, text_discrete, if◌then◌else◌,
}
use phantomcore.Message.{Rr, Question, Msg}

-- `equalNameFold`
unfoldable pub equal_name_fold : Text → Text → Bool
equal_name_fold s t = same_text (to_lower s) (to_lower t)

-- A letter with its case changed; any other byte as it is.
unfoldable pub flip_case : ℕ → ℕ
flip_case c =
    if leb b'a' c && leb c b'z' then c - 32 else if leb b'A' c && leb c b'Z' then c + 32 else c

abbrev is_letter : ℕ → Bool
is_letter c = if leb b'a' c && leb c b'z' then true else leb b'A' c && leb c b'Z'

-- `randomizeCase`: the name, and the draws that are left. Only a letter takes one.
unfoldable pub randomize_case : Text → List Bool → Text × List Bool
unfolding flip_case
randomize_case [] draws = ([], draws)
randomize_case (c ∷ name) [] = (c ∷ name, [])
randomize_case (c ∷ name) (draw ∷ draws) =
    let (rest, left) = randomize_case name draws in
    let (rest', left') = randomize_case name (draw ∷ draws) in
    if is_letter c then ((if draw then flip_case c else c) ∷ rest, left) else (c ∷ rest', left')

-- The loop of `encodeCase0x20`.
unfoldable pub encode_questions : List Question → List Bool → List Question
unfolding randomize_case
encode_questions [] draws = []
encode_questions (q ∷ qs) draws =
    let (name, left) = randomize_case q.name draws in
    record q { name = name } ∷ encode_questions qs left

-- `encodeCase0x20`
unfoldable pub encode_case : Msg → List Bool → Msg × List Text
unfolding encode_questions
encode_case q draws = (
  record q { question = encode_questions q.question draws },
  map {A = Question} (λ x. x.name) q.question,
)

-- `restoreOwnerNames`
unfoldable pub restore_owner_names : List Rr → Text → List Rr
restore_owner_names rrs original =
    map {A = Rr}
      (λ rr. if equal_name_fold rr.name original then record rr { name = original } else rr) rrs

-- The loop of `restoreCase0x20`: the questions, and the sections beside them.
unfoldable pub restore_questions :
    List Question
    → List Text
    → List Rr × List Rr × List Rr
    → List Question × (List Rr × List Rr × List Rr)
unfolding restore_owner_names
restore_questions [] originals sections = ([], sections)
restore_questions (q ∷ qs) [] sections = (q ∷ qs, sections)
restore_questions (q ∷ qs) (original ∷ originals) (answer, ns, extra) =
    let skipped = restore_questions qs originals (answer, ns, extra) in
    let restored = restore_questions qs originals (
      restore_owner_names answer original,
      restore_owner_names ns original,
      restore_owner_names extra original,
    ) in
    if equal_name_fold q.name original
    then (record q { name = original } ∷ restored.0, restored.1)
    else (q ∷ skipped.0, skipped.1)

-- `restoreCase0x20`
unfoldable pub restore_case : Msg → List Text → Msg
unfolding restore_questions
restore_case resp originals =
    let (qs, (answer, ns, extra)) =
      restore_questions resp.question originals (resp.answer, resp.ns, resp.extra) in
    record resp { question = qs; answer = answer; ns = ns; extra = extra }

-- An `Upstream`: what its `Exchange` gives at each attempt for each message, `none` for an error.
abbrev pub Resolver : Type 0
Resolver = ℕ → Msg → Option Msg

-- The attempts on one resolver, from `attempt` on: the answer, and how many were made.
unfoldable pub try_resolver : Resolver → Msg → ℕ → ℕ → Option Msg × ℕ
try_resolver up q attempt zero = (none, 0)
try_resolver up q attempt (suc retries) =
    let (later, made) = try_resolver up q (attempt + 1) retries in
    elim (up attempt q) [ some resp ↦ (some resp, 1) | none ↦ (later, made + 1) ]

-- The loop over the resolvers.
unfoldable pub try_all : List Resolver → Msg → ℕ → Option Msg × ℕ
unfolding try_resolver
try_all [] q retries = (none, 0)
try_all (up ∷ ups) q retries =
    let (found, made) = try_resolver up q 0 retries in
    let (later, more) = try_all ups q retries in
    elim found [ some resp ↦ (some resp, made) | none ↦ (later, made + more) ]

-- `UpstreamManager`
pub record UpstreamManager : Type 0 where
  pub upstreams : List Resolver
  pub dns0x20 : Bool

-- `Exchange` of the manager: the answer, and the number of attempts.
unfoldable pub exchange : UpstreamManager → List Bool → Msg → ℕ → Option Msg × ℕ
unfolding try_all encode_case restore_case
exchange m draws q retries =
    let (outbound, originals) = encode_case q draws in
    let (found, made) = try_all m.upstreams outbound retries in
    if m.dns0x20
    then ((elim found [ none ↦ none | some resp ↦ some (restore_case resp originals) ]), made)
    else try_all m.upstreams q retries
