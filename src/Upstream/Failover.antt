-- ===== src/Upstream/Failover.antt =====
-- internal/dnsengine/upstream_manager.go: what the failover finds, and after how many attempts.
use phantomcore.Base.{
  ℕ, zero, suc, ◌+◌, ◌*◌, ◌≤◌, ◌≡◌, refl, Option, none, some, List, [], ◌∷◌, ◌++◌, length-append,
  length, arith,
}
use phantomcore.Message.{Msg}
use phantomcore.Upstream.{Resolver, try_resolver, try_all}

-- The outcomes of all the attempts that failover may make, in its order: each resolver `retries`
-- times before the next one.
abbrev pub attempts : Resolver → Msg → ℕ → ℕ → List (Option Msg)
attempts up q attempt zero = []
attempts up q attempt (suc retries) = up attempt q ∷ attempts up q (attempt + 1) retries

abbrev pub plan : List Resolver → Msg → ℕ → List (Option Msg)
plan [] q retries = []
plan (up ∷ ups) q retries = attempts up q 0 retries ++ plan ups q retries

-- The first answer in a list of outcomes, and how many outcomes were looked at.
unfoldable pub first : List (Option Msg) → Option Msg × ℕ
first [] = (none, 0)
first (some resp ∷ outcomes) = (some resp, 1)
first (none ∷ outcomes) = let (found, n) = first outcomes in (found, n + 1)

first-append :
    (l m : List (Option Msg))
    → first (l ++ m) ≡ (elim ((first l).0) as (λ _. Option Msg × ℕ) [
      | some resp ↦ (some resp, (first l).1)
      | none ↦ ((first m).0, (first l).1 + (first m).1)
    ])
unfolding first
first-append [] m = ground arith
first-append (some resp ∷ l) m = refl
first-append (none ∷ l) m = ground (arith, first-append l m)

first-attempts :
    (up : Resolver) (q : Msg) (attempt retries : ℕ)
    → try_resolver up q attempt retries ≡ first (attempts up q attempt retries)
unfolding try_resolver first
first-attempts up q attempt zero = refl
first-attempts up q attempt (suc retries) =
    ground (arith, first-attempts up q (attempt + 1) retries)

first-plan :
    (ups : List Resolver) (q : Msg) (retries : ℕ)
    → try_all ups q retries ≡ first (plan ups q retries)
unfolding try_all first
first-plan [] q retries = refl
first-plan (up ∷ ups) q retries = ground (
  arith,
  first-attempts up q 0 retries,
  first-plan ups q retries,
  first-append (attempts up q 0 retries) (plan ups q retries),
)

length-attempts :
    (up : Resolver) (q : Msg) (attempt retries : ℕ)
    → length (attempts up q attempt retries) ≡ retries
length-attempts up q attempt zero = refl
length-attempts up q attempt (suc retries) =
    ground (arith, length-attempts up q (attempt + 1) retries)

length-plan :
    (ups : List Resolver) (q : Msg) (retries : ℕ)
    → length (plan ups q retries) ≡ length ups * retries
length-plan [] q retries = omega arith
length-plan (up ∷ ups) q retries = ground (
  arith,
  length-append (attempts up q 0 retries) (plan ups q retries),
  length-attempts up q 0 retries,
  length-plan ups q retries,
)

first-le : (l : List (Option Msg)) → (first l).1 ≤ length l
unfolding first
first-le [] = omega arith
first-le (some resp ∷ l) = omega arith
first-le (none ∷ l) = ground (arith, first-le l)

-- Failover gives the first answer among all the attempts in its order, after exactly the attempts
-- up to that one, or after all of them if none is answered; there are never more than the number
-- of resolvers times the retries.
pub try_all_lem :
    (ups : List Resolver) (q : Msg) (retries : ℕ)
    → (try_all ups q retries ≡ first (plan ups q retries))
      × ((try_all ups q retries).1 ≤ length ups * retries)
try_all_lem ups q retries =
    let same = first-plan ups q retries in
    let le = first-le (plan ups q retries) in
    let len = length-plan ups q retries in (same, ground (arith, same, le, len))
