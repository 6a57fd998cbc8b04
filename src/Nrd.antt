-- ===== src/Nrd.antt =====
-- internal/nrd/set.go: the set of newly registered domains. The map to empty structs is an
-- association list to the unit type.
pub mod Matches
pub mod Checker
pub mod Refresh
use phantomcore.Base.{
  ℕ, Bool, true, false, ◌||◌, Option, none, some, List, [], ◌∷◌, length, ◌==◌, Text, is_empty,
  to_lower, trim_space, trim_dot, split_at, join_with, lookup, insert, text_discrete, if◌then◌else◌,
}

-- `normalize`
unfoldable pub normalize : Text → Text
normalize d = trim_dot (to_lower (trim_space d))

-- `Set`
abbrev pub NrdSet : Type 0
NrdSet = List (Text × Unit)

-- One round of the loop of `NewSet`.
unfoldable pub add : NrdSet → Text → NrdSet
add s d = let n = normalize d in if is_empty n then s else insert text_discrete n tt s

unfoldable pub add_all : NrdSet → List Text → NrdSet
unfolding add
add_all s [] = s
add_all s (d ∷ ds) = add_all (add s d) ds

-- `NewSet`
unfoldable pub new_set : List Text → NrdSet
unfolding add_all
new_set ds = add_all [] ds

unfoldable pub has : NrdSet → Text → Bool
has s n = elim (lookup text_discrete n s) [ none ↦ false | some _ ↦ true ]

-- The loop of `Contains` over the labels: the last one alone is not looked up.
unfoldable pub contains_from : NrdSet → List Text → Bool
unfolding has
contains_from s [] = false
contains_from s (x ∷ []) = false
contains_from s (x ∷ y ∷ parts) =
    has s (join_with b'.' (x ∷ y ∷ parts)) || contains_from s (y ∷ parts)

-- `Contains`, on a set that is not nil
unfoldable pub contains : NrdSet → Text → Bool
unfolding contains_from
contains s domain =
    let d = normalize domain in
    if length s == 0 then false else if is_empty d then false else contains_from s (split_at b'.' d)
