-- ===== src/Tests/Feeds.antt =====
-- internal/nrd/set.go at concrete inputs.
use phantomcore.Base.{
  ◌≡◌, refl, true, false, List, [], ◌∷◌, Text, text, split_at, lookup, insert, text_discrete,
  join_with, to_lower, trim_space, trim_dot, has_suffix,
}
use phantomcore.Nrd.{NrdSet, normalize, new_set, contains}

abbrev feed : List Text
feed = text " Evil.com." ∷ text "" ∷ text "new.org" ∷ []

test_contains :
    (contains (new_set feed) (text "login.EVIL.com") ≡ true)
    × (contains (new_set feed) (text "com") ≡ false)
    × (contains (new_set feed) (text "notevil.com") ≡ false)
unfolding contains new_set normalize trim_dot trim_space to_lower phantomcore.Nrd.contains_from
    phantomcore.Nrd.has phantomcore.Nrd.add_all phantomcore.Nrd.add split_at join_with lookup insert
    text_discrete has_suffix
test_contains = (refl, refl, refl)
