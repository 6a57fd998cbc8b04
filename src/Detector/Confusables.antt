-- ===== src/Detector/Confusables.antt =====
-- internal/threat/detector.go: runes that look like a Latin letter, and the skeleton of a label.
use phantomcore.Base.{ℕ, none, some, List, [], ◌∷◌, ◌++◌, map, Text, text, lookup, ℕ_discrete}

abbrev pub paired : Text → Text → List (ℕ × ℕ)
paired [] t = []
paired (c ∷ s) [] = []
paired (c ∷ s) (d ∷ t) = (c, d) ∷ paired s t

-- `confusables`: digits and a capital, Cyrillic small letters and capitals, Greek small letters.
abbrev pub confusables : List (ℕ × ℕ)
confusables =
    paired (text "01345I") (text "oleasl")
    ++ (paired (text "аеорсхуіѕԁкг") (text "aeopcxyisdkr")
        ++ (paired (text "АЕОРСХВМНТ") (text "aeopcxbmht")
            ++ paired (text "οανρικμ") (text "oavpiku")))

module _ (lower : ℕ → ℕ) where
  unfoldable pub skeleton_rune : ℕ → ℕ
  unfolding lookup
  skeleton_rune r = elim (lookup ℕ_discrete r confusables) [ none ↦ lower r | some c ↦ c ]

  -- `confusableSkeleton`
  unfoldable pub confusable_skeleton : Text → Text
  unfolding skeleton_rune
  confusable_skeleton s = map skeleton_rune s
