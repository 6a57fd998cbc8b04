-- ===== src/Distance/Alignment.antt =====
-- internal/threat/detector.go: the optimal string alignment distance by its recursive definition,
-- which the comment of damerauLevenshtein names.
use phantomcore.Base.{ℕ, zero, suc, ◌+◌, ◌&&◌, Text, ◌==◌, leb, if◌then◌else◌}
use phantomcore.Distance.{nth}

unfoldable pub least : ℕ → ℕ → ℕ
least x y = if leb x y then x else y

-- A deletion, an insertion, or the last runes kept or substituted.
unfoldable pub edited : (deleted inserted kept other : ℕ) → ℕ
unfolding least
edited deleted inserted kept other = least (deleted + 1) (least (inserted + 1) (kept + other))

module _ (a b : Text) where
  unfoldable pub differ : ℕ → ℕ → ℕ
  differ i j = if nth a i == nth b j then 0 else 1

  -- The least number of edits between the first i runes of a and the first j runes of b: deletions,
  -- insertions, substitutions, and swaps of neighbours.
  unfoldable pub alignment : ℕ → ℕ → ℕ
  unfolding edited differ least
  alignment zero j = j
  alignment (suc i) zero = suc i
  alignment (suc zero) (suc j) =
      edited (alignment zero (suc j)) (alignment (suc zero) j) (alignment zero j) (differ zero j)
  alignment (suc (suc i)) (suc zero) =
      edited (alignment (suc i) 1) (suc (suc i)) (suc i) (differ (suc i) zero)
  alignment (suc (suc i)) (suc (suc j)) =
      let plain =
        edited (alignment (suc i) (suc (suc j))) (alignment (suc (suc i)) (suc j))
          (alignment (suc i) (suc j)) (differ (suc i) (suc j)) in
      let swapped = alignment i j + 1 in
      if nth a (suc i) == nth b j && nth a i == nth b (suc j) then least swapped plain else plain
