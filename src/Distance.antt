-- ===== src/Distance.antt =====
-- internal/threat/detector.go: the edit distance between labels, with the three rows of its table.
-- A rune is its number; an index outside of a slice, which Go would refuse, reads as 0.
pub mod Slices
pub mod Table
pub mod Alignment
pub mod Zero
use phantomcore.Base.{
  ℕ, zero, suc, ◌+◌, ◌-◌, Bool, ◌&&◌, List, [], ◌∷◌, length, set, replicate, Text, ◌==◌, ltb,
  if◌then◌else◌,
}

abbrev pub nth : List ℕ → ℕ → ℕ
nth [] i = 0
nth (x ∷ xs) zero = x
nth (x ∷ xs) (suc i) = nth xs i

-- `min3`
unfoldable pub min3 : ℕ → ℕ → ℕ → ℕ
min3 a b c = let m = a in let m' = if ltb b m then b else m in if ltb c m' then c else m'

unfoldable pub cost : Text → Text → ℕ → ℕ → ℕ
cost a b i j = if nth a (i - 1) == nth b (j - 1) then 0 else 1

-- Whether the last two runes of the prefixes of lengths i and j are each other's swap.
unfoldable pub is_swap : Text → Text → ℕ → ℕ → Bool
is_swap a b i j =
    ltb 1 i && ltb 1 j && nth a (i - 1) == nth b (j - 2) && nth a (i - 2) == nth b (j - 1)

-- What the inner loop leaves in `curr[j]`.
unfoldable pub cell : Text → Text → ℕ → ℕ → List ℕ → List ℕ → List ℕ → ℕ
unfolding min3 cost is_swap
cell a b i j prev2 prev curr =
    let plain = min3 (nth prev j + 1) (nth curr (j - 1) + 1) (nth prev (j - 1) + cost a b i j) in
    let t = nth prev2 (j - 2) + 1 in if is_swap a b i j && ltb t plain then t else plain

-- The inner loop, with `k` columns to go from `j` on.
unfoldable pub fill_row : Text → Text → ℕ → List ℕ → List ℕ → ℕ → ℕ → List ℕ → List ℕ
unfolding cell
fill_row a b i prev2 prev zero j curr = curr
fill_row a b i prev2 prev (suc k) j curr =
    fill_row a b i prev2 prev k (suc j) (set curr j (cell a b i j prev2 prev curr))

-- The three slices.
pub record Rows : Type 0 where
  pub prev2 : List ℕ
  pub prev : List ℕ
  pub curr : List ℕ

-- One round of the outer loop: a row is filled and the slices change places.
unfoldable pub next_row : Text → Text → ℕ → Rows → Rows
unfolding fill_row
next_row a b i r = record {
  prev2 = r.prev;
  prev = fill_row a b i r.prev2 r.prev (length b) 1 (set r.curr 0 i);
  curr = r.prev2;
}

unfoldable pub fill_rows : Text → Text → ℕ → ℕ → Rows → Rows
unfolding next_row
fill_rows a b zero i r = r
fill_rows a b (suc k) i r = fill_rows a b k (suc i) (next_row a b i r)

-- The loop that writes 0, 1, ... into `prev`.
unfoldable pub count_up : ℕ → ℕ → List ℕ → List ℕ
count_up zero j row = row
count_up (suc k) j row = count_up k (suc j) (set row j j)

unfoldable pub first_rows : ℕ → Rows
unfolding count_up
first_rows n = record {
  prev2 = replicate (n + 1) 0;
  prev = count_up (n + 1) 0 (replicate (n + 1) 0);
  curr = replicate (n + 1) 0;
}

-- `damerauLevenshtein`
unfoldable pub damerau_levenshtein : Text → Text → ℕ
unfolding fill_rows first_rows
damerau_levenshtein a b =
    if length a == 0
    then length b
    else if length b == 0
    then length a
    else nth (Rows.prev (fill_rows a b (length a) 1 (first_rows (length b)))) (length b)
