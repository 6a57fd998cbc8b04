-- ===== src/Distance/Slices.antt =====
-- internal/threat/detector.go: the loops of damerauLevenshtein on a slice, and what they leave alone.
use phantomcore.Base.{
  ℕ, zero, suc, ◌+◌, ◌≤◌, ◌<◌, ◌≡◌, ◌≢◌, refl, List, [], ◌∷◌, length, set, replicate, Text, arith,
}
use phantomcore.Distance.{nth, cell, fill_row, count_up}
use phantomcore.Base.{ℕ_discrete}

pub length-set : (xs : List ℕ) (i v : ℕ) → length (set xs i v) ≡ length xs
length-set [] i v = refl
length-set (x ∷ xs) zero v = refl
length-set (x ∷ xs) (suc i) v = omega (arith, length-set xs i v)

pub nth-set_self : (xs : List ℕ) (i v : ℕ) → i < length xs → nth (set xs i v) i ≡ v
nth-set_self [] i v h = absurd (omega arith)
nth-set_self (x ∷ xs) zero v h = refl
nth-set_self (x ∷ xs) (suc i) v h = nth-set_self xs i v (omega arith)

pub nth-set_other : (xs : List ℕ) (i v j : ℕ) → i ≢ j → nth (set xs i v) j ≡ nth xs j
nth-set_other [] i v j h = refl
nth-set_other (x ∷ xs) zero v zero h = absurd (h refl)
nth-set_other (x ∷ xs) zero v (suc j) h = refl
nth-set_other (x ∷ xs) (suc i) v zero h = refl
nth-set_other (x ∷ xs) (suc i) v (suc j) h = nth-set_other xs i v j (λ e. h (omega arith))

pub length-replicate : (n v : ℕ) → length (replicate n v) ≡ n
length-replicate zero v = refl
length-replicate (suc n) v = omega (arith, length-replicate n v)

pub length-fill_row :
    (a b : Text) (i : ℕ) (prev2 prev : List ℕ) (k j : ℕ) (curr : List ℕ)
    → length (fill_row a b i prev2 prev k j curr) ≡ length curr
unfolding fill_row
length-fill_row a b i prev2 prev zero j curr = refl
length-fill_row a b i prev2 prev (suc k) j curr =
    let rest =
      length-fill_row a b i prev2 prev k (suc j) (set curr j (cell a b i j prev2 prev curr)) in
    omega (arith, rest, length-set curr j (cell a b i j prev2 prev curr))

pub length-count_up : (k j : ℕ) (row : List ℕ) → length (count_up k j row) ≡ length row
unfolding count_up
length-count_up zero j row = refl
length-count_up (suc k) j row =
    omega (arith, length-count_up k (suc j) (set row j j), length-set row j j)

pub nth-count_up :
    (k j : ℕ) (row : List ℕ)
    → ((m : ℕ) → m < j → nth row m ≡ m)
    → j + k ≤ length row
    → (m : ℕ) → m < j + k
    → nth (count_up k j row) m ≡ m
unfolding count_up
nth-count_up zero j row done fits m h = done m (omega arith)
nth-count_up (suc k) j row done fits m h =
    nth-count_up k (suc j) (set row j j)
      (λ m' h'. elim (ℕ_discrete j m') [
        | yes e ↦ rw e (nth-set_self row m' m' (omega (arith, h', fits, e)))
        | no e ↦ ground (arith, nth-set_other row j j m' e, done m' (omega (arith, h', e)))
      ])
      (omega (arith, fits, length-set row j j)) m (omega arith)
