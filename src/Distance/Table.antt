-- ===== src/Distance/Table.antt =====
-- internal/threat/detector.go: the three rows of damerauLevenshtein hold the recursive distance.
use phantomcore.Base.{
  ℕ, zero, suc, ◌+◌, ◌-◌, ◌<◌, ◌≡◌, refl, Bool, false, ◌&&◌, List, length, set, replicate, Text,
  arith, ◌==◌, ltb, Bool-cases, inl, inr, if◌then◌else◌,
}
use phantomcore.Distance.{
  nth, min3, cost, is_swap, cell, fill_row, Rows, next_row, fill_rows, first_rows,
  damerau_levenshtein,
}
use phantomcore.Base.{ℕ_discrete, subst, sym, ◌∙◌, ==_iff}
use phantomcore.Distance.Alignment.{least, edited, differ, alignment}
use phantomcore.Distance.Slices.{
  length-set, nth-set_self, nth-set_other, length-replicate, length-fill_row, length-count_up,
  nth-count_up,
}

min3-edited : (u l d c : ℕ) → min3 (u + 1) (l + 1) (d + c) ≡ edited u l d c
unfolding min3 edited least
min3-edited u l d c = ground arith

is_swap-zero_left : (a b : Text) (j : ℕ) → is_swap a b 1 j ≡ false
unfolding is_swap
is_swap-zero_left a b j = ground arith

is_swap-zero_right : (a b : Text) (i : ℕ) → is_swap a b i 1 ≡ false
unfolding is_swap
is_swap-zero_right a b i = ground arith

is_swap_lem :
    (a b : Text) (i j : ℕ)
    → is_swap a b (suc (suc i)) (suc (suc j))
      ≡ (nth a (suc i) == nth b j && nth a i == nth b (suc j))
unfolding is_swap
is_swap_lem a b i j = ground arith

-- A cell from its neighbours, with the index arithmetic done.
abbrev chosen : (swap : Bool) (t u l d c : ℕ) → ℕ
chosen swap t u l d c =
    let plain = min3 (u + 1) (l + 1) (d + c) in if swap && ltb (t + 1) plain then t + 1 else plain

cell-chosen :
    (a b : Text) (i j : ℕ) (prev2 prev curr : List ℕ)
    → cell a b (suc i) (suc j) prev2 prev curr
      ≡ chosen
          (is_swap a b (suc i) (suc j))
          (nth prev2 (suc j - 2))
          (nth prev (suc j))
          (nth curr j)
          (nth prev j)
          (differ a b i j)
unfolding cell cost differ
cell-chosen a b i j prev2 prev curr =
    let at : (x y : ℕ) → Type 0 = λ x y.
      cell a b (suc i) (suc j) prev2 prev curr
      ≡ chosen (is_swap a b (suc i) (suc j)) (nth prev2 (suc j - 2)) (nth prev (suc j)) (nth curr y)
          (nth prev y) (if nth a x == nth b y then 0 else 1) in
    let pred_lem : (n : ℕ) → suc n - 1 ≡ n = λ n. omega arith in
    subst (λ x. at x j) (pred_lem i) (subst (λ y. at (suc i - 1) y) (pred_lem j) refl)

-- what a cell holds when its neighbours hold what they should
module _ (swap : Bool) (t u l d c : ℕ) {u' l' d' : ℕ} (up : u ≡ u') (left : l ≡ l')
    (diag : d ≡ d') where
  chosen-edited : swap ≡ false → chosen swap t u l d c ≡ edited u' l' d' c
  chosen-edited h = rw (h, up, left, diag) (min3-edited u' l' d' c)

  chosen-least :
      {t' : ℕ} {swap' : Bool}
      → swap ≡ swap'
      → t ≡ t'
      → chosen swap t u l d c
        ≡ (if swap' then least (t' + 1) (edited u' l' d' c) else edited u' l' d' c)
  unfolding least
  chosen-least {t'} {swap'} h back =
      let e = min3-edited u' l' d' c in rw (h, back, up, left, diag, e) (ground arith)

module _ (a b : Text) where
  -- A row of the table, as far as its n first cells go.
  abbrev Holds : (row : List ℕ) (i n : ℕ) → Type 0
  Holds row i n = (m : ℕ) → m < n → nth row m ≡ alignment a b i m

  cell-alignment :
      (i j : ℕ) (prev2 prev curr : List ℕ)
      → ((i' j' : ℕ) → i ≡ suc i' → j ≡ suc j' → nth prev2 j' ≡ alignment a b i' j')
      → nth prev (suc j) ≡ alignment a b i (suc j)
      → nth prev j ≡ alignment a b i j
      → nth curr j ≡ alignment a b (suc i) j
      → cell a b (suc i) (suc j) prev2 prev curr ≡ alignment a b (suc i) (suc j)
  unfolding alignment
  cell-alignment zero j prev2 prev curr p2 up diag left =
      cell-chosen a b zero j prev2 prev curr
      ∙ (chosen-edited _ (nth prev2 (suc j - 2)) _ _ _ (differ a b zero j) up left diag
          (is_swap-zero_left a b (suc j)))
  cell-alignment (suc i) zero prev2 prev curr p2 up diag left =
      cell-chosen a b (suc i) zero prev2 prev curr
      ∙ (chosen-edited _ (nth prev2 (1 - 2)) _ _ _ (differ a b (suc i) zero) up left diag
          (is_swap-zero_right a b (suc (suc i))))
  cell-alignment (suc i) (suc j) prev2 prev curr p2 up diag left =
      let two_lem : suc (suc j) - 2 ≡ j = omega arith in
      cell-chosen a b (suc i) (suc j) prev2 prev curr
      ∙ (chosen-least _ (nth prev2 (suc (suc j) - 2)) _ _ _ (differ a b (suc i) (suc j)) up left
          diag (is_swap_lem a b i j)
          (subst (λ n. nth prev2 n ≡ alignment a b i j) (sym two_lem) (p2 i j refl refl)))

  fill_row-Holds :
      (i k j : ℕ) (prev2 prev curr : List ℕ)
      → ((i' : ℕ) → i ≡ suc i' → Holds prev2 i' (suc (length b)))
      → Holds prev i (suc (length b))
      → Holds curr (suc i) (suc j)
      → j + k ≡ length b
      → length curr ≡ suc (length b)
      → Holds (fill_row a b (suc i) prev2 prev k (suc j) curr) (suc i) (suc (length b))
  unfolding fill_row
  fill_row-Holds i zero j prev2 prev curr p2 p c e l = λ m h. c m (omega (arith, e, h))
  fill_row-Holds i (suc k) j prev2 prev curr p2 p c e l =
      let v = cell a b (suc i) (suc j) prev2 prev curr in
      let right : v ≡ alignment a b (suc i) (suc j) =
        cell-alignment i j prev2 prev curr (λ i' j' ei ej. p2 i' ei j' (omega (arith, e, ej)))
          (p (suc j) (omega (arith, e))) (p j (omega (arith, e))) (c j (omega arith)) in
      fill_row-Holds i k (suc j) prev2 prev (set curr (suc j) v) p2 p
        (λ m h. elim (ℕ_discrete (suc j) m) [
          | yes q ↦
              subst (λ x. nth (set curr (suc j) v) x ≡ alignment a b (suc i) x) q
                (nth-set_self curr (suc j) v (omega (arith, e, l)) ∙ right)
          | no q ↦ nth-set_other curr (suc j) v m q ∙ c m (omega (arith, h, q))
        ])
        (omega (arith, e)) (omega (arith, l, length-set curr (suc j) v))

  -- the slices between two rounds, the rows before row i being done
  record Kept (i : ℕ) (r : Rows) : Type 0 where
    before : (i' : ℕ) → i ≡ suc i' → Holds r.prev2 i' (suc (length b))
    last : Holds r.prev i (suc (length b))
    space2 : length r.prev2 ≡ suc (length b)
    space1 : length r.prev ≡ suc (length b)
    space0 : length r.curr ≡ suc (length b)

  next_row-Kept : (i : ℕ) (r : Rows) → Kept i r → Kept (suc i) (next_row a b (suc i) r)
  unfolding next_row alignment
  next_row-Kept i r k = record {
    before =
        λ i' e m h. subst (λ x. nth r.prev m ≡ alignment a b x m) (omega (arith, e)) (k.last m h);
    last =
        fill_row-Holds i (length b) 0 r.prev2 r.prev (set r.curr 0 (suc i)) k.before k.last
          (λ m h. first m h) (omega arith) (omega (arith, k.space0, length-set r.curr 0 (suc i)));
    space2 = k.space1;
    space1 = omega (
      arith,
      k.space0,
      length-set r.curr 0 (suc i),
      length-fill_row a b (suc i) r.prev2 r.prev (length b) 1 (set r.curr 0 (suc i)),
    );
    space0 = k.space2;
  }
    where
      first : Holds (set r.curr 0 (suc i)) (suc i) 1
      first zero h = nth-set_self r.curr 0 (suc i) (omega (arith, k.space0))
      first (suc m) h = absurd (omega (arith, h))

  fill_rows-Kept : (n i : ℕ) (r : Rows) → Kept i r → Kept (n + i) (fill_rows a b n (suc i) r)
  unfolding fill_rows
  fill_rows-Kept zero i r k = subst (λ x. Kept x r) (omega arith) k
  fill_rows-Kept (suc n) i r k =
      subst (λ x. Kept x (fill_rows a b n (suc (suc i)) (next_row a b (suc i) r))) (omega arith)
        (fill_rows-Kept n (suc i) (next_row a b (suc i) r) (next_row-Kept i r k))

  first_rows-Kept : Kept 0 (first_rows (length b))
  unfolding first_rows alignment
  first_rows-Kept =
      let n = length b in
      let zeros : List ℕ = replicate (n + 1) 0 in
      let fits = length-replicate (n + 1) 0 in
      record {
        before = λ i' e m h. absurd (omega (arith, e));
        last = λ m h.
            nth-count_up (n + 1) 0 zeros (λ x y. absurd (omega (arith, y))) (omega (arith, fits)) m
              (omega (arith, h));
        space2 = omega (arith, fits);
        space1 = omega (arith, fits, length-count_up (n + 1) 0 zeros);
        space0 = omega (arith, fits);
      }

  alignment_nil : (i : ℕ) → alignment a b i 0 ≡ i
  unfolding alignment
  alignment_nil zero = refl
  alignment_nil (suc i) = refl

  -- The distance that three reused rows compute is the recursive optimal string alignment distance,
  -- for all labels, the empty ones included.
  pub damerau_levenshtein-alignment : damerau_levenshtein a b ≡ alignment a b (length a) (length b)
  unfolding damerau_levenshtein alignment
  damerau_levenshtein-alignment =
      let k = fill_rows-Kept (length a) 0 (first_rows (length b)) first_rows-Kept in
      let last : nth (Rows.prev (fill_rows a b (length a) 1 (first_rows (length b)))) (length b)
          ≡ alignment a b (length a) (length b) =
        subst
          (λ x.
            nth (Rows.prev (fill_rows a b (length a) 1 (first_rows (length b)))) (length b)
            ≡ alignment a b x (length b))
          (omega arith) (k.last (length b) (omega arith)) in
      elim (Bool-cases (length a == 0)) [
        | inl e ↦ rw e (sym (empty_left (omega (arith, (==_iff (length a) 0).0 e))))
        | inr e ↦ elim (Bool-cases (length b == 0)) [
          | inl f ↦ rw (e, f) (sym (empty_right (omega (arith, (==_iff (length b) 0).0 f))))
          | inr f ↦ rw (e, f) last
        ]
      ]
    where
      empty_left : length a ≡ 0 → alignment a b (length a) (length b) ≡ length b
      empty_left e = rw e refl

      empty_right : length b ≡ 0 → alignment a b (length a) (length b) ≡ length a
      empty_right e = rw e (alignment_nil (length a))
