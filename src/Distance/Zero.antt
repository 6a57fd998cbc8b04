-- ===== src/Distance/Zero.antt =====
-- internal/threat/detector.go: the distance is 0 for equal labels only.
use phantomcore.Base.{
  ℕ, zero, suc, ◌+◌, ◌≤◌, ◌<◌, ◌≡◌, ◌≢◌, refl, ap, [], ◌∷◌, length, Text, arith, if◌then◌else◌,
  Bool, ℕ_discrete, subst, ◌∙◌, sym,
}
use phantomcore.Distance.{nth, damerau_levenshtein}
use phantomcore.Distance.Alignment.{least, edited, differ, alignment}
use phantomcore.Distance.Table.{damerau_levenshtein-alignment}

edited_zero : (u l d c : ℕ) → edited u l d c ≡ 0 → d + c ≡ 0
unfolding edited least
edited_zero u l d c h = ground arith

least_zero : (swap : Bool) (t p : ℕ) → (if swap then least (t + 1) p else p) ≡ 0 → p ≡ 0
unfolding least
least_zero swap t p h = ground arith

nth_ext : (a b : Text) → length a ≡ length b → ((m : ℕ) → m < length a → nth a m ≡ nth b m) → a ≡ b
nth_ext [] [] e h = refl
nth_ext [] (y ∷ b) e h = absurd (omega (arith, e))
nth_ext (x ∷ a) [] e h = absurd (omega (arith, e))
nth_ext (x ∷ a) (y ∷ b) e h =
    let first = h 0 (omega arith) in
    let rest = nth_ext a b (omega (arith, e)) (λ m k. h (suc m) (omega (arith, k))) in cc

module _ (a b : Text) where
  alignment_diagonal :
      (i j : ℕ) → alignment a b (suc i) (suc j) ≡ 0 → alignment a b i j + differ a b i j ≡ 0
  unfolding alignment
  alignment_diagonal zero j h = edited_zero _ _ j (differ a b zero j) h
  alignment_diagonal (suc i) zero h = edited_zero _ _ (suc i) (differ a b (suc i) zero) h
  alignment_diagonal (suc i) (suc j) h =
      edited_zero _ _ (alignment a b (suc i) (suc j)) (differ a b (suc i) (suc j))
        (least_zero _ (alignment a b i j) _ h)

  differ_zero : (i j : ℕ) → differ a b i j ≡ 0 → nth a i ≡ nth b j
  unfolding differ
  differ_zero i j h = ground arith

  alignment_zero :
      (i j : ℕ) → alignment a b i j ≡ 0 → (i ≡ j) × ((m : ℕ) → m < i → nth a m ≡ nth b m)
  unfolding alignment
  alignment_zero zero j h = (sym h, λ m k. absurd (omega (arith, k)))
  alignment_zero (suc i) zero h = absurd (omega (arith, h))
  alignment_zero (suc i) (suc j) h =
      let both = alignment_diagonal i j h in
      let (same, before) = alignment_zero i j (omega (arith, both)) in
      let last = differ_zero i j (omega (arith, both)) in
      (
        omega (arith, same),
        λ m k. elim (ℕ_discrete m i) [
          | yes e ↦ subst (λ x. nth a x ≡ nth b x) (sym e) (last ∙ ap (nth b) (sym same))
          | no e ↦ before m (omega (arith, k, e))
        ],
      )

  pub damerau_levenshtein-pos : a ≢ b → 1 ≤ damerau_levenshtein a b
  damerau_levenshtein-pos h = elim (ℕ_discrete (damerau_levenshtein a b) 0) [
    | yes e ↦
        let (same, before) =
          alignment_zero (length a) (length b) (sym (damerau_levenshtein-alignment a b) ∙ e) in
        absurd (h (nth_ext a b same before))
    | no e ↦ omega (arith, e)
  ]
