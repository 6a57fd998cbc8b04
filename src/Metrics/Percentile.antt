-- ===== src/Metrics/Percentile.antt =====
-- internal/metrics/query_metrics.go and buckets.go: what EstimatePercentile and the buckets answer.
use phantomcore.Base.{
  ℕ, suc, ◌+◌, ◌≤◌, ◌<◌, ◌≡◌, refl, ap, ◌∙◌, List, [], ◌∷◌, length, take, leb, ◌==◌, arith,
  Bool-cases, inl, inr, if◌then◌else◌, leb→le, ◌⊎◌,
}
use phantomcore.Metrics.{bucket_upper_bound, percentile_from, estimate_percentile, sum}

-- The first bucket at which the count reaches the target.
pub record Reaches (target : ℕ) (buckets : List ℕ) (b : ℕ) : Type 0 where
  pub in_range : b < length buckets
  pub before : sum (take b buckets) < target
  pub after : target ≤ sum (take (suc b) buckets)

percentile_from-Reaches :
    (target cumulative i : ℕ) (cs : List ℕ)
    → cumulative < target
    → target ≤ cumulative + sum cs
    → (j : ℕ) × (percentile_from target cumulative i cs ≡ bucket_upper_bound (i + j))
      × (j < length cs)
      × (cumulative + sum (take j cs) < target)
      × (target ≤ cumulative + sum (take (suc j) cs))
unfolding percentile_from
percentile_from-Reaches target cumulative i [] below reach = absurd (omega (arith, below, reach))
percentile_from-Reaches target cumulative i (c ∷ cs) below reach =
    elim (Bool-cases (leb target (cumulative + c))) [
      | inl here ↦
          let le = leb→le target (cumulative + c) here in
          (
            0,
            rw here (ap bucket_upper_bound (omega arith)),
            omega arith,
            omega (arith, below),
            omega (arith, le),
          )
      | inr later ↦
          let more : cumulative + c < target = ground (arith, later) in
          let (j, e, l, b, a) =
            percentile_from-Reaches target (cumulative + c) (suc i) cs more
              (omega (arith, reach)) in
          (
            suc j,
            rw later (e ∙ ap bucket_upper_bound (omega arith)),
            omega (arith, l),
            omega (arith, b),
            omega (arith, a),
          )
    ]

-- Whatever number of queries Go computes for the share, if it is not more than there are:
-- EstimatePercentile answers the upper bound of the first bucket up to which that number, and one at
-- least, is reached, and 0 when there are no queries.
pub estimate_percentile-Reaches :
    (buckets : List ℕ) (share : ℕ → ℕ)
    → share (sum buckets) ≤ sum buckets
    → (sum buckets ≡ 0) × (estimate_percentile share buckets ≡ 0)
      ⊎ ((b : ℕ) × (estimate_percentile share buckets ≡ bucket_upper_bound b)
          × Reaches (if share (sum buckets) == 0 then 1 else share (sum buckets)) buckets b)
unfolding estimate_percentile
estimate_percentile-Reaches buckets share h =
    let total = sum buckets in
    let target = if share total == 0 then 1 else share total in
    elim (Bool-cases (total == 0)) [
      | inl e ↦ inl (ground (arith, e), rw e refl)
      | inr e ↦
          let start : 0 < target = ground arith in
          let reach : target ≤ 0 + total = ground (arith, h, e) in
          let (j, q, l, b, a) = percentile_from-Reaches target 0 0 buckets start reach in
          inr (
            j,
            rw e (q ∙ ap bucket_upper_bound (omega arith)),
            record { in_range = l; before = omega (arith, b); after = omega (arith, a) },
          )
    ]
