-- ===== src/Metrics.antt =====
-- internal/metrics/buckets.go and query_metrics.go: latency buckets and the rolling window of counters.
-- A time is a Unix time in seconds, a latency a number of nanoseconds; the atomic counters are updated
-- one call at a time, and their 64 bits are not exceeded.
pub mod Balance
pub mod Percentile
use phantomcore.Base.{
  ℕ, zero, suc, ◌+◌, ◌-◌, ◌*◌, ◌/◌, ◌%◌, Bool, true, false, Option, none, some, List, [], ◌∷◌,
  length, get_elem?, set, replicate, ltb, leb, ◌==◌, if◌then◌else◌,
}

abbrev pub ms : ℕ
ms = 1000000

-- `BucketCount`
abbrev pub bucket_count : ℕ
bucket_count = 8

-- `bucketUpperBounds`
abbrev pub bucket_upper_bounds : List ℕ
bucket_upper_bounds =
    5 * ms ∷ 10 * ms ∷ 20 * ms ∷ 50 * ms ∷ 100 * ms ∷ 250 * ms ∷ 500 * ms ∷ 5000 * ms ∷ []

-- `BucketForLatency`
unfoldable pub bucket_for_latency : ℕ → ℕ
bucket_for_latency d =
    if ltb d (5 * ms)
    then 0
    else if ltb d (10 * ms)
    then 1
    else if ltb d (20 * ms)
    then 2
    else if ltb d (50 * ms)
    then 3
    else if ltb d (100 * ms)
    then 4
    else if ltb d (250 * ms)
    then 5
    else if ltb d (500 * ms)
    then 6
    else 7

-- `BucketUpperBound`
unfoldable pub bucket_upper_bound : ℕ → ℕ
bucket_upper_bound b = elim (get_elem? bucket_upper_bounds b) [ none ↦ 5000 * ms | some d ↦ d ]

-- `metricsSlice`
pub record Slice : Type 0 where
  pub start_unix : ℕ
  pub total : ℕ
  pub errors : ℕ
  pub blocked : ℕ
  pub latency : List ℕ

-- `QueryMetrics`; the window and the slices in seconds.
pub record QueryMetrics : Type 0 where
  pub window_size : ℕ
  pub slice_size : ℕ
  pub slices : List Slice
  pub current : ℕ
  pub query_log_dropped : ℕ

-- `metricsSlice{startUnix: now}`
unfoldable pub empty_slice : ℕ → Slice
empty_slice now = record {
  start_unix = now;
  total = 0;
  errors = 0;
  blocked = 0;
  latency = replicate bucket_count 0;
}

-- `NewQueryMetrics`: five minutes in slices of thirty seconds
unfoldable pub new_query_metrics : ℕ → QueryMetrics
unfolding empty_slice
new_query_metrics now = record {
  window_size = 300;
  slice_size = 30;
  slices = replicate (300 / 30) (empty_slice now);
  current = 0;
  query_log_dropped = 0;
}

-- `currentSlice`: the metrics after it, whose `current` is the slice that it returns. An index out of
-- range, which Go refuses, changes nothing.
unfoldable pub current_slice : ℕ → QueryMetrics → QueryMetrics
unfolding empty_slice
current_slice now m =
    let next = (m.current + 1) % length m.slices in
    elim (get_elem? m.slices m.current) [
      | none ↦ m
      | some s ↦
          if ltb now (s.start_unix + m.slice_size)
          then m
          else record m { slices = set m.slices next (empty_slice now); current = next }
    ]

-- The slice at the current index, changed.
unfoldable pub update_current : (Slice → Slice) → QueryMetrics → QueryMetrics
update_current f m = elim (get_elem? m.slices m.current) [
  | none ↦ m
  | some s ↦ record m { slices = set m.slices m.current (f s) }
]

unfoldable pub bump : ℕ → List ℕ → List ℕ
bump b [] = []
bump zero (n ∷ ns) = (n + 1) ∷ ns
bump (suc b) (n ∷ ns) = n ∷ bump b ns

unfoldable pub count_query : ℕ → Bool → Slice → Slice
unfolding bump bucket_for_latency
count_query elapsed success s = record s {
  total = s.total + 1;
  errors = if success then s.errors else s.errors + 1;
  latency = bump (bucket_for_latency elapsed) s.latency;
}

-- `Record`
unfoldable pub record_query : ℕ → ℕ → Bool → QueryMetrics → QueryMetrics
unfolding current_slice update_current count_query
record_query now elapsed success m =
    update_current (count_query elapsed success) (current_slice now m)

-- `RecordBlocked`
unfoldable pub record_blocked : ℕ → QueryMetrics → QueryMetrics
unfolding current_slice update_current
record_blocked now m =
    update_current (λ s. record s { blocked = s.blocked + 1 }) (current_slice now m)

-- `RecordQueryLogDropped`
unfoldable pub record_query_log_dropped : QueryMetrics → QueryMetrics
record_query_log_dropped m = record m { query_log_dropped = m.query_log_dropped + 1 }

-- `AggregatedMetrics`
pub record Aggregated : Type 0 where
  pub total : ℕ
  pub errors : ℕ
  pub blocked : ℕ
  pub buckets : List ℕ

unfoldable pub add_all : List ℕ → List ℕ → List ℕ
add_all [] ns = []
add_all (a ∷ counts) [] = a ∷ counts
add_all (a ∷ counts) (b ∷ bs) = (a + b) ∷ add_all counts bs

-- The loop of `Aggregate`; a slice that starts before the cutoff is left out.
unfoldable pub add_slices : ℕ → List Slice → Aggregated
unfolding add_all
add_slices cutoff [] = record {
  total = 0;
  errors = 0;
  blocked = 0;
  buckets = replicate bucket_count 0;
}
add_slices cutoff (s ∷ slices) =
    let out = add_slices cutoff slices in
    if ltb s.start_unix cutoff then out else record {
      total = out.total + s.total;
      errors = out.errors + s.errors;
      blocked = out.blocked + s.blocked;
      buckets = add_all out.buckets s.latency;
    }

-- `Aggregate`, without the count of drops, which it copies. The cutoff is not negative after 1970.
unfoldable pub aggregate : ℕ → QueryMetrics → Aggregated
unfolding add_slices
aggregate now m = add_slices (now - m.window_size) m.slices

abbrev pub sum : List ℕ → ℕ
sum [] = 0
sum (n ∷ ns) = n + sum ns

-- The loop of `EstimatePercentile` from the bucket `i` on.
unfoldable pub percentile_from : ℕ → ℕ → ℕ → List ℕ → ℕ
unfolding bucket_upper_bound
percentile_from target cumulative i [] = bucket_upper_bound 7
percentile_from target cumulative i (c ∷ cs) =
    let rest = percentile_from target (cumulative + c) (suc i) cs in
    if leb target (cumulative + c) then bucket_upper_bound i else rest

-- `EstimatePercentile`; `share` is `math.Ceil(float64(total) * p)` for its percentile, which is in
-- floating point.
unfoldable pub estimate_percentile : (ℕ → ℕ) → List ℕ → ℕ
unfolding percentile_from
estimate_percentile share buckets =
    let total = sum buckets in
    let target = share total in
    if total == 0 then 0 else percentile_from (if target == 0 then 1 else target) 0 0 buckets
