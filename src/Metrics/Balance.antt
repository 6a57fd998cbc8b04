-- ===== src/Metrics/Balance.antt =====
-- internal/metrics/query_metrics.go: the counters agree with each other.
use phantomcore.Base.{
  ℕ, zero, suc, ◌+◌, ◌-◌, ◌%◌, ◌≤◌, ◌<◌, ◌≡◌, refl, sym, ◌∙◌, Bool, some, List, [], ◌∷◌, length,
  get_elem?, set, replicate, ltb, arith, All, Bool-cases, Option-cases, subst, inl, inr,
}
use native.Mathlib.Nat.{mod-lt}
use phantomcore.Metrics.{
  bucket_count, bucket_for_latency, Slice, QueryMetrics, empty_slice, new_query_metrics,
  current_slice, update_current, bump, count_query, record_query, record_blocked, add_all,
  add_slices, aggregate, sum,
}

-- Every query of a slice is in one bucket, and the failed ones are among them.
pub record IsBalanced (s : Slice) : Type 0 where
  pub buckets : length s.latency ≡ bucket_count
  pub all : sum s.latency ≡ s.total
  pub some_fail : s.errors ≤ s.total

pub record IsValid (m : QueryMetrics) : Type 0 where
  pub in_range : m.current < length m.slices
  pub balanced : All IsBalanced m.slices

empty_slice-IsBalanced : (now : ℕ) → IsBalanced (empty_slice now)
unfolding empty_slice
empty_slice-IsBalanced now = record { buckets = refl; all = refl; some_fail = omega arith }

length-set : (xs : List Slice) (i : ℕ) (v : Slice) → length (set xs i v) ≡ length xs
length-set [] i v = refl
length-set (x ∷ xs) zero v = refl
length-set (x ∷ xs) (suc i) v = omega (arith, length-set xs i v)

set-IsBalanced :
    (xs : List Slice) (i : ℕ) (v : Slice)
    → All IsBalanced xs
    → IsBalanced v
    → All IsBalanced (set xs i v)
set-IsBalanced [] i v h k = tt
set-IsBalanced (x ∷ xs) zero v h k = (k, h.1)
set-IsBalanced (x ∷ xs) (suc i) v h k = (h.0, set-IsBalanced xs i v h.1 k)

get-IsBalanced :
    (xs : List Slice) (i : ℕ) (v : Slice)
    → All IsBalanced xs
    → get_elem? xs i ≡ some v
    → IsBalanced v
get-IsBalanced [] i v h e = absurd (ground (arith, e))
get-IsBalanced (x ∷ xs) zero v h e = subst IsBalanced (ground (arith, e)) h.0
get-IsBalanced (x ∷ xs) (suc i) v h e = get-IsBalanced xs i v h.1 e

replicate-IsBalanced : (n : ℕ) (v : Slice) → IsBalanced v → All IsBalanced (replicate n v)
replicate-IsBalanced zero v h = tt
replicate-IsBalanced (suc n) v h = (h, replicate-IsBalanced n v h)

-- A new window is valid.
pub new_query_metrics-IsValid : (now : ℕ) → IsValid (new_query_metrics now)
unfolding new_query_metrics
new_query_metrics-IsValid now = record {
  in_range = omega arith;
  balanced = replicate-IsBalanced 10 (empty_slice now) (empty_slice-IsBalanced now);
}

current_slice-IsValid : (now : ℕ) (m : QueryMetrics) → IsValid m → IsValid (current_slice now m)
unfolding current_slice
current_slice-IsValid now m v =
    let next = (m.current + 1) % length m.slices in
    let inside : next < length m.slices = mod-lt (m.current + 1) (omega (arith, v.in_range)) in
    elim (Option-cases (get_elem? m.slices m.current)) [
      | inl e ↦ rw (current_slice, e) v
      | inr (s, e) ↦ elim (Bool-cases (ltb now (s.start_unix + m.slice_size))) [
        | inl early ↦ rw (current_slice, e, early) v
        | inr late ↦
            rw (current_slice, e, late)
              (record {
                in_range = omega (arith, inside, length-set m.slices next (empty_slice now));
                balanced =
                    set-IsBalanced m.slices next (empty_slice now) v.balanced
                      (empty_slice-IsBalanced now);
              })
      ]
    ]

sum-bump :
    (b : ℕ) (ns : List ℕ)
    → b < length ns
    → (sum (bump b ns) ≡ sum ns + 1) × (length (bump b ns) ≡ length ns)
unfolding bump
sum-bump b [] h = absurd (omega (arith, h))
sum-bump zero (n ∷ ns) h = (omega arith, refl)
sum-bump (suc b) (n ∷ ns) h =
    let (s, l) = sum-bump b ns (omega (arith, h)) in (omega (arith, s), omega (arith, l))

bucket_for_latency-lt : (d : ℕ) → bucket_for_latency d < bucket_count
unfolding bucket_for_latency
bucket_for_latency-lt d = ground arith

count_query-IsBalanced :
    (elapsed : ℕ) (success : Bool) (s : Slice)
    → IsBalanced s
    → IsBalanced (count_query elapsed success s)
unfolding count_query
count_query-IsBalanced elapsed success s k =
    let (a, b) =
      sum-bump (bucket_for_latency elapsed) s.latency
        (omega (arith, bucket_for_latency-lt elapsed, k.buckets)) in
    record {
      buckets = b ∙ k.buckets;
      all = omega (arith, a, k.all);
      some_fail = let f = k.some_fail in ground (arith, f);
    }

update_current-IsValid :
    (f : Slice → Slice) (m : QueryMetrics)
    → ((s : Slice) → IsBalanced s → IsBalanced (f s))
    → IsValid m
    → IsValid (update_current f m)
unfolding update_current
update_current-IsValid f m h v = elim (Option-cases (get_elem? m.slices m.current)) [
  | inl e ↦ rw (update_current, e) v
  | inr (s, e) ↦
      rw (update_current, e)
        (record {
          in_range = omega (arith, v.in_range, length-set m.slices m.current (f s));
          balanced =
              set-IsBalanced m.slices m.current (f s) v.balanced
                (h s (get-IsBalanced m.slices m.current s v.balanced e));
        })
]

-- Record and RecordBlocked keep the index of the slices in range and every slice balanced, whatever
-- the time, the latency and the outcome.
pub record_query-IsValid :
    (now elapsed : ℕ) (success : Bool) (m : QueryMetrics)
    → IsValid m
    → IsValid (record_query now elapsed success m) × IsValid (record_blocked now m)
unfolding record_query record_blocked
record_query-IsValid now elapsed success m v =
    let ready = current_slice-IsValid now m v in
    (
      update_current-IsValid (count_query elapsed success) (current_slice now m)
          (count_query-IsBalanced elapsed success) ready,
      update_current-IsValid _ (current_slice now m)
          (λ s k. record { buckets = k.buckets; all = k.all; some_fail = k.some_fail }) ready,
    )

sum-add_all :
    (xs ys : List ℕ)
    → length xs ≡ length ys
    → (sum (add_all xs ys) ≡ sum xs + sum ys) × (length (add_all xs ys) ≡ length xs)
unfolding add_all
sum-add_all [] [] h = (omega arith, refl)
sum-add_all [] (y ∷ ys) h = absurd (omega (arith, h))
sum-add_all (x ∷ xs) [] h = absurd (omega (arith, h))
sum-add_all (x ∷ xs) (y ∷ ys) h =
    let (a, b) = sum-add_all xs ys (omega (arith, h)) in (omega (arith, a), omega (arith, b))

add_slices_lem :
    (cutoff : ℕ) (slices : List Slice)
    → All IsBalanced slices
    → (sum (add_slices cutoff slices).buckets ≡ (add_slices cutoff slices).total)
      × (length (add_slices cutoff slices).buckets ≡ bucket_count)
      × ((add_slices cutoff slices).errors ≤ (add_slices cutoff slices).total)
unfolding add_slices
add_slices_lem cutoff [] h = (refl, refl, omega arith)
add_slices_lem cutoff (s ∷ slices) h =
    let (a, b, c) = add_slices_lem cutoff slices h.1 in
    let k = h.0 in
    let (d, e) = sum-add_all (add_slices cutoff slices).buckets s.latency (b ∙ sym k.buckets) in
    elim (Bool-cases (ltb s.start_unix cutoff)) [
      | inl old ↦ rw old (a, b, c)
      | inr new ↦
          rw new (omega (arith, a, d, k.all), omega (arith, e, b), omega (arith, c, k.some_fail))
    ]

-- What Aggregate reports of valid metrics at any time agrees with itself: the buckets add up to the
-- queries, and no more queries failed than there were.
pub aggregate_lem :
    (now : ℕ) (m : QueryMetrics)
    → IsValid m
    → (sum (aggregate now m).buckets ≡ (aggregate now m).total)
      × (length (aggregate now m).buckets ≡ bucket_count)
      × ((aggregate now m).errors ≤ (aggregate now m).total)
unfolding aggregate
aggregate_lem now m v = add_slices_lem (now - m.window_size) m.slices v.balanced
