-- ===== src/QueryLog/Conservation.antt =====
-- internal/dnsengine/querylog_writer.go: no row is lost or written twice.
use phantomcore.Base.{
  ℕ, zero, suc, ◌+◌, ◌≡◌, refl, Bool, none, some, List, [], ◌∷◌, ◌++◌, length, arith, ℤ,
  length-append, get_elem?, if◌then◌else◌, Option-cases, inl, inr,
}
use phantomcore.Outbox.{offer, receive, close, drop_one, empty_outbox}
use phantomcore.QueryLog.{
  Entry, Writer, new_query_log_writer, is_full, submit_to, take_next, without, finish, close_queue,
  Move, submitting, taking, finishing, closing, step, run,
}

-- How many entries pass a test.
abbrev pub count_of : (Entry → Bool) → List Entry → ℕ
count_of p [] = 0
count_of p (e ∷ es) = (if p e then 1 else 0) + count_of p es

-- The entry that a move submits.
abbrev pub offered : Move → List Entry
offered (submitting e) = e ∷ []
offered taking = []
offered (finishing i) = []
offered closing = []

-- The entry that a move submits to a full queue.
abbrev pub lost : Move → Writer → List Entry
lost (submitting e) w = if is_full w then e ∷ [] else []
lost taking w = []
lost (finishing i) w = []
lost closing w = []

abbrev pub submitted : List Move → List Entry
submitted [] = []
submitted (m ∷ ms) = offered m ++ submitted ms

abbrev pub refused : List Move → Writer → List Entry
refused [] w = []
refused (m ∷ ms) w = elim (step m w) [ none ↦ [] | some w' ↦ lost m w ++ refused ms w' ]

refused_cons :
    (m : Move) (ms : List Move) (w v : Writer)
    → step m w ≡ some v
    → refused (m ∷ ms) w ≡ lost m w ++ refused ms v
refused_cons m ms w v e = rw (refused, e) refl

module _ (p : Entry → Bool) where
  count_of_append : (xs ys : List Entry) → count_of p (xs ++ ys) ≡ count_of p xs + count_of p ys
  count_of_append [] ys = omega arith
  count_of_append (x ∷ xs) ys = omega (arith, count_of_append xs ys)

  count_of-without :
      (i : ℕ) (xs : List Entry) (e : Entry)
      → get_elem? xs i ≡ some e
      → count_of p (without i xs) + (if p e then 1 else 0) ≡ count_of p xs
  unfolding without
  count_of-without i [] e h = cc
  count_of-without zero (x ∷ xs) e h = ground (arith, h)
  count_of-without (suc i) (x ∷ xs) e h = omega (arith, count_of-without i xs e h)

  -- What is in the log, in the hands of workers and in the queue.
  abbrev pub held : Writer → ℕ
  held w = count_of p w.saves + count_of p w.running + count_of p w.outbox.waiting

  submit_to-held :
      (e : Entry) (w w' : Writer)
      → submit_to e w ≡ some w'
      → held w' + count_of p (lost (submitting e) w) ≡ held w + count_of p (e ∷ [])
  unfolding submit_to offer drop_one
  submit_to-held e w w' h =
      let grown = count_of_append w.outbox.waiting (e ∷ []) in ground (arith, h, grown)

  take_next-held : (w w' : Writer) → take_next w ≡ some w' → held w' ≡ held w
  unfolding take_next receive
  take_next-held w w' h = ground (arith, h)

  finish-held : (i : ℕ) (w w' : Writer) → finish i w ≡ some w' → held w' ≡ held w
  unfolding finish
  finish-held i w w' h = elim (Option-cases (get_elem? w.running i)) [
    | inl e ↦ absurd (ground (arith, h, e))
    | inr (e, found) ↦
        let same = count_of-without i w.running e found in ground (arith, h, found, same)
  ]

  step-held :
      (m : Move) (w w' : Writer)
      → step m w ≡ some w'
      → held w' + count_of p (lost m w) ≡ held w + count_of p (offered m)
  unfolding step close_queue close
  step-held (submitting e) w w' h = submit_to-held e w w' h
  step-held taking w w' h = omega (arith, take_next-held w w' h)
  step-held (finishing i) w w' h = omega (arith, finish-held i w w' h)
  step-held closing w w' h = ground (arith, h)

  run-held :
      (ms : List Move) (w w' : Writer)
      → run ms w ≡ some w'
      → held w' + count_of p (refused ms w) ≡ held w + count_of p (submitted ms)
  unfolding run
  run-held [] w w' h = ground (arith, h)
  run-held (m ∷ ms) w w' h = elim (Option-cases (step m w)) [
    | inl e ↦ absurd (ground (arith, h, e))
    | inr (v, e) ↦
        let one = step-held m w v e in
        let more = run-held ms v w' (rw (run, e) at h) in
        let out = count_of_append (offered m) (submitted ms) in
        let lose = count_of_append (lost m w) (refused ms v) in
        rw (refused_cons m ms w v e) (omega (arith, one, more, out, lose))
  ]

step-dropped :
    (m : Move) (w w' : Writer)
    → step m w ≡ some w'
    → w'.outbox.dropped ≡ w.outbox.dropped + length (lost m w)
unfolding step submit_to take_next finish close_queue offer drop_one receive close
step-dropped (submitting e) w w' h = ground (arith, h)
step-dropped taking w w' h = ground (arith, h)
step-dropped (finishing i) w w' h = ground (arith, h)
step-dropped closing w w' h = ground (arith, h)

run-dropped :
    (ms : List Move) (w w' : Writer)
    → run ms w ≡ some w'
    → w'.outbox.dropped ≡ w.outbox.dropped + length (refused ms w)
unfolding run
run-dropped [] w w' h = ground (arith, h)
run-dropped (m ∷ ms) w w' h = elim (Option-cases (step m w)) [
  | inl e ↦ absurd (ground (arith, h, e))
  | inr (v, e) ↦
      let one = step-dropped m w v e in
      let more = run-dropped ms v w' (rw (run, e) at h) in
      let lose = length-append (lost m w) (refused ms v) in
      rw (refused_cons m ms w v e) (omega (arith, one, more, lose))
]

-- In any interleaving of queries, workers and Close, from a new writer and as long as nothing is
-- submitted after Close: of the submitted entries, counted by any test, each is in the log, with a
-- worker, in the queue, or was refused by a full queue, and exactly one of these; and the counter of
-- drops is the number of the refused.
pub run-conserves :
    (stats metrics : Bool) (size workers : ℤ) (ms : List Move) (w : Writer) (p : Entry → Bool)
    → run ms (new_query_log_writer stats metrics size workers) ≡ some w
    → (count_of p w.saves
          + count_of p w.running
          + count_of p w.outbox.waiting
          + count_of p (refused ms (new_query_log_writer stats metrics size workers))
        ≡ count_of p (submitted ms))
      × (w.outbox.dropped ≡ length (refused ms (new_query_log_writer stats metrics size workers)))
unfolding new_query_log_writer empty_outbox
run-conserves stats metrics size workers ms w p h =
    let start = new_query_log_writer stats metrics size workers in
    (omega (arith, run-held p ms start w h), omega (arith, run-dropped ms start w h))
