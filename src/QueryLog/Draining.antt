-- ===== src/QueryLog/Draining.antt =====
-- internal/dnsengine/querylog_writer.go: Close returns, with nothing left in the queue.
use phantomcore.Base.{
  true, ◌∙◌, ℕ, zero, suc, ◌+◌, ◌*◌, ◌<◌, ◌≡◌, refl, none, some, List, [], ◌∷◌, length, arith,
  get_elem?, Option-cases, inl, inr, ◌⊎◌,
}
use phantomcore.Outbox.{Outbox, receive, close}
use phantomcore.QueryLog.{
  close_queue, has_returned, Entry, Writer, take_next, without, finish, Move, submitting, taking,
  finishing, closing, step, run,
}

-- The moves of workers.
abbrev pub IsWork : Move → Type 0
IsWork (submitting e) = ⊥
IsWork taking = Unit
IsWork (finishing i) = Unit
IsWork closing = ⊥

abbrev pub AllWork : List Move → Type 0
AllWork [] = Unit
AllWork (m ∷ ms) = IsWork m × AllWork ms

-- How many moves of workers are left.
abbrev pub pending : Writer → ℕ
pending w = 2 * length w.outbox.waiting + length w.running

length-without :
    {A : Type 0} (i : ℕ) (xs : List A) (x : A)
    → get_elem? xs i ≡ some x
    → suc (length (without i xs)) ≡ length xs
unfolding without
length-without i [] x h = cc
length-without zero (y ∷ xs) x h = refl
length-without (suc i) (y ∷ xs) x h = omega (arith, length-without i xs x h)

step-pending :
    (m : Move) (w w' : Writer)
    → IsWork m
    → step m w ≡ some w'
    → (suc (pending w') ≡ pending w)
      × (w'.workers ≡ w.workers)
      × (w'.outbox.closed ≡ w.outbox.closed)
unfolding step take_next finish receive
step-pending (submitting e) w w' k h = absurd k
step-pending taking w w' k h = ground (arith, h)
step-pending (finishing i) w w' k h = elim (Option-cases (get_elem? w.running i)) [
  | inl e ↦ absurd (ground (arith, h, e))
  | inr (e, found) ↦ let less = length-without i w.running e found in ground (arith, h, found, less)
]
step-pending closing w w' k h = absurd k

run-pending :
    (ms : List Move) (w w' : Writer)
    → AllWork ms
    → run ms w ≡ some w'
    → (length ms + pending w' ≡ pending w)
      × (w'.workers ≡ w.workers)
      × (w'.outbox.closed ≡ w.outbox.closed)
unfolding run
run-pending [] w w' k h = ground (arith, h)
run-pending (m ∷ ms) w w' k h = elim (Option-cases (step m w)) [
  | inl e ↦ absurd (ground (arith, h, e))
  | inr (v, e) ↦
      let one = step-pending m w v k.0 e in
      let more = run-pending ms v w' k.1 (rw (run, e) at h) in
      (omega (arith, one.0, more.0), omega (arith, one.1, more.1), more.2 ∙ one.2)
]

empty_lem : (xs : List Entry) → get_elem? xs 0 ≡ none → length xs ≡ 0
empty_lem [] h = refl
empty_lem (x ∷ xs) h = cc

nothing_running : (w : Writer) → finish 0 w ≡ none → length w.running ≡ 0
unfolding finish
nothing_running w h = elim (Option-cases (get_elem? w.running 0)) [
  | inl e ↦ empty_lem w.running e
  | inr (x, e) ↦ absurd (ground (arith, h, e))
]

nothing_received : (o : Outbox Entry) → receive o ≡ none → length o.waiting ≡ 0
unfolding receive
nothing_received o h = ground (arith, h)

nothing_waiting :
    (w : Writer)
    → 0 < w.workers
    → length w.running ≡ 0
    → take_next w ≡ none
    → length w.outbox.waiting ≡ 0
unfolding take_next
nothing_waiting w some_worker idle h = elim (Option-cases (receive w.outbox)) [
  | inl e ↦ nothing_received w.outbox e
  | inr (x, e) ↦ absurd (ground (arith, h, e, idle, some_worker))
]

-- with a worker, either nothing is left or a worker can move
progress :
    (w : Writer)
    → 0 < w.workers
    → (pending w ≡ 0) ⊎ ((m : Move) × IsWork m × ((w' : Writer) × (step m w ≡ some w')))
unfolding step
progress w some_worker = elim (Option-cases (finish 0 w)) [
  | inl idle ↦ elim (Option-cases (take_next w)) [
    | inl done ↦
        let none_running = nothing_running w idle in
        inl (omega (arith, none_running, nothing_waiting w some_worker none_running done))
    | inr (v, e) ↦ inr (taking, tt, (v, e))
  ]
  | inr (v, e) ↦ inr (finishing 0, tt, (v, e))
]

-- After Close has closed the queue, and in any order of the workers' moves: each move leaves exactly
-- one fewer of the finite number of moves that the waiting and running entries need, and either every
-- worker's loop has ended, so that Close returns, or some worker can make a move.
pub run-drains :
    (ms : List Move) (w w' : Writer)
    → 0 < w.workers
    → AllWork ms
    → run ms (close_queue w) ≡ some w'
    → (length ms + pending w' ≡ pending w)
      × ((has_returned w' ≡ true) ⊎ ((m : Move) × IsWork m × ((v : Writer) × (step m w' ≡ some v))))
unfolding close_queue close has_returned
run-drains ms w w' some_worker k h =
    let (left, same, shut) = run-pending ms (close_queue w) w' k h in
    (
      left,
      elim (progress w' (omega (arith, same, some_worker))) [
        | inl done ↦ inl (ground (arith, done, shut))
        | inr m ↦ inr m
      ],
    )
