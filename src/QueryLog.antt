-- ===== src/QueryLog.antt =====
-- internal/dnsengine/querylog_writer.go: the query log, written by a pool of workers from a bounded
-- queue. A move is one atomic step of a query, of a worker or of Close, and a run any order of moves.
pub mod Conservation
pub mod Draining
use phantomcore.Base.{
  ◌&&◌, ◌==◌, ℕ, zero, suc, ◌+◌, ◌*◌, Bool, true, false, Option, none, some, List, [], ◌∷◌, ◌++◌,
  length, leb, get_elem?, Text, ℤ, pos, negsuc, ltb, if◌then◌else◌,
}
use phantomcore.Dns.State.{Event}
use phantomcore.Outbox.{Outbox, empty_outbox, offer, receive, close}

-- `queryLogEntry`; the reason of a block is a column of the row.
pub record Entry : Type 0 where
  pub query : Event
  pub block_reason : Text
  pub stats_action : Text

-- `queryLogWriter`: `running` are the entries in the hands of workers; `saves` and `increments` are
-- the calls of the repositories, latest first; their errors are only logged.
pub record Writer : Type 0 where
  pub outbox : Outbox Entry
  pub workers : ℕ
  pub running : List Entry
  pub has_statistics : Bool
  pub has_metrics : Bool
  pub metric_drops : ℕ
  pub saves : List Entry
  pub increments : List Text

abbrev pub default_query_log_buffer_size : ℕ
default_query_log_buffer_size = 1024

abbrev pub default_query_log_workers : ℕ
default_query_log_workers = 2

-- `if n <= 0 { n = default }`
unfoldable pub or_default : ℤ → ℕ → ℕ
or_default (pos zero) default = default
or_default (pos (suc n)) default = suc n
or_default (negsuc n) default = default

-- `newQueryLogWriter`
unfoldable pub new_query_log_writer :
    (has_statistics has_metrics : Bool) (buffer_size workers : ℤ) → Writer
unfolding or_default empty_outbox
new_query_log_writer has_statistics has_metrics buffer_size workers = record {
  outbox = empty_outbox (or_default buffer_size default_query_log_buffer_size);
  workers = or_default workers default_query_log_workers;
  running = [];
  has_statistics = has_statistics;
  has_metrics = has_metrics;
  metric_drops = 0;
  saves = [];
  increments = [];
}

-- Whether the queue is full, so that the next row is dropped.
abbrev pub is_full : Writer → Bool
is_full w = leb w.outbox.capacity (length w.outbox.waiting)

-- `Submit` on a writer; `none` is the panic of a send after Close.
unfoldable pub submit_to : Entry → Writer → Option Writer
unfolding offer
submit_to e w = elim (offer e w.outbox) [
  | none ↦ none
  | some o ↦ some (record w {
    outbox = o;
    metric_drops =
        if is_full w
        then if w.has_metrics then w.metric_drops + 1 else w.metric_drops
        else w.metric_drops;
  })
]

-- `Submit`, on a receiver that may be nil
unfoldable pub submit : Entry → Option Writer → Option (Option Writer)
unfolding submit_to
submit e none = some none
submit e (some w) = elim (submit_to e w) [ none ↦ none | some w' ↦ some (some w') ]

-- `Dropped`
unfoldable pub dropped : Option Writer → ℕ
dropped none = 0
dropped (some w) = w.outbox.dropped

-- An idle worker receives an entry in the loop of `run`.
unfoldable pub take_next : Writer → Option Writer
unfolding receive
take_next w = if leb w.workers (length w.running) then none else elim (receive w.outbox) [
  | none ↦ none
  | some (e, o) ↦ some (record w { outbox = o; running = e ∷ w.running })
]

-- All but the i-th.
unfoldable pub without : {A : Type 0} → ℕ → List A → List A
without i [] = []
without zero (x ∷ xs) = xs
without (suc i) (x ∷ xs) = x ∷ without i xs

-- The body of the loop of `run`, for the i-th entry in the hands of workers.
unfoldable pub finish : ℕ → Writer → Option Writer
unfolding without
finish i w = elim (get_elem? w.running i) [
  | none ↦ none
  | some e ↦ some (record w {
    running = without i w.running;
    saves = e ∷ w.saves;
    increments = if w.has_statistics then e.stats_action ∷ w.increments else w.increments;
  })
]

-- The first half of `Close`: `closeOnce` makes a second call do nothing.
unfoldable pub close_queue : Writer → Writer
unfolding close
close_queue w = record w { outbox = close w.outbox }

-- The rest of `Close`: `wg.Wait` returns when the loop of each worker has ended, which it does when
-- the queue is closed and empty and the worker has no entry in its hands.
unfoldable pub has_returned : Writer → Bool
has_returned w = w.outbox.closed && length w.outbox.waiting == 0 && length w.running == 0

pub data Move : Type 0 where
  submitting : Entry → Move
  taking : Move
  finishing : ℕ → Move
  closing : Move

unfoldable pub step : Move → Writer → Option Writer
unfolding submit_to take_next finish close_queue
step (submitting e) w = submit_to e w
step taking w = take_next w
step (finishing i) w = finish i w
step closing w = some (close_queue w)

unfoldable pub run : List Move → Writer → Option Writer
unfolding step
run [] w = some w
run (m ∷ ms) w = elim (step m w) [ none ↦ none | some w' ↦ run ms w' ]
