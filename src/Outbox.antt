-- ===== src/Outbox.antt =====
-- internal/dnsengine/querylog_writer.go and export.go: the bounded channel that a query hands its
-- row or event to without blocking, with the counter of what was dropped.
pub mod Bounded
use phantomcore.Base.{
  ℕ, ◌+◌, ◌%◌, Bool, true, false, ◌||◌, Option, none, some, List, [], ◌∷◌, ◌++◌, length, leb, ◌==◌,
  if◌then◌else◌,
}

-- `warned` holds the counts at which a warning was logged.
pub record Outbox {ℓ} (A : Type ℓ) : Type ℓ where
  pub capacity : ℕ
  pub waiting : List A
  pub dropped : ℕ
  pub warned : List ℕ
  pub closed : Bool

unfoldable pub empty_outbox {ℓ} : {A : Type ℓ} → ℕ → Outbox A
empty_outbox capacity = record {
  capacity = capacity;
  waiting = [];
  dropped = 0;
  warned = [];
  closed = false;
}

-- `n == 1 || n%1024 == 0`
unfoldable pub is_reported : ℕ → Bool
is_reported n = n == 1 || n % 1024 == 0

module _ {ℓ} {A : Type ℓ} where
  -- The `default` case: the item is dropped and counted.
  unfoldable pub drop_one : Outbox A → Outbox A
  unfolding is_reported
  drop_one o =
      let n = o.dropped + 1 in
      record o { dropped = n; warned = if is_reported n then n ∷ o.warned else o.warned }

  -- The `select` that never blocks. A send on a closed channel panics, also in a select: `none`.
  unfoldable pub offer : A → Outbox A → Option (Outbox A)
  unfolding drop_one
  offer a o =
      if o.closed
      then none
      else if leb o.capacity (length o.waiting)
      then some (drop_one o)
      else some (record o { waiting = o.waiting ++ a ∷ [] })

  -- What a worker receives next, if anything.
  unfoldable pub receive : Outbox A → Option (A × Outbox A)
  receive o = elim o.waiting [ [] ↦ none | a ∷ rest ↦ some (a, record o { waiting = rest }) ]

  -- `close(queue)`
  unfoldable pub close : Outbox A → Outbox A
  close o = record o { closed = true }
