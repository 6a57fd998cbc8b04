-- ===== src/Outbox/Bounded.antt =====
-- internal/dnsengine/querylog_writer.go and export.go: the bound of the queue and of its log lines.
use phantomcore.Base.{
  ℕ, ◌+◌, ◌/◌, ◌≤◌, ◌≡◌, some, [], ◌∷◌, ◌++◌, length, length-append, arith, leb, ◌==◌,
  if◌then◌else◌, Bool-cases, inl, inr, subst,
}
use phantomcore.Outbox.{Outbox, empty_outbox, is_reported, drop_one, offer}

rare_lem :
    (n : ℕ)
    → (if n + 1 == 0 then 0 else 1) + (n + 1) / 1024
      ≡ (if is_reported (n + 1) then 1 else 0) + ((if n == 0 then 0 else 1) + n / 1024)
unfolding is_reported
rare_lem n = ground arith

module _ {ℓ} {A : Type ℓ} where
  -- No more waits than the channel holds, and warnings stay rare: the first drop and each 1024th.
  pub record IsBounded (o : Outbox A) : Type 0 where
    pub fits : length o.waiting ≤ o.capacity
    pub rare : length o.warned ≡ (if o.dropped == 0 then 0 else 1) + o.dropped / 1024

  empty_outbox-IsBounded : (n : ℕ) → IsBounded (empty_outbox {A = A} n)
  unfolding empty_outbox
  empty_outbox-IsBounded n = record { fits = omega arith; rare = omega arith }

  pub drop_one-IsBounded : (o : Outbox A) → IsBounded o → IsBounded (drop_one o)
  unfolding drop_one
  drop_one-IsBounded o v = record {
    fits = v.fits;
    rare = let r = v.rare in let e = rare_lem o.dropped in ground (arith, r, e);
  }

  pub offer-IsBounded : (a : A) (o o' : Outbox A) → offer a o ≡ some o' → IsBounded o → IsBounded o'
  unfolding offer
  offer-IsBounded a o o' h v = elim (Bool-cases o.closed) [
    | inl c ↦ absurd (ground (arith, h, c))
    | inr c ↦ elim (Bool-cases (leb o.capacity (length o.waiting))) [
      | inl full ↦ subst IsBounded (ground (arith, h, c, full)) (drop_one-IsBounded o v)
      | inr room ↦
          let grown = length-append o.waiting (a ∷ []) in
          let next : Outbox A = record o { waiting = o.waiting ++ a ∷ [] } in
          subst IsBounded {x = next} (ground (arith, h, c, room))
            (record { fits = ground (arith, grown, room); rare = v.rare })
    ]
  ]
