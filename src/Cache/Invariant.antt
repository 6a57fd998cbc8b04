-- ===== src/Cache/Invariant.antt =====
-- internal/dnsengine/cache.go: the list and the map of the cache mirror one another.
use phantomcore.Base.{
  ℕ, ◌<◌, ◌≡◌, inl, inr, none, some, arith, Text, ℤ, lookup, Distinct, lookup-insert, lookup-delete,
  insert-Distinct, delete-Distinct, text_discrete, ℕ_discrete, Option-cases,
}
use phantomcore.Cache.{AnswerCache, CacheEntry, LruItem, new, drop_node, to_front, push_front, find}

-- What holds of the two structures, whatever the size.
pub record Mirrors (c : AnswerCache) : Type 0 where
  pub distinct_ll : Distinct ℕ_discrete c.ll
  pub distinct_items : Distinct text_discrete c.items
  pub to_ll :
      (k : Text) (n : ℕ)
      → lookup text_discrete k c.items ≡ some n
      → (i : LruItem) × (lookup ℕ_discrete n c.ll ≡ some i) × (i.key ≡ k)
  pub to_items :
      (n : ℕ) (i : LruItem)
      → lookup ℕ_discrete n c.ll ≡ some i
      → lookup text_discrete i.key c.items ≡ some n
  pub numbered : (n : ℕ) (i : LruItem) → lookup ℕ_discrete n c.ll ≡ some i → n < c.next

pub new-Mirrors : (max stale_for : ℤ) → Mirrors (new max stale_for)
unfolding new lookup
new-Mirrors max stale_for = record {
  distinct_ll = tt;
  distinct_items = tt;
  to_ll = λ k n e. cc;
  to_items = λ n i e. cc;
  numbered = λ n i e. cc;
}

pub find_lem :
    (c : AnswerCache) (k : Text) (n : ℕ) (i : LruItem)
    → Mirrors c
    → find c k ≡ some (n, i)
    → (lookup text_discrete k c.items ≡ some n) × (lookup ℕ_discrete n c.ll ≡ some i) × (i.key ≡ k)
unfolding find
find_lem c k n i m h = elim (Option-cases (lookup text_discrete k c.items)) [
  | inl e ↦ ground arith
  | inr (n', e) ↦ let (i', e', q) = m.to_ll k n' e in (ground arith, ground arith, ground arith)
]

-- moving a node to the front, with an item of the same key, keeps the mirror
pub to_front-Mirrors :
    (c : AnswerCache) (n : ℕ) (i j : LruItem)
    → Mirrors c
    → lookup ℕ_discrete n c.ll ≡ some i
    → j.key ≡ i.key
    → Mirrors (to_front c n j)
unfolding to_front lookup
to_front-Mirrors c n i j m h q = record {
  distinct_ll = (
    ground (arith, lookup-delete ℕ_discrete n n c.ll),
    delete-Distinct ℕ_discrete n c.ll m.distinct_ll,
  );
  distinct_items = m.distinct_items;
  to_ll = λ k p e.
      let (u, e', s) = m.to_ll k p e in
      elim (ℕ_discrete n p) [
        | yes y ↦ (j, ground arith, ground arith)
        | no y ↦ (u, ground (arith, lookup-delete ℕ_discrete n p c.ll), s)
      ];
  to_items = λ p u e. elim (ℕ_discrete n p) [
    | yes y ↦ ground (arith, m.to_items n i h)
    | no y ↦ m.to_items p u (ground (arith, lookup-delete ℕ_discrete n p c.ll))
  ];
  numbered = λ p u e. elim (ℕ_discrete n p) [
    | yes y ↦ ground (arith, m.numbered n i h)
    | no y ↦ m.numbered p u (ground (arith, lookup-delete ℕ_discrete n p c.ll))
  ];
}

-- removing a node from both structures keeps the mirror
pub drop_node-Mirrors :
    (c : AnswerCache) (n : ℕ) (i : LruItem)
    → Mirrors c
    → lookup ℕ_discrete n c.ll ≡ some i
    → Mirrors (drop_node c n i.key)
unfolding drop_node
drop_node-Mirrors c n i m h = record {
  distinct_ll = delete-Distinct ℕ_discrete n c.ll m.distinct_ll;
  distinct_items = delete-Distinct text_discrete i.key c.items m.distinct_items;
  to_ll = λ k p e. elim (text_discrete i.key k) [
    | yes y ↦ absurd (ground (arith, lookup-delete text_discrete i.key k c.items))
    | no y ↦
        let (u, e', s) =
          m.to_ll k p (ground (arith, lookup-delete text_discrete i.key k c.items)) in
        (
          u,
          elim (ℕ_discrete n p) [
            | yes z ↦ absurd (ground arith)
            | no z ↦ ground (arith, lookup-delete ℕ_discrete n p c.ll)
          ],
          s,
        )
  ];
  to_items = λ p u e. elim (ℕ_discrete n p) [
    | yes y ↦ absurd (ground (arith, lookup-delete ℕ_discrete n p c.ll))
    | no y ↦
        let here = m.to_items p u (ground (arith, lookup-delete ℕ_discrete n p c.ll)) in
        elim (text_discrete i.key u.key) [
          | yes z ↦ absurd (ground (arith, m.to_items n i h))
          | no z ↦ ground (arith, lookup-delete text_discrete i.key u.key c.items)
        ]
  ];
  numbered = λ p u e. elim (ℕ_discrete n p) [
    | yes y ↦ absurd (ground (arith, lookup-delete ℕ_discrete n p c.ll))
    | no y ↦ m.numbered p u (ground (arith, lookup-delete ℕ_discrete n p c.ll))
  ];
}

-- a new node for a key that is not cached keeps the mirror
pub push_front-Mirrors :
    (c : AnswerCache) (k : Text) (ent : CacheEntry)
    → Mirrors c
    → lookup text_discrete k c.items ≡ none
    → Mirrors (push_front c k ent)
unfolding push_front lookup
push_front-Mirrors c k ent m h = record {
  distinct_ll = (
    elim (Option-cases (lookup ℕ_discrete c.next c.ll)) [
      | inl e ↦ e
      | inr (i, e) ↦ absurd (omega (arith, m.numbered c.next i e))
    ],
    m.distinct_ll,
  );
  distinct_items = insert-Distinct text_discrete k c.next c.items m.distinct_items;
  to_ll = λ q p e. elim (text_discrete k q) [
    | yes y ↦ (
      record { key = k; entry = ent },
      ground (arith, lookup-insert text_discrete k q c.next c.items),
      y,
    )
    | no y ↦
        let (u, e', s) =
          m.to_ll q p (ground (arith, lookup-insert text_discrete k q c.next c.items)) in
        (u, ground (arith, m.numbered p u e'), s)
  ];
  to_items = λ p u e. elim (ℕ_discrete c.next p) [
    | yes y ↦ ground (arith, lookup-insert text_discrete k k c.next c.items)
    | no y ↦
        let here = m.to_items p u (ground arith) in
        elim (text_discrete k u.key) [
          | yes z ↦ absurd (ground arith)
          | no z ↦ ground (arith, lookup-insert text_discrete k u.key c.next c.items)
        ]
  ];
  numbered = λ p u e. elim (ℕ_discrete c.next p) [
    | yes y ↦ omega arith
    | no y ↦ let b : p < c.next = m.numbered p u (ground arith) in omega arith
  ];
}
