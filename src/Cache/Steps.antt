-- ===== src/Cache/Steps.antt =====
-- internal/dnsengine/cache.go: every operation keeps the cache consistent and within its bound.
use phantomcore.Base.{
  ℕ, ◌+◌, ◌*◌, ◌≤◌, ◌<◌, ◌≡◌, refl, inl, inr, none, some, List, [], ◌∷◌, length, ltb, ◌==◌, arith,
  Text, Member, ℤ, lookup, Distinct, length-delete-lt, text_discrete, ℕ_discrete, Bool-cases,
  Option-cases,
}
use phantomcore.Message.{Msg}
use phantomcore.Cache.{
  second, AnswerCache, CacheEntry, LruItem, new, min_ttl, back, drop_node, evict_oldest, shrink,
  to_front, push_front, find, put, get, get_stale,
}
use phantomcore.Cache.Invariant.{
  Mirrors, new-Mirrors, find_lem, to_front-Mirrors, drop_node-Mirrors, push_front-Mirrors,
}

pub record IsValid (c : AnswerCache) : Type 0 where
  pub mirrors : Mirrors c
  pub positive : 0 < c.max
  pub bounded : length c.ll ≤ c.max

pub new-IsValid : (max stale_for : ℤ) → IsValid (new max stale_for)
unfolding new
new-IsValid max stale_for = record {
  mirrors = new-Mirrors max stale_for;
  positive = ground arith;
  bounded = omega arith;
}

back-Member : (l : List (ℕ × LruItem)) (x : ℕ × LruItem) → back l ≡ some x → Member x l
unfolding back
back-Member [] x h = cc
back-Member (y ∷ []) x h = inl (ground arith)
back-Member (y ∷ z ∷ l) x h = inr (back-Member (z ∷ l) x h)

Member-lookup :
    (n : ℕ) (i : LruItem) (l : List (ℕ × LruItem))
    → Distinct ℕ_discrete l
    → Member (n, i) l
    → lookup ℕ_discrete n l ≡ some i
unfolding lookup
Member-lookup n i [] d m = absurd m
Member-lookup n i ((p, j) ∷ l) d (inl e) = ground arith
Member-lookup n i ((p, j) ∷ l) d (inr m) = ground (arith, Member-lookup n i l d.1 m)

-- The last node, in a list of distinct nodes.
pub back_lem :
    (l : List (ℕ × LruItem)) (n : ℕ) (i : LruItem)
    → Distinct ℕ_discrete l
    → back l ≡ some (n, i)
    → lookup ℕ_discrete n l ≡ some i
back_lem l n i d h = Member-lookup n i l d (back-Member l (n, i) h)

back-some :
    (l : List (ℕ × LruItem)) → 0 < length l → (n : ℕ) × (i : LruItem) × (back l ≡ some (n, i))
unfolding back
back-some [] h = absurd (omega arith)
back-some ((n, i) ∷ []) h = (n, i, refl)
back-some (x ∷ y ∷ l) h = back-some (y ∷ l) (omega arith)

to_front-IsValid :
    (c : AnswerCache) (n : ℕ) (i j : LruItem)
    → IsValid c
    → lookup ℕ_discrete n c.ll ≡ some i
    → j.key ≡ i.key
    → IsValid (to_front c n j)
unfolding to_front
to_front-IsValid c n i j v h q = record {
  mirrors = to_front-Mirrors c n i j v.mirrors h q;
  positive = v.positive;
  bounded = omega (arith, length-delete-lt ℕ_discrete n i c.ll h, v.bounded);
}

drop_node-IsValid :
    (c : AnswerCache) (n : ℕ) (i : LruItem)
    → IsValid c
    → lookup ℕ_discrete n c.ll ≡ some i
    → IsValid (drop_node c n i.key)
unfolding drop_node
drop_node-IsValid c n i v h = record {
  mirrors = drop_node-Mirrors c n i v.mirrors h;
  positive = v.positive;
  bounded = omega (arith, length-delete-lt ℕ_discrete n i c.ll h, v.bounded);
}

-- What `evictOldest` does to a cache that holds something: it drops the last node.
pub evict_oldest_lem :
    (c : AnswerCache)
    → Mirrors c
    → 0 < length c.ll
    → (n : ℕ) × (i : LruItem) × (back c.ll ≡ some (n, i))
      × (lookup ℕ_discrete n c.ll ≡ some i)
      × (evict_oldest c ≡ drop_node c n i.key)
unfolding evict_oldest
evict_oldest_lem c m h =
    let (n, i, b) = back-some c.ll h in
    (n, i, b, back_lem c.ll n i m.distinct_ll b, rw (b, evict_oldest))

pub find-none :
    (c : AnswerCache) (k : Text)
    → Mirrors c
    → find c k ≡ none
    → lookup text_discrete k c.items ≡ none
unfolding find
find-none c k m h = elim (Option-cases (lookup text_discrete k c.items)) [
  | inl e ↦ e
  | inr (n, e) ↦ let (i, e', q) = m.to_ll k n e in absurd (ground arith)
]

shrink-IsValid :
    (c : AnswerCache) → Mirrors c → 0 < c.max → length c.ll ≤ c.max + 1 → IsValid (shrink c)
unfolding shrink
shrink-IsValid c m p b = elim (Bool-cases (ltb c.max (length c.ll))) [
  | inr fits ↦ rw fits (record { mirrors = m; positive = p; bounded = ground arith })
  | inl over ↦
      let (n, i, _, here, e) = evict_oldest_lem c m (ground arith) in
      rw (over, e)
        (record {
          mirrors = drop_node-Mirrors c n i m here;
          positive = unfold drop_node in p;
          bounded = unfold drop_node in omega (arith, length-delete-lt ℕ_discrete n i c.ll here);
        })
]

push_shrink-IsValid :
    (c : AnswerCache) (k : Text) (ent : CacheEntry)
    → IsValid c
    → find c k ≡ none
    → IsValid (shrink (push_front c k ent))
push_shrink-IsValid c k ent v h =
    shrink-IsValid (push_front c k ent)
      (push_front-Mirrors c k ent v.mirrors (find-none c k v.mirrors h))
      (unfold push_front in v.positive) (unfold push_front in omega (arith, v.bounded))

-- `Put` keeps the list and the map of the cache mirror images, and the cache within its bound.
pub put-IsValid :
    (c : AnswerCache) (now : ℕ) (k : Text) (msg : Msg) → IsValid c → IsValid (put c now k msg)
unfolding put
put-IsValid c now k msg v =
    let ent : CacheEntry = record { msg = msg; expires_at = now + min_ttl msg * second } in
    elim (Bool-cases (min_ttl msg == 0)) [
      | inl e ↦ rw e v
      | inr e ↦ elim (Option-cases (find c k)) [
        | inl miss ↦ rw (e, miss) (push_shrink-IsValid c k ent v miss)
        | inr ((n, i), hit) ↦
            rw (e, hit)
              (to_front-IsValid c n i (record i { entry = ent }) v
                (find_lem c k n i v.mirrors hit).1 refl)
      ]
    ]

-- `Get` keeps the cache valid.
pub get-IsValid : (c : AnswerCache) (now : ℕ) (k : Text) → IsValid c → IsValid (get c now k).0
unfolding get
get-IsValid c now k v = elim (Option-cases (find c k)) [
  | inl miss ↦ rw (miss, get) v
  | inr ((n, i), hit) ↦ elim (Bool-cases (ltb i.entry.expires_at now)) [
    | inl e ↦ rw (hit, get, e) v
    | inr e ↦ rw (hit, get, e) (to_front-IsValid c n i i v (find_lem c k n i v.mirrors hit).1 refl)
  ]
]

-- `GetStale`, which may also remove an entry, keeps the list and the map of the cache mirror
-- images, and the cache within its bound.
pub get_stale-IsValid :
    (c : AnswerCache) (now : ℕ) (k : Text) → IsValid c → IsValid (get_stale c now k).0
unfolding get_stale
get_stale-IsValid c now k v = elim (Option-cases (find c k)) [
  | inl miss ↦ rw (miss, get_stale) v
  | inr ((n, i), hit) ↦
      let here = (find_lem c k n i v.mirrors hit).1 in
      elim (Bool-cases (ltb (i.entry.expires_at + c.stale_for) now)) [
        | inl e ↦ rw (hit, get_stale, e) (drop_node-IsValid c n i v here)
        | inr e ↦ rw (hit, get_stale, e) (to_front-IsValid c n i i v here refl)
      ]
]
