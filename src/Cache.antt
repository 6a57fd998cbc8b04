-- ===== src/Cache.antt =====
-- internal/dnsengine/cache.go: the LRU cache behind serve-stale. A list element of container/list
-- is a numbered node: `ll` holds the nodes from the front with their items, and `items` maps a key
-- to its node, as the Go map holds the pointer. Times are nanoseconds.
pub mod Invariant
pub mod Steps
pub mod Serving
use phantomcore.Base.{
  itoa, ℕ, zero, suc, ◌+◌, ◌-◌, ◌*◌, ◌/◌, ◌%◌, Bool, true, false, Option, none, some, List, [], ◌∷◌,
  ◌++◌, map, length, leb, ltb, ◌==◌, ℤ, pos, pos_part, ltb_ℤ, Text, to_lower, lookup, insert,
  delete, text_discrete, ℕ_discrete, if◌then◌else◌,
}
use phantomcore.Message.{Rr, Question, Msg}

abbrev pub second : ℕ
second = 1_000_000_000

-- `cacheEntry`
pub record CacheEntry : Type 0 where
  pub msg : Msg
  pub expires_at : ℕ

-- `lruItem`
pub record LruItem : Type 0 where
  pub key : Text
  pub entry : CacheEntry

-- `answerCache`, with the number of the next node
pub record AnswerCache : Type 0 where
  pub max : ℕ
  pub stale_for : ℕ
  pub ll : List (ℕ × LruItem)
  pub items : List (Text × ℕ)
  pub next : ℕ

-- `newAnswerCache`
unfoldable pub new : ℤ → ℤ → AnswerCache
new max stale_for = record {
  max = if ltb_ℤ (pos 0) max then pos_part max else 20000;
  stale_for = if ltb_ℤ (pos 0) stale_for then pos_part stale_for else 3_600_000_000_000;
  ll = [];
  items = [];
  next = 0;
}

-- `setTTL`
unfoldable pub set_ttl : List Rr → ℕ → List Rr
set_ttl rrs ttl = map {A = Rr} (λ rr. record rr { ttl = ttl }) rrs

-- `reply`
unfoldable pub reply : CacheEntry → Msg → ℕ → Msg
unfolding set_ttl
reply ce r ttl = record (ce.msg) {
  id = r.id;
  response = true;
  question = r.question;
  answer = set_ttl ce.msg.answer ttl;
  ns = set_ttl ce.msg.ns ttl;
}

-- `cacheKey`
unfoldable pub cache_key : Question → Text
unfolding itoa to_lower
cache_key q = to_lower q.name ++ (b'|' ∷ (itoa q.qtype ++ (b'|' ∷ itoa q.qclass)))

-- The loop of `minTTL`.
unfoldable pub min_ttl_from : Option ℕ → List Rr → Option ℕ
min_ttl_from best [] = best
min_ttl_from none (rr ∷ rrs) = min_ttl_from (some rr.ttl) rrs
min_ttl_from (some m) (rr ∷ rrs) = min_ttl_from (some (if ltb rr.ttl m then rr.ttl else m)) rrs

-- `minTTL`
unfoldable pub min_ttl : Msg → ℕ
unfolding min_ttl_from
min_ttl msg = elim (min_ttl_from none msg.answer) [ none ↦ 0 | some m ↦ m ]

-- `ll.Back()`
unfoldable pub back : List (ℕ × LruItem) → Option (ℕ × LruItem)
back [] = none
back (x ∷ []) = some x
back (x ∷ y ∷ l) = back (y ∷ l)

-- `ll.Remove(el); delete(items, key)`
unfoldable pub drop_node : AnswerCache → ℕ → Text → AnswerCache
drop_node c node key = record c {
  ll = delete ℕ_discrete node c.ll;
  items = delete text_discrete key c.items;
}

-- `evictOldest`
unfoldable pub evict_oldest : AnswerCache → AnswerCache
unfolding drop_node
evict_oldest c = elim (back c.ll) [ none ↦ c | some (node, item) ↦ drop_node c node item.key ]

-- `if c.ll.Len() > c.max { c.evictOldest() }`
unfoldable pub shrink : AnswerCache → AnswerCache
shrink c = if ltb c.max (length c.ll) then evict_oldest c else c

-- `ll.MoveToFront(el)`, for the node's item, which may have been given a new entry
unfoldable pub to_front : AnswerCache → ℕ → LruItem → AnswerCache
to_front c node item = record c { ll = (node, item) ∷ delete ℕ_discrete node c.ll }

-- `ll.PushFront(item); items[key] = el`
unfoldable pub push_front : AnswerCache → Text → CacheEntry → AnswerCache
push_front c key ent = record c {
  ll = (c.next, record { key = key; entry = ent }) ∷ c.ll;
  items = insert text_discrete key c.next c.items;
  next = c.next + 1;
}

-- The node of a key and its item: `none` for a key that is not cached.
unfoldable pub find : AnswerCache → Text → Option (ℕ × LruItem)
find c key = elim (lookup text_discrete key c.items) [
  | none ↦ none
  | some node ↦ elim (lookup ℕ_discrete node c.ll) [ none ↦ none | some item ↦ some (node, item) ]
]

-- `Put`, at the time `now`
unfoldable pub put : AnswerCache → ℕ → Text → Msg → AnswerCache
unfolding min_ttl find to_front push_front shrink
put c now key msg =
    let ttl = min_ttl msg in
    let ent : CacheEntry = record { msg = msg; expires_at = now + ttl * second } in
    if ttl == 0 then c else elim (find c key) [
      | some (node, item) ↦ to_front c node (record item { entry = ent })
      | none ↦ shrink (push_front c key ent)
    ]

-- `Get`
unfoldable pub get : AnswerCache → ℕ → Text → AnswerCache × Option CacheEntry
unfolding find to_front
get c now key = elim (find c key) [
  | none ↦ (c, none)
  | some (node, item) ↦
      if ltb item.entry.expires_at now then (c, none) else (to_front c node item, some item.entry)
]

-- `GetStale`
unfoldable pub get_stale : AnswerCache → ℕ → Text → AnswerCache × Option CacheEntry
unfolding find to_front drop_node
get_stale c now key = elim (find c key) [
  | none ↦ (c, none)
  | some (node, item) ↦
      if ltb (item.entry.expires_at + c.stale_for) now
      then (drop_node c node item.key, none)
      else (to_front c node item, some item.entry)
]
