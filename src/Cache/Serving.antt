-- ===== src/Cache/Serving.antt =====
-- internal/dnsengine/cache.go: what the cache serves, and for how long.
use phantomcore.Base.{
  ℕ, ◌+◌, ◌*◌, ◌<◌, ◌≡◌, ◌≢◌, inl, inr, none, some, List, [], ◌∷◌, length, ltb, arith, Text, lookup,
  Distinct, lookup-delete, lookup-insert, text_discrete, ℕ_discrete, if◌then◌else◌, Bool-cases,
  Option-cases,
}
use phantomcore.Message.{Msg}
use phantomcore.Cache.{
  second, AnswerCache, CacheEntry, LruItem, min_ttl, back, drop_node, evict_oldest, shrink,
  to_front, push_front, find, put, get, get_stale,
}
use phantomcore.Cache.Invariant.{Mirrors, find_lem, push_front-Mirrors}
use phantomcore.Cache.Steps.{IsValid, back_lem, evict_oldest_lem, find-none}

-- the last of two or more distinct nodes is not the first
back-ne-head :
    (p : ℕ) (j : LruItem) (l : List (ℕ × LruItem)) (n : ℕ) (i : LruItem)
    → Distinct ℕ_discrete ((p, j) ∷ l)
    → 0 < length l
    → back ((p, j) ∷ l) ≡ some (n, i)
    → (p ≢ n)
unfolding back lookup
back-ne-head p j [] n i d h e = absurd (omega arith)
back-ne-head p j (x ∷ l) n i d h e =
    λ q. let here = back_lem (x ∷ l) n i d.1 e in absurd (ground arith)

find_pushed :
    (c : AnswerCache) (k : Text) (ent : CacheEntry)
    → find (push_front c k ent) k ≡ some (c.next, record { key = k; entry = ent })
unfolding find push_front lookup
find_pushed c k ent = ground (arith, lookup-insert text_discrete k k c.next c.items)

-- dropping one node leaves what is found under another
find-drop_node :
    (c : AnswerCache) (k : Text) (m n : ℕ) (i j : LruItem)
    → Mirrors c
    → find c k ≡ some (m, j)
    → lookup ℕ_discrete n c.ll ≡ some i
    → m ≢ n
    → find (drop_node c n i.key) k ≡ some (m, j)
find-drop_node c k m n i j v f h ne =
    let (a, b, q) = find_lem c k m j v f in
    let own = v.to_items n i h in
    let other : i.key ≢ k = λ p. ne (ground arith) in
    unfold find drop_node in
    ground (arith, lookup-delete text_discrete i.key k c.items, lookup-delete ℕ_discrete n m c.ll)

shrink_pushed :
    (c : AnswerCache) (k : Text) (ent : CacheEntry)
    → IsValid c
    → find c k ≡ none
    → find (shrink (push_front c k ent)) k ≡ some (c.next, record { key = k; entry = ent })
unfolding shrink
shrink_pushed c k ent v h =
    let c' = push_front c k ent in
    let m = push_front-Mirrors c k ent v.mirrors (find-none c k v.mirrors h) in
    elim (Bool-cases (ltb c'.max (length c'.ll))) [
      | inr fits ↦ rw fits (find_pushed c k ent)
      | inl over ↦
          let big : 0 < length c.ll = unfold push_front in ground (arith, v.positive) in
          let (n, i, b, here, e) = evict_oldest_lem c' m (unfold push_front in omega arith) in
          let apart : c.next ≢ n =
            unfold push_front in
            back-ne-head c.next (record { key = k; entry = ent }) c.ll n i m.distinct_ll big b in
          rw (over, e)
            (find-drop_node c' k c.next n i (record { key = k; entry = ent }) m
              (find_pushed c k ent) here apart)
    ]

find_fronted :
    (c : AnswerCache) (k : Text) (n : ℕ) (j : LruItem)
    → lookup text_discrete k c.items ≡ some n
    → find (to_front c n j) k ≡ some (n, j)
unfolding find to_front lookup
find_fronted c k n j h = ground arith

-- What `Put` caches under the key: nothing new for an answer with no TTL, else the message with
-- its expiry.
pub find-put :
    (c : AnswerCache) (now : ℕ) (k : Text) (msg : Msg)
    → IsValid c
    → (min_ttl msg ≢ 0)
    → (n : ℕ) × (find (put c now k msg) k
        ≡ some (
          n,
          record { key = k; entry = record { msg = msg; expires_at = now + min_ttl msg * second } },
        ))
unfolding put
find-put c now k msg v ne =
    let ent : CacheEntry = record { msg = msg; expires_at = now + min_ttl msg * second } in
    elim (Option-cases (find c k)) [
      | inl miss ↦ (c.next, ground (arith, shrink_pushed c k ent v miss))
      | inr ((n, i), hit) ↦
          let (a, b, q) = find_lem c k n i v.mirrors hit in
          (n, ground (arith, find_fronted c k n (record i { entry = ent }) a))
    ]

stale_for-put :
    (c : AnswerCache) (now : ℕ) (k : Text) (msg : Msg) → (put c now k msg).stale_for ≡ c.stale_for
unfolding put to_front push_front shrink evict_oldest drop_node
stale_for-put c now k msg = ground arith

-- An answer with a positive TTL that is stored in a valid cache is served as a fallback exactly
-- until the stale window after its TTL has passed, and as a fresh answer exactly until its TTL
-- has; always with the message that was stored, even if storing it pushed another entry out.
pub get_stale-put :
    (c : AnswerCache) (t now : ℕ) (k : Text) (msg : Msg)
    → IsValid c
    → (min_ttl msg ≢ 0)
    → let ent : CacheEntry = record { msg = msg; expires_at = t + min_ttl msg * second } in
      ((get_stale (put c t k msg) now k).1
        ≡ (if ltb (ent.expires_at + c.stale_for) now then none else some ent))
      × ((get (put c t k msg) now k).1 ≡ (if ltb ent.expires_at now then none else some ent))
unfolding get_stale get
get_stale-put c t now k msg v ne =
    let (n, f) = find-put c t k msg v ne in (ground (arith, stale_for-put c t k msg), ground arith)
