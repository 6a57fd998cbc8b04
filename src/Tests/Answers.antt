-- ===== src/Tests/Answers.antt =====
-- internal/dnsengine/cache.go at concrete inputs.
use phantomcore.Base.{
  ◌+◌, ◌*◌, ◌≡◌, refl, true, none, some, [], ◌∷◌, pos, arith, text, ltb, if◌then◌else◌, lookup,
  insert, delete, text_discrete, ℕ_discrete,
}
use phantomcore.Message.{a, Msg}
use phantomcore.Cache.{AnswerCache, CacheEntry, second, new, min_ttl, put, get, get_stale}
use phantomcore.Cache.Steps.{IsValid, new-IsValid, put-IsValid}
use phantomcore.Cache.Serving.{get_stale-put}

abbrev answer : Msg
answer = record {
  id = 7;
  response = true;
  rcode = 0;
  question = [];
  answer = record { name = text "a.com."; ttl = 60; rdata = a (192 ∷ 0 ∷ 2 ∷ 1 ∷ []) } ∷ [];
  ns = [];
  extra = [];
}

abbrev small : AnswerCache
small = new (pos 1) (pos 10)

abbrev filled : AnswerCache
filled = put small 5 (text "a.com.|1|1") answer

test_cache :
    ((get_stale filled (5 + 60 * second + 10) (text "a.com.|1|1")).1
      ≡ some (record { msg = answer; expires_at = 5 + 60 * second }))
    × ((get_stale filled (5 + 60 * second + 11) (text "a.com.|1|1")).1 ≡ none)
    × ((get_stale (put filled 6 (text "b.com.|1|1") answer) 7 (text "a.com.|1|1")).1 ≡ none)
unfolding get_stale put new min_ttl phantomcore.Cache.min_ttl_from phantomcore.Cache.find
    phantomcore.Cache.to_front phantomcore.Cache.push_front phantomcore.Cache.shrink
    phantomcore.Cache.evict_oldest phantomcore.Cache.back phantomcore.Cache.drop_node lookup insert
    delete text_discrete ℕ_discrete
test_cache = (refl, refl, refl)

filled-IsValid : IsValid filled
filled-IsValid = put-IsValid small 5 (text "a.com.|1|1") answer (new-IsValid (pos 1) (pos 10))

put-IsValid_example : IsValid (put small 5 (text "a.com.|1|1") answer)
put-IsValid_example = put-IsValid small 5 (text "a.com.|1|1") answer (new-IsValid (pos 1) (pos 10))

abbrev stored : CacheEntry
stored = record { msg = answer; expires_at = 5 + min_ttl answer * second }

get_stale-put_example :
    ((get_stale (put small 5 (text "a.com.|1|1") answer) 9 (text "a.com.|1|1")).1
      ≡ (if ltb (stored.expires_at + small.stale_for) 9 then none else some stored))
    × ((get (put small 5 (text "a.com.|1|1") answer) 9 (text "a.com.|1|1")).1
        ≡ (if ltb stored.expires_at 9 then none else some stored))
unfolding min_ttl phantomcore.Cache.min_ttl_from
get_stale-put_example =
    get_stale-put small 5 9 (text "a.com.|1|1") answer (new-IsValid (pos 1) (pos 10))
      (λ e. ground arith)
