-- ===== src/Dns/Stale.antt =====
-- internal/dnsengine/engine.go: an answer that was forwarded stands in for the upstream when that
-- fails.
use phantomcore.Base.{◌+◌, ◌*◌, ◌≡◌, ◌≢◌, ◌∙◌, ap, true, none, some, ltb, arith, if◌then◌else◌}
use phantomcore.Message.{Msg, rcode_success, rcode_server_failure}
use phantomcore.Cache
use phantomcore.Cache.{AnswerCache, CacheEntry, second, min_ttl, cache_key, reply}
use phantomcore.Cache.Steps.{IsValid}
use phantomcore.Cache.Serving.{get_stale-put}
use phantomcore.Dns.State.{Wiring, Engine, Call}
use phantomcore.Dns.Forward.{
  stale_entry, forward_failed, remember, watch_flux, forward_answer, forward_upstream, answer_of,
  settle, stale_ttl,
}

watch_flux-same :
    (wired : Wiring) (e : Engine) (c : Call) (resp : Msg)
    → ((watch_flux wired e c resp).0.cache ≡ e.cache)
      × ((watch_flux wired e c resp).0.serve_stale ≡ e.serve_stale)
      × ((watch_flux wired e c resp).0.rebind_protection ≡ e.rebind_protection)
unfolding watch_flux
watch_flux-same wired e c resp = ground arith

remember_lem :
    (e : Engine) (c : Call) (resp : Msg) (store : AnswerCache)
    → e.serve_stale ≡ true
    → e.cache ≡ some store
    → resp.rcode ≡ rcode_success
    → ((remember e c resp).cache ≡ some (Cache.put store c.now (cache_key c.question) resp))
      × ((remember e c resp).serve_stale ≡ true)
unfolding remember
remember_lem e c resp store on has ok = ground arith

forward_answer-engine :
    (wired : Wiring) (e : Engine) (c : Call) (resp : Msg)
    → (forward_answer wired e c resp).engine ≡ (watch_flux wired (remember e c resp) c resp).0
unfolding forward_answer
forward_answer-engine wired e c resp = ground arith

forward_failed_lem :
    (wired : Wiring) (e : Engine) (c : Call) (store : AnswerCache)
    → e.serve_stale ≡ true
    → e.cache ≡ some store
    → (forward_failed wired e c).reply
      ≡ elim ((Cache.get_stale store c.now (cache_key c.question)).1) [
        | none ↦ wired.set_rcode c.msg rcode_server_failure
        | some ent ↦ reply ent c.msg stale_ttl
      ]
unfolding forward_failed stale_entry
forward_failed_lem wired e c store on has = ground (arith, on, has)

-- With serve-stale on and a valid cache, an answer without an error and with a positive TTL that the upstream gave
-- is what a later query for the same question gets when the upstream fails, with the TTL 30, until
-- the stale window after its TTL has passed; from then on the reply is SERVFAIL. `up` is how the
-- engine is wired while the upstream answers, `down` when it fails or there is none.
pub forward_upstream-stale :
    (up down : Wiring) (e : Engine) (c later : Call) (store : AnswerCache) (resp : Msg)
    → IsValid store
    → e.serve_stale ≡ true
    → e.cache ≡ some store
    → answer_of (up.exchange) c.msg ≡ some resp
    → resp.rcode ≡ rcode_success
    → (min_ttl resp ≢ 0)
    → answer_of (down.exchange) later.msg ≡ none
    → cache_key later.question ≡ cache_key c.question
    → let ent : CacheEntry = record { msg = resp; expires_at = c.now + min_ttl resp * second } in
      (forward_upstream down (forward_upstream up e c).1.engine later).1.reply ≡ (
        if ltb (ent.expires_at + store.stale_for) later.now
        then down.set_rcode later.msg rcode_server_failure
        else reply ent later.msg stale_ttl)
unfolding forward_upstream settle
forward_upstream-stale up down e c later store resp valid on has u ok ne d same =
    let (stored, on') = remember_lem e c resp store on has ok in
    let (cache', stale', _) = watch_flux-same up (remember e c resp) c resp in
    let e' = (watch_flux up (remember e c resp) c resp).0 in
    let reached : (forward_upstream up e c).1.engine ≡ e' =
      ap (λ o. (settle up e c o).engine) u ∙ forward_answer-engine up e c resp in
    let failed =
      forward_failed_lem down e' later (Cache.put store c.now (cache_key c.question) resp)
        (stale' ∙ on') (cache' ∙ stored) in
    let served = (get_stale-put store c.now later.now (cache_key c.question) resp valid ne).0 in
    let asked : (settle down e' later (answer_of (down.exchange) later.msg)).reply
        ≡ (forward_failed down e' later).reply =
      ap (λ o. (settle down e' later o).reply) d in
    rw reached (asked ∙ (failed ∙ rw (same, served) (ground arith)))
