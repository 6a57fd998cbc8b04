-- ===== src/Dns/Effects.antt =====
-- internal/dnsengine/engine.go: how often a handled query writes, logs, counts and asks.
use phantomcore.Base.{
  ℕ, suc, ◌+◌, ◌≡◌, refl, Bool, true, false, List, [], ◌∷◌, ◌++◌, arith, if◌then◌else◌, Text,
  Bool-cases, inl, inr,
}
use phantomcore.Message.{Msg}
use phantomcore.Dns.State.{
  Effect, write, ask_upstream, export, submit, count_blocked, device_hit, record_metric, Threat,
  Call, Engine, Wiring,
}
use phantomcore.Dns.Answering.{log_query, record_blocked}

unfoldable pub count : (Effect → Bool) → List Effect → ℕ
count p [] = 0
count p (x ∷ l) = let rest = count p l in if p x then suc rest else rest

unfoldable pub is_write : Effect → Bool
is_write (write _) = true
is_write (ask_upstream _) = false
is_write (export _) = false
is_write (submit _ _ _) = false
is_write count_blocked = false
is_write (device_hit _ _) = false
is_write (record_metric _) = false

unfoldable pub is_ask : Effect → Bool
is_ask (write _) = false
is_ask (ask_upstream _) = true
is_ask (export _) = false
is_ask (submit _ _ _) = false
is_ask count_blocked = false
is_ask (device_hit _ _) = false
is_ask (record_metric _) = false

unfoldable pub is_export : Effect → Bool
is_export (write _) = false
is_export (ask_upstream _) = false
is_export (export _) = true
is_export (submit _ _ _) = false
is_export count_blocked = false
is_export (device_hit _ _) = false
is_export (record_metric _) = false

unfoldable pub is_metric : Effect → Bool
is_metric (write _) = false
is_metric (ask_upstream _) = false
is_metric (export _) = false
is_metric (submit _ _ _) = false
is_metric count_blocked = false
is_metric (device_hit _ _) = false
is_metric (record_metric _) = true

pub count-append :
    (p : Effect → Bool) (l m : List Effect) → count p (l ++ m) ≡ count p l + count p m
unfolding count
count-append p [] m = ground arith
count-append p (x ∷ l) m = ground (arith, count-append p l m)

-- How many messages, questions upstream, exports and metrics there are.
abbrev pub Counts : List Effect → ℕ → ℕ → ℕ → ℕ → Type 0
Counts l w a x t =
    (count is_write l ≡ w)
    × (count is_ask l ≡ a)
    × (count is_export l ≡ x)
    × (count is_metric l ≡ t)

pub append-Counts :
    (l m : List Effect) {w a x t w' a' x' t' : ℕ}
    → Counts l w a x t
    → Counts m w' a' x' t'
    → Counts (l ++ m) (w + w') (a + a') (x + x') (t + t')
append-Counts l m h k =
    let f = count-append is_write l m in
    let g = count-append is_ask l m in
    let i = count-append is_export l m in
    let j = count-append is_metric l m in ground (arith, f, g, i, j)

pub write-Counts : (m : Msg) → Counts (write m ∷ []) 1 0 0 0
unfolding count is_write is_ask is_export is_metric
write-Counts m = (refl, refl, refl, refl)

pub log_query-Counts :
    (e : Engine) (c : Call) (action reason : Text) (tr : Threat)
    → Counts (log_query e c action reason tr) 0 0 1 0
unfolding count is_write is_ask is_export is_metric log_query
log_query-Counts e c action reason tr = elim (Bool-cases (e.has_query_log)) [
  | inl v ↦ rw v (refl, refl, refl, refl)
  | inr v ↦ rw v (refl, refl, refl, refl)
]

pub record_blocked-Counts :
    (wired : Wiring) (e : Engine) (c : Call) → Counts (record_blocked wired e c) 0 0 0 0
unfolding count is_write is_ask is_export is_metric record_blocked
record_blocked-Counts wired e c = elim (Bool-cases (e.has_alerter)) [
  | inl v ↦ rw v (refl, refl, refl, refl)
  | inr v ↦ rw v (refl, refl, refl, refl)
]
