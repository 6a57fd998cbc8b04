-- ===== src/RateLimit/Bound.antt =====
-- internal/dnsengine/ratelimit.go: how many queries of one client are let through in a second.
use phantomcore.Base.{
  ℕ, ◌+◌, ◌-◌, ◌*◌, ◌≤◌, ◌<◌, ◌≡◌, refl, ◌≢◌, inl, inr, ◌↔◌, false, ◌&&◌, Option, none, some, List,
  [], ◌∷◌, leb, arith, pos, Text, lookup, text_discrete, same_text, if◌then◌else◌, Option-cases, ap,
}
use phantomcore.RateLimit.{second, ClientWindow, Limiter, new, admit, allow}
use phantomcore.RateLimit.Invariant.{
  IsValid, own_window, lookup-admit_self, lookup-admit_other, admit-IsValid, admit-clients,
}

-- A valid limiter whose clients were last seen at `now` or before: the clock has not run backwards.
pub record IsCurrent (n now : ℕ) (rl : Limiter) : Type 0 where
  pub valid : IsValid n rl
  pub past :
      (k : Text) (w : ClientWindow) → lookup text_discrete k rl.clients ≡ some w → w.last_seen ≤ now
  pub patient : second ≤ rl.idle_after

last_seen-own_window : (rl : Limiter) (now : ℕ) (ip : Text) → (own_window rl now ip).last_seen ≡ now
unfolding own_window
last_seen-own_window rl now ip = ground arith

idle_after-admit :
    (rl : Limiter) (now : ℕ) (ip : Text) → (admit rl now ip).0.idle_after ≡ rl.idle_after
idle_after-admit rl now ip = rw admit-clients

admit-IsCurrent :
    (n t now : ℕ) (rl : Limiter) (ip : Text)
    → IsCurrent n t rl
    → t ≤ now
    → IsCurrent n now (admit rl now ip).0
admit-IsCurrent n t now rl ip c le = record {
  valid = admit-IsValid n rl now ip c.valid (λ w e. omega (arith, c.past ip w e));
  past = past_after;
  patient = rw idle_after-admit c.patient;
}
  where
    past_after :
        (k : Text) (w : ClientWindow)
        → lookup text_discrete k (admit rl now ip).0.clients ≡ some w
        → w.last_seen ≤ now
    past_after k w e = elim (text_discrete ip k) [
      | yes p ↦
          let q : own_window rl now ip ≡ w = cc (lookup-admit_self rl now ip) in
          omega (arith, last_seen-own_window rl now ip, ap (λ (w : ClientWindow). w.last_seen) q)
      | no p ↦ elim (lookup-admit_other rl now ip k c.valid.distinct p) [
        | inl same ↦ omega (arith, c.past k w (cc))
        | inr (u, b, a, i) ↦ cc
      ]
    ]

-- What a client may still use in the span of a second that starts at `a`.
abbrev pub budget : ℕ → ℕ → Option ClientWindow → ℕ
budget n a none = n
budget n a (some w) = (if leb a w.window_start then 0 else n) + (n - w.count)

budget_self :
    (n a now : ℕ) (rl : Limiter) (ip : Text)
    → IsValid n rl
    → a ≤ now
    → now < a + second
    → budget n a (some (own_window rl now ip)) + (if (admit rl now ip).1 then 1 else 0)
      ≤ budget n a (lookup text_discrete ip rl.clients)
unfolding admit own_window
budget_self n a now rl ip v lo hi = elim (Option-cases (lookup text_discrete ip rl.clients)) [
  | inl e ↦ ground (arith, v.positive, v.rate)
  | inr (w, e) ↦ ground (arith, v.positive, v.rate, v.sound ip w e)
]

budget_other :
    (n a t now : ℕ) (rl : Limiter) (who ip : Text)
    → IsCurrent n t rl
    → now < a + second
    → who ≢ ip
    → budget n a (lookup text_discrete ip (admit rl now who).0.clients)
      ≤ budget n a (lookup text_discrete ip rl.clients)
budget_other n a t now rl who ip c hi ne =
    elim (lookup-admit_other rl now who ip c.valid.distinct ne) [
      | inl same ↦ ground arith
      | inr (w, b, gone, idle) ↦ ground (arith, c.valid.sound ip w b, c.patient)
    ]

-- Requests, oldest first: the time, and the client.
abbrev pub Requests : Type 0
Requests = List (ℕ × Text)

-- The times do not run backwards from `from`, and all lie before `until`.
abbrev pub InOrder : ℕ → ℕ → Requests → Type 0
InOrder from until [] = Unit
InOrder from until ((now, who) ∷ rs) = (from ≤ now) × (now < until) × InOrder now until rs

-- How many requests of one client `allow` lets through.
unfoldable pub admitted : Text → Limiter → Requests → ℕ
admitted ip rl [] = 0
admitted ip rl ((now, who) ∷ rs) =
    let (rl', ok) = allow rl now who in
    (if ok && same_text who ip then 1 else 0) + admitted ip rl' rs

allow-admit :
    (n : ℕ) (rl : Limiter) (now : ℕ) (ip : Text) → IsValid n rl → allow rl now ip ≡ admit rl now ip
unfolding allow
allow-admit n rl now ip v = ground (arith, v.positive, v.rate)

admitted-budget :
    (n a t : ℕ) (ip : Text) (rl : Limiter) (rs : Requests)
    → IsCurrent n t rl
    → a ≤ t
    → InOrder t (a + second) rs
    → admitted ip rl rs ≤ budget n a (lookup text_discrete ip rl.clients)
unfolding admitted
admitted-budget n a t ip rl [] c le o = omega arith
admitted-budget n a t ip rl ((now, who) ∷ rs) c le (from, until, o) =
    let rl' = (admit rl now who).0 in
    let rest =
      admitted-budget n a now ip rl' rs (admit-IsCurrent n t now rl who c from) (omega arith) o in
    rw (allow-admit n rl now who c.valid) (elim (text_discrete who ip) [
      | yes p ↦ ground (
        arith,
        budget_self n a now rl who c.valid (omega arith) until,
        lookup-admit_self rl now who,
        rest,
      )
      | no p ↦ ground (arith, budget_other n a t now rl who ip c until p, rest)
    ])

-- From a valid limiter whose clients were last seen at the start or before and whose idle time is
-- at least a second, and over requests in the order of their times: in any second, whatever the
-- other clients do, a client gets at most twice its rate through; and at most its rate, if it was
-- not tracked when the second began.
pub admitted-le :
    (n a : ℕ) (ip : Text) (rl : Limiter) (rs : Requests)
    → IsCurrent n a rl
    → InOrder a (a + second) rs
    → (admitted ip rl rs ≤ 2 * n)
      × (lookup text_discrete ip rl.clients ≡ none → admitted ip rl rs ≤ n)
admitted-le n a ip rl rs c o =
    let within = admitted-budget n a a ip rl rs c (omega arith) o in
    elim (Option-cases (lookup text_discrete ip rl.clients)) [
      | inl e ↦ (ground arith, λ _. ground arith)
      | inr (w, e) ↦ (ground arith, λ q. cc)
    ]

-- A valid limiter refuses a query exactly when its client is tracked, its window began less than a
-- second ago, and the window has used up the rate.
pub allow_iff :
    (n : ℕ) (rl : Limiter) (now : ℕ) (ip : Text)
    → IsValid n rl
    → ((allow rl now ip).1 ≡ false) ↔ (
        (w : ClientWindow) × (lookup text_discrete ip rl.clients ≡ some w)
        × (now < w.window_start + second)
        × (w.count ≡ n))
unfolding admit
allow_iff n rl now ip v =
    rw (allow-admit n rl now ip v) (elim (Option-cases (lookup text_discrete ip rl.clients)) [
      | inl e ↦ (λ h. absurd (ground (arith, v.positive, v.rate)), λ h. cc (h.1))
      | inr (w, e) ↦ (
        λ h. (
          w,
          e,
          ground (arith, v.positive, v.rate, v.sound ip w e),
          ground (arith, v.positive, v.rate, v.sound ip w e),
        ),
        λ h. ground (arith, v.rate, h.1, h.2, h.3),
      )
    ])

-- The limiter that `newRateLimiter` builds is current at every time, for a positive rate.
pub new-IsCurrent : (n now : ℕ) → 0 < n → IsCurrent n now (new (pos n))
unfolding new lookup
new-IsCurrent n now h = record {
  valid = record { positive = h; rate = refl; distinct = tt; sound = λ k w e. cc };
  past = λ k w e. cc;
  patient = omega arith;
}
