-- ===== src/RateLimit/Invariant.antt =====
-- internal/dnsengine/ratelimit.go: what holds of every tracked window, and what a call does to the
-- window of one client.
use phantomcore.Base.{
  ℕ, ◌+◌, ◌≤◌, ◌<◌, ◌≡◌, subst, ◌≢◌, ◌⊎◌, inl, inr, not, none, some, length, leb, arith, pos, leb_ℤ,
  Text, lookup, insert, Distinct, lookup-insert_self, lookup-insert_ne, lookup-retain,
  lookup-retain-none, insert-Distinct, retain-Distinct, text_discrete, if◌then◌else◌, Bool-cases,
  Option-cases,
}
use phantomcore.RateLimit.{ClientWindow, Limiter, fresh, find_window, roll, admit}

-- A window of a limiter that allows `n` queries a second.
pub record IsSound (n : ℕ) (w : ClientWindow) : Type 0 where
  pub within : w.count ≤ n
  pub seen : w.window_start ≤ w.last_seen

pub record IsValid (n : ℕ) (rl : Limiter) : Type 0 where
  pub positive : 0 < n
  pub rate : rl.per_sec ≡ pos n
  pub distinct : Distinct text_discrete rl.clients
  pub sound :
      (k : Text) (w : ClientWindow) → lookup text_discrete k rl.clients ≡ some w → IsSound n w

-- What a call leaves at the calling client.
unfoldable pub own_window : Limiter → ℕ → Text → ClientWindow
unfolding roll
own_window rl now ip =
    let w =
      roll now (elim (lookup text_discrete ip rl.clients) [ none ↦ fresh now | some w ↦ w ]) in
    if leb_ℤ rl.per_sec (pos w.count) then w else record w { count = w.count + 1 }

-- A call stores the caller's window over the map that `find_window` leaves.
pub admit-clients :
    (rl : Limiter) (now : ℕ) (ip : Text)
    → (admit rl now ip).0 ≡ record rl {
      clients = insert text_discrete ip (own_window rl now ip) (find_window rl now ip).0.clients;
    }
unfolding admit own_window
admit-clients rl now ip = ground arith

find_window-lookup :
    (rl : Limiter) (now : ℕ) (ip k : Text)
    → Distinct text_discrete rl.clients
    → let before = lookup text_discrete k rl.clients in
      let after = lookup text_discrete k (find_window rl now ip).0.clients in
      (after ≡ before)
      ⊎ ((w : ClientWindow) × (before ≡ some w)
          × (after ≡ none)
          × (w.last_seen + rl.idle_after ≤ now))
unfolding find_window
find_window-lookup rl now ip k d =
    let busy = λ (w : ClientWindow). not (leb (w.last_seen + rl.idle_after) now) in
    elim (Option-cases (lookup text_discrete ip rl.clients)) [
      | inr (w, e) ↦ inl (ground arith)
      | inl e ↦ elim (Bool-cases (leb rl.max_clients (length rl.clients))) [
        | inr room ↦ inl (ground arith)
        | inl full ↦ elim (Option-cases (lookup text_discrete k rl.clients)) [
          | inl none_k ↦
              inl (ground (arith, lookup-retain-none text_discrete busy k rl.clients none_k))
          | inr (w, some_k) ↦ elim (Bool-cases (busy w)) [
            | inl b ↦ inl (ground (arith, lookup-retain text_discrete busy k w rl.clients d some_k))
            | inr b ↦ inr (
              w,
              some_k,
              ground (arith, lookup-retain text_discrete busy k w rl.clients d some_k),
              ground arith,
            )
          ]
        ]
      ]
    ]

find_window-Distinct :
    (rl : Limiter) (now : ℕ) (ip : Text)
    → Distinct text_discrete rl.clients
    → Distinct text_discrete (find_window rl now ip).0.clients
unfolding find_window
find_window-Distinct rl now ip d = ground (
  arith,
  retain-Distinct text_discrete (λ w. not (leb (w.last_seen + rl.idle_after) now)) rl.clients d,
)

-- the caller's window after a call
pub lookup-admit_self :
    (rl : Limiter) (now : ℕ) (ip : Text)
    → lookup text_discrete ip (admit rl now ip).0.clients ≡ some (own_window rl now ip)
lookup-admit_self rl now ip =
    rw admit-clients
      (lookup-insert_self text_discrete ip (own_window rl now ip) (find_window rl now ip).0.clients)

-- another client's window after a call: it is unchanged, or it was idle and is gone
pub lookup-admit_other :
    (rl : Limiter) (now : ℕ) (ip k : Text)
    → Distinct text_discrete rl.clients
    → ip ≢ k
    → let before = lookup text_discrete k rl.clients in
      let after = lookup text_discrete k (admit rl now ip).0.clients in
      (after ≡ before)
      ⊎ ((w : ClientWindow) × (before ≡ some w)
          × (after ≡ none)
          × (w.last_seen + rl.idle_after ≤ now))
lookup-admit_other rl now ip k d ne =
    rw
      (
        admit-clients,
        lookup-insert_ne text_discrete ip k (own_window rl now ip) (find_window rl now ip).0.clients
            ne,
      )
      (find_window-lookup rl now ip k d)

own_window-IsSound :
    (n : ℕ) (rl : Limiter) (now : ℕ) (ip : Text)
    → IsValid n rl
    → ((w : ClientWindow) → lookup text_discrete ip rl.clients ≡ some w → w.last_seen ≤ now)
    → IsSound n (own_window rl now ip)
unfolding own_window
own_window-IsSound n rl now ip v old = elim (Option-cases (lookup text_discrete ip rl.clients)) [
  | inl e ↦ ground (arith, v.positive, v.rate)
  | inr (w, e) ↦ ground (arith, v.positive, v.rate, v.sound ip w e, old w e)
]

-- A call on a valid limiter, at a time not before the client was last seen, keeps the invariant:
-- no client has used more than its rate in its window.
pub admit-IsValid :
    (n : ℕ) (rl : Limiter) (now : ℕ) (ip : Text)
    → IsValid n rl
    → ((w : ClientWindow) → lookup text_discrete ip rl.clients ≡ some w → w.last_seen ≤ now)
    → IsValid n (admit rl now ip).0
admit-IsValid n rl now ip v old = record {
  positive = v.positive;
  rate = rw admit-clients v.rate;
  distinct = rw admit-clients (
      insert-Distinct text_discrete ip (own_window rl now ip) (find_window rl now ip).0.clients
        (find_window-Distinct rl now ip v.distinct));
  sound = sound_after;
}
  where
    sound_after :
        (k : Text) (w : ClientWindow)
        → lookup text_discrete k (admit rl now ip).0.clients ≡ some w
        → IsSound n w
    sound_after k w e = elim (text_discrete ip k) [
      | yes p ↦
          let q : own_window rl now ip ≡ w = cc (lookup-admit_self rl now ip) in
          subst (IsSound n) q (own_window-IsSound n rl now ip v old)
      | no p ↦ elim (lookup-admit_other rl now ip k v.distinct p) [
        | inl same ↦ v.sound k w (cc)
        | inr (u, b, a, i) ↦ cc
      ]
    ]
