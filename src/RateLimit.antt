-- ===== src/RateLimit.antt =====
-- internal/dnsengine/ratelimit.go: the per-client fixed-window rate limiter. Times and durations
-- are nanoseconds; `now.Sub(t) >= d` is read as `t + d <= now`.
pub mod Invariant
pub mod Bound
use phantomcore.Base.{
  ℕ, ◌+◌, Bool, true, false, not, Option, none, some, List, [], ◌∷◌, length, leb, ℤ, pos, leb_ℤ,
  Text, lookup, insert, retain, text_discrete, if◌then◌else◌,
}

abbrev pub second : ℕ
second = 1_000_000_000

abbrev pub max_clients_default : ℕ
max_clients_default = 65536

abbrev pub idle_evict_default : ℕ
idle_evict_default = 10_000_000_000

-- `clientWindow`
pub record ClientWindow : Type 0 where
  pub window_start : ℕ
  pub count : ℕ
  pub last_seen : ℕ

-- `rateLimiter`
pub record Limiter : Type 0 where
  pub per_sec : ℤ
  pub max_clients : ℕ
  pub idle_after : ℕ
  pub clients : List (Text × ClientWindow)

-- `newRateLimiter`
unfoldable pub new : ℤ → Limiter
new per_sec = record {
  per_sec = per_sec;
  max_clients = max_clients_default;
  idle_after = idle_evict_default;
  clients = [];
}

-- `evictIdle`
unfoldable pub evict_idle : Limiter → ℕ → Limiter
evict_idle rl now = record rl {
  clients = retain text_discrete (λ w. not (leb (w.last_seen + rl.idle_after) now)) rl.clients;
}

-- The window of a client that is not tracked yet.
abbrev pub fresh : ℕ → ClientWindow
fresh now = record { window_start = now; count = 0; last_seen = 0 }

-- Finds the client's window, or makes room for a new one.
unfoldable pub find_window : Limiter → ℕ → Text → Limiter × ClientWindow
unfolding evict_idle
find_window rl now ip = elim (lookup text_discrete ip rl.clients) [
  | some w ↦ (rl, w)
  | none ↦ (if leb rl.max_clients (length rl.clients) then evict_idle rl now else rl, fresh now)
]

-- Rolls to a fresh window once a full second has elapsed, and stamps the time.
unfoldable pub roll : ℕ → ClientWindow → ClientWindow
roll now w =
    if leb (w.window_start + second) now
    then record { window_start = now; count = 0; last_seen = now }
    else record w { last_seen = now }

-- The part of `allow` behind its first test.
unfoldable pub admit : Limiter → ℕ → Text → Limiter × Bool
unfolding find_window roll
admit rl now ip =
    let (rl', w) = find_window rl now ip in
    let w' = roll now w in
    if leb_ℤ rl.per_sec (pos w'.count)
    then (record rl' { clients = insert text_discrete ip w' rl'.clients }, false)
    else (
      record rl' {
        clients = insert text_discrete ip (record w' { count = w'.count + 1 }) rl'.clients;
      },
      true,
    )

-- `allow`, on a limiter that is not nil
unfoldable pub allow : Limiter → ℕ → Text → Limiter × Bool
unfolding admit
allow rl now ip = if leb_ℤ rl.per_sec (pos 0) then (rl, true) else admit rl now ip

-- `allow`: a nil limiter allows.
unfoldable pub allow_any : Option Limiter → ℕ → Text → Option Limiter × Bool
unfolding allow
allow_any none now ip = (none, true)
allow_any (some rl) now ip = let (rl', ok) = allow rl now ip in (some rl', ok)
