-- ===== src/Tests/Clients.antt =====
-- internal/dnsengine/ratelimit.go at concrete inputs.
use phantomcore.Base.{
  ℕ, ◌*◌, ◌≤◌, ◌≡◌, refl, none, List, [], ◌∷◌, pos, arith, Text, text, lookup, text_discrete,
  insert,
}
use phantomcore.RateLimit.{second, ClientWindow, Limiter, new, admit, allow}
use phantomcore.RateLimit.Invariant.{IsValid}
use phantomcore.RateLimit.Bound.{new-IsCurrent, admitted, admitted-le}

abbrev limiter : Limiter
limiter = new (pos 2)

abbrev ann : Text
ann = text "10.0.0.9"

limiter-IsValid : IsValid 2 limiter
limiter-IsValid = (new-IsCurrent 2 0 (omega arith)).valid

abbrev requests : List (ℕ × Text)
requests = (5, ann) ∷ (6, ann) ∷ (6, text "10.0.0.8") ∷ (7, ann) ∷ (8, ann) ∷ []

test_admitted : admitted ann limiter requests ≡ 2
unfolding allow admit new phantomcore.RateLimit.find_window phantomcore.RateLimit.roll lookup insert
    text_discrete admitted
test_admitted = refl

admitted-le_example :
    (admitted ann limiter requests ≤ 2 * 2)
    × (lookup text_discrete ann limiter.clients ≡ none → admitted ann limiter requests ≤ 2)
admitted-le_example =
    admitted-le 2 5 ann limiter requests (new-IsCurrent 2 5 (omega arith)) (ground arith)

-- The limiter after two queries of the client.
abbrev spent : Limiter
spent = record limiter {
  clients = (ann, record { window_start = 5; count = 2; last_seen = 6 }) ∷ [];
}

spent-IsValid : IsValid 2 spent
unfolding new lookup
spent-IsValid = record {
  positive = omega arith;
  rate = refl;
  distinct = ground arith;
  sound = λ k w e. record { within = ground arith; seen = ground arith };
}
