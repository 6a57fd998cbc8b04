-- ===== src/Detector/Patterns.antt =====
-- internal/threat/detector.go: the regular expressions for generated names, as matchers.
use phantomcore.Base.{
  ℕ, ◌+◌, Bool, true, false, ◌&&◌, ◌||◌, Option, none, some, [], ◌∷◌, length, leb, ◌==◌, Text,
  is_empty, if◌then◌else◌,
}

unfoldable pub every : (ℕ → Bool) → Text → Bool
every p [] = true
every p (c ∷ s) = p c && every p s

unfoldable pub is_digit : ℕ → Bool
is_digit c = leb b'0' c && leb c b'9'

unfoldable pub is_small : ℕ → Bool
is_small c = leb b'a' c && leb c b'z'

unfoldable pub is_hex : ℕ → Bool
unfolding is_digit
is_hex c = is_digit c || leb b'a' c && leb c b'f'

-- [A-Za-z0-9+/]
unfoldable pub is_base64 : ℕ → Bool
unfolding is_digit is_small
is_base64 c = is_small c || leb b'A' c && leb c b'Z' || is_digit c || c == b'+' || c == b'/'

-- `hexPattern`: ^[0-9a-f]{16,}$
unfoldable pub matches_hex : Text → Bool
unfolding every is_hex
matches_hex s = every is_hex s && leb 16 (length s)

-- Splits off the small letters at the front.
unfoldable pub small_prefix : Text → ℕ × Text
unfolding is_small
small_prefix [] = (0, [])
small_prefix (c ∷ s) =
    let (n, rest) = small_prefix s in if is_small c then (n + 1, rest) else (0, c ∷ s)

-- \d
unfoldable pub after_digit : Text → Option Text
unfolding is_digit
after_digit [] = none
after_digit (c ∷ s) = if is_digit c then some s else none

-- [a-z]{2,4}\d
unfoldable pub after_block : Text → Option Text
unfolding small_prefix after_digit
after_block s =
    let (n, rest) = small_prefix s in if leb 2 n && leb n 4 then after_digit rest else none

-- [a-z]*\d?$
unfoldable pub ends_block : Text → Bool
unfolding small_prefix after_digit
ends_block s =
    let rest = (small_prefix s).1 in
    is_empty rest || elim (after_digit rest) [ none ↦ false | some t ↦ is_empty t ]

-- `dgaMixPattern`: ^[a-z]{2,4}\d[a-z]{2,4}\d[a-z]*\d?$. Letters and digits exclude each other, so
-- there is one way to cut a text.
unfoldable pub matches_dga_mix : Text → Bool
unfolding after_block ends_block
matches_dga_mix s = elim (after_block s) [
  | none ↦ false
  | some t ↦ elim (after_block t) [ none ↦ false | some u ↦ ends_block u ]
]

-- `base64Pattern`: ^[A-Za-z0-9+/]*[+/=][A-Za-z0-9+/=]{15,}$, tried at each place for the middle rune.
unfoldable pub matches_base64 : Text → Bool
unfolding every is_base64
matches_base64 [] = false
matches_base64 (c ∷ s) =
    (c == b'+' || c == b'/' || c == b'=')
      && every (λ d. is_base64 d || d == b'=') s
      && leb 15 (length s)
    || is_base64 c && matches_base64 s

-- The loop that counts digits.
unfoldable pub count_digits : Text → ℕ
unfolding is_digit
count_digits [] = 0
count_digits (c ∷ s) = let n = count_digits s in if is_digit c then n + 1 else n
