-- ===== src/Base/Strings.antt =====
-- Go strings as lists of bytes. The texts that the program handles (host names, addresses, day
-- names) are ASCII, and the `strings` functions below are Go's on ASCII texts.
use Prim.Native.Nat.{ℕ, ◌+◌, ◌-◌}
use Prim.Native.Char.{code}
use Prim.Native.String.{String}
use mathlib.Core.Path.{◌≡◌, refl}
use mathlib.Core.Bool.{Bool, true, false, ◌&&◌, ◌||◌}
use mathlib.Core.List.{List, [], ◌∷◌, ◌++◌, map}
use native.Mathlib.Decide.{ℕ_discrete}
use mathlib.Core.Logic.{◌≢◌}
use native.Mathlib.Omega.{arith}
use phantomcore.Base.Tests.{if◌then◌else◌, leb, ◌==◌}

abbrev pub Text : Type 0
Text = List ℕ

-- A string literal.
abbrev pub text : String → Text
text String.[] = []
text (String.◌∷◌ c s) = code c ∷ text s

text_discrete_cons : {x y : ℕ} {xs ys : Text} → Dec (x ≡ y) → Dec (xs ≡ ys) → Dec (x ∷ xs ≡ y ∷ ys)
text_discrete_cons (yes p) (yes q) = yes (cc)
text_discrete_cons (no p) d = no (λ e. p (cc))
text_discrete_cons (yes p) (no q) = no (λ e. q (cc))

unfoldable pub text_discrete : Discrete Text
unfolding text_discrete_cons ℕ_discrete
text_discrete [] [] = yes refl
text_discrete [] (y ∷ ys) = no (λ e. cc)
text_discrete (x ∷ xs) [] = no (λ e. cc)
text_discrete (x ∷ xs) (y ∷ ys) = text_discrete_cons (ℕ_discrete x y) (text_discrete xs ys)

-- `s == t`
abbrev pub same_text : Text → Text → Bool
same_text s t = elim (text_discrete s t) [ yes _ ↦ true | no _ ↦ false ]

pub same_text_yes : (s t : Text) → s ≡ t → same_text s t ≡ true
same_text_yes s t e = ground arith

pub same_text-true : (s t : Text) → same_text s t ≡ true → s ≡ t
same_text-true s t h = ground arith

pub same_text_no : (s t : Text) → s ≢ t → same_text s t ≡ false
same_text_no s t n = ground arith

abbrev pub is_empty : Text → Bool
is_empty [] = true
is_empty (_ ∷ _) = false

-- `strings.ToLower` and `strings.ToUpper`, one byte
unfoldable pub lower_byte : ℕ → ℕ
lower_byte c = if leb b'A' c && leb c b'Z' then c + 32 else c

unfoldable pub upper_byte : ℕ → ℕ
upper_byte c = if leb b'a' c && leb c b'z' then c - 32 else c

unfoldable pub to_lower : Text → Text
unfolding lower_byte
to_lower s = map lower_byte s

unfoldable pub to_upper : Text → Text
unfolding upper_byte
to_upper s = map upper_byte s

-- unicode.IsSpace on ASCII: tab, newline, vertical tab, form feed, return, space
abbrev pub is_space : ℕ → Bool
is_space c = leb 9 c && leb c 13 || c == 32

unfoldable pub trim_left : Text → Text
trim_left [] = []
trim_left (c ∷ s) = let rest = trim_left s in if is_space c then rest else c ∷ s

-- Drops the spaces at the end.
unfoldable pub trim_right : Text → Text
trim_right [] = []
trim_right (c ∷ s) = let rest = trim_right s in if is_space c && is_empty rest then [] else c ∷ rest

-- `strings.TrimSpace`
unfoldable pub trim_space : Text → Text
unfolding trim_left trim_right
trim_space s = trim_right (trim_left s)

-- `strings.TrimSuffix(s, ".")`
unfoldable pub trim_dot : Text → Text
trim_dot [] = []
trim_dot (c ∷ []) = if c == b'.' then [] else c ∷ []
trim_dot (c ∷ d ∷ s) = c ∷ trim_dot (d ∷ s)

-- `strings.HasPrefix(s, p)`
unfoldable pub has_prefix : Text → Text → Bool
has_prefix s [] = true
has_prefix [] (c ∷ p) = false
has_prefix (d ∷ s) (c ∷ p) = d == c && has_prefix s p

-- `strings.HasSuffix(s, t)`
unfoldable pub has_suffix : Text → Text → Bool
has_suffix [] t = same_text [] t
has_suffix (c ∷ s) t = same_text (c ∷ s) t || has_suffix s t

-- `strings.Contains(s, t)` for a text t that is not empty
unfoldable pub contains_text : Text → Text → Bool
unfolding has_prefix
contains_text [] t = false
contains_text (c ∷ s) t = has_prefix (c ∷ s) t || contains_text s t

-- `strings.Contains(s, c)` for a one-byte text
unfoldable pub contains_byte : ℕ → Text → Bool
contains_byte c [] = false
contains_byte c (d ∷ s) = d == c || contains_byte c s

-- `strings.Split(s, sep)` for a one-byte separator: never empty
unfoldable pub split_at : ℕ → Text → List Text
split_at sep [] = [] ∷ []
split_at sep (c ∷ s) = elim (split_at sep s) [
  | [] ↦ (c ∷ []) ∷ []
  | part ∷ parts ↦ if c == sep then [] ∷ part ∷ parts else (c ∷ part) ∷ parts
]

-- `strings.Join(parts, sep)` for a one-byte separator
unfoldable pub join_with : ℕ → List Text → Text
join_with sep [] = []
join_with sep (p ∷ []) = p
join_with sep (p ∷ q ∷ ps) = p ++ sep ∷ join_with sep (q ∷ ps)

test_text :
    (split_at b'.' (text "a.bc.") ≡ text "a" ∷ text "bc" ∷ [] ∷ [])
    × (join_with b'.' (text "a" ∷ text "bc" ∷ []) ≡ text "a.bc")
    × (trim_space (text "  a b ") ≡ text "a b")
    × (trim_dot (text "a.b.") ≡ text "a.b")
    × (has_suffix (text "x.com") (text ".com") ≡ true)
    × (to_lower (text "A-z") ≡ text "a-z")
unfolding split_at join_with trim_space trim_dot has_suffix to_lower text_discrete
test_text = (refl, refl, refl, refl, refl, refl)
