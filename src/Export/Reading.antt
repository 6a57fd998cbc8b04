-- ===== src/Export/Reading.antt =====
-- internal/dnsengine/export.go: a reader of the structured data, and that it undoes the escapes.
use phantomcore.Base.{
  ℕ, ◌≡◌, refl, false, Option, none, some, List, [], ◌∷◌, ◌++◌, ◌==◌, arith, Text, Bool-cases, inl,
  inr, if◌then◌else◌,
}
use phantomcore.Export.Syslog.{is_special, escape_sd, syslog_sd_id}

abbrev with_front : ℕ → Option (Text × Text) → Option (Text × Text)
with_front c none = none
with_front c (some (s, rest)) = some (c ∷ s, rest)

-- The value of a parameter up to its closing quote, and what follows: a backslash takes the next byte
-- as it is, and a bracket without a backslash is refused.
unfoldable pub read_value : Text → Option (Text × Text)
read_value [] = none
read_value (c ∷ []) = if c == 34 then some ([], []) else none
read_value (c ∷ d ∷ s) =
    let escaped = with_front d (read_value s) in
    let plain = with_front c (read_value (d ∷ s)) in
    if c == 34
    then some ([], d ∷ s)
    else if c == 92
    then escaped
    else if c == 93
    then none
    else plain

unfoldable pub strip_prefix : Text → Text → Option Text
strip_prefix [] s = some s
strip_prefix (c ∷ p) [] = none
strip_prefix (c ∷ p) (d ∷ s) = let rest = strip_prefix p s in if c == d then rest else none

-- ` name="value"` for each of the names, and what follows.
unfoldable pub read_params : List Text → Text → Option (List Text × Text)
unfolding read_value strip_prefix
read_params [] s = some ([], s)
read_params (name ∷ names) s = elim (strip_prefix (b' ' ∷ (name ++ b'=' ∷ 34 ∷ [])) s) [
  | none ↦ none
  | some t ↦ elim (read_value t) [
    | none ↦ none
    | some (value, u) ↦ elim (read_params names u) [
      | none ↦ none
      | some (values, rest) ↦ some (value ∷ values, rest)
    ]
  ]
]

-- The structured data of this program: its identifier, then its parameters.
unfoldable pub read_sd : List Text → Text → Option (List Text × Text)
unfolding strip_prefix read_params
read_sd ns s = elim (strip_prefix (b'[' ∷ syslog_sd_id) s) [
  | none ↦ none
  | some t ↦ read_params ns t
]

read_value_plain :
    (c : ℕ) (t v rest : Text)
    → is_special c ≡ false
    → read_value t ≡ some (v, rest)
    → read_value (c ∷ t) ≡ some (c ∷ v, rest)
unfolding read_value is_special
read_value_plain c [] v rest h e = cc
read_value_plain c (d ∷ s) v rest h e = ground (arith, h, e)

read_value_escaped :
    (c : ℕ) (t v rest : Text)
    → read_value t ≡ some (v, rest)
    → read_value (92 ∷ c ∷ t) ≡ some (c ∷ v, rest)
unfolding read_value
read_value_escaped c t v rest e = ground (arith, e)

pub read_value-escape_sd : (s rest : Text) → read_value (escape_sd s ++ 34 ∷ rest) ≡ some (s, rest)
unfolding escape_sd read_value
read_value-escape_sd [] [] = refl
read_value-escape_sd [] (c ∷ rest) = refl
read_value-escape_sd (c ∷ s) rest =
    let e = read_value-escape_sd s rest in
    elim (Bool-cases (is_special c)) [
      | inl h ↦ rw h (read_value_escaped c (escape_sd s ++ 34 ∷ rest) s rest e)
      | inr h ↦ rw h (read_value_plain c (escape_sd s ++ 34 ∷ rest) s rest h e)
    ]

pub strip_prefix_append : (p s : Text) → strip_prefix p (p ++ s) ≡ some s
unfolding strip_prefix
strip_prefix_append [] s = refl
strip_prefix_append (c ∷ p) s = let e = strip_prefix_append p s in ground (arith, e)
