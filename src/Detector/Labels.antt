-- ===== src/Detector/Labels.antt =====
-- internal/threat/detector.go: the parts of a domain name, the allowlist of infrastructure, and the
-- watchlist of brands. Texts are lists of runes; unicode.ToLower on a rune is the parameter `lower`.
use phantomcore.Base.{
  ℕ, Bool, false, ◌||◌, List, [], ◌∷◌, ◌++◌, map, length, ltb, Text, text, is_empty, same_text,
  trim_space, trim_dot, split_at, join_with, any, text_discrete, if◌then◌else◌,
}

-- `parts[:len(parts)-1]`
unfoldable pub init : List Text → List Text
init [] = []
init (x ∷ []) = []
init (x ∷ y ∷ parts) = x ∷ init (y ∷ parts)

unfoldable pub longer : Text → List Text → Text
longer best [] = best
longer best (l ∷ labels) = longer (if ltb (length best) (length l) then l else best) labels

-- `longestLabel`
unfoldable pub longest_label : List Text → Text
unfolding longer
longest_label labels = longer [] labels

-- `infraDomains`
abbrev pub infra_domains : List Text
infra_domains =
    text "cloudfront.net"
    ∷ text "amazonaws.com"
    ∷ text "akamaihd.net"
    ∷ text "akamaized.net"
    ∷ text "sentry.io"
    ∷ text "fastly.net"
    ∷ text "cloudflare.com"
    ∷ text "azurewebsites.net"
    ∷ []

-- `twoLevelTLDs`
abbrev pub two_level_tlds : List Text
two_level_tlds =
    text "co.uk"
    ∷ text "org.uk"
    ∷ text "ac.uk"
    ∷ text "gov.uk"
    ∷ text "co.in"
    ∷ text "co.jp"
    ∷ text "co.kr"
    ∷ text "co.za"
    ∷ text "com.au"
    ∷ text "net.au"
    ∷ text "org.au"
    ∷ text "com.br"
    ∷ text "com.cn"
    ∷ text "com.sg"
    ∷ text "com.mx"
    ∷ text "com.tr"
    ∷ []

-- The loop of `isInfraDomain` over the proper suffixes.
unfoldable pub has_infra_suffix : List Text → Bool
unfolding any text_discrete
has_infra_suffix [] = false
has_infra_suffix (x ∷ parts) =
    any (same_text (join_with b'.' (x ∷ parts))) infra_domains || has_infra_suffix parts

unfoldable pub rest_of : List Text → List Text
rest_of [] = []
rest_of (x ∷ parts) = parts

-- `isInfraDomain`
unfoldable pub is_infra_domain : Text → Bool
unfolding has_infra_suffix
is_infra_domain domain = has_infra_suffix (rest_of (split_at b'.' domain))

-- `brandEntry`
pub record Brand : Type 0 where
  pub domain : Text
  pub label : Text
  pub tld : Text

module _ (lower : ℕ → ℕ) where
  -- The registrable label and the public suffix among the labels of a name.
  unfoldable pub parts_of : List Text → Text × Text
  unfolding any text_discrete
  parts_of [] = ([], [])
  parts_of (x ∷ []) = ([], [])
  parts_of (x ∷ y ∷ []) = (x, map lower y)
  parts_of (x ∷ y ∷ z ∷ []) =
      let last_two = map lower (y ++ b'.' ∷ z) in
      if any (same_text last_two) two_level_tlds then (x, last_two) else (y, map lower z)
  parts_of (x ∷ y ∷ z ∷ w ∷ parts) = parts_of (y ∷ z ∷ w ∷ parts)

  -- `registrableParts`
  unfoldable pub registrable_parts : Text → Text × Text
  unfolding parts_of
  registrable_parts domain = parts_of (split_at b'.' (trim_dot domain))

  -- One round of the loop of `normalizeBrands`.
  unfoldable pub add_brand : Text → List Brand → List Brand
  unfolding registrable_parts
  add_brand raw others =
      let b = trim_dot (trim_space (map lower raw)) in
      let (label, tld) = registrable_parts b in
      if is_empty b
      then others
      else if is_empty label || is_empty tld
      then others
      else record { domain = label ++ b'.' ∷ tld; label = label; tld = tld } ∷ others

  -- `normalizeBrands`
  unfoldable pub normalize_brands : List Text → List Brand
  unfolding add_brand
  normalize_brands [] = []
  normalize_brands (raw ∷ brands) = add_brand raw (normalize_brands brands)
