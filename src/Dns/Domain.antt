-- ===== src/Dns/Domain.antt =====
-- internal/dnsengine/engine.go: `normalizeDomain`, `stripSearchDomain`, `isAbusedTLD`.
use phantomcore.Base.{
  ◌-◌, ◌≡◌, refl, Bool, true, Option, some, List, [], ◌∷◌, any, length, take, drop, ltb, ◌==◌, Text,
  text, same_text, to_lower, trim_dot, split_at, join_with, text_discrete, lookup, if◌then◌else◌,
}

-- `normalizeDomain`
unfoldable pub normalize_domain : Text → Text
normalize_domain d = trim_dot (to_lower d)

-- `localSuffixes`
abbrev pub local_suffixes : List Text
local_suffixes =
    text "lan"
    ∷ text "local"
    ∷ text "home"
    ∷ text "internal"
    ∷ text "localdomain"
    ∷ text "domain.name"
    ∷ text "hgu_lan"
    ∷ text "fritz.box"
    ∷ text "mynetwork"
    ∷ text "belkin"
    ∷ text "router"
    ∷ text "gateway"
    ∷ text "dlink"
    ∷ []

unfoldable pub is_local_suffix : Text → Bool
is_local_suffix s = any (λ t. same_text t s) local_suffixes

-- `stripSearchDomain`: a name that is not shortened is returned as it is.
unfoldable pub strip_search_domain : Text → Text
unfolding is_local_suffix
strip_search_domain domain =
    let parts = split_at b'.' domain in
    let n = length parts in
    if ltb n 3
    then domain
    else if is_local_suffix (join_with b'.' (drop (n - 2) parts))
    then join_with b'.' (take (n - 2) parts)
    else if is_local_suffix (join_with b'.' (drop (n - 1) parts))
    then join_with b'.' (take (n - 1) parts)
    else domain

-- What follows the last dot: the part after `strings.LastIndex(domain, ".")`, or all of it.
after_last_dot : Text → Text → Text
after_last_dot tld [] = tld
after_last_dot tld (c ∷ s) = after_last_dot (if c == b'.' then s else tld) s

-- `isAbusedTLD`
unfoldable pub is_abused_tld : List Text → Text → Bool
unfolding after_last_dot
is_abused_tld abused domain =
    any (λ t. same_text t (to_lower (after_last_dot domain domain))) abused

-- `safeSearchTargets`
abbrev pub safe_search_targets : List (Text × Text)
safe_search_targets =
    (text "google.com", text "forcesafesearch.google.com")
    ∷ (text "www.google.com", text "forcesafesearch.google.com")
    ∷ (text "bing.com", text "strict.bing.com")
    ∷ (text "www.bing.com", text "strict.bing.com")
    ∷ (text "duckduckgo.com", text "safe.duckduckgo.com")
    ∷ (text "youtube.com", text "restrictmoderate.youtube.com")
    ∷ (text "www.youtube.com", text "restrictmoderate.youtube.com")
    ∷ (text "m.youtube.com", text "restrictmoderate.youtube.com")
    ∷ (text "youtubei.googleapis.com", text "restrictmoderate.youtube.com")
    ∷ (text "youtube.googleapis.com", text "restrictmoderate.youtube.com")
    ∷ []

unfoldable pub safe_search_target : Text → Option Text
safe_search_target domain = lookup text_discrete domain safe_search_targets

test_domain :
    (strip_search_domain (text "godaddy.com.hgu_lan") ≡ text "godaddy.com")
    × (strip_search_domain (text "a.b.fritz.box") ≡ text "a.b")
    × (strip_search_domain (text "printer.lan") ≡ text "printer.lan")
    × (is_abused_tld (text "xyz" ∷ []) (text "bad.site.xyz") ≡ true)
    × (safe_search_target (text "bing.com") ≡ some (text "strict.bing.com"))
unfolding strip_search_domain is_abused_tld split_at join_with any text_discrete to_lower
    safe_search_target lookup
test_domain = (refl, refl, refl, refl, refl)
