-- ===== src/Geo.antt =====
-- internal/geoip: the filter of answers by network and country, in geoip.go, and the reading of a
-- record of the database in maxmind.go. Addresses are lists of bytes, the empty one being nil.
pub mod Listing
pub mod Blocked
use phantomcore.Base.{
  ℕ, Bool, true, false, ◌&&◌, ◌||◌, not, Option, none, some, List, [], ◌∷◌, ◌++◌, any, Text, text,
  is_empty, same_text, text_discrete, to_upper, trim_space, itoa, if◌then◌else◌, ◌==◌,
}

-- `Decision`
pub record GeoDecision : Type 0 where
  pub matched : Bool
  pub block : Bool
  pub ip : Text
  pub asn : ℕ
  pub country : Text
  pub reason : Text

abbrev pub no_match : GeoDecision
no_match = record { matched = false; block = false; ip = []; asn = 0; country = []; reason = [] }

-- What `Resolver` answers for an address: none is its error.
abbrev pub Resolver : Type 0
Resolver = List ℕ → Option (ℕ × Text)

-- `Filter`
pub record Filter : Type 0 where
  pub resolver : Resolver
  pub blocked_asns : List ℕ
  pub blocked_countries : List Text
  pub block : Bool

-- The loop of `NewFilter` over the countries.
unfoldable pub country_set : List Text → List Text
country_set [] = []
country_set (c ∷ countries) =
    let u = to_upper (trim_space c) in
    let rest = country_set countries in if is_empty u then rest else u ∷ rest

abbrev pub is_nil : {A : Type 0} → List A → Bool
is_nil [] = true
is_nil (_ ∷ _) = false

-- `NewFilter`
unfoldable pub new_filter : Option Resolver → List ℕ → List Text → Bool → Option Filter
unfolding country_set
new_filter none asns countries block = none
new_filter (some resolver) asns countries block =
    let set = country_set countries in
    if is_nil asns && is_nil set
    then none
    else some (record {
      resolver = resolver;
      blocked_asns = asns;
      blocked_countries = set;
      block = block;
    })

-- `BlockMode`, on a receiver that may be nil
unfoldable pub block_mode : Option Filter → Bool
block_mode none = false
block_mode (some f) = f.block

-- The fields that are read of a record of the database.
pub record MmRecord : Type 0 where
  pub country : Text
  pub registered_country : Text
  pub autonomous_system_number : ℕ

-- `Lookup` of the database's resolver
unfoldable pub lookup_record : (List ℕ → Option MmRecord) → Resolver
lookup_record db ip = elim (db ip) [
  | none ↦ none
  | some r ↦
      some
        (r.autonomous_system_number, if is_empty r.country then r.registered_country else r.country)
]

-- `FromConfig`: none is the error of a database that does not open.
unfoldable pub from_config :
    (Text → Option (List ℕ → Option MmRecord))
    → Text
    → List ℕ
    → List Text
    → Bool
    → Option (Option Filter)
unfolding new_filter lookup_record
from_config open_db path asns countries block =
    if is_empty path then some none else elim (open_db path) [
      | none ↦ none
      | some db ↦ some (new_filter (some (lookup_record db)) asns countries block)
    ]

module _ (ip_string : List ℕ → Text) (f : Filter) where
  abbrev pub asn_match : List ℕ → ℕ → GeoDecision
  asn_match ip asn = record no_match {
    matched = true;
    block = f.block;
    ip = ip_string ip;
    asn = asn;
    reason = text "answer IP " ++ (ip_string ip ++ (text " in blocked ASN " ++ itoa asn));
  }

  abbrev pub country_match : List ℕ → Text → GeoDecision
  country_match ip country = record no_match {
    matched = true;
    block = f.block;
    ip = ip_string ip;
    country = country;
    reason = text "answer IP " ++ (ip_string ip ++ (text " in blocked country " ++ country));
  }

  -- The two tests of `Evaluate` on what was looked up for an address; none is to go on.
  unfoldable pub match_record : List ℕ → ℕ × Text → Option GeoDecision
  unfolding any text_discrete
  match_record ip (asn, found) =
      let country = to_upper found in
      if not (asn == 0) && any (λ n. asn == n) f.blocked_asns
      then some (asn_match ip asn)
      else if not (is_empty country) && any (same_text country) f.blocked_countries
      then some (country_match ip country)
      else none

  -- One round of the loop.
  unfoldable pub match_ip : List ℕ → Option GeoDecision
  unfolding match_record
  match_ip [] = none
  match_ip (b ∷ bytes) = elim (f.resolver (b ∷ bytes)) [
    | none ↦ none
    | some r ↦ match_record (b ∷ bytes) r
  ]

  -- The loop of `Evaluate`.
  unfoldable pub first_match : List (List ℕ) → GeoDecision
  unfolding match_ip
  first_match [] = no_match
  first_match (ip ∷ ips) =
      let rest = first_match ips in elim (match_ip ip) [ none ↦ rest | some d ↦ d ]

-- `Evaluate`, on a receiver that may be nil
unfoldable pub evaluate : (List ℕ → Text) → Option Filter → List (List ℕ) → GeoDecision
unfolding first_match
evaluate ip_string none ips = no_match
evaluate ip_string (some f) ips = first_match ip_string f ips
