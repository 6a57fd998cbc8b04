-- ===== src/Policy/Scope.antt =====
-- internal/policy/scope.go: per-client scoping of policies.
use Prim.Native.Nat.{bit_and}
use phantomcore.Base.{
  ℕ, zero, Bool, true, false, ◌&&◌, Option, none, some, List, [], ◌∷◌, length, replicate, drop, any,
  ◌==◌, Text, is_empty, trim_space, contains_byte, lookup, text_discrete, if◌then◌else◌,
}
use phantomcore.Policy.Types.{IpNet, Policy, Platform}

-- net.IP.To4: an IPv4 address as four bytes, also from its form in sixteen.
unfoldable pub to4 : List ℕ → Option (List ℕ)
to4 (a ∷ b ∷ c ∷ d ∷ []) = some (a ∷ b ∷ c ∷ d ∷ [])
to4
      (zero ∷ zero ∷ zero ∷ zero ∷ zero ∷ zero ∷ zero ∷ zero ∷ zero ∷ zero ∷ p ∷ q ∷ a ∷ b ∷ c ∷ d
        ∷ []) =
    if p == 255 && q == 255 then some (a ∷ b ∷ c ∷ d ∷ []) else none
to4 _ = none

abbrev short_form : List ℕ → List ℕ
short_form ip = elim (to4 ip) [ none ↦ ip | some v4 ↦ v4 ]

-- net.networkNumberAndMask: the mask in the length of the network's address, none if they differ.
mask_for : ℕ → List ℕ → Option (List ℕ)
mask_for n mask =
    if length mask == n
    then some mask
    else if n == 4 && length mask == 16
    then some (drop 12 mask)
    else none

same_masked : List ℕ → List ℕ → List ℕ → Bool
same_masked (x ∷ xs) (y ∷ ys) (m ∷ ms) = bit_and x m == bit_and y m && same_masked xs ys ms
same_masked _ _ _ = true

-- net.IPNet.Contains
unfoldable pub contains : IpNet → List ℕ → Bool
unfolding to4 mask_for same_masked
contains n ip =
    let nn = short_form n.ip in
    let x = short_form ip in
    elim (mask_for (length nn) n.mask) [
      | none ↦ false
      | some m ↦ length x == length nn && same_masked nn x m
    ]

-- net.CIDRMask(bits, bits): all ones
abbrev host_mask : ℕ → List ℕ
host_mask bytes = replicate bytes 255

module _ (os : Platform) where
  -- `parseClientScope`: `none` is an error.
  unfoldable pub parse_client_scope : Text → Option IpNet
  unfolding to4
  parse_client_scope entry =
      let e = trim_space entry in
      if is_empty e
      then none
      else if contains_byte b'/' e
      then os.parse_cidr e
      else elim (os.parse_ip e) [
        | none ↦ none
        | some ip ↦ some (record {
          ip = ip;
          mask = elim (to4 ip) [ none ↦ host_mask 16 | some _ ↦ host_mask 4 ];
        })
      ]

  -- `parseClientIP`
  unfoldable pub parse_client_ip : Text → Option (List ℕ)
  parse_client_ip raw =
      let r = trim_space raw in
      if is_empty r
      then none
      else os.parse_ip (elim (os.split_host_port r) [ none ↦ r | some host ↦ host ])

abbrev pub is_unscoped : Policy → Bool
is_unscoped p = elim p.client_cidrs [ [] ↦ true | _ ∷ _ ↦ false ]

-- `s.clientNets[p.ID]`
abbrev pub nets_of : List (Text × List IpNet) → Text → List IpNet
nets_of nets id = elim (lookup text_discrete id nets) [ none ↦ [] | some ns ↦ ns ]

-- `matchesClient`, on a policy that is not nil
unfoldable pub matches_client : List (Text × List IpNet) → Policy → Option (List ℕ) → Bool
matches_client nets p client =
    if is_unscoped p
    then true
    else elim client [ none ↦ false | some ip ↦ any (λ n. contains n ip) (nets_of nets p.id) ]
