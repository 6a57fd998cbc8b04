-- ===== src/Upstream/Schemes.antt =====
-- internal/dnsengine/upstream_manager.go: resolver entries, their transports, and the manager that is
-- built from them. The transports open sockets: `open` gives the resolver, none on an error.
use phantomcore.Base.{
  Bool, ◌||◌, Option, none, some, List, [], ◌∷◌, drop, Text, text, is_empty, same_text, has_prefix,
  to_lower, trim_space, text_discrete, if◌then◌else◌,
}
use phantomcore.Upstream.{Resolver, UpstreamManager}

-- What is before and after the first "://".
unfoldable pub cut_scheme : Text → Option (Text × Text)
unfolding has_prefix
cut_scheme [] = none
cut_scheme (c ∷ s) =
    let later : Option (Text × Text) = elim (cut_scheme s) [
      | none ↦ none
      | some (before, after) ↦ some (c ∷ before, after)
    ] in
    if has_prefix (c ∷ s) (text "://") then some ([], drop 3 (c ∷ s)) else later

-- A scheme with its target: host and port, or for DoH the whole URL.
pub data Transport : Type 0 where
  plain : Text → Transport
  dot : Text → Transport
  doh : Text → Transport

-- net.SplitHostPort succeeds, and net.JoinHostPort.
pub record Ports : Type 0 where
  pub has_port : Text → Bool
  pub join_port : Text → Text → Text

-- `ensurePort`
unfoldable pub ensure_port : Ports → Text → Text → Text
ensure_port ports host port = if ports.has_port host then host else ports.join_port host port

-- The switch of `parseResolverScheme` on the lowered scheme.
unfoldable pub transport_of : Ports → Text → Text → Text → Option Transport
unfolding ensure_port text_discrete
transport_of ports entry scheme rest =
    if same_text scheme (text "udp") || same_text scheme (text "plain")
    then if is_empty rest then none else some (plain rest)
    else if same_text scheme (text "tls")
    then if is_empty rest then none else some (dot (ensure_port ports rest (text "853")))
    else if same_text scheme (text "https")
    then some (doh entry)
    else none

-- `parseResolverScheme`
unfoldable pub parse_resolver_scheme : Ports → Text → Option Transport
unfolding cut_scheme transport_of
parse_resolver_scheme ports raw =
    let entry = trim_space raw in
    let parsed : Option Transport = elim (cut_scheme entry) [
      | none ↦ some (plain entry)
      | some (scheme, rest) ↦ transport_of ports entry (to_lower scheme) rest
    ] in
    if is_empty entry then none else parsed

module _ (ports : Ports) (open_transport : Transport → Option Resolver) where
  -- `newUpstream`
  unfoldable pub new_upstream : Text → Option Resolver
  unfolding parse_resolver_scheme
  new_upstream entry = elim (parse_resolver_scheme ports entry) [
    | none ↦ none
    | some t ↦ open_transport t
  ]

  -- The loop of `NewUpstreamManager`, which stops at the first bad entry.
  unfoldable pub new_upstreams : List Text → Option (List Resolver)
  unfolding new_upstream
  new_upstreams [] = some []
  new_upstreams (entry ∷ entries) =
      let rest = new_upstreams entries in
      elim (new_upstream entry) [
        | none ↦ none
        | some up ↦ elim rest [ none ↦ none | some ups ↦ some (up ∷ ups) ]
      ]

  -- `NewUpstreamManager`, with the option `WithDNS0x20`
  unfoldable pub new_upstream_manager : List Text → Bool → Option UpstreamManager
  unfolding new_upstreams
  new_upstream_manager resolvers dns0x20 = elim (new_upstreams resolvers) [
    | none ↦ none
    | some ups ↦ some (record { upstreams = ups; dns0x20 = dns0x20 })
  ]
