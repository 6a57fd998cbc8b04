-- ===== src/Export/Exporter.antt =====
-- internal/dnsengine/export.go: the exporter with its sinks. A move is one atomic step of a query, of
-- the worker or of Close.
use phantomcore.Base.{
  ℕ, Bool, Option, none, some, List, [], ◌∷◌, ◌++◌, map, Text, text, is_empty, any, same_text,
  to_lower, trim_space, text_discrete, contains_text, if◌then◌else◌,
}
use phantomcore.Dns.State.{Event}
use phantomcore.Outbox.{Outbox, empty_outbox, offer, receive, close}

-- The networks that `parseSyslogAddr` accepts.
abbrev pub networks : List Text
networks = text "udp" ∷ text "udp4" ∷ text "udp6" ∷ text "tcp" ∷ text "tcp4" ∷ text "tcp6" ∷ []

-- The checks at the end of `parseSyslogAddr`.
unfoldable pub accept_target : Text × Text → Option (Text × Text)
unfolding any text_discrete
accept_target (network, address) =
    if any (same_text network) networks
    then if is_empty address then none else some (network, address)
    else none

-- `parseSyslogAddr`; url.Parse gives the scheme and the host.
unfoldable pub parse_syslog_addr : (Text → Option (Text × Text)) → Text → Option (Text × Text)
unfolding accept_target contains_text
parse_syslog_addr url_parse raw =
    let addr = trim_space raw in
    let parsed : Option (Text × Text) = elim (url_parse addr) [
      | none ↦ none
      | some (scheme, host) ↦ accept_target (to_lower scheme, host)
    ] in
    if is_empty addr
    then none
    else if contains_text addr (text "://")
    then parsed
    else accept_target (text "udp", addr)

-- `Sink`: what is written where.
pub data Sink : Type 0 where
  syslog_sink : (network address : Text) → Sink
  webhook_sink : (url : Text) → Sink

-- `newSyslogSink`; `dial` says whether net.Dial succeeds.
unfoldable pub new_syslog_sink :
    (Text → Option (Text × Text)) → (Text → Text → Bool) → Text → Option Sink
unfolding parse_syslog_addr
new_syslog_sink url_parse dial addr = elim (parse_syslog_addr url_parse addr) [
  | none ↦ none
  | some (network, address) ↦
      if dial network address then some (syslog_sink network address) else none
]

-- `Exporter`: `current` is the event in the worker's hands, `sends` are the calls of `Send`, whose
-- errors are only logged, and `shut` the sinks that Close has closed.
pub record Exporter : Type 0 where
  pub outbox : Outbox Event
  pub sinks : List Sink
  pub current : Option Event
  pub sends : List (Sink × Event)
  pub shut : List Sink

abbrev pub export_queue_size : ℕ
export_queue_size = 1024

unfoldable pub exporter_of : List Sink → Exporter
unfolding empty_outbox
exporter_of sinks = record {
  outbox = empty_outbox export_queue_size;
  sinks = sinks;
  current = none;
  sends = [];
  shut = [];
}

abbrev pub of_option : Option Sink → List Sink
of_option none = []
of_option (some s) = s ∷ []

-- `NewExporter`: `none` when no sink is left, which callers treat as off.
unfoldable pub new_exporter :
    (Text → Option (Text × Text)) → (Text → Text → Bool) → Text → Text → Option Exporter
unfolding new_syslog_sink exporter_of
new_exporter url_parse dial syslog_addr webhook_url =
    let syslog =
      if is_empty (trim_space syslog_addr)
      then []
      else of_option (new_syslog_sink url_parse dial syslog_addr) in
    let webhook = if is_empty (trim_space webhook_url) then [] else webhook_sink webhook_url ∷ [] in
    elim (syslog ++ webhook) [ [] ↦ none | s ∷ ss ↦ some (exporter_of (s ∷ ss)) ]

-- `Export` on an exporter; `none` is the panic of a send after Close.
unfoldable pub export_to : Event → Exporter → Option Exporter
unfolding offer
export_to ev x = elim (offer ev x.outbox) [ none ↦ none | some o ↦ some (record x { outbox = o }) ]

-- `Export`, on a receiver that may be nil
unfoldable pub export_event : Event → Option Exporter → Option (Option Exporter)
unfolding export_to
export_event ev none = some none
export_event ev (some x) = elim (export_to ev x) [ none ↦ none | some x' ↦ some (some x') ]

-- The worker receives in the loop of `run`.
unfoldable pub take_event : Exporter → Option Exporter
unfolding receive
take_event x = elim x.current [
  | some ev ↦ none
  | none ↦ elim (receive x.outbox) [
    | none ↦ none
    | some (ev, o) ↦ some (record x { outbox = o; current = some ev })
  ]
]

-- The inner loop of `run`: the event goes to each sink in turn.
unfoldable pub send_current : Exporter → Option Exporter
send_current x = elim x.current [
  | none ↦ none
  | some ev ↦ some (record x { current = none; sends = x.sends ++ map (λ s. (s, ev)) x.sinks })
]

-- The first half of `Close`.
unfoldable pub close_export : Exporter → Exporter
unfolding close
close_export x = record x { outbox = close x.outbox }

-- The rest of `Close`, once the worker has returned: the queue is closed and empty.
unfoldable pub close_sinks : Exporter → Option Exporter
close_sinks x = elim x.current [
  | some ev ↦ none
  | none ↦ elim x.outbox.waiting [
    | [] ↦ if x.outbox.closed then some (record x { shut = x.sinks }) else none
    | ev ∷ evs ↦ none
  ]
]

pub data Move : Type 0 where
  exporting : Event → Move
  taking : Move
  sending : Move
  closing : Move
  shutting : Move

unfoldable pub step : Move → Exporter → Option Exporter
unfolding export_to take_event send_current close_export close_sinks
step (exporting ev) x = export_to ev x
step taking x = take_event x
step sending x = send_current x
step closing x = some (close_export x)
step shutting x = close_sinks x

unfoldable pub run : List Move → Exporter → Option Exporter
unfolding step
run [] x = some x
run (m ∷ ms) x = elim (step m x) [ none ↦ none | some x' ↦ run ms x' ]
