-- ===== src/Dns/Answering.antt =====
-- internal/dnsengine/engine.go and fastflux.go: the answers the handler makes up itself, the address
-- records of an answer, and what is logged and counted.
use phantomcore.Base.{
  ℕ, suc, ◌^◌, ◌-◌, Bool, true, false, Option, none, some, List, [], ◌∷◌, ◌++◌, ltb, ◌==◌, Text,
  text, is_empty, same_text, if◌then◌else◌,
}
use phantomcore.Message.{
  RecordData, a, aaaa, cname, other, Rr, Msg, type_aaaa, rcode_server_failure,
}
use phantomcore.Dns.State.{
  Threat, Wiring, Engine, Event, Effect, export, submit, count_blocked, device_hit, Call,
}

-- `m.Answer = append(m.Answer, rr)`
abbrev with_answer : Msg → Rr → Msg
with_answer m rr = record m { answer = m.answer ++ (rr ∷ []) }

-- `respondBlocked`: the message it writes
unfoldable pub respond_blocked : Wiring → Call → Msg
respond_blocked wired c =
    let m = wired.set_reply c.msg in
    let rr =
      if c.question.qtype == type_aaaa
      then wired.new_rr (c.question.name ++ text " 60 IN AAAA ::")
      else wired.new_rr (c.question.name ++ text " 60 IN A 0.0.0.0") in
    elim rr [ none ↦ m | some rr ↦ with_answer m rr ]

-- A reply with one record, or SERVFAIL when the record does not parse.
unfoldable pub respond_record : Wiring → Call → Text → Msg
respond_record wired c line = elim (wired.new_rr line) [
  | none ↦ wired.set_rcode c.msg rcode_server_failure
  | some rr ↦ with_answer (wired.set_reply c.msg) rr
]

-- `respondRedirect`
unfoldable pub respond_redirect : Wiring → Call → Text → Msg
unfolding respond_record
respond_redirect wired c ip = respond_record wired c (c.domain ++ (text " 60 IN A " ++ ip))

-- `respondSafeSearch`
unfoldable pub respond_safe_search : Wiring → Call → Text → Msg
unfolding respond_record
respond_safe_search wired c target =
    respond_record wired c (c.question.name ++ (text " 60 IN CNAME " ++ wired.fqdn target))

-- The address of an A or AAAA record.
unfoldable pub address_of : RecordData → Option (List ℕ)
address_of (a ip) = some ip
address_of (aaaa ip) = some ip
address_of (cname _) = none
address_of (other _) = none

-- Whether `filterRebind` drops a record; `is_internal` is the disjunction of Go's tests on it.
unfoldable pub is_rebind : (List ℕ → Bool) → Rr → Bool
unfolding address_of
is_rebind internal rr = elim (address_of rr.rdata) [ none ↦ false | some ip ↦ internal ip ]

-- `filterRebind`
unfoldable pub filter_rebind : (List ℕ → Bool) → List Rr → List Rr × ℕ
unfolding is_rebind
filter_rebind internal [] = ([], 0)
filter_rebind internal (rr ∷ rrs) =
    let (kept, dropped) = filter_rebind internal rrs in
    if is_rebind internal rr then (kept, suc dropped) else (rr ∷ kept, dropped)

-- `answerIPs`
unfoldable pub answer_ips : List Rr → List (List ℕ)
unfolding address_of
answer_ips [] = []
answer_ips (rr ∷ rrs) =
    let rest = answer_ips rrs in elim (address_of rr.rdata) [ none ↦ rest | some ip ↦ ip ∷ rest ]

-- The smallest TTL of the address records of an answer.
unfoldable pub address_ttl : ℕ → List Rr → ℕ
unfolding address_of
address_ttl least [] = least
address_ttl least (rr ∷ rrs) = elim (address_of rr.rdata) [
  | none ↦ address_ttl least rrs
  | some _ ↦ address_ttl (if ltb rr.ttl least then rr.ttl else least) rrs
]

-- `extractAnswerIPs`: `none` is its `ok` being false.
unfoldable pub extract_answer_ips : Msg → Option (List (List ℕ) × ℕ)
unfolding answer_ips address_ttl
extract_answer_ips resp = elim (answer_ips resp.answer) [
  | [] ↦ none
  | ip ∷ ips ↦ some (ip ∷ ips, address_ttl (2 ^ 32 - 1) resp.answer)
]

-- `logQuery`
unfoldable pub log_query : Engine → Call → Text → Text → Threat → List Effect
log_query e c action reason tr =
    let ev : Event = record {
      domain = c.domain;
      client_ip = c.client_ip;
      action = action;
      is_suspicious = tr.is_suspicious;
      threat_score = tr.threat_score;
      detection_method = tr.detection_method;
      threat_reason = tr.reason;
    } in
    let stats = if same_text action (text "flagged") then text "allow" else action in
    export ev ∷ (if e.has_query_log then submit ev reason stats ∷ [] else [])

-- `clientIPOnly`
unfoldable pub client_ip_only : Wiring → Text → Text
client_ip_only wired addr =
    if is_empty addr then [] else elim (wired.split_host_port addr) [ none ↦ addr | some h ↦ h ]

-- `metrics.RecordBlocked` and `recordBlocked`
unfoldable pub record_blocked : Wiring → Engine → Call → List Effect
unfolding client_ip_only
record_blocked wired e c =
    count_blocked
    ∷ (if e.has_alerter then device_hit (client_ip_only wired c.client_ip) c.domain ∷ [] else [])

-- `enrichThreat`, with its 0.6 in hundredths
unfoldable pub enrich_threat : Threat → Text → Threat
enrich_threat tr reason = record tr {
  is_suspicious = true;
  detection_method = if is_empty tr.detection_method then text "geoip" else tr.detection_method;
  reason = if is_empty tr.reason then reason else tr.reason;
  threat_score = if tr.threat_score == 0 then 60 else tr.threat_score;
}
