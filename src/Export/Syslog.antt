-- ===== src/Export/Syslog.antt =====
-- internal/dnsengine/export.go: an event as a line of RFC 5424. Scores are hundredths, so two decimals
-- print them in full; the time comes as its RFC 3339 text, none for the zero time.
use phantomcore.Base.{
  ℕ, ◌+◌, ◌*◌, ◌/◌, ◌%◌, Bool, true, false, ◌||◌, Option, none, some, List, [], ◌∷◌, ◌++◌, ◌==◌,
  Text, text, is_empty, same_text, has_prefix, itoa, text_discrete, if◌then◌else◌,
}
use phantomcore.Dns.State.{Event}

-- `severityFor`
unfoldable pub severity_for : Text → ℕ
unfolding text_discrete
severity_for action =
    if same_text action (text "error")
    then 3
    else if same_text action (text "flagged")
    then 4
    else if same_text action (text "block") || same_text action (text "redirect")
    then 5
    else 6

-- `nilIfEmpty`
unfoldable pub nil_if_empty : Text → Text
nil_if_empty s = if is_empty s then text "-" else s

-- The three bytes that `escapeSD` escapes: backslash, double quote, closing bracket.
unfoldable pub is_special : ℕ → Bool
is_special c = c == 92 || c == 34 || c == 93

-- `escapeSD`
unfoldable pub escape_sd : Text → Text
unfolding is_special
escape_sd [] = []
escape_sd (c ∷ s) = let rest = escape_sd s in if is_special c then 92 ∷ c ∷ rest else c ∷ rest

-- `strconv.FormatBool`
unfoldable pub bool_text : Bool → Text
bool_text true = text "true"
bool_text false = text "false"

-- `strconv.FormatFloat(score, 'f', 2, 64)`
unfoldable pub score_text : ℕ → Text
unfolding itoa
score_text n = itoa (n / 100) ++ b'.' ∷ (b'0' + n / 10 % 10) ∷ (b'0' + n % 10) ∷ []

abbrev pub syslog_sd_id : Text
syslog_sd_id = text "hydradns@32473"

-- ` name="value"`
unfoldable pub param : Text × Text → Text
param (name, value) = b' ' ∷ (name ++ b'=' ∷ 34 ∷ (value ++ 34 ∷ []))

unfoldable pub params : List (Text × Text) → Text
unfolding param
params [] = []
params (f ∷ fs) = param f ++ params fs

-- The parameters of the structured data, with their values escaped.
unfoldable pub sd_params : Event → List (Text × Text)
unfolding escape_sd bool_text score_text
sd_params ev =
    (text "domain", escape_sd ev.domain)
    ∷ (text "client", escape_sd ev.client_ip)
    ∷ (text "action", escape_sd ev.action)
    ∷ (text "suspicious", bool_text ev.is_suspicious)
    ∷ (text "score", score_text ev.threat_score)
    ∷ (text "method", escape_sd ev.detection_method)
    ∷ (text "reason", escape_sd ev.threat_reason)
    ∷ []

unfoldable pub structured_data : Event → Text
unfolding params sd_params
structured_data ev = b'[' ∷ (syslog_sd_id ++ params (sd_params ev)) ++ b']' ∷ []

-- `formatRFC5424`
unfoldable pub format_rfc5424 : (hostname app_name proc_id : Text) → Option Text → Event → Text
unfolding severity_for nil_if_empty structured_data itoa
format_rfc5424 hostname app_name proc_id t ev =
    let pri = 16 * 8 + severity_for ev.action in
    let ts : Text = elim t [ none ↦ text "-" | some s ↦ s ] in
    let msg =
      text "dns query domain="
      ++ (ev.domain ++ (text " client=" ++ (ev.client_ip ++ (text " action=" ++ ev.action)))) in
    b'<'
    ∷ (itoa pri
        ++ (text ">1 "
            ++ (ts
                ++ b' '
                  ∷ (nil_if_empty hostname
                      ++ b' '
                        ∷ (nil_if_empty app_name
                            ++ b' '
                              ∷ (nil_if_empty proc_id
                                  ++ (text " DNSQUERY " ++ (structured_data ev ++ b' ' ∷ msg))))))))

-- What `Send` of the syslog sink writes: over a stream, a line feed ends the message.
unfoldable pub syslog_line : (network hostname app_name proc_id : Text) → Option Text → Event → Text
unfolding format_rfc5424 has_prefix
syslog_line network hostname app_name proc_id t ev =
    let line = format_rfc5424 hostname app_name proc_id t ev in
    if has_prefix network (text "tcp") then line ++ 10 ∷ [] else line
