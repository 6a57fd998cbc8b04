-- ===== src/Export/Escaping.antt =====
-- internal/dnsengine/export.go: a reader of RFC 5424 gets the fields of an event back.
use phantomcore.Base.{
  ℕ, ◌+◌, ◌/◌, ◌%◌, ◌≡◌, refl, ap, ◌∙◌, Bool, true, false, some, List, [], ◌∷◌, ◌++◌, arith, Text,
  text, itoa, itoa-IsDigit, IsDigit, All,
}
use mathlib.Core.List.{append_assoc}
use phantomcore.Dns.State.{Event}
use phantomcore.Export.Syslog.{
  is_special, escape_sd, bool_text, score_text, syslog_sd_id, param, params, sd_params,
  structured_data,
}
use phantomcore.Export.Reading.{
  read_value, strip_prefix, read_params, read_sd, read_value-escape_sd, strip_prefix_append,
}

-- The fields of an event as texts.
abbrev pub values_of : Event → List Text
values_of ev =
    ev.domain
    ∷ ev.client_ip
    ∷ ev.action
    ∷ bool_text ev.is_suspicious
    ∷ score_text ev.threat_score
    ∷ ev.detection_method
    ∷ ev.threat_reason
    ∷ []

abbrev pub names : List Text
names =
    text "domain"
    ∷ text "client"
    ∷ text "action"
    ∷ text "suspicious"
    ∷ text "score"
    ∷ text "method"
    ∷ text "reason"
    ∷ []

abbrev escaped : List (Text × Text) → List (Text × Text)
escaped [] = []
escaped ((name, value) ∷ fs) = (name, escape_sd value) ∷ escaped fs

abbrev firsts : List (Text × Text) → List Text
firsts [] = []
firsts ((name, value) ∷ fs) = name ∷ firsts fs

abbrev seconds : List (Text × Text) → List Text
seconds [] = []
seconds ((name, value) ∷ fs) = value ∷ seconds fs

param_lem :
    (name value others rest : Text)
    → (param (name, value) ++ others) ++ rest
      ≡ (b' ' ∷ (name ++ b'=' ∷ 34 ∷ [])) ++ (value ++ 34 ∷ (others ++ rest))
unfolding param
param_lem name value others rest = simp append_assoc

read_params_cons :
    (name : Text) (ns : List Text) (s t value u : Text) (values : List Text) (rest : Text)
    → strip_prefix (b' ' ∷ (name ++ b'=' ∷ 34 ∷ [])) s ≡ some t
    → read_value t ≡ some (value, u)
    → read_params ns u ≡ some (values, rest)
    → read_params (name ∷ ns) s ≡ some (value ∷ values, rest)
unfolding read_params
read_params_cons name ns s t value u values rest h k l = rw (read_params, h, k, l) refl

read_params-params :
    (fs : List (Text × Text)) (rest : Text)
    → read_params (firsts fs) (params (escaped fs) ++ rest) ≡ some (seconds fs, rest)
unfolding read_params params
read_params-params [] rest = refl
read_params-params ((name, value) ∷ fs) rest =
    let others = params (escaped fs) in
    let tail = escape_sd value ++ 34 ∷ (others ++ rest) in
    let e = param_lem name (escape_sd value) others rest in
    read_params_cons name (firsts fs) ((param (name, escape_sd value) ++ others) ++ rest) tail value
      (others ++ rest) (seconds fs) rest
      (ap (strip_prefix (b' ' ∷ (name ++ b'=' ∷ 34 ∷ []))) e
        ∙ strip_prefix_append (b' ' ∷ (name ++ b'=' ∷ 34 ∷ [])) tail)
      (read_value-escape_sd value (others ++ rest)) (read_params-params fs rest)

-- a text of digits and points is its own escape
abbrev IsPlain : ℕ → Type 0
IsPlain c = is_special c ≡ false

escape_sd_plain : (s : Text) → All IsPlain s → escape_sd s ≡ s
unfolding escape_sd
escape_sd_plain [] h = refl
escape_sd_plain (c ∷ s) h = rw (h.0, escape_sd_plain s h.1)

IsDigit-IsPlain : (c : ℕ) → IsDigit c → IsPlain c
unfolding is_special
IsDigit-IsPlain c h = ground (arith, h)

digits-IsPlain : (s t : Text) → All IsDigit s → All IsPlain t → All IsPlain (s ++ t)
digits-IsPlain [] t h k = k
digits-IsPlain (c ∷ s) t h k = (IsDigit-IsPlain c h.0, digits-IsPlain s t h.1 k)

escape_sd-score_text : (n : ℕ) → escape_sd (score_text n) ≡ score_text n
unfolding score_text is_special
escape_sd-score_text n = escape_sd_plain _ (
    digits-IsPlain (itoa (n / 100)) (b'.' ∷ (b'0' + n / 10 % 10) ∷ (b'0' + n % 10) ∷ [])
      (itoa-IsDigit (n / 100))
      (
        refl,
        (
          IsDigit-IsPlain (b'0' + n / 10 % 10) (omega arith, omega arith),
          (IsDigit-IsPlain (b'0' + n % 10) (omega arith, omega arith), tt),
        ),
      ))

escape_sd-bool_text : (b : Bool) → escape_sd (bool_text b) ≡ bool_text b
unfolding escape_sd bool_text is_special
escape_sd-bool_text true = refl
escape_sd-bool_text false = refl

-- The fields of an event under their names.
abbrev fields : Event → List (Text × Text)
fields ev =
    (text "domain", ev.domain)
    ∷ (text "client", ev.client_ip)
    ∷ (text "action", ev.action)
    ∷ (text "suspicious", bool_text ev.is_suspicious)
    ∷ (text "score", score_text ev.threat_score)
    ∷ (text "method", ev.detection_method)
    ∷ (text "reason", ev.threat_reason)
    ∷ []

sd_params-escaped : (ev : Event) → sd_params ev ≡ escaped (fields ev)
unfolding sd_params
sd_params-escaped ev =
    let b = escape_sd-bool_text ev.is_suspicious in
    let n = escape_sd-score_text ev.threat_score in cc

sd_lem :
    (id ps message : Text)
    → ((b'[' ∷ (id ++ ps)) ++ b']' ∷ []) ++ message ≡ (b'[' ∷ id) ++ (ps ++ b']' ∷ message)
sd_lem id ps message = simp append_assoc

read_sd-strip_prefix :
    (ns : List Text) (s t : Text)
    → strip_prefix (b'[' ∷ syslog_sd_id) s ≡ some t
    → read_sd ns s ≡ read_params ns t
unfolding read_sd
read_sd-strip_prefix ns s t h = rw (read_sd, h) refl

-- Whatever bytes the fields of an event hold, quotes, backslashes and brackets included, and whatever
-- message follows, a reader that undoes the escapes gets from the structured data the seven fields
-- and then the closing bracket and the message: no field can forge another.
pub read_sd-structured_data :
    (ev : Event) (message : Text)
    → read_sd names (structured_data ev ++ message) ≡ some (values_of ev, b']' ∷ message)
unfolding structured_data
read_sd-structured_data ev message =
    let ps = params (sd_params ev) in
    let front =
      ap (strip_prefix (b'[' ∷ syslog_sd_id)) (sd_lem syslog_sd_id ps message)
      ∙ strip_prefix_append (b'[' ∷ syslog_sd_id) (ps ++ b']' ∷ message) in
    read_sd-strip_prefix names (structured_data ev ++ message) (ps ++ b']' ∷ message) front
    ∙ ap (λ fs. read_params names (params fs ++ b']' ∷ message)) (sd_params-escaped ev)
    ∙ read_params-params (fields ev) (b']' ∷ message)
