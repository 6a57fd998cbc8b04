-- ===== src/Dns/Precedence.antt =====
-- internal/dnsengine/engine.go: stage by stage, what `ProcessDNSQuery` writes, exports and sends
-- upstream.
use phantomcore.Base.{
  ◌≡◌, refl, Bool, false, not, ◌&&◌, ◌||◌, none, some, [], ◌∷◌, ◌++◌, text, is_empty, inl, inr,
  Option-cases, arith, if◌then◌else◌,
}
use phantomcore.Message.{Msg, rcode_server_failure}
use phantomcore.Policy.Types.{allow, deny, redirect, Decision}
use phantomcore.Dns.Domain.{is_abused_tld, safe_search_target}
use phantomcore.Dns.State.{Threat, no_threat, NrdChecker, Wiring, Engine, write, Call}
use phantomcore.Dns.Answering.{log_query, respond_safe_search, respond_redirect}
use phantomcore.Dns.Process.{apply_policy, check_nrd, is_blocklisted, resolve}
use phantomcore.Dns.Allowing.{
  threat_decision, Handled, answer_with, block_with, block_counted, pass_suspicious, observe_nod,
  flag_nod, flag_nrd, pass_nod, pass_safe_search, allow_path,
}
use phantomcore.Dns.Effects.{append-Counts, write-Counts, log_query-Counts}
use phantomcore.Dns.Tally.{
  Tallies, answer_with-Tallies, block_with-Tallies, block_counted-Tallies, forward_and_log-Tallies,
  override_block-Tallies, is_some, Tallies-if, Tallies-option, Tallies-cases, Tallies-to,
  Tallies-threat, Tallies-switch,
}
use phantomcore.Dns.Clearance.{detectors_clear, nrd_blocks, policy_clear, may_forward, asked_if}

pass_suspicious-Tallies :
    (wired : Wiring) (e : Engine) (c : Call) (listed : Bool) (tr : Threat)
    → Tallies
        (pass_suspicious wired e c listed tr)
        (asked_if (not (tr.is_suspicious && tr.block)) wired)
unfolding pass_suspicious
pass_suspicious-Tallies wired e c listed threat =
    Tallies-to
      (Tallies-if (threat.is_suspicious)
        (Tallies-if (threat.block) (block_with-Tallies wired e c threat.detection_method threat)
          (forward_and_log-Tallies wired e c (text "flagged") threat.detection_method threat))
        (Tallies-if listed
          (forward_and_log-Tallies wired e c (text "flagged") (text "nrd") (flag_nrd threat))
          (forward_and_log-Tallies wired e c (text "allow") [] threat)))
      (ground arith)

observe_nod-nod_block : (e : Engine) (c : Call) → (observe_nod e c).0.nod_block ≡ e.nod_block
unfolding observe_nod
observe_nod-nod_block e c = elim (Option-cases (e.nod_ledger)) [
  | inl v ↦ rw v refl
  | inr (l, v) ↦ rw v refl
]

pass_nod-Tallies :
    (wired : Wiring) (e : Engine) (c : Call) (listed : Bool) (tr : Threat)
    → Tallies (pass_nod wired e c listed tr) (
        asked_if
          (not ((observe_nod e c).1 && e.nod_block)
            && not ((tr.is_suspicious || (observe_nod e c).1) && tr.block))
          wired)
unfolding pass_nod flag_nod
pass_nod-Tallies wired e c listed threat =
    let e' = (observe_nod e c).0 in
    let same = observe_nod-nod_block e c in
    Tallies-to
      (Tallies-if ((observe_nod e c).1 && e'.nod_block)
        (block_with-Tallies wired e' c (text "nod") threat)
        (pass_suspicious-Tallies wired e' c listed
          (if (observe_nod e c).1 then flag_nod threat else threat)))
      (ground (arith, same))

pass_safe_search-Tallies :
    (wired : Wiring) (e : Engine) (c : Call) (listed : Bool) (tr : Threat)
    → Tallies (pass_safe_search wired e c listed tr) (
        asked_if
          (not (e.safe_search && is_some (safe_search_target c.domain))
            && (not ((observe_nod e c).1 && e.nod_block)
                && not ((tr.is_suspicious || (observe_nod e c).1) && tr.block)))
          wired)
unfolding pass_safe_search
pass_safe_search-Tallies wired e c listed threat =
    let target = if e.safe_search then safe_search_target c.domain else none in
    Tallies-to
      (Tallies-option target (pass_nod wired e c listed threat)
        (λ t. answer_with e c (text "allow") [] threat (respond_safe_search wired c t))
        (pass_nod-Tallies wired e c listed threat)
        (λ t. answer_with-Tallies e c (text "allow") [] threat (respond_safe_search wired c t)))
      (ground arith)

allow_path-Tallies :
    (wired : Wiring) (e : Engine) (c : Call) (listed : Bool) (d : Decision) (tr : Threat)
    → Tallies (allow_path wired e c listed d tr) (asked_if (detectors_clear e c wired tr d) wired)
unfolding allow_path detectors_clear threat_decision
allow_path-Tallies wired e c listed d threat =
    let abused = is_empty d.policy_id && is_abused_tld e.abused_tlds c.domain in
    Tallies-to
      (Tallies-threat (threat_decision e threat)
        (block_with wired e c (text "threat:" ++ threat.detection_method) threat)
        (if abused
          then block_with wired e c (text "abused-tld") threat
          else pass_safe_search wired e c listed threat)
        (block_with-Tallies wired e c (text "threat:" ++ threat.detection_method) threat)
        (Tallies-if abused (block_with-Tallies wired e c (text "abused-tld") threat)
          (pass_safe_search-Tallies wired e c listed threat)))
      (ground arith)

failing-Tallies :
    (e : Engine) (c : Call) (tr : Threat) (m : Msg)
    → Tallies
        (record {
          engine = e;
          effects = log_query e c (text "error") [] tr ++ (write m ∷ []);
          success = false;
        })
        0
failing-Tallies e c threat m = record {
  tallied =
      append-Counts (log_query e c (text "error") [] threat) (write m ∷ [])
        (log_query-Counts e c (text "error") [] threat) (write-Counts m);
}

apply_policy-Tallies :
    (wired : Wiring) (e : Engine) (c : Call) (listed : Bool) (tr : Threat)
    → Tallies (apply_policy wired e c listed tr) (asked_if (policy_clear wired e c tr) wired)
unfolding apply_policy policy_clear
apply_policy-Tallies wired e c listed threat =
    Tallies-to
      (Tallies-cases (wired.evaluate c.domain c.client_ip) failing switch
        (λ d. elim (d.action) [
          | deny ↦ 0
          | redirect ↦ 0
          | allow ↦ asked_if (detectors_clear e c wired threat d) wired
        ])
        (failing-Tallies e c threat (wired.set_rcode c.msg rcode_server_failure))
        (λ d.
          Tallies-switch (d.action) (block_counted wired e c d.policy_id threat) (redirected d)
            (allow_path wired e c listed d threat)
            (block_counted-Tallies wired e c d.policy_id threat)
            (answer_with-Tallies e c (text "redirect") (text "redirect:" ++ d.policy_id) threat
              (respond_redirect wired c d.redirect_ip))
            (allow_path-Tallies wired e c listed d threat)))
      (ground arith)
  where
    failing : Handled
    failing = record {
      engine = e;
      effects =
          log_query e c (text "error") [] threat
          ++ (write (wired.set_rcode c.msg rcode_server_failure) ∷ []);
      success = false;
    }

    redirected : Decision → Handled
    redirected d =
        answer_with e c (text "redirect") (text "redirect:" ++ d.policy_id) threat
          (respond_redirect wired c d.redirect_ip)

    switch : Decision → Handled
    switch d = elim (d.action) [
      | deny ↦ block_counted wired e c d.policy_id threat
      | redirect ↦ redirected d
      | allow ↦ allow_path wired e c listed d threat
    ]

check_nrd-Tallies :
    (wired : Wiring) (e : Engine) (c : Call) (tr : Threat)
    → Tallies
        (check_nrd wired e c tr)
        (asked_if (not (nrd_blocks (wired.nrd) c.domain) && policy_clear wired e c tr) wired)
unfolding check_nrd
check_nrd-Tallies wired e c threat =
    Tallies-to
      (Tallies-cases (wired.nrd) (apply_policy wired e c false threat) fed
        (λ feed.
          asked_if (not (nrd_blocks (some feed) c.domain) && policy_clear wired e c threat) wired)
        (apply_policy-Tallies wired e c false threat)
        (λ feed.
          Tallies-to
            (Tallies-if (feed.is_listed c.domain && feed.block_mode)
              (block_with-Tallies wired e c (text "nrd") threat)
              (apply_policy-Tallies wired e c (feed.is_listed c.domain) threat))
            (ground arith)))
      (ground arith)
  where
    fed : NrdChecker → Handled
    fed feed =
        if feed.is_listed c.domain && feed.block_mode
        then block_with wired e c (text "nrd") threat
        else apply_policy wired e c (feed.is_listed c.domain) threat

abbrev pub threat_of : Wiring → Call → Threat
threat_of wired c = elim (wired.analyze) [ none ↦ no_threat | some f ↦ f c.domain ]

pub resolve-Tallies :
    (wired : Wiring) (e : Engine) (c : Call)
    → Tallies (resolve wired e c) (asked_if (may_forward wired e c (threat_of wired c)) wired)
unfolding resolve may_forward
resolve-Tallies wired e c =
    let threat : Threat = threat_of wired c in
    Tallies-to
      (Tallies-if (is_blocklisted wired c.domain)
        (Tallies-if (wired.is_explicitly_allowed c.domain c.client_ip)
          (override_block-Tallies wired e c threat)
          (block_counted-Tallies wired e c (text "blocklist") threat))
        (check_nrd-Tallies wired e c threat))
      (ground arith)
