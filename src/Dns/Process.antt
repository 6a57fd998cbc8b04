-- ===== src/Dns/Process.antt =====
-- internal/dnsengine/engine.go: `ProcessDNSQuery`, from its guards to the policy switch. The
-- handler's returns are its stages, each with the one that the code falls through to. One reading
-- of the clock stands for those of a query; log lines are left out.
use phantomcore.Base.{
  ℕ, Bool, true, false, not, ◌&&◌, Option, none, some, List, [], ◌∷◌, ◌++◌, Text, text,
  if◌then◌else◌,
}
use phantomcore.Message.{Question, Msg, rcode_server_failure, rcode_refused}
use phantomcore.Policy.Types.{allow, deny, redirect}
use phantomcore.RateLimit.{allow_any}
use phantomcore.Dns.Domain.{normalize_domain, strip_search_domain}
use phantomcore.Dns.State.{
  Threat, no_threat, failed, answered, Wiring, Engine, Effect, write, record_metric, Call,
}
use phantomcore.Dns.Forward.{forward_upstream}
use phantomcore.Dns.Answering.{respond_redirect, log_query}
use phantomcore.Dns.Allowing.{Handled, answer_with, block_with, block_counted, allow_path}

-- The policy evaluation and its switch.
unfoldable pub apply_policy : Wiring → Engine → Call → Bool → Threat → Handled
unfolding allow_path block_counted answer_with
apply_policy wired e c nrd_listed tr = elim (wired.evaluate c.domain c.client_ip) [
  | none ↦ record {
    engine = e;
    effects =
        log_query e c (text "error") [] tr
        ++ (write (wired.set_rcode c.msg rcode_server_failure) ∷ []);
    success = false;
  }
  | some d ↦ elim (d.action) [
    | deny ↦ block_counted wired e c d.policy_id tr
    | redirect ↦
        answer_with e c (text "redirect") (text "redirect:" ++ d.policy_id) tr
          (respond_redirect wired c d.redirect_ip)
    | allow ↦ allow_path wired e c nrd_listed d tr
  ]
]

-- The NRD feed, in block mode or in flag mode.
unfoldable pub check_nrd : Wiring → Engine → Call → Threat → Handled
unfolding apply_policy block_with
check_nrd wired e c tr = elim (wired.nrd) [
  | none ↦ apply_policy wired e c false tr
  | some feed ↦
      if feed.is_listed c.domain && feed.block_mode
      then block_with wired e c (text "nrd") tr
      else apply_policy wired e c (feed.is_listed c.domain) tr
]

-- The allow-override: logged, then forwarded, whatever the detectors would say.
unfoldable pub override_block : Wiring → Engine → Call → Threat → Handled
override_block wired e c tr =
    let (effects, f) = forward_upstream wired e c in
    record {
      engine = f.engine;
      effects =
          log_query e c (text "allow") (text "allow-override") tr
          ++ (effects ++ (write (f.reply) ∷ []));
      success = true;
    }

-- Whether the blocklist has the name: no list, or one that fails, does not.
unfoldable pub is_blocklisted : Wiring → Text → Bool
is_blocklisted wired domain = elim (wired.blocklist) [
  | none ↦ false
  | some ask ↦ elim (ask domain) [ failed ↦ false | answered b ↦ b ]
]

-- The blocklist, then everything else.
unfoldable pub resolve : Wiring → Engine → Call → Handled
unfolding check_nrd override_block is_blocklisted block_counted
resolve wired e c =
    let tr : Threat = elim (wired.analyze) [ none ↦ no_threat | some f ↦ f c.domain ] in
    if is_blocklisted wired c.domain
    then if wired.is_explicitly_allowed c.domain c.client_ip
      then override_block wired e c tr
      else block_counted wired e c (text "blocklist") tr
    else check_nrd wired e c tr

-- `clientIPFromAddr`, the empty text for no address
unfoldable pub client_ip_from_addr : Wiring → Option Text → Text
client_ip_from_addr wired none = []
client_ip_from_addr wired (some s) = elim (wired.split_host_port s) [ none ↦ s | some h ↦ h ]

-- What the handler works with: the normalized name, and the remote address as text.
unfoldable pub call_of : Msg → Question → Option Text → ℕ → Call
call_of msg question remote now = record {
  msg = msg;
  question = question;
  domain = strip_search_domain (normalize_domain question.name);
  client_ip = elim remote [ none ↦ [] | some s ↦ s ];
  now = now;
}

-- The query behind the guards, and the deferred metric.
unfoldable pub handle : Wiring → Engine → Call → Engine × List Effect
unfolding resolve
handle wired e c =
    let h = resolve wired e c in (h.engine, h.effects ++ (record_metric (h.success) ∷ []))

-- `ProcessDNSQuery` on a message that is not nil
unfoldable pub process : Wiring → Engine → Msg → Option Text → ℕ → Engine × List Effect
unfolding client_ip_from_addr handle call_of
process wired e msg remote now =
    let refused = write (wired.set_rcode msg rcode_refused) ∷ [] in
    let (limiter, ok) = allow_any e.rate_limiter now (client_ip_from_addr wired remote) in
    elim (msg.question) [
      | [] ↦ (e, [])
      | question ∷ _ ↦
          if not e.accept_queries
          then (e, refused)
          else if not ok
          then (record e { rate_limiter = limiter }, refused)
          else handle wired (record e { rate_limiter = limiter }) (call_of msg question remote now)
    ]
