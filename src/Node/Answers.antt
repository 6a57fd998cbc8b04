-- ===== src/Node/Answers.antt =====
-- internal/geoip and internal/dnsengine together: from the configured networks and countries to the
-- answers that a client is sent.
use phantomcore.Base.{
  ℕ, ◌≡◌, ◌⊎◌, inl, inr, refl, ap, Bool, true, false, some, List, Text, Member, Option-cases, arith,
  subst,
}
use phantomcore.Message.{Msg}
use phantomcore.Geo
use phantomcore.Geo.{GeoDecision, Resolver, Filter, new_filter}
use phantomcore.Geo.Blocked.{IsBlocked, evaluate_lem}
use phantomcore.Dns.State.{Engine, Wiring, Call}
use phantomcore.Dns.Answering.{answer_ips, respond_blocked}
use phantomcore.Dns.Forward.{protect, filter_geo, forward_answer, watch_flux, remember}
use phantomcore.Node.Startup.{Parts, attach}

-- The parts after a filter was attached.
abbrev pub with_filter : Parts → Filter → Parts
with_filter parts f = record parts { geo = some f }

attach-geo :
    (base : Wiring) (parts : Parts) (f : Filter) (now : ℕ)
    → (attach base (with_filter parts f) now).geo ≡ some (Geo.evaluate base.ip_string (some f))
unfolding attach
attach-geo base parts f now = refl

filter_geo-blocks :
    (wired : Wiring) (geo : List (List ℕ) → GeoDecision) (c : Call) (flux : Bool) (resp : Msg)
    → wired.geo ≡ some geo
    → (geo (answer_ips resp.answer)).matched ≡ true
    → (geo (answer_ips resp.answer)).block ≡ true
    → (filter_geo wired c flux resp).0 ≡ respond_blocked wired c
unfolding filter_geo
filter_geo-blocks wired geo c flux resp g m b = ground (arith, g, m, b)

filter_geo-passes :
    (wired : Wiring) (geo : List (List ℕ) → GeoDecision) (c : Call) (flux : Bool) (resp : Msg)
    → wired.geo ≡ some geo
    → (geo (answer_ips resp.answer)).matched ≡ false
    → (filter_geo wired c flux resp).0 ≡ resp
unfolding filter_geo
filter_geo-passes wired geo c flux resp g m = ground (arith, g, m)

-- From the configuration to the client: behind a filter that was built to block, what the client is
-- sent for a fresh upstream answer (`forward_answer`) is the block reply, or a message none of whose
-- addresses is of a blocked network or country. A stale reply, sent when the upstream fails, does not
-- pass this way.
pub forward_answer-IsBlocked :
    (base : Wiring) (parts : Parts) (resolver : Resolver) (asns : List ℕ) (countries : List Text)
    (f : Filter) (now : ℕ) (e : Engine) (c : Call) (resp : Msg)
    → new_filter (some resolver) asns countries true ≡ some f
    → let wired = attach base (with_filter parts f) now in
      ((forward_answer wired e c resp).reply ≡ respond_blocked wired c)
      ⊎ ((ip : List ℕ)
          → Member ip (answer_ips (forward_answer wired e c resp).reply.answer)
          → ¬ IsBlocked resolver asns countries ip)
unfolding forward_answer
forward_answer-IsBlocked base parts resolver asns countries f now e c resp h =
    let wired = attach base (with_filter parts f) now in
    let (e', flux) = watch_flux wired (remember e c resp) c resp in
    let geo = Geo.evaluate base.ip_string (some f) in
    let g = attach-geo base parts f now in
    elim (Option-cases (protect wired e' c resp)) [
      | inl v ↦ inl (ground (arith, v))
      | inr (left, v) ↦
          elim (evaluate_lem resolver asns countries true f base.ip_string (answer_ips left.answer)
            h) [
              | inl (m, b, _) ↦
                  let q = filter_geo-blocks wired geo c flux left g m b in
                  inl (ground (arith, v, q))
              | inr (q, none_of) ↦
                  let p = filter_geo-passes wired geo c flux left g (ap GeoDecision.matched q) in
                  let same : (forward_answer wired e c resp).reply ≡ left = ground (arith, v, p) in
                  inr (λ ip i.
                    none_of ip (subst {A = Msg} (λ msg. Member ip (answer_ips msg.answer)) same i))
            ]
    ]
