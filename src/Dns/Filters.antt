-- ===== src/Dns/Filters.antt =====
-- internal/dnsengine/engine.go: rebind protection.
use phantomcore.Base.{
  ℕ, ◌+◌, ◌≡◌, refl, subst, ◌∙◌, ◌⊎◌, ◌↔◌, inl, inr, Bool, true, false, ◌&&◌, some, List, [], ◌∷◌,
  length, ltb, arith, Member, Bool-cases, Option-cases,
}
use phantomcore.Message.{Rr, Msg}
use phantomcore.Dns.State.{Wiring, Engine, Call}
use phantomcore.Dns.Forward.{protect, filter_geo, remember, watch_flux, forward_answer}
use phantomcore.Dns.Answering.{is_rebind, filter_rebind, answer_ips, respond_blocked}

-- what survives the filter: a record of the answer whose address is not internal
filter_rebind-Member :
    (internal : List ℕ → Bool) (rr : Rr) (rrs : List Rr)
    → Member rr (filter_rebind internal rrs).0
    → Member rr rrs × (is_rebind internal rr ≡ false)
unfolding filter_rebind
filter_rebind-Member internal rr [] m = absurd m
filter_rebind-Member internal rr (x ∷ rrs) m =
    let rec = filter_rebind-Member internal rr rrs in
    elim (Bool-cases (is_rebind internal x)) [
      | inl e ↦ let (a, b) = rec (rw e at m) in (inr a, b)
      | inr e ↦ elim (rw e at m) [
        | inl q ↦ (inl q, rw q e)
        | inr q ↦ let (a, b) = rec q in (inr a, b)
      ]
    ]

Member-filter_rebind :
    (internal : List ℕ → Bool) (rr : Rr) (rrs : List Rr)
    → Member rr rrs
    → is_rebind internal rr ≡ false
    → Member rr (filter_rebind internal rrs).0
unfolding filter_rebind
Member-filter_rebind internal rr [] m h = absurd m
Member-filter_rebind internal rr (x ∷ rrs) (inl q) h = rw (← q, h) (inl refl)
Member-filter_rebind internal rr (x ∷ rrs) (inr m) h = elim (Bool-cases (is_rebind internal x)) [
  | inl e ↦ rw e (Member-filter_rebind internal rr rrs m h)
  | inr e ↦ rw e (inr (Member-filter_rebind internal rr rrs m h))
]

filter_rebind-length :
    (internal : List ℕ → Bool) (rrs : List Rr)
    → length (filter_rebind internal rrs).0 + (filter_rebind internal rrs).1 ≡ length rrs
unfolding filter_rebind
filter_rebind-length internal [] = refl
filter_rebind-length internal (x ∷ rrs) = ground (arith, filter_rebind-length internal rrs)

-- The filter keeps exactly the records without an internal address, and counts the others.
pub filter_rebind_lem :
    (internal : List ℕ → Bool) (rrs : List Rr)
    → ((rr : Rr)
        → Member rr (filter_rebind internal rrs).0
          ↔ Member rr rrs × (is_rebind internal rr ≡ false))
      × (length (filter_rebind internal rrs).0 + (filter_rebind internal rrs).1 ≡ length rrs)
filter_rebind_lem internal rrs = (
  λ rr. (filter_rebind-Member internal rr rrs, λ h. Member-filter_rebind internal rr rrs h.0 h.1),
  filter_rebind-length internal rrs,
)

none_dropped :
    (internal : List ℕ → Bool) (rr : Rr) (rrs : List Rr)
    → (filter_rebind internal rrs).1 ≡ 0
    → Member rr rrs
    → is_rebind internal rr ≡ false
unfolding filter_rebind
none_dropped internal rr [] h m = absurd m
none_dropped internal rr (x ∷ rrs) h (inl q) = elim (Bool-cases (is_rebind internal x)) [
  | inl e ↦ absurd (ground arith)
  | inr e ↦ rw q e
]
none_dropped internal rr (x ∷ rrs) h (inr m) = none_dropped internal rr rrs (ground arith) m

protect-answer :
    (wired : Wiring) (e : Engine) (c : Call) (resp left : Msg)
    → e.rebind_protection ≡ true
    → protect wired e c resp ≡ some left
    → (left.answer ≡ (filter_rebind (wired.is_internal) resp.answer).0)
      ⊎ (left.answer ≡ resp.answer) × ((filter_rebind (wired.is_internal) resp.answer).1 ≡ 0)
unfolding protect
protect-answer wired e c resp left on h =
    elim (Bool-cases (ltb 0 (filter_rebind (wired.is_internal) resp.answer).1)) [
      | inl v ↦ inl (ground arith)
      | inr v ↦ inr (ground arith, ground arith)
    ]

-- what rebind protection lets through, when it is on
protect-safe :
    (wired : Wiring) (e : Engine) (c : Call) (resp left : Msg)
    → e.rebind_protection ≡ true
    → protect wired e c resp ≡ some left
    → (rr : Rr) → Member rr left.answer
    → is_rebind (wired.is_internal) rr ≡ false
protect-safe wired e c resp left on h rr m = elim (protect-answer wired e c resp left on h) [
  | inl q ↦
      (filter_rebind-Member (wired.is_internal) rr resp.answer (subst (λ l. Member rr l) q m)).1
  | inr (q, z) ↦ none_dropped (wired.is_internal) rr resp.answer z (subst (λ l. Member rr l) q m)
]

filter_geo-reply :
    (wired : Wiring) (c : Call) (flux : Bool) (resp : Msg)
    → ((filter_geo wired c flux resp).0 ≡ resp)
      ⊎ ((filter_geo wired c flux resp).0 ≡ respond_blocked wired c)
unfolding filter_geo
filter_geo-reply wired c flux resp = elim (Option-cases (wired.geo)) [
  | inl v ↦ inl (ground (arith, v))
  | inr (geo, v) ↦
      let d = geo (answer_ips resp.answer) in
      elim (Bool-cases (d.matched && d.block)) [
        | inl w ↦ inr (ground (arith, v, w))
        | inr w ↦ inl (ground (arith, v, w))
      ]
]

watch_flux-protection :
    (wired : Wiring) (e : Engine) (c : Call) (resp : Msg)
    → (watch_flux wired (remember e c resp) c resp).0.rebind_protection ≡ e.rebind_protection
unfolding watch_flux remember
watch_flux-protection wired e c resp = ground arith

-- With rebind protection on, what the client is sent for a fresh upstream answer (`forward_answer`)
-- is the block reply, or a message whose answer has no record with an internal address. A stale
-- reply, sent when the upstream fails, does not pass this way.
pub forward_answer-safe :
    (wired : Wiring) (e : Engine) (c : Call) (resp : Msg)
    → e.rebind_protection ≡ true
    → ((forward_answer wired e c resp).reply ≡ respond_blocked wired c)
      ⊎ ((rr : Rr)
          → Member rr (forward_answer wired e c resp).reply.answer
          → is_rebind (wired.is_internal) rr ≡ false)
unfolding forward_answer
forward_answer-safe wired e c resp on =
    let (e', flux) = watch_flux wired (remember e c resp) c resp in
    elim (Option-cases (protect wired e' c resp)) [
      | inl v ↦ inl (ground (arith, v))
      | inr (left, v) ↦ elim (filter_geo-reply wired c flux left) [
        | inl q ↦
            let same : (forward_answer wired e c resp).reply ≡ left = ground (arith, v, q) in
            inr (λ rr m.
              protect-safe wired e' c resp left (watch_flux-protection wired e c resp ∙ on) v rr
                (subst {A = Msg} (λ msg. Member rr msg.answer) same m))
        | inr q ↦ inl (ground (arith, v, q))
      ]
    ]
