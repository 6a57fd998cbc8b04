-- ===== src/Export/Fifo.antt =====
-- internal/dnsengine/export.go: every sink is sent the accepted events in their order.
use phantomcore.Base.{
  ◌≡◌, refl, none, some, List, [], ◌∷◌, ◌++◌, map, length, arith, leb, if◌then◌else◌, Bool-cases,
  Option-cases, inl, inr, ◌∙◌, ap, sym,
}
use mathlib.Core.List.{append-nil, append_assoc}
use phantomcore.Dns.State.{Event}
use phantomcore.Outbox.{offer, receive, close, drop_one, empty_outbox}
use phantomcore.Export.Exporter.{
  Sink, Exporter, exporter_of, export_to, take_event, send_current, close_export, close_sinks, Move,
  exporting, taking, sending, closing, shutting, step, run,
}

-- The specification: the events that find room, in the order of the calls of Export.
abbrev pub accepted_by : Move → Exporter → List Event
accepted_by (exporting ev) x =
    if leb x.outbox.capacity (length x.outbox.waiting) then [] else ev ∷ []
accepted_by taking x = []
accepted_by sending x = []
accepted_by closing x = []
accepted_by shutting x = []

abbrev pub accepted : List Move → Exporter → List Event
accepted [] x = []
accepted (m ∷ ms) x = elim (step m x) [ none ↦ [] | some x' ↦ accepted_by m x ++ accepted ms x' ]

-- Each event to each sink.
abbrev pub spread : List Sink → List Event → List (Sink × Event)
spread sinks [] = []
spread sinks (ev ∷ evs) = map (λ s. (s, ev)) sinks ++ spread sinks evs

abbrev pub in_hand : Exporter → List Event
in_hand x = elim x.current [ none ↦ [] | some ev ↦ ev ∷ [] ]

-- What was sent, and what is still to be sent.
abbrev pub stream : Exporter → List (Sink × Event)
stream x = x.sends ++ spread x.sinks (in_hand x ++ x.outbox.waiting)

spread_append :
    (sinks : List Sink) (xs ys : List Event)
    → spread sinks (xs ++ ys) ≡ spread sinks xs ++ spread sinks ys
spread_append sinks [] ys = refl
spread_append sinks (x ∷ xs) ys =
    ap (λ rest. map (λ s. (s, x)) sinks ++ rest) (spread_append sinks xs ys)
    ∙ sym (append_assoc (map (λ s. (s, x)) sinks) (spread sinks xs) (spread sinks ys))

export_to-stream :
    (ev : Event) (x x' : Exporter)
    → export_to ev x ≡ some x'
    → (stream x' ≡ stream x ++ spread x.sinks (accepted_by (exporting ev) x)) × (x'.sinks ≡ x.sinks)
unfolding export_to offer drop_one
export_to-stream ev x x' h =
    let room = spread_append x.sinks (in_hand x ++ x.outbox.waiting) (ev ∷ []) in
    let grow = append_assoc (in_hand x) x.outbox.waiting (ev ∷ []) in
    let put =
      append_assoc x.sends (spread x.sinks (in_hand x ++ x.outbox.waiting))
        (spread x.sinks (ev ∷ [])) in
    let same = append-nil (stream x) in
    elim (Bool-cases x.outbox.closed) [
      | inl c ↦ absurd (ground (arith, h, c))
      | inr c ↦ elim (Bool-cases (leb x.outbox.capacity (length x.outbox.waiting))) [
        | inl full ↦ ground (arith, h, c, full, same)
        | inr free ↦ ground (arith, h, c, free, room, grow, put)
      ]
    ]

take_event-stream :
    (x x' : Exporter) → take_event x ≡ some x' → (stream x' ≡ stream x ++ []) × (x'.sinks ≡ x.sinks)
unfolding take_event receive
take_event-stream x x' h = let same = append-nil (stream x) in ground (arith, h, same)

send_current-stream :
    (x x' : Exporter)
    → send_current x ≡ some x'
    → (stream x' ≡ stream x ++ []) × (x'.sinks ≡ x.sinks)
unfolding send_current
send_current-stream x x' h =
    let same = append-nil (stream x) in
    elim (Option-cases x.current) [
      | inl e ↦ absurd (ground (arith, h, e))
      | inr (ev, e) ↦
          let sent =
            append_assoc x.sends (map (λ s. (s, ev)) x.sinks) (spread x.sinks x.outbox.waiting) in
          let now : stream x
              ≡ x.sends ++ (map (λ s. (s, ev)) x.sinks ++ spread x.sinks x.outbox.waiting) =
            ap
              (λ c.
                x.sends
                ++ spread x.sinks ((elim c [ none ↦ [] | some v ↦ v ∷ [] ]) ++ x.outbox.waiting))
              e in
          ground (arith, h, e, same, sent, now)
    ]

close_sinks-stream :
    (x x' : Exporter)
    → close_sinks x ≡ some x'
    → (stream x' ≡ stream x ++ []) × (x'.sinks ≡ x.sinks)
unfolding close_sinks
close_sinks-stream x x' h = let same = append-nil (stream x) in ground (arith, h, same)

step-stream :
    (m : Move) (x x' : Exporter)
    → step m x ≡ some x'
    → (stream x' ≡ stream x ++ spread x.sinks (accepted_by m x)) × (x'.sinks ≡ x.sinks)
unfolding step close_export close
step-stream (exporting ev) x x' h = export_to-stream ev x x' h
step-stream taking x x' h = take_event-stream x x' h
step-stream sending x x' h = send_current-stream x x' h
step-stream closing x x' h = let same = append-nil (stream x) in ground (arith, h, same)
step-stream shutting x x' h = close_sinks-stream x x' h

accepted_cons :
    (m : Move) (ms : List Move) (x v : Exporter)
    → step m x ≡ some v
    → accepted (m ∷ ms) x ≡ accepted_by m x ++ accepted ms v
accepted_cons m ms x v e = rw (accepted, e) refl

run-stream :
    (ms : List Move) (x x' : Exporter)
    → run ms x ≡ some x'
    → (stream x' ≡ stream x ++ spread x.sinks (accepted ms x)) × (x'.sinks ≡ x.sinks)
unfolding run
run-stream [] x x' h = let same = append-nil (stream x) in ground (arith, h, same)
run-stream (m ∷ ms) x x' h = elim (Option-cases (step m x)) [
  | inl e ↦ absurd (ground (arith, h, e))
  | inr (v, e) ↦
      let one = step-stream m x v e in
      let more = run-stream ms v x' (rw (run, e) at h) in
      let parts = spread_append x.sinks (accepted_by m x) (accepted ms v) in
      let join =
        append_assoc (stream x) (spread x.sinks (accepted_by m x))
          (spread x.sinks (accepted ms v)) in
      rw (accepted_cons m ms x v e) (
        (
          more.0
              ∙ ap (λ s. stream v ++ spread s (accepted ms v)) one.1
              ∙ ap (λ t. t ++ spread x.sinks (accepted ms v)) one.0
              ∙ join
              ∙ ap (λ t. stream x ++ t) (sym parts),
          more.1 ∙ one.1,
        ))
]

-- The exporter refines a list: in any interleaving of queries, worker and Close, what was sent,
-- followed by what is in the worker's hands and in the queue, is exactly every accepted event, in the
-- order of the calls of Export, for each event one call on every sink in the order of the sinks.
pub run-refines :
    (sinks : List Sink) (ms : List Move) (x : Exporter)
    → run ms (exporter_of sinks) ≡ some x
    → x.sends ++ spread sinks (in_hand x ++ x.outbox.waiting)
      ≡ spread sinks (accepted ms (exporter_of sinks))
unfolding exporter_of empty_outbox
run-refines sinks ms x h =
    let (s, same) = run-stream ms (exporter_of sinks) x h in
    ap (λ t. x.sends ++ spread t (in_hand x ++ x.outbox.waiting)) (sym same) ∙ s
