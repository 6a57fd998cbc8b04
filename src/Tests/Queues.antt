-- ===== src/Tests/Queues.antt =====
-- internal/dnsengine/querylog_writer.go and export.go at concrete inputs.
use phantomcore.Base.{
  ◌+◌, ◌≡◌, ◌⊎◌, refl, true, Option, none, some, List, [], ◌∷◌, ◌++◌, length, pos, arith, Text,
  text,
}
use phantomcore.Dns.State.{Event}
use phantomcore.Outbox
use phantomcore.QueryLog
use phantomcore.QueryLog.{
  Entry, Writer, new_query_log_writer, submitting, taking, finishing, closing, step, close_queue,
  has_returned,
}
use phantomcore.QueryLog.Conservation.{count_of, submitted, refused, run-conserves}
use phantomcore.QueryLog.Draining.{IsWork, pending, run-drains}
use phantomcore.Export.Exporter
use phantomcore.Export.Exporter.{
  Sink, webhook_sink, syslog_sink, Exporter, exporter_of, exporting, sending, shutting,
}
use phantomcore.Export.Fifo.{accepted, spread, in_hand, run-refines}
use phantomcore.Export.Syslog.{structured_data}
use phantomcore.Export.Escaping.{names, values_of, read_sd-structured_data}
use phantomcore.Export.Reading.{read_sd}

abbrev event : Text → Event
event domain = record {
  domain = domain;
  client_ip = text "10.0.0.9";
  action = text "block";
  is_suspicious = true;
  threat_score = 85;
  detection_method = text "typosquat";
  threat_reason = text "a \"quoted\" ] reason\\";
}

abbrev entry : Text → Entry
entry domain = record { query = event domain; block_reason = []; stats_action = text "block" }

abbrev writer : Writer
writer = new_query_log_writer true true (pos 1) (pos 2)

-- Two rows at once: the queue of one row refuses the second.
abbrev burst : List QueryLog.Move
burst =
    submitting (entry (text "a.com"))
    ∷ submitting (entry (text "b.com"))
    ∷ taking
    ∷ finishing 0
    ∷ closing
    ∷ []

abbrev ran : Option Writer → Writer
ran none = writer
ran (some w) = w

run-conserves_example :
    (count_of (λ _. true) (ran (QueryLog.run burst writer)).saves
        + count_of (λ _. true) (ran (QueryLog.run burst writer)).running
        + count_of (λ _. true) (ran (QueryLog.run burst writer)).outbox.waiting
        + count_of (λ _. true) (refused burst writer)
      ≡ count_of (λ _. true) (submitted burst))
    × ((ran (QueryLog.run burst writer)).outbox.dropped ≡ length (refused burst writer))
unfolding QueryLog.run QueryLog.step QueryLog.submit_to QueryLog.take_next QueryLog.finish
    QueryLog.close_queue QueryLog.new_query_log_writer QueryLog.or_default QueryLog.without
    Outbox.offer Outbox.drop_one Outbox.receive Outbox.close Outbox.empty_outbox Outbox.is_reported
run-conserves_example =
    run-conserves true true (pos 1) (pos 2) burst (ran (QueryLog.run burst writer)) (λ _. true) refl

-- A writer with one row left, before and after it is closed and the row is taken.
abbrev left : Writer
left = ran (QueryLog.run (submitting (entry (text "a.com")) ∷ []) writer)

abbrev drained : Writer
drained = ran (QueryLog.run (taking ∷ []) (close_queue left))

run-drains_example :
    (1 + pending drained ≡ pending left)
    × ((has_returned drained ≡ true)
        ⊎ ((m : QueryLog.Move) × IsWork m × ((v : Writer) × (step m drained ≡ some v))))
unfolding QueryLog.run QueryLog.step QueryLog.submit_to QueryLog.take_next QueryLog.finish
    QueryLog.close_queue QueryLog.new_query_log_writer QueryLog.or_default Outbox.offer
    Outbox.drop_one Outbox.receive Outbox.close Outbox.empty_outbox Outbox.is_reported
run-drains_example = run-drains (taking ∷ []) left drained (omega arith) (tt, tt) refl

abbrev sinks : List Sink
sinks = syslog_sink (text "udp") (text "siem:514") ∷ webhook_sink (text "http://hook") ∷ []

abbrev exports : List Exporter.Move
exports =
    exporting (event (text "a.com"))
    ∷ Exporter.taking
    ∷ exporting (event (text "b.com"))
    ∷ sending
    ∷ []

abbrev exported : Option Exporter → Exporter
exported none = exporter_of sinks
exported (some x) = x

run-refines_example :
    (exported (Exporter.run exports (exporter_of sinks))).sends
      ++ spread sinks (
          in_hand (exported (Exporter.run exports (exporter_of sinks)))
          ++ (exported (Exporter.run exports (exporter_of sinks))).outbox.waiting)
    ≡ spread sinks (accepted exports (exporter_of sinks))
unfolding Exporter.run Exporter.step Exporter.export_to Exporter.take_event Exporter.send_current
    exporter_of Outbox.offer Outbox.drop_one Outbox.receive Outbox.empty_outbox Outbox.is_reported
run-refines_example =
    run-refines sinks exports (exported (Exporter.run exports (exporter_of sinks))) refl

read_sd-structured_data_example :
    read_sd names (structured_data (event (text "a]\".com")) ++ text " dns query")
    ≡ some (values_of (event (text "a]\".com")), b']' ∷ text " dns query")
read_sd-structured_data_example =
    read_sd-structured_data (event (text "a]\".com")) (text " dns query")
