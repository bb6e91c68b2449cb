-- ===== src/Protocol/Tests.antt =====
-- An event to which the round trip of the codec is applied.
use qe_report.Prelude.{none, some, [], ◌∷◌, ◌≡◌, refl, arith}
use qe_report.Prelude.Int.{pos}
use qe_report.Protocol.Errors.{ok}
use qe_report.Protocol.Json.{object}
use qe_report.Protocol.Model.{Event, attempt_finished, Status}
use qe_report.Protocol.Codec.Read.{event_from_object}
use qe_report.Protocol.Codec.Write.{event_to_object}
use qe_report.Protocol.Codec.RoundTrip.{Readable, tidy_event, event_from_object-event_to_object}

abbrev event : Event
event = record {
  protocol_version = "0.3.1";
  event_id = "e-1";
  run_id = "run-1";
  session_id = "s-1";
  sequence = 4;
  occurred_at = "2024-01-02T03:04:05.678+01:00";
  ignorable = none;
  payload = attempt_finished (record {
    attempt_id = "a-1";
    status = Status.failed;
    raw_status = some "FAILED";
    expected_status = none;
    duration_ms = some (pos 12);
    failures = some (
        record { message = "no"; type = none; stack_trace = none; phase = none; location = none }
        ∷ []);
  });
}

event-Readable : Readable event
unfolding qe_report.Protocol.Version.parse_protocol_version qe_report.Protocol.Version.digits
    qe_report.Protocol.Version.is_supported_protocol_version
    qe_report.Protocol.Patterns.is_identifier qe_report.Protocol.Patterns.is_identifier_codes
    qe_report.Protocol.Patterns.is_event_type qe_report.Protocol.Patterns.dotted_words
    qe_report.Protocol.Patterns.is_timestamp qe_report.Protocol.Patterns.after
    qe_report.Protocol.Patterns.is_zone qe_report.Protocol.Patterns.fraction
    qe_report.Protocol.Patterns.after_seconds
event-Readable = record {
  version = (_, refl, refl);
  type = refl;
  event_id = refl;
  run_id = refl;
  session_id = refl;
  sequence = omega arith;
  occurred_at = refl;
  payload = (refl, refl, (tt, tt));
}

event_from_object-event_to_object_example :
    event_from_object (object (event_to_object event)) ≡ ok (tidy_event event)
event_from_object-event_to_object_example = event_from_object-event_to_object event event-Readable
