-- ===== src/Sdk/Tests.antt =====
-- Sessions over a sink that keeps nothing, to which the theorems on session.ts are applied.
use qe_report.Prelude.{String, true, false, none, some, List, [], ◌∷◌, ◌≡◌, refl}
use qe_report.Protocol.Json.{Json}
use qe_report.Protocol.Model.{
  Status, SessionStatus, Payload, attempt_finished, SessionStartedPayload, SessionFinishedPayload,
}
use qe_report.Sdk.Redactor.{Redactor, redact_event}
use qe_report.Sdk.Session.Model.{
  ReportSink, Options, Session, stored, StoredAttachment, new_session,
}
use qe_report.Sdk.Session.Write.{candidate, tick, write}
use qe_report.Sdk.Session.Lifecycle.{start, emit, finish_with}
use qe_report.Sdk.Session.Calls.{Call, emit_call, finish_call, finish_run_call, close_call, calls}
use qe_report.Sdk.Session.Recorded.{Recorded, recorded}
use qe_report.Sdk.Session.Sound.{Sound}
use qe_report.Sdk.Session.Results.{calls-Sound}
use qe_report.Sdk.Session.Rounds.{finish_with-three_rounds}
use qe_report.Sdk.Session.Told.{Told}
use qe_report.Sdk.Session.Reported.{calls-Told}

abbrev digest : StoredAttachment
digest = record { sha256 = "abc"; size_bytes = 3 }

abbrev sink : ReportSink (Unit {0})
sink = record {
  max_attachment_bytes = 1000;
  write = λ e s. (true, s);
  store_attachment = λ bytes s. (stored digest, s);
  store_stream = λ bytes s. (stored digest, s);
  close = λ s. (true, s);
}

abbrev redactor : Redactor
redactor = record {
  private_key_block = λ s. s;
  header_value = λ s. s;
  key_value = λ s. s;
  url_userinfo = λ s. s;
  bearer = λ s. "[REDACTED]";
  jwt = λ s. s;
  well_known_tokens = [];
  rules = [];
}

abbrev options : Options (Unit {0})
options = record {
  run_id = "run-1";
  session_id = "s-1";
  sink = sink;
  redactor = redactor;
  ids = λ n. "e-1";
  clock = λ n. "2024-01-02T03:04:05Z";
  max_event_bytes = 1000;
  stringify = λ json. "{}";
  encode = λ s. [];
  decode = λ bytes. "";
  lower_case = λ s. s;
}

abbrev started : SessionStartedPayload
started = record {
  producer = record { name = "sdk"; version = none };
  runner = none;
  environment = none;
  executor = none;
  source = none;
  labels = none;
}

abbrev finished : String → Payload
finished id = attempt_finished (record {
  attempt_id = id;
  status = Status.passed;
  raw_status = none;
  expected_status = none;
  duration_ms = none;
  failures = none;
})

abbrev outcome : SessionFinishedPayload
outcome = record { status = some SessionStatus.failed; raw_status = some "red"; failures = none }

abbrev script : List Call
script =
    emit_call (finished "a-1") refl
    ∷ emit_call (finished "a 1") refl
    ∷ finish_call outcome
    ∷ finish_run_call
    ∷ emit_call (finished "a-2") refl
    ∷ close_call
    ∷ []

runs : (s : Session (Recorded (Unit {0}))) × (start (recorded options) started (tt, []) ≡ some s)
unfolding qe_report.Protocol.Json.member qe_report.Protocol.Version.digits
    qe_report.Protocol.Version.numeral qe_report.Protocol.Version.dot
    qe_report.Protocol.Version.parse_codes qe_report.Protocol.Version.parse_protocol_version
    qe_report.Protocol.Version.is_supported_protocol_version
    qe_report.Protocol.Patterns.is_identifier_codes qe_report.Protocol.Patterns.is_identifier
    qe_report.Protocol.Patterns.dotted_words qe_report.Protocol.Patterns.is_event_type
    qe_report.Protocol.Patterns.after qe_report.Protocol.Patterns.is_zone
    qe_report.Protocol.Patterns.fraction qe_report.Protocol.Patterns.after_seconds
    qe_report.Protocol.Patterns.is_timestamp qe_report.Protocol.Codec.Fields.required
    qe_report.Protocol.Codec.Fields.required_string qe_report.Protocol.Codec.Fields.optional_string
    qe_report.Protocol.Codec.Fields.identifier qe_report.Protocol.Codec.Fields.optional_identifier
    qe_report.Protocol.Codec.Fields.integral qe_report.Protocol.Codec.Fields.optional_integral
    qe_report.Protocol.Codec.Fields.one_of qe_report.Protocol.Codec.Fields.string_entries
    qe_report.Protocol.Codec.Fields.string_map qe_report.Protocol.Codec.Fields.read_items
    qe_report.Protocol.Codec.Fields.string_list qe_report.Protocol.Codec.Fields.optional_object
    qe_report.Protocol.Codec.Parts.component qe_report.Protocol.Codec.Parts.executor
    qe_report.Protocol.Codec.Parts.source qe_report.Protocol.Codec.Parts.location
    qe_report.Protocol.Codec.Parts.failure qe_report.Protocol.Codec.Parts.failures
    qe_report.Protocol.Codec.Parts.path_segment qe_report.Protocol.Codec.Parts.path_segments
    qe_report.Protocol.Codec.Parts.check_identity qe_report.Protocol.Codec.Parts.test_case
    qe_report.Protocol.Codec.Read.read_session_started qe_report.Protocol.Codec.Read.checked_outcome
    qe_report.Protocol.Codec.Read.read_session_finished
    qe_report.Protocol.Codec.Read.read_attempt_started
    qe_report.Protocol.Codec.Read.read_attempt_finished
    qe_report.Protocol.Codec.Read.read_step_started qe_report.Protocol.Codec.Read.read_step_finished
    qe_report.Protocol.Codec.Read.read_attachment_added
    qe_report.Protocol.Codec.Read.read_scope_failed qe_report.Protocol.Codec.Read.read_payload
    qe_report.Protocol.Codec.Read.check_version qe_report.Protocol.Codec.Read.read_event
    qe_report.Protocol.Codec.Read.event_from_object qe_report.Protocol.Codec.Write.nonempty_map
    qe_report.Protocol.Codec.Write.write_component qe_report.Protocol.Codec.Write.write_location
    qe_report.Protocol.Codec.Write.write_failure qe_report.Protocol.Codec.Write.write_failures
    qe_report.Protocol.Codec.Write.write_executor qe_report.Protocol.Codec.Write.write_source
    qe_report.Protocol.Codec.Write.write_tags qe_report.Protocol.Codec.Write.write_test
    qe_report.Protocol.Codec.Write.write_session_started
    qe_report.Protocol.Codec.Write.write_session_finished
    qe_report.Protocol.Codec.Write.write_attempt_started
    qe_report.Protocol.Codec.Write.write_attempt_finished
    qe_report.Protocol.Codec.Write.write_step_started
    qe_report.Protocol.Codec.Write.write_step_finished
    qe_report.Protocol.Codec.Write.write_attachment_added
    qe_report.Protocol.Codec.Write.write_scope_failed qe_report.Protocol.Codec.Write.write_payload
    qe_report.Protocol.Codec.Write.event_to_object qe_report.Sdk.Redactor.redact_text
    qe_report.Sdk.Redactor.is_structural qe_report.Sdk.Redactor.redact_event
    qe_report.Sdk.Redactor.walk qe_report.Sdk.Redactor.walk_items
    qe_report.Sdk.Redactor.walk_properties qe_report.Sdk.Session.Write.event_bytes
    qe_report.Sdk.Session.Write.send qe_report.Sdk.Session.Write.write
    qe_report.Sdk.Session.Lifecycle.accepts_session_events
    qe_report.Sdk.Session.Lifecycle.outcome_violation qe_report.Sdk.Session.Lifecycle.reduction
    qe_report.Sdk.Session.Lifecycle.finish_with qe_report.Sdk.Session.Lifecycle.finish
    qe_report.Sdk.Session.Lifecycle.finish_run qe_report.Sdk.Session.Lifecycle.close
    qe_report.Sdk.Session.Lifecycle.emit qe_report.Sdk.Session.Lifecycle.start
runs = (_, refl)

calls-Sound_example : Sound options (calls (recorded options) script runs.0)
calls-Sound_example = calls-Sound options started tt script runs.1

finish_with-three_rounds_example :
    finish_with options 7 outcome (new_session tt) ≡ finish_with options 3 outcome (new_session tt)
finish_with-three_rounds_example = finish_with-three_rounds options 4 outcome (new_session tt)

-- a sink whose every write throws
abbrev broken : Options (Unit {0})
broken = record options { sink = record sink { write = λ e s. (false, s) } }

calls-Told_example : Told (calls options script (new_session tt))
calls-Told_example = calls-Told options tt script
