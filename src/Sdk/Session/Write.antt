-- ===== src/Sdk/Session/Write.antt =====
-- session.ts: `write`, which fills the envelope, redacts, enforces the size limit, and calls the sink.
use Prim.Native.String.{len}
use qe_report.Prelude.{ℕ, ◌+◌, Bool, true, false, none, ltb, if◌then◌else◌}
use qe_report.Protocol.Errors.{Result, ok, err}
use qe_report.Protocol.Json.{object}
use qe_report.Protocol.Model.{Payload, Event}
use qe_report.Protocol.Version.{current_version}
use qe_report.Protocol.Codec.Write.{event_to_object}
use qe_report.Sdk.Redactor.{redact_event}
use qe_report.Sdk.Session.Model.{
  Options, Session, returned, thrown, Action, problem, drop, event_too_large, sink_failure,
}

-- What became of one write.
pub data WriteAttempt : Type 0 where
  written too_large failed : WriteAttempt

abbrev pub candidate : {S : Type 0} → Options S → Payload → Session S → Event
candidate c payload s = record {
  protocol_version = current_version;
  event_id = c.ids s.calls;
  run_id = c.run_id;
  session_id = c.session_id;
  sequence = s.sequence + 1;
  occurred_at = c.clock s.calls;
  ignorable = none;
  payload = payload;
}

-- Buffer.byteLength(stringifyEvent(event)) + 1
unfoldable pub event_bytes : {S : Type 0} → Options S → Event → ℕ
event_bytes c event = len (c.stringify (object (event_to_object event))) + 1

abbrev pub report_size : {S : Type 0} → Bool → Session S → Session S
report_size true s = problem event_too_large s
report_size false s = s

abbrev pub put_sink : {S : Type 0} → S → Session S → Session S
put_sink sink s = record s { sink = sink }

abbrev pub count_written : {S : Type 0} → Session S → Session S
count_written s = record s { sequence = s.sequence + 1; written = s.written + 1 }

-- after the call of the sink, which may have thrown
abbrev pub settle : {S : Type 0} → Bool × S → Action S WriteAttempt
settle (true, sink) s = returned written (count_written (put_sink sink s))
settle (false, sink) s = returned failed (problem sink_failure (drop (put_sink sink s)))

unfoldable pub send : {S : Type 0} → Options S → Event → Bool → Action S WriteAttempt
send c event report s =
    if ltb c.max_event_bytes (event_bytes c event)
    then returned too_large (report_size report (drop s))
    else settle (c.sink.write event s.sink) s

abbrev pub send_redacted : {S : Type 0} → Options S → Result Event → Bool → Action S WriteAttempt
send_redacted c (err _) report s = thrown s
send_redacted c (ok event) report s = send c event report s

-- one call of `ids` and of `clock`
abbrev pub tick : {S : Type 0} → Session S → Session S
tick s = record s { calls = s.calls + 1 }

unfoldable pub write : {S : Type 0} → Options S → Payload → Bool → Action S WriteAttempt
unfolding send
write c payload report s =
    send_redacted c (redact_event c.redactor (candidate c payload s)) report (tick s)
