-- ===== src/Protocol/Codec/PayloadsBack.antt =====
-- codec.ts: payloads, written and read.
use qe_report.Prelude.{String, Bool, true, false, some, ◌≡◌, refl, arith}
use qe_report.Prelude.Keys.{text_keys, ◌===◌}
use qe_report.Protocol.Errors.{ok}
use qe_report.Protocol.Json.{Obj}
use qe_report.Protocol.Model.{
  Payload, session_started, session_finished, run_finished, attempt_started, attempt_finished,
  step_started, step_finished, attachment_added, scope_failed, unknown, event_type,
  is_known_event_type,
}
use qe_report.Protocol.Patterns.{is_identifier}
use qe_report.Protocol.Codec.Fields.{is_safe}
use qe_report.Protocol.Codec.Read.{read_payload}
use qe_report.Protocol.Codec.Write.{write_payload}
use qe_report.Protocol.Codec.Built.{IsIdentifier, IsSafe}
use qe_report.Protocol.Codec.Lists.{tidy}
use qe_report.Protocol.Codec.PartsBack.{ReadableTest, tidy_test}
use qe_report.Protocol.Codec.FailuresBack.{SafePlace, SafeFailures}
use qe_report.Protocol.Codec.SessionsBack.{
  InAttempts, ReadableOutcome, attempt_started-write, session_finished-write, session_started-write,
  tidy_started,
}
use qe_report.Protocol.Codec.StepsBack.{
  IsNonempty, attachment_added-write, attempt_finished-write, scope_failed-write,
  step_finished-write, step_started-write,
}

-- A payload that the codec reads, with the flag of its event: identifiers match their pattern, numbers
-- are in range, and an unknown type is ignorable.
abbrev pub ReadablePayload : Bool → Payload → Type 0
ReadablePayload b (session_started p) = Unit
ReadablePayload b (session_finished p) =
    SafeFailures p.failures × ReadableOutcome p.status p.raw_status p.failures
ReadablePayload b run_finished = Unit
ReadablePayload b (attempt_started p) =
    InAttempts p.attempt_number × (is_identifier p.attempt_id ≡ true) × ReadableTest p.test
ReadablePayload b (attempt_finished p) =
    (is_identifier p.attempt_id ≡ true) × IsSafe p.duration_ms × SafeFailures p.failures
ReadablePayload b (step_started p) =
    (is_identifier p.step_id ≡ true)
    × (is_identifier p.attempt_id ≡ true)
    × IsIdentifier p.parent_step_id
    × SafePlace p.location
ReadablePayload b (step_finished p) =
    (is_identifier p.step_id ≡ true)
    × (is_identifier p.attempt_id ≡ true)
    × IsSafe p.duration_ms
    × SafeFailures p.failures
ReadablePayload b (attachment_added p) =
    (is_identifier p.attempt_id ≡ true) × IsIdentifier p.step_id × (is_safe p.size_bytes ≡ true)
ReadablePayload b (scope_failed p) =
    IsNonempty p.path
    × IsNonempty p.failures
    × SafeFailures (some p.failures)
    × SafePlace p.location
ReadablePayload b (unknown type p) = (b ≡ true) × (is_known_event_type type ≡ false)

-- Empty lists and maps that are not written.
abbrev pub tidy_payload : Payload → Payload
tidy_payload (session_started p) = session_started (tidy_started p)
tidy_payload (session_finished p) = session_finished (record p { failures = tidy p.failures })
tidy_payload (attempt_started p) = attempt_started (record p { test = tidy_test p.test })
tidy_payload (attempt_finished p) = attempt_finished (record p { failures = tidy p.failures })
tidy_payload (step_finished p) = step_finished (record p { failures = tidy p.failures })
tidy_payload p = p

turned : (a b : String) → (a === b) ≡ (b === a)
turned a b = ground (arith, text_keys.beq_iff a b, text_keys.beq_iff b a)

unknown-write :
    (type : String) (o : Obj)
    → is_known_event_type type ≡ false
    → read_payload type o true ≡ ok (unknown type o)
unfolding read_payload is_known_event_type
unknown-write type o h = ground (
  arith,
  turned type "session.started",
  turned type "session.finished",
  turned type "run.finished",
  turned type "attempt.started",
  turned type "attempt.finished",
  turned type "step.started",
  turned type "step.finished",
  turned type "attachment.added",
  turned type "scope.failed",
)

pub payload-write :
    (b : Bool) (p : Payload)
    → ReadablePayload b p
    → read_payload (event_type p) (write_payload p) b ≡ ok (tidy_payload p)
unfolding read_payload write_payload
payload-write b (session_started p) h = session_started-write p
payload-write b (session_finished p) h = session_finished-write p h.0 h.1
payload-write b run_finished h = refl
payload-write b (attempt_started p) h = attempt_started-write p h.0 h.1 h.2
payload-write b (attempt_finished p) h = attempt_finished-write p h.0 h.1 h.2
payload-write b (step_started p) h = step_started-write p h.0 h.1 h.2 h.3
payload-write b (step_finished p) h = step_finished-write p h.0 h.1 h.2 h.3
payload-write b (attachment_added p) h = attachment_added-write p h.0 h.1 h.2
payload-write b (scope_failed p) h = scope_failed-write p h.0 h.1 h.2 h.3
payload-write b (unknown type p) h = rw h.0 (unknown-write type p h.1)
