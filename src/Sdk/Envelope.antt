-- ===== src/Sdk/Envelope.antt =====
-- The envelope of an event and its type under redaction.
use qe_report.Prelude.{
  String, Bool, false, none, ◌≡◌, sym, ◌∙◌, if◌then◌else◌, Bool-cases, inl, inr, arith,
}
use qe_report.Prelude.Keys.{text_keys, ◌===◌}
use qe_report.Protocol.Errors.{Result, ok}
use qe_report.Protocol.Json.{Obj, member, object}
use qe_report.Protocol.Model.{Payload, run_finished, Event, event_type}
use qe_report.Protocol.Codec.Fields.{required_string, required, integral, identifier}
use qe_report.Protocol.Codec.Write.{envelope, write_payload}
use qe_report.Sdk.Redactor.{Redactor, redact_event, walk_properties}
use qe_report.Protocol.Codec.Read.{
  read_session_started, read_session_finished, read_attempt_started, read_attempt_finished,
  read_step_started, read_step_finished, read_attachment_added, read_scope_failed, read_unknown,
  read_payload, read_event, checked_outcome,
}
use text.Mathlib.TextEquality.{eq_iff}

session_started_type :
    (p : Obj) {q : Payload} → read_session_started p ≡ ok q → event_type q ≡ "session.started"
unfolding read_session_started
session_started_type p h = ground arith

session_finished_type :
    (p : Obj) {q : Payload} → read_session_finished p ≡ ok q → event_type q ≡ "session.finished"
unfolding read_session_finished checked_outcome
session_finished_type p h = ground arith

attempt_started_type :
    (p : Obj) {q : Payload} → read_attempt_started p ≡ ok q → event_type q ≡ "attempt.started"
unfolding read_attempt_started
attempt_started_type p h = ground arith

attempt_finished_type :
    (p : Obj) {q : Payload} → read_attempt_finished p ≡ ok q → event_type q ≡ "attempt.finished"
unfolding read_attempt_finished
attempt_finished_type p h = ground arith

step_started_type :
    (p : Obj) {q : Payload} → read_step_started p ≡ ok q → event_type q ≡ "step.started"
unfolding read_step_started
step_started_type p h = ground arith

step_finished_type :
    (p : Obj) {q : Payload} → read_step_finished p ≡ ok q → event_type q ≡ "step.finished"
unfolding read_step_finished
step_finished_type p h = ground arith

attachment_added_type :
    (p : Obj) {q : Payload} → read_attachment_added p ≡ ok q → event_type q ≡ "attachment.added"
unfolding read_attachment_added
attachment_added_type p h = ground arith

scope_failed_type :
    (p : Obj) {q : Payload} → read_scope_failed p ≡ ok q → event_type q ≡ "scope.failed"
unfolding read_scope_failed
scope_failed_type p h = ground arith

unknown_type :
    (type : String) (p : Obj) (ignorable : Bool) {q : Payload}
    → read_unknown type p ignorable ≡ ok q
    → event_type q ≡ type
unknown_type type p ignorable h = ground arith

-- one test of the chain
chosen_type :
    (type name : String) (a b : Result Payload) {q : Payload}
    → (a ≡ ok q → event_type q ≡ name)
    → (b ≡ ok q → event_type q ≡ type)
    → (if type === name then a else b) ≡ ok q
    → event_type q ≡ type
chosen_type type name a b {q} first others h = elim (Bool-cases (type === name)) [
  | inl same ↦ first (rw same at h) ∙ sym ((eq_iff type name).0 same)
  | inr other ↦ others (rw other at h)
]

run_finished_type : {q : Payload} → ok run_finished ≡ ok q → event_type q ≡ "run.finished"
run_finished_type h = ground arith

-- the payload that is read for a type has this type
pub read_payload-event_type :
    (type : String) (p : Obj) (ignorable : Bool) {q : Payload}
    → read_payload type p ignorable ≡ ok q
    → event_type q ≡ type
unfolding read_payload
read_payload-event_type type p ignorable =
    chosen_type type "session.started" _ _ (session_started_type p) (
      chosen_type type "session.finished" _ _ (session_finished_type p) (
        chosen_type type "run.finished" _ _ run_finished_type (
          chosen_type type "attempt.started" _ _ (attempt_started_type p) (
            chosen_type type "attempt.finished" _ _ (attempt_finished_type p) (
              chosen_type type "step.started" _ _ (step_started_type p) (
                chosen_type type "step.finished" _ _ (step_finished_type p) (
                  chosen_type type "attachment.added" _ _ (attachment_added_type p) (
                    chosen_type type "scope.failed" _ _ (scope_failed_type p)
                      (unknown_type type p ignorable)))))))))

-- What redaction keeps of an event.
pub record SameEnvelope (a b : Event) : Type 0 where
  pub event_id : b.event_id ≡ a.event_id
  pub run_id : b.run_id ≡ a.run_id
  pub session_id : b.session_id ≡ a.session_id
  pub sequence : b.sequence ≡ a.sequence
  pub type : event_type b.payload ≡ event_type a.payload

read_envelope :
    (e : Event) (p : Obj) {b : Event}
    → e.ignorable ≡ none
    → read_event (envelope e (object p)) ≡ ok b
    → (b.event_id ≡ e.event_id)
      × (b.run_id ≡ e.run_id)
      × (b.session_id ≡ e.session_id)
      × (b.sequence ≡ e.sequence)
unfolding read_event required_string required integral identifier member
read_envelope e p i h = ground arith

read_type :
    (e : Event) (p : Obj) {b : Event}
    → e.ignorable ≡ none
    → read_event (envelope e (object p)) ≡ ok b
    → event_type b.payload ≡ event_type e.payload
unfolding read_event required_string required integral identifier member
read_type e p {b} i h =
    ground (arith, read_payload-event_type (event_type e.payload) p false {q = b.payload})

-- Redaction keeps the envelope of an event and the type of its payload, whatever it replaces.
pub redact_event-SameEnvelope :
    (r : Redactor) (e : Event) {b : Event}
    → e.ignorable ≡ none
    → redact_event r e ≡ ok b
    → SameEnvelope e b
unfolding redact_event
redact_event-SameEnvelope r e i h =
    let ids = read_envelope e (walk_properties r (write_payload e.payload)) i h in
    record {
      event_id = ids.0;
      run_id = ids.1;
      session_id = ids.2;
      sequence = ids.3;
      type = read_type e (walk_properties r (write_payload e.payload)) i h;
    }
