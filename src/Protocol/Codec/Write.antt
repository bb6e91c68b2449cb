-- ===== src/Protocol/Codec/Write.antt =====
-- codec.ts: `eventToObject` and the writers of payloads. The fields of an object stand in the order
-- in which the source writes them, and a field that is `undefined` is left out.
use qe_report.Prelude.{String, Option, none, some, List, [], ◌∷◌}
use qe_report.Prelude.Int.{ℤ, pos}
use qe_report.Protocol.Json.{
  Json, boolean, number, text, array, object, integer, Obj, empty, property, from_list,
  from_entries,
}
use qe_report.Protocol.Model.{
  Component, Executor, Source, Location, PathSegment, Failure, StringMap, TestCase, status_name,
  session_status_name, expected_status_name, stability_name, phase_name, SessionStartedPayload,
  SessionFinishedPayload, AttemptStartedPayload, AttemptFinishedPayload, StepStartedPayload,
  StepFinishedPayload, AttachmentAddedPayload, ScopeFailedPayload, Payload, session_started,
  session_finished, run_finished, attempt_started, attempt_finished, step_started, step_finished,
  attachment_added, scope_failed, unknown, event_type, Event,
}

-- a field in front of the others, unless it is `undefined`
abbrev pub field : String → Option Json → Obj → Obj
field name none o = o
field name (some v) o = property name v o

abbrev pub map {ℓ κ} : {A : Type ℓ} {B : Type κ} → (A → B) → List A → List B
map f [] = []
map f (a ∷ l) = f a ∷ map f l

abbrev pub write {ℓ} : {A : Type ℓ} → (A → Json) → Option A → Option Json
write f none = none
write f (some a) = some (f a)

abbrev pub whole : ℤ → Json
whole n = number (integer n)

abbrev pub write_list {ℓ} : {A : Type ℓ} → (A → Json) → List A → Json
write_list f l = array (from_list (map f l))

abbrev pub write_map : StringMap → Json
write_map m = object (from_entries (map (λ (e : String × String). (e.0, text e.1)) m))

-- `nonEmpty(m) ? { ...m } : undefined`
unfoldable pub nonempty_map : Option StringMap → Option Json
nonempty_map none = none
nonempty_map (some []) = none
nonempty_map (some (e ∷ m)) = some (write_map (e ∷ m))

unfoldable pub write_component : Component → Json
write_component c =
    object (field "name" (some (text c.name)) (field "version" (write text c.version) empty))

unfoldable pub write_location : Location → Json
write_location l = object (
    field "file" (some (text l.file))
      (field "line" (write whole l.line) (field "column" (write whole l.column) empty)))

unfoldable pub write_failure : Failure → Json
unfolding write_location
write_failure f = object (
    field "message" (some (text f.message)) (
      field "type" (write text f.type) (
        field "stackTrace" (write text f.stack_trace) (
          field "phase" (write (λ p. text (phase_name p)) f.phase)
            (field "location" (write write_location f.location) empty)))))

-- no failures are written as none
unfoldable pub write_failures : Option (List Failure) → Option Json
unfolding write_failure
write_failures none = none
write_failures (some []) = none
write_failures (some (f ∷ fs)) = some (write_list write_failure (f ∷ fs))

unfoldable pub write_executor : Executor → Json
write_executor e = object (
    field "name" (write text e.name)
      (field "buildId" (write text e.build_id) (field "buildUrl" (write text e.build_url) empty)))

unfoldable pub write_source : Source → Json
write_source s = object (
    field "repository" (write text s.repository)
      (field "revision" (write text s.revision) (field "branch" (write text s.branch) empty)))

abbrev pub write_segment : PathSegment → Json
write_segment s = object (property "kind" (text s.kind) (property "name" (text s.name) empty))

unfoldable pub write_tags : Option (List String) → Option Json
write_tags none = none
write_tags (some []) = none
write_tags (some (t ∷ ts)) = some (write_list text (t ∷ ts))

unfoldable pub write_test : TestCase → Json
unfolding write_location write_tags nonempty_map
write_test t = object (
    field "executionId" (some (text t.execution_id)) (
      field "historicalId" (write text t.historical_id) (
        field "historicalIdStability" (some (text (stability_name t.historical_id_stability))) (
          field "displayName" (some (text t.display_name)) (
            field "path" (some (write_list write_segment t.path)) (
              field "location" (write write_location t.location) (
                field "tags" (write_tags t.tags)
                  (field "labels" (nonempty_map t.labels) empty))))))))

unfoldable pub write_session_started : SessionStartedPayload → Obj
unfolding write_component write_executor write_source nonempty_map
write_session_started p = field "producer" (some (write_component p.producer)) (
    field "runner" (write write_component p.runner) (
      field "environment" (nonempty_map p.environment) (
        field "executor" (write write_executor p.executor) (
          field "source" (write write_source p.source)
            (field "labels" (nonempty_map p.labels) empty)))))

unfoldable pub write_session_finished : SessionFinishedPayload → Obj
unfolding write_failures
write_session_finished p = field "status" (write (λ s. text (session_status_name s)) p.status) (
    field "rawStatus" (write text p.raw_status)
      (field "failures" (write_failures p.failures) empty))

unfoldable pub write_attempt_started : AttemptStartedPayload → Obj
unfolding write_test
write_attempt_started p = property "attemptId" (text p.attempt_id) (
    property "attemptNumber" (whole (pos p.attempt_number))
      (property "test" (write_test p.test) empty))

unfoldable pub write_attempt_finished : AttemptFinishedPayload → Obj
unfolding write_failures
write_attempt_finished p = field "attemptId" (some (text p.attempt_id)) (
    field "status" (some (text (status_name p.status))) (
      field "rawStatus" (write text p.raw_status) (
        field "expectedStatus" (write (λ s. text (expected_status_name s)) p.expected_status) (
          field "durationMs" (write whole p.duration_ms)
            (field "failures" (write_failures p.failures) empty)))))

unfoldable pub write_step_started : StepStartedPayload → Obj
unfolding write_location
write_step_started p = field "stepId" (some (text p.step_id)) (
    field "attemptId" (some (text p.attempt_id)) (
      field "parentStepId" (write text p.parent_step_id) (
        field "name" (some (text p.name)) (
          field "kind" (write text p.kind)
            (field "location" (write write_location p.location) empty)))))

unfoldable pub write_step_finished : StepFinishedPayload → Obj
unfolding write_failures
write_step_finished p = field "stepId" (some (text p.step_id)) (
    field "attemptId" (some (text p.attempt_id)) (
      field "status" (some (text (status_name p.status))) (
        field "rawStatus" (write text p.raw_status) (
          field "durationMs" (write whole p.duration_ms)
            (field "failures" (write_failures p.failures) empty)))))

unfoldable pub write_attachment_added : AttachmentAddedPayload → Obj
write_attachment_added p = field "attemptId" (some (text p.attempt_id)) (
    field "stepId" (write text p.step_id) (
      field "name" (some (text p.name)) (
        field "mediaType" (some (text p.media_type)) (
          field "sizeBytes" (some (whole p.size_bytes))
            (field "sha256" (some (text p.sha256)) empty)))))

unfoldable pub write_scope_failed : ScopeFailedPayload → Obj
unfolding write_location write_failures
write_scope_failed p = field "path" (some (write_list write_segment p.path)) (
    field "displayName" (write text p.display_name) (
      field "rawStatus" (write text p.raw_status) (
        field "location" (write write_location p.location)
          (field "failures" (write_failures (some p.failures)) empty))))

-- `writePayload`, and the copy of an unknown payload
unfoldable pub write_payload : Payload → Obj
unfolding write_session_started write_session_finished write_attempt_started write_attempt_finished
    write_step_started write_step_finished write_attachment_added write_scope_failed
write_payload (session_started p) = write_session_started p
write_payload (session_finished p) = write_session_finished p
write_payload run_finished = empty
write_payload (attempt_started p) = write_attempt_started p
write_payload (attempt_finished p) = write_attempt_finished p
write_payload (step_started p) = write_step_started p
write_payload (step_finished p) = write_step_finished p
write_payload (attachment_added p) = write_attachment_added p
write_payload (scope_failed p) = write_scope_failed p
write_payload (unknown type p) = p

-- the object of an event over the given payload
abbrev pub envelope : Event → Json → Obj
envelope e payload = property "protocolVersion" (text e.protocol_version) (
    property "eventId" (text e.event_id) (
      property "eventType" (text (event_type e.payload)) (
        property "runId" (text e.run_id) (
          property "sessionId" (text e.session_id) (
            property "sequence" (whole (pos e.sequence)) (
              property "occurredAt" (text e.occurred_at) (
                field "ignorable" (write boolean e.ignorable)
                  (property "payload" payload empty))))))))

unfoldable pub event_to_object : Event → Obj
unfolding write_payload
event_to_object e = envelope e (object (write_payload e.payload))
