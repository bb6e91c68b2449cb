-- ===== src/Protocol/Codec/Read.antt =====
-- codec.ts: `readPayload` and `eventFromObject`.
use qe_report.Prelude.{
  ℕ, suc, String, Bool, true, false, Option, none, some, List, [], ◌∷◌, ◌&&◌, leb, if◌then◌else◌,
}
use qe_report.Prelude.Int.{ℤ, pos, negsuc}
use qe_report.Prelude.Keys.{text_keys, ◌===◌}
use qe_report.Protocol.Errors.{
  Pointer, key, ◌▹◌, malformed_json, unsupported_protocol_version, unsupported_event_type, Result,
  ok, err, ◌>>=◌, ◌>>◌, invalid, require,
}
use qe_report.Protocol.Json.{Json, boolean, object, Obj, member}
use qe_report.Protocol.Model.{
  SessionStatus, Failure, status_name, statuses, session_status_name, session_statuses,
  expected_status_name, expected_statuses, Payload, session_started, session_finished, run_finished,
  attempt_started, attempt_finished, step_started, step_finished, attachment_added, scope_failed,
  unknown, Event,
}
use qe_report.Protocol.Patterns.{is_event_type, is_timestamp}
use qe_report.Protocol.Version.{parse_protocol_version, is_supported_protocol_version}
use qe_report.Protocol.Codec.Fields.{
  present, required, required_string, optional, optional_string, identifier, optional_identifier,
  integral, optional_integral, one_of, one_of_optional, string_map, as_object, optional_object,
}
use qe_report.Protocol.Codec.Parts.{
  component, executor, source, location, failures, path_segments, test_case,
}

abbrev pub payload_at : Pointer
payload_at = key "payload" ∷ []

unfoldable pub read_session_started : Obj → Result Payload
read_session_started p = do
  producer_raw ← required p "producer" payload_at
  producer ← as_object (payload_at ▹ "producer") component producer_raw
  runner ← optional_object p "runner" payload_at component
  environment ← string_map p "environment" payload_at
  exec ← optional_object p "executor" payload_at executor
  src ← optional_object p "source" payload_at source
  labels ← string_map p "labels" payload_at
  ok (
      session_started (record {
        producer = producer;
        runner = runner;
        environment = environment;
        executor = exec;
        source = src;
        labels = labels;
      }))

-- `fs !== undefined && fs.length > 0`
abbrev pub some_failures : Option (List Failure) → Bool
some_failures (some (_ ∷ _)) = true
some_failures _ = false

-- The three rules of a session outcome; an empty list of failures is written as none.
unfoldable pub checked_outcome :
    Option SessionStatus → Option String → Option (List Failure) → Result Payload
checked_outcome none (some _) fs = err (invalid payload_at)
checked_outcome none none (some (_ ∷ _)) = err (invalid payload_at)
checked_outcome (some SessionStatus.passed) raw_status (some (_ ∷ _)) = err (invalid payload_at)
checked_outcome status raw_status fs = ok (
    session_finished (record {
      status = status;
      raw_status = raw_status;
      failures = if some_failures fs then fs else none;
    }))

unfoldable pub read_session_finished : Obj → Result Payload
unfolding checked_outcome
read_session_finished p = do
  status_raw ← optional_string p "status" payload_at
  status ← one_of_optional session_status_name status_raw session_statuses (payload_at ▹ "status")
  raw_status ← optional_string p "rawStatus" payload_at
  fs ← failures p payload_at
  checked_outcome status raw_status fs

-- an integer from `lo` to `hi`
abbrev pub ranged : ℕ → ℕ → Pointer → ℤ → Result ℕ
ranged lo hi at (pos n) = if leb lo n && leb n hi then ok n else err (invalid at)
ranged lo hi at (negsuc n) = err (invalid at)

unfoldable pub read_attempt_started : Obj → Result Payload
read_attempt_started p = do
  n ← integral p "attemptNumber" payload_at
  number ← ranged 1 1000 (payload_at ▹ "attemptNumber") n
  test_raw ← required p "test" payload_at
  test_obj ← as_object (payload_at ▹ "test") (λ o _. ok o) test_raw
  attempt_id ← identifier p "attemptId" payload_at
  test ← test_case test_obj (payload_at ▹ "test")
  ok (attempt_started (record { attempt_id = attempt_id; attempt_number = number; test = test }))

unfoldable pub read_attempt_finished : Obj → Result Payload
read_attempt_finished p = do
  expected_raw ← optional_string p "expectedStatus" payload_at
  attempt_id ← identifier p "attemptId" payload_at
  status_raw ← required_string p "status" payload_at
  status ← one_of status_name status_raw statuses (payload_at ▹ "status")
  raw_status ← optional_string p "rawStatus" payload_at
  expected_status ←
      one_of_optional expected_status_name expected_raw expected_statuses
        (payload_at ▹ "expectedStatus")
  duration_ms ← optional_integral p "durationMs" payload_at
  fs ← failures p payload_at
  ok (
      attempt_finished (record {
        attempt_id = attempt_id;
        status = status;
        raw_status = raw_status;
        expected_status = expected_status;
        duration_ms = duration_ms;
        failures = fs;
      }))

unfoldable pub read_step_started : Obj → Result Payload
read_step_started p = do
  step_id ← identifier p "stepId" payload_at
  attempt_id ← identifier p "attemptId" payload_at
  name ← required_string p "name" payload_at
  parent_step_id ← optional_identifier p "parentStepId" payload_at
  kind ← optional_string p "kind" payload_at
  place ← optional_object p "location" payload_at location
  ok (
      step_started (record {
        step_id = step_id;
        attempt_id = attempt_id;
        parent_step_id = parent_step_id;
        name = name;
        kind = kind;
        location = place;
      }))

unfoldable pub read_step_finished : Obj → Result Payload
read_step_finished p = do
  step_id ← identifier p "stepId" payload_at
  attempt_id ← identifier p "attemptId" payload_at
  status_raw ← required_string p "status" payload_at
  status ← one_of status_name status_raw statuses (payload_at ▹ "status")
  raw_status ← optional_string p "rawStatus" payload_at
  duration_ms ← optional_integral p "durationMs" payload_at
  fs ← failures p payload_at
  ok (
      step_finished (record {
        step_id = step_id;
        attempt_id = attempt_id;
        status = status;
        raw_status = raw_status;
        duration_ms = duration_ms;
        failures = fs;
      }))

unfoldable pub read_attachment_added : Obj → Result Payload
read_attachment_added p = do
  attempt_id ← identifier p "attemptId" payload_at
  name ← required_string p "name" payload_at
  media_type ← required_string p "mediaType" payload_at
  size_bytes ← integral p "sizeBytes" payload_at
  sha256 ← required_string p "sha256" payload_at
  step_id ← optional_identifier p "stepId" payload_at
  ok (
      attachment_added (record {
        attempt_id = attempt_id;
        step_id = step_id;
        name = name;
        media_type = media_type;
        size_bytes = size_bytes;
        sha256 = sha256;
      }))

-- the list, if it has an element
abbrev pub nonempty {ℓ} : {A : Type ℓ} → Pointer → List A → Result (List A)
nonempty at [] = err (invalid at)
nonempty at (x ∷ xs) = ok (x ∷ xs)

abbrev pub some_nonempty {ℓ} : {A : Type ℓ} → Pointer → Option (List A) → Result (List A)
some_nonempty at none = err (invalid at)
some_nonempty at (some xs) = nonempty at xs

unfoldable pub read_scope_failed : Obj → Result Payload
read_scope_failed p = do
  path_raw ← required p "path" payload_at
  segments ← path_segments path_raw (payload_at ▹ "path")
  path ← nonempty (payload_at ▹ "path") segments
  fs_raw ← failures p payload_at
  fs ← some_nonempty (payload_at ▹ "failures") fs_raw
  display_name ← optional_string p "displayName" payload_at
  raw_status ← optional_string p "rawStatus" payload_at
  place ← optional_object p "location" payload_at location
  ok (
      scope_failed (record {
        path = path;
        display_name = display_name;
        raw_status = raw_status;
        location = place;
        failures = fs;
      }))

abbrev pub read_unknown : String → Obj → Bool → Result Payload
read_unknown event_type p true = ok (unknown event_type p)
read_unknown event_type p false =
    err (record { code = unsupported_event_type; pointer = some (key "eventType" ∷ []) })

unfoldable pub read_payload : String → Obj → Bool → Result Payload
read_payload event_type p ignorable =
    if event_type === "session.started"
    then read_session_started p
    else if event_type === "session.finished"
    then read_session_finished p
    else if event_type === "run.finished"
    then ok run_finished
    else if event_type === "attempt.started"
    then read_attempt_started p
    else if event_type === "attempt.finished"
    then read_attempt_finished p
    else if event_type === "step.started"
    then read_step_started p
    else if event_type === "step.finished"
    then read_step_finished p
    else if event_type === "attachment.added"
    then read_attachment_added p
    else if event_type === "scope.failed"
    then read_scope_failed p
    else read_unknown event_type p ignorable

-- a version outside the supported line is told apart from a text that is no version
unfoldable pub check_version : String → Result (Unit {0})
check_version version = elim (parse_protocol_version version) [
  | none ↦ err (invalid (key "protocolVersion" ∷ []))
  | some v ↦
      require (is_supported_protocol_version v) (record {
        code = unsupported_protocol_version;
        pointer = some (key "protocolVersion" ∷ []);
      })
]

abbrev pub as_boolean : Pointer → Json → Result Bool
as_boolean at (boolean b) = ok b
as_boolean at _ = err (invalid at)

abbrev pub is_true : Option Bool → Bool
is_true (some true) = true
is_true _ = false

-- 2^53 - 1 bounds every integer that `integral` admits
abbrev pub at_least_one : Pointer → ℤ → Result ℕ
at_least_one at (pos (suc n)) = ok (suc n)
at_least_one at _ = err (invalid at)

-- an absent payload is no object either
abbrev pub payload_object : Option Json → Result Obj
payload_object (some (object p)) = ok p
payload_object _ = err (invalid payload_at)

unfoldable pub read_event : Obj → Result Event
read_event root = do
  protocol_version ← required_string root "protocolVersion" []
  check_version protocol_version
  event_type ← required_string root "eventType" []
  require (is_event_type event_type) (invalid (key "eventType" ∷ []))
  event_id ← identifier root "eventId" []
  run_id ← identifier root "runId" []
  session_id ← identifier root "sessionId" []
  n ← integral root "sequence" []
  sequence ← at_least_one (key "sequence" ∷ []) n
  occurred_at ← required_string root "occurredAt" []
  require (is_timestamp occurred_at) (invalid (key "occurredAt" ∷ []))
  ignorable ← optional (as_boolean (key "ignorable" ∷ [])) (present (member "ignorable" root))
  p ← payload_object (member "payload" root)
  payload ← read_payload event_type p (is_true ignorable)
  ok (record {
    protocol_version = protocol_version;
    event_id = event_id;
    run_id = run_id;
    session_id = session_id;
    sequence = sequence;
    occurred_at = occurred_at;
    ignorable = ignorable;
    payload = payload;
  })

unfoldable pub event_from_object : Json → Result Event
unfolding read_event
event_from_object (object root) = read_event root
event_from_object _ = err (record { code = malformed_json; pointer = some [] })
