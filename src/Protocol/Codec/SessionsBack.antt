-- ===== src/Protocol/Codec/SessionsBack.antt =====
-- codec.ts: the payloads of sessions and of an attempt's start, written and read.
use qe_report.Prelude.{
  ℕ, ◌≤◌, String, true, Option, none, some, List, [], ◌∷◌, ◌≡◌, refl, ap, ◌∙◌, arith,
}
use qe_report.Prelude.Int.{pos}
use qe_report.Prelude.Keys.{text_keys}
use qe_report.Protocol.Errors.{Pointer, ◌▹◌, ok}
use qe_report.Protocol.Json.{text, Obj}
use qe_report.Protocol.Model.{
  SessionStatus, session_status_name, Failure, SessionStartedPayload, SessionFinishedPayload,
  AttemptStartedPayload, session_started, session_finished, attempt_started,
}
use qe_report.Protocol.Patterns.{is_identifier}
use qe_report.Protocol.Codec.Fields.{present, is_safe}
use qe_report.Protocol.Codec.Parts.{component, executor, source}
use qe_report.Protocol.Codec.Read.{
  payload_at, checked_outcome, read_session_started, read_session_finished, ranged,
  read_attempt_started,
}
use qe_report.Protocol.Codec.Write.{
  write, whole, write_component, write_executor, write_source, write_failures, write_test,
  nonempty_map, write_session_started, write_session_finished, write_attempt_started,
}
use qe_report.Protocol.Codec.Built.{
  Fields, build, member-build, required-member, identifier-member, optional_string-member,
  integral-member, Reads, optional_object-member,
}
use qe_report.Protocol.Codec.Lists.{
  tidy, string_map-member, one_of-session_status, name_of, write-name,
}
use qe_report.Protocol.Codec.PartsBack.{ReadableTest, tidy_test, test-write}
use qe_report.Protocol.Codec.FailuresBack.{
  component_fields, component-write, executor_fields, executor-write, source_fields, source-write,
  SafeFailures, failures-write,
}

abbrev pub tidy_started : SessionStartedPayload → SessionStartedPayload
tidy_started p = record p { environment = tidy p.environment; labels = tidy p.labels }

component-Reads : (v : Option _) → Reads component (λ a. build (component_fields a)) v
component-Reads none = tt
component-Reads (some c) = component-write c

executor-Reads : (v : Option _) → Reads executor (λ a. build (executor_fields a)) v
executor-Reads none = tt
executor-Reads (some c) = executor-write c

source-Reads : (v : Option _) → Reads source (λ a. build (source_fields a)) v
source-Reads none = tt
source-Reads (some c) = source-write c

pub session_started-write :
    (p : SessionStartedPayload)
    → read_session_started (write_session_started p) ≡ ok (session_started (tidy_started p))
unfolding read_session_started write_session_started
session_started-write p =
    let l : Fields =
      ("producer", some (write_component p.producer))
      ∷ ("runner", write write_component p.runner)
      ∷ ("environment", nonempty_map p.environment)
      ∷ ("executor", write write_executor p.executor)
      ∷ ("source", write write_source p.source)
      ∷ ("labels", nonempty_map p.labels)
      ∷ [] in
    let o : Obj = build l in
    let at : Pointer = payload_at in
    rw (
      required-member o "producer" at (write_component p.producer)
          (ap present (member-build "producer" l refl)),
      component-write p.producer (at ▹ "producer"),
      optional_object-member o "runner" at component (λ a. build (component_fields a)) p.runner
          (component-Reads p.runner) (member-build "runner" l refl),
      string_map-member o "environment" at p.environment (member-build "environment" l refl),
      optional_object-member o "executor" at executor (λ a. build (executor_fields a)) p.executor
          (executor-Reads p.executor) (member-build "executor" l refl),
      optional_object-member o "source" at source (λ a. build (source_fields a)) p.source
          (source-Reads p.source) (member-build "source" l refl),
      string_map-member o "labels" at p.labels (member-build "labels" l refl),
    )

-- The rules of a session's outcome.
abbrev pub ReadableOutcome : Option SessionStatus → Option String → Option (List Failure) → Type 0
ReadableOutcome none raw fs = (raw ≡ none) × (tidy fs ≡ none)
ReadableOutcome (some SessionStatus.passed) raw fs = tidy fs ≡ none
ReadableOutcome (some _) raw fs = Unit

checked_outcome-tidy :
    (s : Option SessionStatus) (raw : Option String) (fs : Option (List Failure))
    → ReadableOutcome s raw fs
    → checked_outcome s raw (tidy fs)
      ≡ ok (session_finished (record { status = s; raw_status = raw; failures = tidy fs }))
unfolding checked_outcome
checked_outcome-tidy none raw fs (h, k) = rw (h, k)
checked_outcome-tidy (some SessionStatus.passed) raw fs h = rw h
checked_outcome-tidy (some SessionStatus.failed) raw none h = refl
checked_outcome-tidy (some SessionStatus.failed) raw (some []) h = refl
checked_outcome-tidy (some SessionStatus.failed) raw (some (f ∷ fs)) h = refl
checked_outcome-tidy (some SessionStatus.inconclusive) raw none h = refl
checked_outcome-tidy (some SessionStatus.inconclusive) raw (some []) h = refl
checked_outcome-tidy (some SessionStatus.inconclusive) raw (some (f ∷ fs)) h = refl

pub session_finished-write :
    (p : SessionFinishedPayload)
    → SafeFailures p.failures
    → ReadableOutcome p.status p.raw_status p.failures
    → read_session_finished (write_session_finished p)
      ≡ ok (session_finished (record p { failures = tidy p.failures }))
unfolding read_session_finished write_session_finished
session_finished-write p s h =
    let l : Fields =
      ("status", write (λ s. text (session_status_name s)) p.status)
      ∷ ("rawStatus", write text p.raw_status)
      ∷ ("failures", write_failures p.failures)
      ∷ [] in
    let o : Obj = build l in
    let at : Pointer = payload_at in
    rw (
      optional_string-member o "status" at (name_of session_status_name p.status)
          (member-build "status" l refl ∙ write-name session_status_name p.status),
      one_of-session_status (at ▹ "status") p.status,
      optional_string-member o "rawStatus" at p.raw_status (member-build "rawStatus" l refl),
      failures-write o at p.failures s (member-build "failures" l refl),
      checked_outcome-tidy p.status p.raw_status p.failures h,
    )

-- from 1 to 1000
abbrev pub InAttempts : ℕ → Type 0
InAttempts n = (1 ≤ n) × (n ≤ 1000)

ranged-InAttempts : (n : ℕ) (at : Pointer) → InAttempts n → ranged 1 1000 at (pos n) ≡ ok n
ranged-InAttempts n at h = ground arith

small_safe : (n : ℕ) → n ≤ 1000 → is_safe (pos n) ≡ true
small_safe n h = ground arith

pub attempt_started-write :
    (p : AttemptStartedPayload)
    → InAttempts p.attempt_number
    → is_identifier p.attempt_id ≡ true
    → ReadableTest p.test
    → read_attempt_started (write_attempt_started p)
      ≡ ok (attempt_started (record p { test = tidy_test p.test }))
unfolding read_attempt_started write_attempt_started
attempt_started-write p n i t =
    let l : Fields =
      ("attemptId", some (text p.attempt_id))
      ∷ ("attemptNumber", some (whole (pos p.attempt_number)))
      ∷ ("test", some (write_test p.test))
      ∷ [] in
    let o : Obj = build l in
    let at : Pointer = payload_at in
    rw (
      integral-member o "attemptNumber" at (pos p.attempt_number) (small_safe p.attempt_number n.1)
          (member-build "attemptNumber" l refl),
      ranged-InAttempts p.attempt_number (at ▹ "attemptNumber") n,
      required-member o "test" at (write_test p.test) (ap present (member-build "test" l refl)),
      identifier-member o "attemptId" at p.attempt_id i (member-build "attemptId" l refl),
      test-write p.test (at ▹ "test") t,
    )
