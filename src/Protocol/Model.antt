-- ===== src/Protocol/Model.antt =====
-- model.ts: the events and their payloads. A property that may be absent is an `Option`; the names
-- of an enumeration's values are given by the functions below each type.
use qe_report.Prelude.{ℕ, String, Bool, true, false, Option, List, [], ◌∷◌, any}
use qe_report.Prelude.Int.{ℤ}
use qe_report.Prelude.Keys.{text_keys, ◌===◌}
use qe_report.Protocol.Json.{Obj}

-- An attempt's or a step's status.
pub data Status : Type 0 where
  passed failed skipped inconclusive : Status

pub data SessionStatus : Type 0 where
  passed failed inconclusive : SessionStatus

pub data ExpectedStatus : Type 0 where
  passed failed skipped : ExpectedStatus

pub data HistoricalIdStability : Type 0 where
  stable uncertain unavailable : HistoricalIdStability

pub data FailurePhase : Type 0 where
  setup test teardown : FailurePhase

abbrev pub status_name : Status → String
status_name Status.passed = "passed"
status_name Status.failed = "failed"
status_name Status.skipped = "skipped"
status_name Status.inconclusive = "inconclusive"

abbrev pub session_status_name : SessionStatus → String
session_status_name SessionStatus.passed = "passed"
session_status_name SessionStatus.failed = "failed"
session_status_name SessionStatus.inconclusive = "inconclusive"

abbrev pub expected_status_name : ExpectedStatus → String
expected_status_name ExpectedStatus.passed = "passed"
expected_status_name ExpectedStatus.failed = "failed"
expected_status_name ExpectedStatus.skipped = "skipped"

abbrev pub stability_name : HistoricalIdStability → String
stability_name stable = "stable"
stability_name uncertain = "uncertain"
stability_name unavailable = "unavailable"

abbrev pub phase_name : FailurePhase → String
phase_name setup = "setup"
phase_name FailurePhase.test = "test"
phase_name teardown = "teardown"

-- STATUSES, EXPECTED_STATUSES, HISTORICAL_ID_STABILITIES, FAILURE_PHASES
abbrev pub statuses : List Status
statuses = Status.passed ∷ Status.failed ∷ Status.skipped ∷ Status.inconclusive ∷ []

abbrev pub session_statuses : List SessionStatus
session_statuses = SessionStatus.passed ∷ SessionStatus.failed ∷ SessionStatus.inconclusive ∷ []

abbrev pub expected_statuses : List ExpectedStatus
expected_statuses = ExpectedStatus.passed ∷ ExpectedStatus.failed ∷ ExpectedStatus.skipped ∷ []

abbrev pub historical_id_stabilities : List HistoricalIdStability
historical_id_stabilities = stable ∷ uncertain ∷ unavailable ∷ []

abbrev pub failure_phases : List FailurePhase
failure_phases = setup ∷ FailurePhase.test ∷ teardown ∷ []

pub record Component : Type 0 where
  pub name : String
  pub version : Option String

pub record Executor : Type 0 where
  pub name : Option String
  pub build_id : Option String
  pub build_url : Option String

pub record Source : Type 0 where
  pub repository : Option String
  pub revision : Option String
  pub branch : Option String

pub record Location : Type 0 where
  pub file : String
  pub line : Option ℤ
  pub column : Option ℤ

pub record PathSegment : Type 0 where
  pub kind : String
  pub name : String

pub record Failure : Type 0 where
  pub message : String
  pub type : Option String
  pub stack_trace : Option String
  pub phase : Option FailurePhase
  pub location : Option Location

-- A `Record<string, string>`.
abbrev pub StringMap : Type 0
StringMap = List (String × String)

pub record TestCase : Type 0 where
  pub execution_id : String
  pub historical_id : Option String
  pub historical_id_stability : HistoricalIdStability
  pub display_name : String
  pub path : List PathSegment
  pub location : Option Location
  pub tags : Option (List String)
  pub labels : Option StringMap

pub record SessionStartedPayload : Type 0 where
  pub producer : Component
  pub runner : Option Component
  pub environment : Option StringMap
  pub executor : Option Executor
  pub source : Option Source
  pub labels : Option StringMap

pub record SessionFinishedPayload : Type 0 where
  pub status : Option SessionStatus
  pub raw_status : Option String
  pub failures : Option (List Failure)

pub record AttemptStartedPayload : Type 0 where
  pub attempt_id : String
  pub attempt_number : ℕ
  pub test : TestCase

pub record AttemptFinishedPayload : Type 0 where
  pub attempt_id : String
  pub status : Status
  pub raw_status : Option String
  pub expected_status : Option ExpectedStatus
  pub duration_ms : Option ℤ
  pub failures : Option (List Failure)

pub record StepStartedPayload : Type 0 where
  pub step_id : String
  pub attempt_id : String
  pub parent_step_id : Option String
  pub name : String
  pub kind : Option String
  pub location : Option Location

pub record StepFinishedPayload : Type 0 where
  pub step_id : String
  pub attempt_id : String
  pub status : Status
  pub raw_status : Option String
  pub duration_ms : Option ℤ
  pub failures : Option (List Failure)

pub record AttachmentAddedPayload : Type 0 where
  pub attempt_id : String
  pub step_id : Option String
  pub name : String
  pub media_type : String
  pub size_bytes : ℤ
  pub sha256 : String

pub record ScopeFailedPayload : Type 0 where
  pub path : List PathSegment
  pub display_name : Option String
  pub raw_status : Option String
  pub location : Option Location
  pub failures : List Failure

-- The payload with the event type that selects it. `unknown` is an event of another type.
pub data Payload : Type 0 where
  session_started : SessionStartedPayload → Payload
  session_finished : SessionFinishedPayload → Payload
  run_finished : Payload
  attempt_started : AttemptStartedPayload → Payload
  attempt_finished : AttemptFinishedPayload → Payload
  step_started : StepStartedPayload → Payload
  step_finished : StepFinishedPayload → Payload
  attachment_added : AttachmentAddedPayload → Payload
  scope_failed : ScopeFailedPayload → Payload
  unknown : String → Obj → Payload

abbrev pub event_type : Payload → String
event_type (session_started _) = "session.started"
event_type (session_finished _) = "session.finished"
event_type run_finished = "run.finished"
event_type (attempt_started _) = "attempt.started"
event_type (attempt_finished _) = "attempt.finished"
event_type (step_started _) = "step.started"
event_type (step_finished _) = "step.finished"
event_type (attachment_added _) = "attachment.added"
event_type (scope_failed _) = "scope.failed"
event_type (unknown type _) = type

-- The fields of `Envelope` and the payload.
pub record Event : Type 0 where
  pub protocol_version : String
  pub event_id : String
  pub run_id : String
  pub session_id : String
  pub sequence : ℕ
  pub occurred_at : String
  pub ignorable : Option Bool
  pub payload : Payload

-- EVENT_TYPES
abbrev pub event_types : List String
event_types =
    "session.started" ∷ "session.finished" ∷ "run.finished" ∷ "attempt.started" ∷ "attempt.finished"
    ∷ "step.started" ∷ "step.finished" ∷ "attachment.added" ∷ "scope.failed" ∷ []

unfoldable pub is_known_event_type : String → Bool
is_known_event_type type = any (λ t. t === type) event_types

-- `isKnownEvent`: the constructor of the payload tells.
abbrev pub is_known_event : Event → Bool
is_known_event e = known e.payload
  where
    known : Payload → Bool
    known (unknown _ _) = false
    known _ = true

-- LIMITS.maxEventBytes
abbrev pub max_event_bytes : ℕ
max_event_bytes = 1_048_576
