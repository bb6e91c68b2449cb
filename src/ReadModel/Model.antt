-- ===== src/ReadModel/Model.antt =====
-- ts/packages/read-model/src/model.ts: runs, executions, histories and blobs as they are read.
use qe_report.Prelude.{ℕ, String, Bool, Option, List}
use qe_report.Prelude.Int.{ℤ}
use qe_report.Protocol.Model.{
  Component, ExpectedStatus, Executor, Failure, HistoricalIdStability, Location, PathSegment,
  SessionStatus, Source, Status, TestCase, StringMap,
}
use qe_report.Validator.Model.{Diagnostic}
use qe_report.Validator.Finish.{Verdict}

-- `valid: true` is not kept.
pub record ValidatorFacts : Type 0 where
  pub complete : Bool
  pub closed : Bool
  pub verdict : Verdict
  pub ignored_events : ℕ
  pub duplicate_events : ℕ

pub record AttachmentReference : Type 0 where
  pub session_id : String
  pub attempt_id : String
  pub step_id : Option String
  pub name : String
  pub media_type : String
  pub size_bytes : ℤ
  pub sha256 : String

pub record ScopeFailure : Type 0 where
  pub session_id : String
  pub occurred_at : String
  pub path : List PathSegment
  pub display_name : Option String
  pub raw_status : Option String
  pub location : Option Location
  pub failures : List Failure

pub record Step : Type 0 where
  pub step_id : String
  pub parent_step_id : Option String
  pub name : String
  pub kind : Option String
  pub location : Option Location
  pub started_at : String
  pub finished : Bool
  pub finished_at : Option String
  pub status : Option Status
  pub raw_status : Option String
  pub duration_ms : Option ℤ
  pub failures : List Failure

pub record Attempt : Type 0 where
  pub attempt_id : String
  pub attempt_number : ℕ
  pub session_id : String
  pub started_at : String
  pub test : TestCase
  pub finished : Bool
  pub finished_at : Option String
  pub status : Option Status
  pub raw_status : Option String
  pub expected_status : Option ExpectedStatus
  pub duration_ms : Option ℤ
  pub failures : List Failure
  pub steps : List Step
  pub attachments : List AttachmentReference

pub record TestExecution : Type 0 where
  pub execution_id : String
  pub runner_name : Option String
  pub test : TestCase
  pub attempts : List Attempt
  pub final_attempt : Attempt
  pub complete : Bool
  pub final_status : Option Status
  pub flaky : Bool

pub record ProjectedSession : Type 0 where
  pub session_id : String
  pub started_at : String
  pub producer : Component
  pub runner : Option Component
  pub environment : Option StringMap
  pub executor : Option Executor
  pub source : Option Source
  pub labels : Option StringMap
  pub finished : Bool
  pub finished_at : Option String
  pub status : Option SessionStatus
  pub raw_status : Option String
  pub failures : List Failure
  pub execution_ids : List String

pub record ProjectedRun : Type 0 where
  pub project_id : String
  pub run_id : String
  pub run_directory : String
  pub validator : ValidatorFacts
  pub sessions : List ProjectedSession
  pub executions : List TestExecution
  pub scope_failures : List ScopeFailure
  pub attachments : List AttachmentReference

pub record ExecutionOccurrence : Type 0 where
  pub project_id : String
  pub runner_name : String
  pub historical_id : String
  pub run_id : String
  pub execution_id : String
  pub session_ids : List String
  pub historical_id_stability : HistoricalIdStability
  pub occurred_at : String
  pub attempt_count : ℕ
  pub complete : Bool
  pub final_status : Option Status
  pub expected_status : Option ExpectedStatus
  pub flaky : Bool
  pub run_verdict : Verdict
  pub run_complete : Bool
  pub session_status : Option SessionStatus

pub record TestHistory : Type 0 where
  pub project_id : String
  pub runner_name : String
  pub historical_id : String
  pub occurrences : List ExecutionOccurrence

pub record Flakiness : Type 0 where
  pub project_id : String
  pub runner_name : String
  pub historical_id : String
  pub total_occurrences : ℕ
  pub flaky_occurrences : ℕ
  pub ever_flaky : Bool
  pub flaky : List ExecutionOccurrence

pub record BlobSource : Type 0 where
  pub project_id : String
  pub run_id : String
  pub run_directory : String

pub record BlobReference : Type 0 where
  pub project_id : String
  pub run_id : String
  pub reference : AttachmentReference

pub record Blob : Type 0 where
  pub sha256 : String
  pub size_bytes : ℤ
  pub sources : List BlobSource
  pub references : List BlobReference

pub data AmbiguityDetail : Type 0 where
  duplicate_attempt_number historical_identity_changed execution_runner_changed : AmbiguityDetail

-- the codes of DiscoveryProblemCode first
pub data IngestionProblemCode : Type 0 where
  runs_directory_missing symlink_skipped not_a_directory no_events_directory : IngestionProblemCode
  not_a_run_directory not_a_regular_file validation_error empty_run : IngestionProblemCode
  run_invalid projection_ambiguous duplicate_run blob_size_conflict : IngestionProblemCode

pub record DiscoveryProblem : Type 0 where
  pub code : IngestionProblemCode
  pub path : String

-- less the message
pub record IngestionProblem : Type 0 where
  pub code : IngestionProblemCode
  pub project_id : String
  pub run_directory : String
  pub run_id : Option String
  pub detail : Option AmbiguityDetail
  pub diagnostics : List Diagnostic
