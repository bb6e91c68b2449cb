-- ===== src/Validator/Model.antt =====
-- validator.ts: diagnostics, options, the state of `RunValidator`, and how a diagnostic is recorded.
-- The wording of a message is left out.
use qe_report.Prelude.{
  ℕ, String, Bool, true, false, Option, none, some, List, [], ◌∷◌, ◌++◌, ◌≡◌, ◌↔◌, arith, not, any,
}
use qe_report.Prelude.Int.{ℤ}
use qe_report.Prelude.Keys.{Eq}
use qe_report.Prelude.Assoc.{Assoc}
use qe_report.Protocol.Errors.{Pointer}
use qe_report.Protocol.Model.{Event, HistoricalIdStability, stable, uncertain, unavailable}

pub data Severity : Type 0 where
  error info : Severity

pub data LifecycleDetail : Type 0 where
  run_id_mismatch session_not_started session_already_started session_already_finished :
      LifecycleDetail
  session_file_mixed sequence_gap duplicate_event_id event_after_run_finished : LifecycleDetail
  duplicate_run_finished session_not_finished_at_run_end duplicate_attempt_id : LifecycleDetail
  duplicate_attempt_number historical_identity_changed execution_runner_changed : LifecycleDetail
  attempt_not_started duplicate_attempt_finished attempt_not_finished_at_session_end :
      LifecycleDetail
  historical_id_without_runner step_outside_attempt step_parent_unknown : LifecycleDetail
  duplicate_step_id step_not_started duplicate_step_finished : LifecycleDetail
  step_not_finished_at_attempt_end attachment_attempt_unknown : LifecycleDetail
  attachment_after_attempt_finished attachment_step_unknown : LifecycleDetail

-- `LIFECYCLE_INVALID` always comes with its detail.
pub data DiagnosticCode : Type 0 where
  malformed_json schema_invalid unsupported_protocol_version unsupported_event_type : DiagnosticCode
  event_too_large attachment_missing attachment_size_mismatch : DiagnosticCode
  attachment_hash_mismatch unsafe_filesystem_entry ignored_event_type : DiagnosticCode
  duplicate_event incomplete_run : DiagnosticCode
  lifecycle_invalid : LifecycleDetail → DiagnosticCode

pub record Diagnostic : Type 0 where
  pub severity : Severity
  pub code : DiagnosticCode
  pub file : String
  pub line : ℕ
  pub event_id : Option String
  pub pointer : Option Pointer

pub record ValidateOptions : Type 0 where
  pub attachments_dir : Option String
  pub require_complete : Bool
  pub max_event_bytes : Option ℕ
  pub retain_events : Bool
  pub retain_source_lines : Bool

pub data Disposition : Type 0 where
  accepted ignored duplicate : Disposition

pub record ValidatedSourceLine : Type 0 where
  pub raw_line : String
  pub event_id : String
  pub run_id : String
  pub session_id : String
  pub sequence : ℕ
  pub protocol_version : String
  pub event_type : String
  pub canonical_sha256 : String
  pub disposition : Disposition
  pub source_file : String
  pub source_line : ℕ

pub record SessionState : Type 0 where
  pub finished : Bool
  pub last_sequence : ℕ
  pub runner_name : Option String
  pub synthesized : Bool

pub record AttemptState : Type 0 where
  pub session : String
  pub execution_id : String
  pub attempt_number : ℕ
  pub inconclusive : Bool
  pub finished : Bool
  pub unexpected : Bool
  pub steps : Assoc String Bool

-- `Location` of this module
pub record Position : Type 0 where
  pub file : String
  pub line : ℕ
  pub event_id : String

-- `Location & { attemptId }`
pub record AttemptReference : Type 0 where
  pub position : Position
  pub attempt_id : String

pub record ExecutionState : Type 0 where
  pub attempt_numbers : Assoc ℕ AttemptReference
  pub historical_id : Option String
  pub historical_id_stability : HistoricalIdStability
  pub runner_name : Option String
  pub runner_known : Bool
  pub reference : AttemptReference

pub record DeclaredAttachment : Type 0 where
  pub position : Position
  pub sha256 : String
  pub size_bytes : ℤ

pub record RunValidator : Type 0 where
  pub options : ValidateOptions
  pub diagnostics : List Diagnostic
  pub seen : Assoc String String
  pub sessions : Assoc String SessionState
  pub attempts : Assoc String AttemptState
  pub executions : Assoc String ExecutionState
  pub attachments : List DeclaredAttachment
  pub accepted : List Event
  pub source : List ValidatedSourceLine
  pub attachments_dir_refused : Bool
  pub run_id : Option String
  pub run_finished : Option Position
  pub files : ℕ
  pub events : ℕ
  pub ignored : ℕ
  pub duplicates : ℕ
  pub steps : ℕ
  pub scope_failures : ℕ
  pub failed_attempts : ℕ
  pub failed_sessions : ℕ
  pub inconclusive_sessions : ℕ
  pub session_failures : ℕ

-- the constructor
abbrev pub new_validator : ValidateOptions → RunValidator
new_validator options = record {
  options = options;
  diagnostics = [];
  seen = [];
  sessions = [];
  attempts = [];
  executions = [];
  attachments = [];
  accepted = [];
  source = [];
  attachments_dir_refused = false;
  run_id = none;
  run_finished = none;
  files = 0;
  events = 0;
  ignored = 0;
  duplicates = 0;
  steps = 0;
  scope_failures = 0;
  failed_attempts = 0;
  failed_sessions = 0;
  inconclusive_sessions = 0;
  session_failures = 0;
}

-- this.diagnostics.push(d)
abbrev pub push : Diagnostic → RunValidator → RunValidator
push d v = record v { diagnostics = v.diagnostics ++ d ∷ [] }

-- `lifecycle(detail, message, eventId)`
abbrev pub violation : Position → LifecycleDetail → Diagnostic
violation at detail = record {
  severity = error;
  code = lifecycle_invalid detail;
  file = at.file;
  line = at.line;
  event_id = some at.event_id;
  pointer = none;
}

unfoldable pub lifecycle : Position → LifecycleDetail → RunValidator → RunValidator
lifecycle at detail v = push (violation at detail) v

abbrev pub is_error : Diagnostic → Bool
is_error d = serious d.severity
  where
    serious : Severity → Bool
    serious error = true
    serious info = false

-- `valid`: no diagnostic is an error
unfoldable pub is_valid : RunValidator → Bool
is_valid v = not (any is_error v.diagnostics)

abbrev pub stability_beq : HistoricalIdStability → HistoricalIdStability → Bool
stability_beq stable stable = true
stability_beq uncertain uncertain = true
stability_beq unavailable unavailable = true
stability_beq _ _ = false

pub stability_beq_iff : (a b : HistoricalIdStability) → (stability_beq a b ≡ true) ↔ (a ≡ b)
stability_beq_iff a b = ground arith

instance abbrev pub stability_keys : Eq HistoricalIdStability
stability_keys = record { beq = stability_beq; beq_iff = stability_beq_iff }
