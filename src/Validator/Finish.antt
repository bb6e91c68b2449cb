-- ===== src/Validator/Finish.antt =====
-- validator.ts: `finish`, which applies the rules of the whole run and derives the verdict.
use qe_report.Prelude.{
  ℕ, String, Bool, true, false, Option, none, some, List, [], ◌∷◌, ◌&&◌, ◌||◌, not, all, any, ltb,
  length, if◌then◌else◌, is_some,
}
use qe_report.Prelude.Keys.{text_keys}
use qe_report.Prelude.Assoc.{Assoc, get, set}
use qe_report.Validator.Model.{
  Severity, error, info, incomplete_run, session_not_finished_at_run_end, Diagnostic, SessionState,
  AttemptState, Position, RunValidator, push, is_valid,
}
use qe_report.Validator.FileSystem.{FileSystem}
use qe_report.Validator.Events.{report_if}
use qe_report.Validator.Attachments.{bind, check_attachments}

-- The verdict of a run.
pub data Verdict : Type 0 where
  passed failed inconclusive incomplete : Verdict

pub record Summary : Type 0 where
  pub files : ℕ
  pub events : ℕ
  pub sessions : ℕ
  pub attempts : ℕ
  pub steps : ℕ
  pub attachments : ℕ
  pub failed_attempts : ℕ
  pub scope_failures : ℕ
  pub failed_sessions : ℕ
  pub inconclusive_sessions : ℕ
  pub session_failures : ℕ
  pub ignored : ℕ
  pub duplicates : ℕ
  pub complete : Bool
  pub closed : Bool
  pub verdict : Verdict

pub record Report : Type 0 where
  pub valid : Bool
  pub diagnostics : List Diagnostic
  pub summary : Summary

-- the values of a map
abbrev pub values {ℓ} : {V : Type ℓ} → Assoc String V → List V
values [] = []
values ((_, v) ∷ m) = v ∷ values m

-- every open session is reported at the line of run.finished
unfoldable pub report_open_sessions : Position → List SessionState → RunValidator → RunValidator
unfolding report_if
report_open_sessions at [] v = v
report_open_sessions at (s ∷ rest) v =
    report_open_sessions at rest (report_if (not s.finished) at session_not_finished_at_run_end v)

abbrev pub report_run_end : Option Position → RunValidator → RunValidator
report_run_end none v = v
report_run_end (some at) v = report_open_sessions at (values v.sessions) v

unfoldable pub check_run_end : RunValidator → RunValidator
unfolding report_open_sessions
check_run_end v = report_run_end v.run_finished v

abbrev pub attempt_complete : AttemptState → Bool
attempt_complete a = a.finished && all (λ done. done) (values a.steps)

unfoldable pub is_complete : RunValidator → Bool
is_complete v =
    all (λ (s : SessionState). s.finished) (values v.sessions)
    && all attempt_complete (values v.attempts)

abbrev pub incomplete_severity : Bool → Severity
incomplete_severity true = error
incomplete_severity false = info

unfoldable pub report_incomplete : RunValidator → RunValidator
report_incomplete v =
    if is_complete v
    then v
    else push
        (record {
          severity = incomplete_severity v.options.require_complete;
          code = incomplete_run;
          file = "";
          line = 0;
          event_id = none;
          pointer = none;
        })
        v

-- The later attempt takes the place if there is none or its number is higher.
abbrev pub later : AttemptState → Option AttemptState → Bool
later a none = true
later a (some current) = ltb current.attempt_number a.attempt_number

unfoldable pub final_attempts_from :
    Assoc String AttemptState → List AttemptState → Assoc String AttemptState
final_attempts_from finals [] = finals
final_attempts_from finals (a ∷ rest) =
    final_attempts_from
      (if later a (get a.execution_id finals) then set a.execution_id a finals else finals) rest

unfoldable pub final_attempts : RunValidator → List AttemptState
unfolding final_attempts_from
final_attempts v = values (final_attempts_from [] (values v.attempts))

abbrev pub positive : ℕ → Bool
positive n = ltb 0 n

abbrev pub any_unexpected : RunValidator → Bool
any_unexpected v = any (λ (a : AttemptState). a.unexpected) (final_attempts v)

abbrev pub any_inconclusive : RunValidator → Bool
any_inconclusive v = any (λ (a : AttemptState). a.inconclusive) (final_attempts v)

-- Precedence: structurally open, then any failure, then anything inconclusive.
unfoldable pub verdict_of : RunValidator → Verdict
verdict_of v =
    if not (is_complete v)
    then incomplete
    else if any_unexpected v || positive v.scope_failures || positive v.failed_sessions
    then failed
    else if any_inconclusive v || positive v.inconclusive_sessions
    then inconclusive
    else passed

abbrev pub summarise : RunValidator → Summary
summarise v = record {
  files = v.files;
  events = v.events;
  sessions = length v.sessions;
  attempts = length v.attempts;
  steps = v.steps;
  attachments = length v.attachments;
  failed_attempts = v.failed_attempts;
  scope_failures = v.scope_failures;
  failed_sessions = v.failed_sessions;
  inconclusive_sessions = v.inconclusive_sessions;
  session_failures = v.session_failures;
  ignored = v.ignored;
  duplicates = v.duplicates;
  complete = is_complete v;
  closed = is_some v.run_finished;
  verdict = verdict_of v;
}

-- the state in which `finish` leaves the validator; `none` is an exception
unfoldable pub finished_validator : FileSystem → RunValidator → Option RunValidator
unfolding check_run_end check_attachments report_incomplete
finished_validator fs v =
    bind (check_attachments fs (check_run_end v)) (λ w. some (report_incomplete w))

abbrev pub report_of : RunValidator → Report
report_of v = record { valid = is_valid v; diagnostics = v.diagnostics; summary = summarise v }

unfoldable pub finish : FileSystem → RunValidator → Option Report
unfolding finished_validator
finish fs v = bind (finished_validator fs v) (λ w. some (report_of w))
