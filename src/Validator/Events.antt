-- ===== src/Validator/Events.antt =====
-- validator.ts: the `switch` of `feed`, one function for each event type. `at` is the line of the
-- event, `s` the session that it belongs to.
use qe_report.Prelude.{
  ℕ, ◌+◌, String, Bool, true, false, Option, none, some, List, [], ◌∷◌, ◌++◌, ◌&&◌, not, length,
  if◌then◌else◌, is_some,
}
use qe_report.Prelude.Keys.{text_keys, nat_keys, option_keys, ◌===◌}
use qe_report.Prelude.Assoc.{Assoc, get, set, has}
use qe_report.Protocol.Model.{
  Status, SessionStatus, ExpectedStatus, Failure, SessionFinishedPayload, AttemptStartedPayload,
  AttemptFinishedPayload, StepStartedPayload, StepFinishedPayload, AttachmentAddedPayload, Payload,
  session_started, session_finished, run_finished, attempt_started, attempt_finished, step_started,
  step_finished, attachment_added, scope_failed, unknown,
}
use qe_report.Validator.Model.{
  LifecycleDetail, SessionState, AttemptState, Position, RunValidator, lifecycle,
  attempt_not_finished_at_session_end, duplicate_run_finished, historical_id_without_runner,
  duplicate_attempt_id, attempt_not_started, duplicate_attempt_finished,
  step_not_finished_at_attempt_end, step_outside_attempt, duplicate_step_id, step_parent_unknown,
  step_not_started, duplicate_step_finished, attachment_attempt_unknown,
  attachment_after_attempt_finished, attachment_step_unknown,
}
use qe_report.Validator.Executions.{check_execution}

abbrev pub store_session : String → SessionState → RunValidator → RunValidator
store_session id s v = record v { sessions = set id s v.sessions }

abbrev pub store_attempt : String → AttemptState → RunValidator → RunValidator
store_attempt id a v = record v { attempts = set id a v.attempts }

-- `if (test) lifecycle(detail, ...)`
unfoldable pub report_if : Bool → Position → LifecycleDetail → RunValidator → RunValidator
report_if test at detail v = if test then lifecycle at detail v else v

-- an attempt of the session that has not finished
abbrev pub open_attempt_of : String → AttemptState → Bool
open_attempt_of id a = a.session === id && not a.finished

-- for (const [id, a] of this.attempts)
unfoldable pub report_open_attempts :
    Position → String → Assoc String AttemptState → RunValidator → RunValidator
unfolding report_if
report_open_attempts at id [] v = v
report_open_attempts at id ((_, a) ∷ rest) v =
    report_open_attempts at id rest
      (report_if (open_attempt_of id a) at attempt_not_finished_at_session_end v)

abbrev pub bump_if : Bool → ℕ → ℕ
bump_if test n = if test then n + 1 else n

abbrev pub is_failed_session : Option SessionStatus → Bool
is_failed_session (some SessionStatus.failed) = true
is_failed_session _ = false

abbrev pub is_inconclusive_session : Option SessionStatus → Bool
is_inconclusive_session (some SessionStatus.inconclusive) = true
is_inconclusive_session _ = false

abbrev pub failure_count : Option (List Failure) → ℕ
failure_count none = 0
failure_count (some fs) = length fs

abbrev pub count_outcome : SessionFinishedPayload → RunValidator → RunValidator
count_outcome p w = record w {
  failed_sessions = bump_if (is_failed_session p.status) w.failed_sessions;
  inconclusive_sessions = bump_if (is_inconclusive_session p.status) w.inconclusive_sessions;
  session_failures = w.session_failures + failure_count p.failures;
}

unfoldable pub finish_session :
    Position → String → SessionFinishedPayload → SessionState → RunValidator → RunValidator
unfolding report_open_attempts
finish_session at id p s v =
    report_open_attempts at id v.attempts
      (count_outcome p (store_session id (record s { finished = true }) v))

unfoldable pub finish_run : Position → RunValidator → RunValidator
finish_run at v = elim v.run_finished [
  | some _ ↦ lifecycle at duplicate_run_finished v
  | none ↦ record v { run_finished = some at }
]

abbrev pub new_attempt : String → AttemptStartedPayload → AttemptState
new_attempt session p = record {
  session = session;
  execution_id = p.test.execution_id;
  attempt_number = p.attempt_number;
  inconclusive = false;
  finished = false;
  unexpected = false;
  steps = [];
}

-- a history identity under a session that declares no runner
abbrev pub no_runner : AttemptStartedPayload → SessionState → Bool
no_runner p s = is_some p.test.historical_id && not (is_some s.runner_name)

unfoldable pub start_attempt :
    Position → String → AttemptStartedPayload → SessionState → RunValidator → RunValidator
unfolding report_if check_execution
start_attempt at id p s v =
    let w = report_if (no_runner p s) at historical_id_without_runner v in
    if has p.attempt_id w.attempts
    then lifecycle at duplicate_attempt_id w
    else check_execution at p s (store_attempt p.attempt_id (new_attempt id p) w)

-- `expectedStatus ?? 'passed'`
abbrev pub expected : Option ExpectedStatus → ExpectedStatus
expected none = ExpectedStatus.passed
expected (some e) = e

-- a failure that was not declared, or a pass where a failure was declared
abbrev pub is_unexpected : Status → ExpectedStatus → Bool
is_unexpected Status.failed ExpectedStatus.failed = false
is_unexpected Status.failed _ = true
is_unexpected Status.passed ExpectedStatus.failed = true
is_unexpected _ _ = false

abbrev pub is_failed : Status → Bool
is_failed Status.failed = true
is_failed _ = false

abbrev pub is_inconclusive : Status → Bool
is_inconclusive Status.inconclusive = true
is_inconclusive _ = false

-- for (const [sid, done] of a.steps)
unfoldable pub report_open_steps : Position → Assoc String Bool → RunValidator → RunValidator
unfolding report_if
report_open_steps at [] v = v
report_open_steps at ((_, done) ∷ rest) v =
    report_open_steps at rest (report_if (not done) at step_not_finished_at_attempt_end v)

abbrev pub closed_attempt : AttemptFinishedPayload → AttemptState → AttemptState
closed_attempt p a = record a {
  finished = true;
  unexpected = is_unexpected p.status (expected p.expected_status);
  inconclusive = is_inconclusive p.status;
}

abbrev pub count_failure : AttemptFinishedPayload → RunValidator → RunValidator
count_failure p w = record w { failed_attempts = bump_if (is_failed p.status) w.failed_attempts }

unfoldable pub finish_attempt : Position → AttemptFinishedPayload → RunValidator → RunValidator
unfolding report_open_steps
finish_attempt at p v = elim (get p.attempt_id v.attempts) [
  | none ↦ lifecycle at attempt_not_started v
  | some a ↦
      if a.finished
      then lifecycle at duplicate_attempt_finished v
      else report_open_steps at a.steps
          (count_failure p (store_attempt p.attempt_id (closed_attempt p a) v))
]

-- a parent step is named and is not among the steps
abbrev pub unknown_step : Option String → Assoc String Bool → Bool
unknown_step none steps = false
unknown_step (some id) steps = not (has id steps)

abbrev pub open_step : String → AttemptState → AttemptState
open_step id a = record a { steps = set id false a.steps }

abbrev pub count_step : RunValidator → RunValidator
count_step u = record u { steps = u.steps + 1 }

unfoldable pub start_step : Position → StepStartedPayload → RunValidator → RunValidator
unfolding report_if
start_step at p v = elim (get p.attempt_id v.attempts) [
  | none ↦ lifecycle at step_outside_attempt v
  | some a ↦
      if a.finished
      then lifecycle at step_outside_attempt v
      else count_step (
          store_attempt p.attempt_id (open_step p.step_id a) (
            report_if (unknown_step p.parent_step_id a.steps) at step_parent_unknown
              (report_if (has p.step_id a.steps) at duplicate_step_id v)))
]

abbrev pub close_step : String → AttemptState → AttemptState
close_step id a = record a { steps = set id true a.steps }

abbrev pub step_state : String → Option AttemptState → Option Bool
step_state id none = none
step_state id (some a) = get id a.steps

-- `some a` is the attempt wherever `step_state` finds a step
unfoldable pub close_known_step :
    Position → StepFinishedPayload → Option AttemptState → RunValidator → RunValidator
close_known_step at p none v = v
close_known_step at p (some a) v = store_attempt p.attempt_id (close_step p.step_id a) v

unfoldable pub finish_step : Position → StepFinishedPayload → RunValidator → RunValidator
unfolding close_known_step
finish_step at p v = elim (step_state p.step_id (get p.attempt_id v.attempts)) [
  | none ↦ lifecycle at step_not_started v
  | some true ↦ lifecycle at duplicate_step_finished v
  | some false ↦ close_known_step at p (get p.attempt_id v.attempts) v
]

-- The checks of `attachment.added`: a finished attempt is reported before an unknown step.
abbrev pub attachment_violation : Option String → Option AttemptState → Option LifecycleDetail
attachment_violation step none = some attachment_attempt_unknown
attachment_violation step (some a) =
    if a.finished
    then some attachment_after_attempt_finished
    else if unknown_step step a.steps
    then some attachment_step_unknown
    else none

unfoldable pub report_some : Position → Option LifecycleDetail → RunValidator → RunValidator
report_some at none v = v
report_some at (some detail) v = lifecycle at detail v

abbrev pub declare : Position → AttachmentAddedPayload → RunValidator → RunValidator
declare at p w = record w {
  attachments =
      w.attachments ++ record { position = at; sha256 = p.sha256; size_bytes = p.size_bytes } ∷ [];
}

unfoldable pub add_attachment : Position → AttachmentAddedPayload → RunValidator → RunValidator
unfolding report_some
add_attachment at p v =
    declare at p (report_some at (attachment_violation p.step_id (get p.attempt_id v.attempts)) v)

-- The `switch`. Unknown events are handled before it.
unfoldable pub dispatch : Position → String → Payload → SessionState → RunValidator → RunValidator
unfolding finish_session finish_run start_attempt finish_attempt start_step finish_step
    add_attachment
dispatch at id (session_started p) s v = v
dispatch at id (session_finished p) s v = finish_session at id p s v
dispatch at id run_finished s v = finish_run at v
dispatch at id (attempt_started p) s v = start_attempt at id p s v
dispatch at id (attempt_finished p) s v = finish_attempt at p v
dispatch at id (step_started p) s v = start_step at p v
dispatch at id (step_finished p) s v = finish_step at p v
dispatch at id (scope_failed p) s v = record v { scope_failures = v.scope_failures + 1 }
dispatch at id (attachment_added p) s v = add_attachment at p v
dispatch at id (unknown type p) s v = v
