-- ===== src/Validator/Beside.antt =====
-- The sessions, the attempts and the errors beside the reports and the checks of an execution.
use qe_report.Prelude.{
  String, Bool, true, false, Option, none, some, ◌≡◌, refl, Bool-cases, Option-cases, inl, inr, [],
  ◌∷◌, not,
}
use qe_report.Prelude.Keys.{text_keys, nat_keys}
use qe_report.Prelude.Assoc.{Assoc, get}
use qe_report.Protocol.Model.{AttemptStartedPayload, TestCase}
use qe_report.Validator.Model.{
  LifecycleDetail, Diagnostic, push, SessionState, AttemptState, Position, RunValidator,
  ExecutionState, AttemptReference, is_valid, lifecycle,
}
use qe_report.Validator.Executions.{
  store_execution, same_identity, other_runner, check_number, check_identity, check_runner,
  check_execution,
}
use qe_report.Validator.Events.{
  report_if, report_some, open_attempt_of, report_open_attempts, report_open_steps,
}
use qe_report.Validator.Validity.{is_valid-lifecycle, is_valid-push, and_parts}

pub record Beside (v w : RunValidator) : Type 0 where
  pub options : w.options ≡ v.options
  pub sessions : w.sessions ≡ v.sessions
  pub attempts : w.attempts ≡ v.attempts
  pub source : w.source ≡ v.source
  pub attachments : w.attachments ≡ v.attachments
  pub seen : w.seen ≡ v.seen
  pub run_finished : w.run_finished ≡ v.run_finished
  pub valid : is_valid w ≡ true → is_valid v ≡ true

pub Beside-trans : {u v w : RunValidator} → Beside u v → Beside v w → Beside u w
Beside-trans b c = record {
  options = cc (b.options, c.options);
  sessions = cc (b.sessions, c.sessions);
  attempts = cc (b.attempts, c.attempts);
  source = cc (b.source, c.source);
  attachments = cc (b.attachments, c.attachments);
  seen = cc (b.seen, c.seen);
  run_finished = cc (b.run_finished, c.run_finished);
  valid = λ h. b.valid (c.valid h);
}

pub Beside-refl : (v : RunValidator) → Beside v v
Beside-refl v = record {
  options = refl;
  sessions = refl;
  attempts = refl;
  source = refl;
  attachments = refl;
  seen = refl;
  run_finished = refl;
  valid = λ h. h;
}

pub Beside-lifecycle :
    (at : Position) (x : LifecycleDetail) (v : RunValidator) → Beside v (lifecycle at x v)
unfolding lifecycle
Beside-lifecycle at x v = record {
  options = refl;
  sessions = refl;
  attempts = refl;
  source = refl;
  attachments = refl;
  seen = refl;
  run_finished = refl;
  valid = λ h. cc (h, is_valid-lifecycle at x v);
}

pub Beside-report_if :
    (b : Bool) (at : Position) (x : LifecycleDetail) (v : RunValidator)
    → Beside v (report_if b at x v)
unfolding report_if
Beside-report_if true at x v = Beside-lifecycle at x v
Beside-report_if false at x v = Beside-refl v

pub Beside-report_some :
    (at : Position) (o : Option LifecycleDetail) (v : RunValidator) → Beside v (report_some at o v)
unfolding report_some
Beside-report_some at none v = Beside-refl v
Beside-report_some at (some x) v = Beside-lifecycle at x v

Beside-store_execution :
    (id : String) (e : ExecutionState) (v : RunValidator) → Beside v (store_execution id e v)
unfolding is_valid
Beside-store_execution id e v = record {
  options = refl;
  sessions = refl;
  attempts = refl;
  source = refl;
  attachments = refl;
  seen = refl;
  run_finished = refl;
  valid = λ h. h;
}

Beside-check_number :
    (at : Position) (p : AttemptStartedPayload) (here : AttemptReference) (known : ExecutionState)
    (v : RunValidator)
    → Beside v (check_number at p here known v)
unfolding check_number
Beside-check_number at p here known v =
    elim (Option-cases (get p.attempt_number known.attempt_numbers)) [
      | inl fresh ↦ rw (fresh, check_number) (Beside-store_execution _ _ v)
      | inr (_, taken) ↦ rw (taken, check_number) (Beside-lifecycle at _ v)
    ]

Beside-check_identity :
    (at : Position) (known : ExecutionState) (test : TestCase) (v : RunValidator)
    → Beside v (check_identity at known test v)
unfolding check_identity
Beside-check_identity at known test v = elim (Bool-cases (same_identity known test)) [
  | inl same ↦ rw same (Beside-refl v)
  | inr other ↦ rw other (Beside-lifecycle at _ v)
]

Beside-check_runner :
    (at : Position) (known : ExecutionState) (s : SessionState) (v : RunValidator)
    → Beside v (check_runner at known s v)
unfolding check_runner
Beside-check_runner at known s v = elim (Bool-cases (other_runner known s)) [
  | inl other ↦ rw other (Beside-lifecycle at _ v)
  | inr same ↦ rw same (Beside-refl v)
]

pub Beside-check_execution :
    (at : Position) (p : AttemptStartedPayload) (s : SessionState) (v : RunValidator)
    → Beside v (check_execution at p s v)
unfolding check_execution
Beside-check_execution at p s v = elim (Option-cases (get p.test.execution_id v.executions)) [
  | inl fresh ↦ rw (fresh, check_execution) (Beside-store_execution _ _ v)
  | inr (known, e) ↦
      rw (e, check_execution)
        (Beside-trans (Beside-check_number at p _ known v) (
          Beside-trans (Beside-check_identity at known p.test _)
            (Beside-check_runner at known s _)))
]

pub Beside-report_open_attempts :
    (at : Position) (id : String) (l : Assoc String AttemptState) (v : RunValidator)
    → Beside v (report_open_attempts at id l v)
unfolding report_open_attempts
Beside-report_open_attempts at id [] v = Beside-refl v
Beside-report_open_attempts at id ((_, a) ∷ l) v =
    Beside-trans (Beside-report_if (open_attempt_of id a) at _ v)
      (Beside-report_open_attempts at id l _)

pub Beside-report_open_steps :
    (at : Position) (l : Assoc String Bool) (v : RunValidator) → Beside v (report_open_steps at l v)
unfolding report_open_steps
Beside-report_open_steps at [] v = Beside-refl v
Beside-report_open_steps at ((_, done) ∷ l) v =
    Beside-trans (Beside-report_if (not done) at _ v) (Beside-report_open_steps at l _)

-- any other diagnostic
pub Beside-push : (d : Diagnostic) (v : RunValidator) → Beside v (push d v)
Beside-push d v = record {
  options = refl;
  sessions = refl;
  attempts = refl;
  source = refl;
  attachments = refl;
  seen = refl;
  run_finished = refl;
  valid = λ h. (and_parts _ _ (rw is_valid-push at h)).1;
}
