-- ===== src/Validator/Validity.antt =====
-- Which reports make a run invalid, and what they leave alone.
use qe_report.Prelude.{
  String, Bool, true, false, Option, none, some, List, [], ◌∷◌, ◌≡◌, refl, ap, any, arith, not,
  ◌&&◌, any-append,
}
use qe_report.Prelude.Assoc.{Assoc}
use qe_report.Validator.Model.{
  Diagnostic, AttemptState, Position, LifecycleDetail, RunValidator,
  attempt_not_finished_at_session_end, step_not_finished_at_attempt_end, is_error, is_valid, push,
  violation, lifecycle,
}
use qe_report.Validator.Events.{
  report_if, open_attempt_of, report_open_attempts, report_open_steps, report_some,
}

abbrev pub with_diagnostics : RunValidator → List Diagnostic → RunValidator
with_diagnostics v ds = record v { diagnostics = ds }

pub is_valid-push :
    (d : Diagnostic) (v : RunValidator) → is_valid (push d v) ≡ (not (is_error d) && is_valid v)
unfolding is_valid
is_valid-push d v = ground (arith, any-append is_error v.diagnostics (d ∷ []))

pub is_valid-lifecycle :
    (at : Position) (x : LifecycleDetail) (v : RunValidator) → is_valid (lifecycle at x v) ≡ false
unfolding lifecycle
is_valid-lifecycle at x v = is_valid-push (violation at x) v

pub is_valid-report_if :
    (b : Bool) (at : Position) (x : LifecycleDetail) (v : RunValidator)
    → is_valid (report_if b at x v) ≡ (not b && is_valid v)
unfolding report_if
is_valid-report_if true at x v = is_valid-lifecycle at x v
is_valid-report_if false at x v = refl

-- a report touches the diagnostics alone
pub report_if_frame :
    (b : Bool) (at : Position) (x : LifecycleDetail) (v : RunValidator)
    → report_if b at x v ≡ with_diagnostics v (report_if b at x v).diagnostics
unfolding report_if lifecycle
report_if_frame true at x v = refl
report_if_frame false at x v = refl

pub report_some_frame :
    (at : Position) (o : Option LifecycleDetail) (v : RunValidator)
    → report_some at o v ≡ with_diagnostics v (report_some at o v).diagnostics
unfolding report_some lifecycle
report_some_frame at none v = refl
report_some_frame at (some x) v = refl

abbrev pub none_open : String → Assoc String AttemptState → Bool
none_open id [] = true
none_open id ((_, a) ∷ rest) = not (open_attempt_of id a) && none_open id rest

pub is_valid-report_open_attempts :
    (at : Position) (id : String) (l : Assoc String AttemptState) (v : RunValidator)
    → is_valid (report_open_attempts at id l v) ≡ (none_open id l && is_valid v)
unfolding report_open_attempts
is_valid-report_open_attempts at id [] v = refl
is_valid-report_open_attempts at id ((k, a) ∷ l) v = ground (
  arith,
  is_valid-report_open_attempts at id l
      (report_if (open_attempt_of id a) at attempt_not_finished_at_session_end v),
  is_valid-report_if (open_attempt_of id a) at attempt_not_finished_at_session_end v,
)

pub report_open_attempts_frame :
    (at : Position) (id : String) (l : Assoc String AttemptState) (v : RunValidator)
    → report_open_attempts at id l v
      ≡ with_diagnostics v (report_open_attempts at id l v).diagnostics
unfolding report_open_attempts
report_open_attempts_frame at id [] v = refl
report_open_attempts_frame at id ((k, a) ∷ l) v = cc (
  report_open_attempts_frame at id l
      (report_if (open_attempt_of id a) at attempt_not_finished_at_session_end v),
  report_if_frame (open_attempt_of id a) at attempt_not_finished_at_session_end v,
)

abbrev pub all_done : Assoc String Bool → Bool
all_done [] = true
all_done ((_, done) ∷ rest) = done && all_done rest

pub is_valid-report_open_steps :
    (at : Position) (l : Assoc String Bool) (v : RunValidator)
    → is_valid (report_open_steps at l v) ≡ (all_done l && is_valid v)
unfolding report_open_steps
is_valid-report_open_steps at [] v = refl
is_valid-report_open_steps at ((k, done) ∷ l) v = ground (
  arith,
  is_valid-report_open_steps at l (report_if (not done) at step_not_finished_at_attempt_end v),
  is_valid-report_if (not done) at step_not_finished_at_attempt_end v,
)

pub report_open_steps_frame :
    (at : Position) (l : Assoc String Bool) (v : RunValidator)
    → report_open_steps at l v ≡ with_diagnostics v (report_open_steps at l v).diagnostics
unfolding report_open_steps
report_open_steps_frame at [] v = refl
report_open_steps_frame at ((k, done) ∷ l) v = cc (
  report_open_steps_frame at l (report_if (not done) at step_not_finished_at_attempt_end v),
  report_if_frame (not done) at step_not_finished_at_attempt_end v,
)

-- Validity reads the diagnostics alone.
pub is_valid-eq : (v w : RunValidator) → w.diagnostics ≡ v.diagnostics → is_valid w ≡ is_valid v
unfolding is_valid
is_valid-eq v w e = ap (λ ds. not (any is_error ds)) e

pub and_parts : (a b : Bool) → (a && b) ≡ true → (a ≡ true) × (b ≡ true)
and_parts a b h = ground arith

-- What a report that leaves the run valid has found.
pub quiet_attempts :
    (at : Position) (id : String) (l : Assoc String AttemptState) (v : RunValidator)
    → is_valid (report_open_attempts at id l v) ≡ true
    → (none_open id l ≡ true) × (is_valid v ≡ true)
quiet_attempts at id l v h = and_parts _ _ (rw is_valid-report_open_attempts at h)

pub quiet_steps :
    (at : Position) (l : Assoc String Bool) (v : RunValidator)
    → is_valid (report_open_steps at l v) ≡ true
    → (all_done l ≡ true) × (is_valid v ≡ true)
quiet_steps at l v h = and_parts _ _ (rw is_valid-report_open_steps at h)
