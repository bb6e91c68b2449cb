-- ===== src/Validator/Sequences/Around.antt =====
-- The kept lines and the last numbers under the handling of an event.
use qe_report.Prelude.{
  String, Bool, true, false, Option, none, some, ◌≡◌, refl, ◌+◌, Bool-cases, Option-cases, inl, inr,
  if◌then◌else◌,
}
use qe_report.Prelude.Keys.{text_keys, nat_keys}
use qe_report.Prelude.Assoc.{get, has}
use qe_report.Protocol.Model.{
  AttemptStartedPayload, AttemptFinishedPayload, StepStartedPayload, StepFinishedPayload,
  AttachmentAddedPayload, Payload, session_started, session_finished, run_finished, attempt_started,
  attempt_finished, step_started, step_finished, attachment_added, scope_failed, unknown,
}
use qe_report.Validator.Model.{
  SessionState, AttemptState, Position, RunValidator, is_valid, step_outside_attempt,
  duplicate_step_id, step_parent_unknown, historical_id_without_runner,
}
use qe_report.Validator.Events.{
  start_attempt, finish_attempt, start_step, close_known_step, finish_step, step_state, declare,
  report_if, no_runner, closed_attempt, count_failure, open_step, count_step, close_step,
  unknown_step, attachment_violation, add_attachment, dispatch, new_attempt,
}
use qe_report.Validator.Beside.{
  Beside-lifecycle, Beside-report_if, Beside-report_some, Beside-check_execution,
  Beside-report_open_steps,
}
use qe_report.Validator.Sequences.AroundSessions.{
  Around, Around-Beside, Around-finish_run, Around-finish_session, Around-refl,
  Around-store_attempt, Around-trans,
}

Around-start_attempt :
    (at : Position) (id : String) (p : AttemptStartedPayload) (s : SessionState) (v : RunValidator)
    → Around v (start_attempt at id p s v)
unfolding start_attempt
Around-start_attempt at id p s v =
    let w : RunValidator = report_if (no_runner p s) at historical_id_without_runner v in
    Around-trans
      (Around-Beside (Beside-report_if (no_runner p s) at historical_id_without_runner v))
      (elim (Bool-cases (has p.attempt_id w.attempts)) [
        | inl known ↦ rw known (Around-Beside (Beside-lifecycle at _ w))
        | inr new ↦ rw new (
            Around-trans (Around-store_attempt p.attempt_id (new_attempt id p) w)
              (Around-Beside (Beside-check_execution at p s _)))
      ])

Around-count_failure :
    (p : AttemptFinishedPayload) (v : RunValidator) → Around v (count_failure p v)
unfolding is_valid
Around-count_failure p v = record {
  options = refl;
  source = refl;
  last = λ _. refl;
  valid = λ h. h;
}

Around-finish_attempt :
    (at : Position) (p : AttemptFinishedPayload) (v : RunValidator)
    → Around v (finish_attempt at p v)
unfolding finish_attempt is_valid
Around-finish_attempt at p v = elim (Option-cases (get p.attempt_id v.attempts)) [
  | inl missing ↦ rw (missing, finish_attempt) (Around-Beside (Beside-lifecycle at _ v))
  | inr (a, known) ↦
      rw (known, finish_attempt)
        (elim (Bool-cases a.finished) [
          | inl twice ↦ rw twice (Around-Beside (Beside-lifecycle at _ v))
          | inr open_one ↦ rw open_one (
              Around-trans (Around-store_attempt p.attempt_id (closed_attempt p a) v) (
                Around-trans (Around-count_failure p _)
                  (Around-Beside (Beside-report_open_steps at a.steps _))))
        ])
]

Around-count_step : (v : RunValidator) → Around v (count_step v)
unfolding is_valid
Around-count_step v = record { options = refl; source = refl; last = λ _. refl; valid = λ h. h }

Around-if :
    (b : Bool) (v x y : RunValidator) → Around v x → Around v y → Around v (if b then x else y)
Around-if true v x y h k = h
Around-if false v x y h k = k

Around-start_step :
    (at : Position) (p : StepStartedPayload) (v : RunValidator) → Around v (start_step at p v)
unfolding start_step
Around-start_step at p v = elim (Option-cases (get p.attempt_id v.attempts)) [
  | inl missing ↦ rw (missing, start_step) (Around-Beside (Beside-lifecycle at _ v))
  | inr (a, known) ↦
      rw (known, start_step)
        (Around-if a.finished v _ _ (Around-Beside (Beside-lifecycle at step_outside_attempt v)) (
          Around-trans
            (Around-Beside (Beside-report_if (has p.step_id a.steps) at duplicate_step_id v))
            (Around-trans
              (Around-Beside
                (Beside-report_if (unknown_step p.parent_step_id a.steps) at step_parent_unknown _))
              (Around-trans (Around-store_attempt p.attempt_id (open_step p.step_id a) _)
                (Around-count_step _)))))
]

Around-close_known_step :
    (at : Position) (p : StepFinishedPayload) (o : Option AttemptState) (v : RunValidator)
    → Around v (close_known_step at p o v)
unfolding close_known_step
Around-close_known_step at p none v = Around-refl v
Around-close_known_step at p (some a) v =
    Around-store_attempt p.attempt_id (close_step p.step_id a) v

Around-finish_step :
    (at : Position) (p : StepFinishedPayload) (v : RunValidator) → Around v (finish_step at p v)
unfolding finish_step
Around-finish_step at p v =
    elim (Option-cases (step_state p.step_id (get p.attempt_id v.attempts))) [
      | inl missing ↦ rw (missing, finish_step) (Around-Beside (Beside-lifecycle at _ v))
      | inr (true, e) ↦ rw (e, finish_step) (Around-Beside (Beside-lifecycle at _ v))
      | inr (false, e) ↦ rw (e, finish_step) (Around-close_known_step at p _ v)
    ]

Around-declare :
    (at : Position) (p : AttachmentAddedPayload) (v : RunValidator) → Around v (declare at p v)
unfolding is_valid
Around-declare at p v = record { options = refl; source = refl; last = λ _. refl; valid = λ h. h }

Around-add_attachment :
    (at : Position) (p : AttachmentAddedPayload) (v : RunValidator)
    → Around v (add_attachment at p v)
unfolding add_attachment
Around-add_attachment at p v =
    Around-trans
      (Around-Beside
        (Beside-report_some at (attachment_violation p.step_id (get p.attempt_id v.attempts)) v))
      (Around-declare at p _)

Around-scope_failed :
    (v : RunValidator) → Around v (record v { scope_failures = v.scope_failures + 1 })
unfolding is_valid
Around-scope_failed v = record { options = refl; source = refl; last = λ _. refl; valid = λ h. h }

-- The switch leaves the kept lines and the last numbers alone, and takes no error back.
pub Around-dispatch :
    (at : Position) (id : String) (p : Payload) (s : SessionState) (v : RunValidator)
    → get id v.sessions ≡ some s
    → Around v (dispatch at id p s v)
unfolding dispatch
Around-dispatch at id (session_started p) s v known = Around-refl v
Around-dispatch at id (session_finished p) s v known = Around-finish_session at id p s v known
Around-dispatch at id run_finished s v known = Around-finish_run at v
Around-dispatch at id (attempt_started p) s v known = Around-start_attempt at id p s v
Around-dispatch at id (attempt_finished p) s v known = Around-finish_attempt at p v
Around-dispatch at id (step_started p) s v known = Around-start_step at p v
Around-dispatch at id (step_finished p) s v known = Around-finish_step at p v
Around-dispatch at id (attachment_added p) s v known = Around-add_attachment at p v
Around-dispatch at id (scope_failed p) s v known = Around-scope_failed v
Around-dispatch at id (unknown type p) s v known = Around-refl v
