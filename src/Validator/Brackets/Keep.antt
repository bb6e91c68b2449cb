-- ===== src/Validator/Brackets/Keep.antt =====
-- The bracket invariant under each operation of the `switch`.
use qe_report.Prelude.{
  if◌then◌else◌, String, Bool, true, false, Option, none, some, [], ◌∷◌, ◌≡◌, refl, arith,
  Bool-cases, Option-cases, inl, inr,
}
use qe_report.Prelude.Keys.{text_keys, nat_keys}
use qe_report.Prelude.Assoc.{Assoc, get, set, has, Entries-set, Entries-get}
use qe_report.Protocol.Model.{
  SessionFinishedPayload, AttemptStartedPayload, AttemptFinishedPayload, StepStartedPayload,
  StepFinishedPayload, AttachmentAddedPayload,
}
use qe_report.Validator.Model.{
  SessionState, AttemptState, Position, RunValidator, is_valid, historical_id_without_runner,
  step_parent_unknown, duplicate_step_id,
}
use qe_report.Validator.Events.{
  store_attempt, report_if, report_open_attempts, report_open_steps, finish_session, no_runner,
  new_attempt, start_attempt, closed_attempt, finish_attempt, open_step, unknown_step, count_step,
  count_failure, start_step, close_step, step_state, close_known_step, finish_step,
  attachment_violation, add_attachment,
}
use qe_report.Validator.Validity.{all_done, none_open, quiet_attempts, quiet_steps}
use qe_report.Validator.Beside.{
  Beside, Beside-trans, Beside-lifecycle, Beside-report_if, Beside-report_some,
  Beside-check_execution, Beside-report_open_attempts, Beside-report_open_steps,
}
use qe_report.Validator.Brackets.{CoveredBy, AttemptOk, IfValid, Bracketed-finished_session}

pub Beside-IfValid : {v w : RunValidator} → Beside v w → IfValid v → IfValid w
Beside-IfValid {v} b h valid = rw (b.sessions, b.attempts) (h (b.valid valid))

-- The reports of a finished session or attempt, from what they leave to be shown.
-- a test whose branches are each to be shown
IfValid-if :
    (b : Bool) (v w : RunValidator)
    → IfValid v
    → (b ≡ false → IfValid w)
    → IfValid (if b then v else w)
IfValid-if true v w h k = h
IfValid-if false v w h k = k refl

all_done-set :
    (id : String) (l : Assoc String Bool) → all_done l ≡ true → all_done (set id true l) ≡ true
unfolding set
all_done-set id [] h = refl
all_done-set id ((k, done) ∷ l) h = ground (arith, all_done-set id l)

CoveredBy-finished : (o : Option SessionState) (b : Bool) → CoveredBy o b → CoveredBy o true
CoveredBy-finished none b h = h
CoveredBy-finished (some s) b h = λ _. refl

IfValid-report_open_attempts :
    (at : Position) (id : String) (l : Assoc String AttemptState) (v : RunValidator)
    → (none_open id l ≡ true → IfValid v)
    → IfValid (report_open_attempts at id l v)
IfValid-report_open_attempts at id l v h valid =
    let (closed, before) = quiet_attempts at id l v valid in
    Beside-IfValid (Beside-report_open_attempts at id l v) (h closed) valid

IfValid-report_open_steps :
    (at : Position) (l : Assoc String Bool) (v : RunValidator)
    → (all_done l ≡ true → IfValid v)
    → IfValid (report_open_steps at l v)
IfValid-report_open_steps at l v h valid =
    let (closed, before) = quiet_steps at l v valid in
    Beside-IfValid (Beside-report_open_steps at l v) (h closed) valid

-- session.finished: it reports every attempt of the session that is open
pub finish_session-IfValid :
    (at : Position) (id : String) (p : SessionFinishedPayload) (s : SessionState) (v : RunValidator)
    → IfValid v
    → IfValid (finish_session at id p s v)
unfolding finish_session is_valid
finish_session-IfValid at id p s v h =
    IfValid-report_open_attempts at id v.attempts _
      λ closed valid. Bracketed-finished_session id _ v.sessions v.attempts closed (h valid)

-- an attempt is stored with what the invariant asks of it
IfValid-store_attempt :
    (id : String) (a : AttemptState) (v : RunValidator)
    → (is_valid v ≡ true → AttemptOk v.sessions a)
    → IfValid v
    → IfValid (store_attempt id a v)
unfolding is_valid
IfValid-store_attempt id a v good h valid =
    Entries-set (AttemptOk v.sessions) id a v.attempts (h valid) (good valid)

fresh_AttemptOk :
    (id : String) (p : AttemptStartedPayload) (s : SessionState)
    (sessions : Assoc String SessionState)
    → get id sessions ≡ some s
    → s.finished ≡ false
    → AttemptOk sessions (new_attempt id p)
fresh_AttemptOk id p s sessions known active = record {
  steps_done = λ e. cc;
  session_known = rw known (λ e. cc);
}

pub start_attempt-IfValid :
    (at : Position) (id : String) (p : AttemptStartedPayload) (s : SessionState) (v : RunValidator)
    → get id v.sessions ≡ some s
    → s.finished ≡ false
    → IfValid v
    → IfValid (start_attempt at id p s v)
unfolding start_attempt
start_attempt-IfValid at id p s v known active h =
    let w : RunValidator = report_if (no_runner p s) at historical_id_without_runner v in
    let b : Beside v w = Beside-report_if (no_runner p s) at _ v in
    elim (Bool-cases (has p.attempt_id w.attempts)) [
      | inl again ↦ rw again (Beside-IfValid (Beside-lifecycle at _ w) (Beside-IfValid b h))
      | inr fresh ↦ rw fresh (
          Beside-IfValid (Beside-check_execution at p s _) (
            IfValid-store_attempt p.attempt_id (new_attempt id p) w
              (λ _. fresh_AttemptOk id p s w.sessions (rw b.sessions known) active)
              (Beside-IfValid b h)))
    ]

closed_AttemptOk :
    (p : AttemptFinishedPayload) (a : AttemptState) (sessions : Assoc String SessionState)
    → all_done a.steps ≡ true
    → AttemptOk sessions a
    → AttemptOk sessions (closed_attempt p a)
closed_AttemptOk p a sessions done h = record {
  steps_done = λ _. done;
  session_known = CoveredBy-finished (get a.session sessions) a.finished h.session_known;
}

opened_AttemptOk :
    (id : String) (a : AttemptState) (sessions : Assoc String SessionState)
    → a.finished ≡ false
    → AttemptOk sessions a
    → AttemptOk sessions (open_step id a)
opened_AttemptOk id a sessions active h = record {
  steps_done = λ e. cc (e, active);
  session_known = h.session_known;
}

closed_step_AttemptOk :
    (id : String) (a : AttemptState) (sessions : Assoc String SessionState)
    → AttemptOk sessions a
    → AttemptOk sessions (close_step id a)
closed_step_AttemptOk id a sessions h = record {
  steps_done = λ e. all_done-set id a.steps (h.steps_done e);
  session_known = h.session_known;
}

step_stored :
    (at : Position) (p : StepStartedPayload) (a : AttemptState) (v : RunValidator)
    → get p.attempt_id v.attempts ≡ some a
    → a.finished ≡ false
    → IfValid v
    → IfValid (
        count_step (
          store_attempt p.attempt_id (open_step p.step_id a) (
            report_if
              (unknown_step p.parent_step_id a.steps)
              at
              step_parent_unknown
              (report_if (has p.step_id a.steps) at duplicate_step_id v))))
unfolding is_valid
step_stored at p a v e active h =
    let u : RunValidator = report_if (has p.step_id a.steps) at duplicate_step_id v in
    let w : RunValidator =
      report_if (unknown_step p.parent_step_id a.steps) at step_parent_unknown u in
    let b : Beside v w = Beside-trans (Beside-report_if _ at _ v) (Beside-report_if _ at _ u) in
    let hw : IfValid w = Beside-IfValid b h in
    IfValid-store_attempt p.attempt_id (open_step p.step_id a) w
      (λ valid.
        opened_AttemptOk p.step_id a w.sessions active
          (Entries-get _ p.attempt_id _ (hw valid) (rw b.attempts e)))
      hw

close_known_step-IfValid :
    (at : Position) (p : StepFinishedPayload) (o : Option AttemptState) (v : RunValidator)
    → get p.attempt_id v.attempts ≡ o
    → IfValid v
    → IfValid (close_known_step at p o v)
unfolding close_known_step
close_known_step-IfValid at p none v e h = h
close_known_step-IfValid at p (some a) v e h =
    IfValid-store_attempt p.attempt_id (close_step p.step_id a) v
      (λ valid. closed_step_AttemptOk p.step_id a v.sessions (Entries-get _ _ _ (h valid) e)) h

closed_stored :
    (p : AttemptFinishedPayload) (a : AttemptState) (v : RunValidator)
    → all_done a.steps ≡ true
    → get p.attempt_id v.attempts ≡ some a
    → IfValid v
    → IfValid (count_failure p (store_attempt p.attempt_id (closed_attempt p a) v))
unfolding is_valid
closed_stored p a v done e h =
    IfValid-store_attempt p.attempt_id (closed_attempt p a) v
      (λ valid. closed_AttemptOk p a v.sessions done (Entries-get _ _ _ (h valid) e)) h

pub finish_attempt-IfValid :
    (at : Position) (p : AttemptFinishedPayload) (v : RunValidator)
    → IfValid v
    → IfValid (finish_attempt at p v)
unfolding finish_attempt
finish_attempt-IfValid at p v h = elim (Option-cases (get p.attempt_id v.attempts)) [
  | inl absent ↦ rw (absent, finish_attempt) (Beside-IfValid (Beside-lifecycle at _ v) h)
  | inr (a, e) ↦
      rw (e, finish_attempt)
        (IfValid-if a.finished _ _ (Beside-IfValid (Beside-lifecycle at _ v) h)
          λ _. IfValid-report_open_steps at a.steps _ λ done. closed_stored p a v done e h)
]

pub start_step-IfValid :
    (at : Position) (p : StepStartedPayload) (v : RunValidator)
    → IfValid v
    → IfValid (start_step at p v)
unfolding start_step
start_step-IfValid at p v h = elim (Option-cases (get p.attempt_id v.attempts)) [
  | inl absent ↦ rw (absent, start_step) (Beside-IfValid (Beside-lifecycle at _ v) h)
  | inr (a, e) ↦
      rw (e, start_step)
        (IfValid-if a.finished _ _ (Beside-IfValid (Beside-lifecycle at _ v) h)
          λ active. step_stored at p a v e active h)
]

pub finish_step-IfValid :
    (at : Position) (p : StepFinishedPayload) (v : RunValidator)
    → IfValid v
    → IfValid (finish_step at p v)
unfolding finish_step
finish_step-IfValid at p v h =
    elim (Option-cases (step_state p.step_id (get p.attempt_id v.attempts))) [
      | inl absent ↦ rw (absent, finish_step) (Beside-IfValid (Beside-lifecycle at _ v) h)
      | inr (true, e) ↦ rw (e, finish_step) (Beside-IfValid (Beside-lifecycle at _ v) h)
      | inr (false, e) ↦ rw (e, finish_step) (close_known_step-IfValid at p _ v refl h)
    ]

pub add_attachment-IfValid :
    (at : Position) (p : AttachmentAddedPayload) (v : RunValidator)
    → IfValid v
    → IfValid (add_attachment at p v)
unfolding add_attachment is_valid
add_attachment-IfValid at p v h =
    Beside-IfValid
      (Beside-report_some at (attachment_violation p.step_id (get p.attempt_id v.attempts)) v) h
