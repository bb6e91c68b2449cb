-- ===== src/Validator/Complete.antt =====
-- A valid run that was closed, and its completeness.
use qe_report.Prelude.{
  String, Bool, true, false, Option, none, some, List, [], ◌∷◌, ◌≡◌, refl, subst, ap, ◌∙◌, arith,
  ◌&&◌, all, is_some, Bool-cases, inl, inr, not,
}
use mathlib.Core.Option.{some-injective}
use qe_report.Prelude.Keys.{text_keys, ◌===◌}
use qe_report.Prelude.Assoc.{Assoc, get, Entries}
use qe_report.Validator.Model.{
  LifecycleDetail, lifecycle, SessionState, AttemptState, Position, RunValidator, is_valid,
  session_not_finished_at_run_end,
}
use qe_report.Validator.FileSystem.{FileSystem}
use qe_report.Validator.Events.{report_if}
use qe_report.Validator.Attachments.{bind}
use qe_report.Validator.Finish.{
  values, report_open_sessions, report_run_end, check_run_end, attempt_complete, is_complete,
  report_incomplete, finished_validator,
}
use qe_report.Validator.Validity.{all_done, is_valid-report_if, and_parts}
use qe_report.Validator.Beside.{Beside, Beside-refl, Beside-trans, Beside-report_if, Beside-push}
use qe_report.Validator.Attachments.Verified.{
  Checked, Passed, AttachmentsVerified, check_attachments-Passed,
}
use qe_report.Validator.Brackets.{CoveredBy, AttemptOk, Bracketed}

abbrev pub all_finished : List SessionState → Bool
all_finished = all (λ (s : SessionState). s.finished)

is_valid-report_open_sessions :
    (at : Position) (l : List SessionState) (v : RunValidator)
    → is_valid (report_open_sessions at l v) ≡ (all_finished l && is_valid v)
unfolding report_open_sessions
is_valid-report_open_sessions at [] v = refl
is_valid-report_open_sessions at (s ∷ l) v = ground (
  arith,
  is_valid-report_open_sessions at l
      (report_if (not s.finished) at session_not_finished_at_run_end v),
  is_valid-report_if (not s.finished) at session_not_finished_at_run_end v,
)

Beside-report_open_sessions :
    (at : Position) (l : List SessionState) (v : RunValidator)
    → Beside v (report_open_sessions at l v)
unfolding report_open_sessions
Beside-report_open_sessions at [] v = Beside-refl v
Beside-report_open_sessions at (s ∷ l) v =
    Beside-trans (Beside-report_if (not s.finished) at _ v) (Beside-report_open_sessions at l _)

Beside-report_run_end : (o : Option Position) (v : RunValidator) → Beside v (report_run_end o v)
Beside-report_run_end none v = Beside-refl v
Beside-report_run_end (some at) v = Beside-report_open_sessions at _ v

Beside-check_run_end : (v : RunValidator) → Beside v (check_run_end v)
unfolding check_run_end
Beside-check_run_end v = Beside-report_run_end v.run_finished v

-- run.finished with an open session is an error
closed-finished :
    (v : RunValidator) {at : Position}
    → v.run_finished ≡ some at
    → is_valid (check_run_end v) ≡ true
    → all_finished (values v.sessions) ≡ true
unfolding check_run_end
closed-finished v {at} e h =
    (and_parts _ _ (rw (e, check_run_end, is_valid-report_open_sessions) at h)).0

Beside-report_incomplete : (v : RunValidator) → Beside v (report_incomplete v)
unfolding report_incomplete
Beside-report_incomplete v = elim (Bool-cases (is_complete v)) [
  | inl done ↦ rw (done, report_incomplete) (Beside-refl v)
  | inr still ↦ rw (still, report_incomplete) (Beside-push _ v)
]

-- an attempt with a finished session and finished steps
all_finished-get :
    (id : String) (m : Assoc String SessionState) {s : SessionState}
    → all_finished (values m) ≡ true
    → get id m ≡ some s
    → s.finished ≡ true
unfolding get
all_finished-get id [] h e = cc
all_finished-get id ((k, s) ∷ m) h e = elim (Bool-cases (k === id)) [
  | inl same ↦
      subst (λ x. x.finished ≡ true) (some-injective _ _ (rw same at e)) (and_parts _ _ h).0
  | inr other ↦ all_finished-get id m (and_parts _ _ h).1 (rw other at e)
]

all_done-values : (l : Assoc String Bool) → all (λ done. done) (values l) ≡ all_done l
all_done-values [] = refl
all_done-values ((_, done) ∷ l) = ap (λ b. done && b) (all_done-values l)

covered_finished :
    (o : Option SessionState) (b : Bool)
    → ((s : SessionState) → o ≡ some s → s.finished ≡ true)
    → CoveredBy o b
    → b ≡ true
covered_finished none b f h = absurd h
covered_finished (some s) b f h = h (f s refl)

attempt_is_complete :
    (sessions : Assoc String SessionState) (a : AttemptState)
    → all_finished (values sessions) ≡ true
    → AttemptOk sessions a
    → attempt_complete a ≡ true
attempt_is_complete sessions a h o =
    let done : a.finished ≡ true =
      covered_finished (get a.session sessions) a.finished
        (λ s e. all_finished-get a.session sessions h e) o.session_known in
    simp (done, all_done-values) (o.steps_done done)

attempts_are_complete :
    (sessions : Assoc String SessionState) (m : Assoc String AttemptState)
    → all_finished (values sessions) ≡ true
    → Entries (AttemptOk sessions) m
    → all attempt_complete (values m) ≡ true
attempts_are_complete sessions [] h o = refl
attempts_are_complete sessions ((_, a) ∷ m) h o =
    simp (attempt_is_complete sessions a h o.0, attempts_are_complete sessions m h o.1)

pub Bracketed-complete :
    (v : RunValidator)
    → all_finished (values v.sessions) ≡ true
    → Bracketed v
    → is_complete v ≡ true
unfolding is_complete
Bracketed-complete v h b = simp (h, attempts_are_complete v.sessions v.attempts h b)

report_checks :
    (P : Type 0) (v : RunValidator) (o : Option RunValidator) {w : RunValidator}
    → Passed P v o
    → bind o (λ u. some (report_incomplete u)) ≡ some w
    → Checked P v w
report_checks P v none h e = cc
report_checks P v (some u) {w} h e = subst (Checked P v) (some-injective _ _ e) (record {
  beside = Beside-trans h.beside (Beside-report_incomplete u);
  shown = λ valid. h.shown ((Beside-report_incomplete u).valid valid);
})

-- the reports at the end of the run do not refuse the directory
refused-report_if :
    (b : Bool) (at : Position) (x : LifecycleDetail) (v : RunValidator)
    → (report_if b at x v).attachments_dir_refused ≡ v.attachments_dir_refused
unfolding report_if lifecycle
refused-report_if true at x v = refl
refused-report_if false at x v = refl

refused-report_open_sessions :
    (at : Position) (l : List SessionState) (v : RunValidator)
    → (report_open_sessions at l v).attachments_dir_refused ≡ v.attachments_dir_refused
unfolding report_open_sessions
refused-report_open_sessions at [] v = refl
refused-report_open_sessions at (s ∷ l) v =
    refused-report_open_sessions at l _ ∙ refused-report_if (not s.finished) at _ v

refused-report_run_end :
    (o : Option Position) (v : RunValidator)
    → (report_run_end o v).attachments_dir_refused ≡ v.attachments_dir_refused
refused-report_run_end none v = refl
refused-report_run_end (some at) v = refused-report_open_sessions at _ v

refused :
    (v : RunValidator)
    → v.attachments_dir_refused ≡ false
    → (check_run_end v).attachments_dir_refused ≡ false
unfolding check_run_end
refused v e = refused-report_run_end v.run_finished v ∙ e

-- What a validator that has finished says of the one before.
pub record Finished (fs : FileSystem) (v w : RunValidator) : Type 0 where
  pub beside : Beside v w
  pub verified :
      is_valid w ≡ true
      → v.attachments_dir_refused ≡ false
      → AttachmentsVerified fs v.options.attachments_dir v.attachments
  pub sessions_finished :
      is_valid w ≡ true → is_some v.run_finished ≡ true → all_finished (values v.sessions) ≡ true

closed_sessions :
    (v : RunValidator) (o : Option Position)
    → v.run_finished ≡ o
    → is_valid (check_run_end v) ≡ true
    → is_some o ≡ true
    → all_finished (values v.sessions) ≡ true
closed_sessions v none e h c = cc
closed_sessions v (some at) e h c = closed-finished v e h

pub finished_validator-Finished :
    (fs : FileSystem) (v : RunValidator) {w : RunValidator}
    → finished_validator fs v ≡ some w
    → Finished fs v w
unfolding finished_validator
finished_validator-Finished fs v e =
    let u : RunValidator = check_run_end v in
    let b : Beside v u = Beside-check_run_end v in
    let c = report_checks _ u _ (check_attachments-Passed fs u) e in
    record {
      beside = Beside-trans b c.beside;
      verified = λ valid fresh.
          subst (AttachmentsVerified fs v.options.attachments_dir) b.attachments (
            subst (λ o. AttachmentsVerified fs o.attachments_dir u.attachments) b.options
              (c.shown valid (refused v fresh)));
      sessions_finished =
          λ valid closed. closed_sessions v v.run_finished refl (c.beside.valid valid) closed;
    }
