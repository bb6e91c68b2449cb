-- ===== src/Validator/Sequences/AroundSessions.antt =====
-- The kept lines and the last numbers under the events of sessions and runs.
use qe_report.Prelude.{
  String, true, none, some, ◌≡◌, refl, ap, sym, subst, arith, Option-cases, inl, inr, ◌∙◌,
}
use qe_report.Prelude.Keys.{text_keys, nat_keys}
use text.Mathlib.TextEquality.{eq_iff}
use qe_report.Prelude.Assoc.{get, get-set}
use qe_report.Protocol.Model.{SessionFinishedPayload}
use qe_report.Validator.Model.{
  SessionState, AttemptState, Position, RunValidator, is_valid, lifecycle, duplicate_run_finished,
}
use qe_report.Validator.Events.{
  store_session, store_attempt, count_outcome, finish_session, finish_run,
}
use qe_report.Validator.Beside.{Beside, Beside-lifecycle, Beside-report_open_attempts}
use qe_report.Validator.Sequences.{last_sequence}

pub record Around (v w : RunValidator) : Type 0 where
  pub options : w.options ≡ v.options
  pub source : w.source ≡ v.source
  pub last : (id : String) → last_sequence id w.sessions ≡ last_sequence id v.sessions
  pub valid : is_valid w ≡ true → is_valid v ≡ true

pub Around-trans : {u v w : RunValidator} → Around u v → Around v w → Around u w
Around-trans b c = record {
  options = c.options ∙ b.options;
  source = c.source ∙ b.source;
  last = λ id. c.last id ∙ b.last id;
  valid = λ h. b.valid (c.valid h);
}

pub Around-Beside : {v w : RunValidator} → Beside v w → Around v w
Around-Beside b = record {
  options = b.options;
  source = b.source;
  last = λ id. ap (last_sequence id) b.sessions;
  valid = b.valid;
}

pub Around-refl : (v : RunValidator) → Around v v
Around-refl v = record { options = refl; source = refl; last = λ _. refl; valid = λ h. h }

pub Around-store_attempt :
    (id : String) (a : AttemptState) (v : RunValidator) → Around v (store_attempt id a v)
unfolding is_valid
Around-store_attempt id a v = record {
  options = refl;
  source = refl;
  last = λ _. refl;
  valid = λ h. h;
}

-- a session that is stored with the last number that it had
Around-store_session :
    (id : String) (s t : SessionState) (v : RunValidator)
    → get id v.sessions ≡ some s
    → t.last_sequence ≡ s.last_sequence
    → Around v (store_session id t v)
unfolding is_valid
Around-store_session id s t v known same = record {
  options = refl;
  source = refl;
  last = λ k. ground (arith, get-set id k t v.sessions, eq_iff id k);
  valid = λ h. h;
}

Around-count_outcome :
    (p : SessionFinishedPayload) (v : RunValidator) → Around v (count_outcome p v)
unfolding is_valid
Around-count_outcome p v = record {
  options = refl;
  source = refl;
  last = λ _. refl;
  valid = λ h. h;
}

pub Around-finish_session :
    (at : Position) (id : String) (p : SessionFinishedPayload) (s : SessionState) (v : RunValidator)
    → get id v.sessions ≡ some s
    → Around v (finish_session at id p s v)
unfolding finish_session
Around-finish_session at id p s v known =
    Around-trans (Around-store_session id s (record s { finished = true }) v known refl) (
      Around-trans (Around-count_outcome p _)
        (Around-Beside (Beside-report_open_attempts at id v.attempts _)))

finished_again :
    (at : Position) (v : RunValidator) {first : Position}
    → v.run_finished ≡ some first
    → finish_run at v ≡ lifecycle at duplicate_run_finished v
unfolding finish_run
finished_again at v e = simp (e, finish_run)

finished_first :
    (at : Position) (v : RunValidator)
    → v.run_finished ≡ none
    → finish_run at v ≡ record v { run_finished = some at }
unfolding finish_run
finished_first at v e = simp (e, finish_run)

Around-run_finished :
    (at : Position) (v : RunValidator) → Around v (record v { run_finished = some at })
unfolding is_valid
Around-run_finished at v = record {
  options = refl;
  source = refl;
  last = λ _. refl;
  valid = λ h. h;
}

pub Around-finish_run : (at : Position) (v : RunValidator) → Around v (finish_run at v)
Around-finish_run at v = elim (Option-cases v.run_finished) [
  | inl first ↦ subst (Around v) (sym (finished_first at v first)) (Around-run_finished at v)
  | inr (_, again) ↦
      subst (Around v) (sym (finished_again at v again)) (Around-Beside (Beside-lifecycle at _ v))
]
