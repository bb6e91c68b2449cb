-- ===== src/Validator/Brackets.antt =====
-- The bracket invariant: the sessions of attempts, and what has finished in a finished session.
pub mod Keep
pub mod Steps
pub mod Feed
use qe_report.Prelude.{
  String, Bool, true, false, Option, none, some, List, [], ◌∷◌, ◌≡◌, refl, subst, sym, arith, ◌&&◌,
  if◌then◌else◌, Bool-cases, inl, inr, not,
}
use qe_report.Prelude.Keys.{text_keys, ◌===◌}
use qe_report.Prelude.Assoc.{Assoc, get, set, get-set, Entries, Entries-map}
use text.Mathlib.TextEquality.{eq_iff}
use qe_report.Validator.Model.{SessionState, AttemptState, RunValidator, is_valid}
use qe_report.Validator.Events.{open_attempt_of}
use qe_report.Validator.Validity.{all_done, none_open}

-- `covered`: whether the attempt has finished
abbrev pub CoveredBy : Option SessionState → Bool → Type 0
CoveredBy none covered = ⊥
CoveredBy (some s) covered = s.finished ≡ true → covered ≡ true

pub record AttemptOk (sessions : Assoc String SessionState) (a : AttemptState) : Type 0 where
  pub steps_done : a.finished ≡ true → all_done a.steps ≡ true
  pub session_known : CoveredBy (get a.session sessions) a.finished

abbrev pub Bracketed : RunValidator → Type 0
Bracketed v = Entries (AttemptOk v.sessions) v.attempts

-- nothing is claimed of a run with an error
abbrev pub IfValid : RunValidator → Type 0
IfValid v = is_valid v ≡ true → Bracketed v

-- A session may be stored under its id if it covers the attempts that the one before it covered.
AttemptOk-set :
    (id : String) (s : SessionState) (sessions : Assoc String SessionState) (a : AttemptState)
    → ((id === a.session) ≡ true
        → CoveredBy (get id sessions) a.finished
        → CoveredBy (some s) a.finished)
    → AttemptOk sessions a
    → AttemptOk (set id s sessions) a
AttemptOk-set id s sessions a covers h = record {
  steps_done = h.steps_done;
  session_known = rw get-set (elim (Bool-cases (id === a.session)) [
    | inl same ↦ rw same (
        covers same (
          subst (λ k. CoveredBy (get k sessions) a.finished) (sym ((eq_iff _ _).0 same))
            h.session_known))
    | inr other ↦ rw other h.session_known
  ]);
}

-- The first event of a session stores it; no attempt can refer to it before.
pub Bracketed-new_session :
    (id : String) (s : SessionState) (sessions : Assoc String SessionState)
    (m : Assoc String AttemptState)
    → get id sessions ≡ none
    → Entries (AttemptOk sessions) m
    → Entries (AttemptOk (set id s sessions)) m
Bracketed-new_session id s sessions m e =
    Entries-map m λ a. AttemptOk-set id s sessions a (λ _ c. absurd (rw e at c))

-- A session that changes without finishing.
pub Bracketed-same_session :
    (id : String) (s s' : SessionState) (sessions : Assoc String SessionState)
    (m : Assoc String AttemptState)
    → get id sessions ≡ some s
    → s'.finished ≡ s.finished
    → Entries (AttemptOk sessions) m
    → Entries (AttemptOk (set id s' sessions)) m
Bracketed-same_session id s s' sessions m e same =
    Entries-map m λ a. AttemptOk-set id s' sessions a (λ _ c. rw (e, ← same) at c)

-- an attempt of the session that is not open has finished
session_closed :
    (id : String) (a : AttemptState)
    → (id === a.session) ≡ true
    → open_attempt_of id a ≡ false
    → a.finished ≡ true
session_closed id a same closed = ground (arith, eq_iff id a.session, eq_iff a.session id)

-- A session that finishes with none of its attempts open.
pub Bracketed-finished_session :
    (id : String) (s : SessionState) (sessions : Assoc String SessionState)
    (m : Assoc String AttemptState)
    → none_open id m ≡ true
    → Entries (AttemptOk sessions) m
    → Entries (AttemptOk (set id s sessions)) m
Bracketed-finished_session id s sessions [] closed h = tt
Bracketed-finished_session id s sessions ((k, a) ∷ m) closed h = (
  AttemptOk-set id s sessions a (λ same _ _. session_closed id a same (ground arith)) h.0,
  Bracketed-finished_session id s sessions m (ground arith) h.1,
)
