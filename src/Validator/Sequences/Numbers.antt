-- ===== src/Validator/Sequences/Numbers.antt =====
-- The steps that open a session and check its sequence number.
use qe_report.Prelude.{
  ℕ, suc, ◌+◌, String, Bool, true, false, Option, none, some, [], ◌∷◌, ◌++◌, ◌≡◌, refl, sym, subst,
  ap, ◌∙◌, arith, not, ◌&&◌, ◌==◌, ==_iff, Bool-cases, inl, inr,
}
use mathlib.Core.List.{append-nil}
use qe_report.Prelude.Keys.{text_keys, ◌===◌}
use text.Mathlib.TextEquality.{eq_iff}
use qe_report.Prelude.Assoc.{Assoc, get, set, get-set}
use qe_report.Protocol.Model.{SessionStartedPayload, Payload, session_started, Event}
use qe_report.Validator.Model.{
  accepted, SessionState, RunValidator, Position, is_valid, sequence_gap, session_not_started,
  session_already_finished,
}
use qe_report.Validator.Events.{report_if}
use qe_report.Validator.Feed.{
  Call, Feed, at, started_session, find_session, start_session, open_session, enter_session,
  check_sequence, is_run_finished, check_unfinished,
}
use qe_report.Validator.Hoare.{Triple, Leaves}
use qe_report.Validator.Validity.{is_valid-lifecycle, is_valid-report_if, and_parts}
use qe_report.Validator.Beside.{Beside, Beside-report_if}
use qe_report.Validator.Brackets.Feed.{stored_there, stored_error}
use qe_report.Validator.Sequences.{sequences, only_if, upto, last_of, last_sequence, Contiguous}
use qe_report.Validator.Sequences.AroundSessions.{Around-Beside}
use qe_report.Validator.Sequences.Steps.{Around-IfKept, IfKeptWith, Kept, erred}

pub record Opened (event : Event) (session : SessionState) (s : Feed) : Type 0 where
  pub kept : Kept s
  pub stored : get event.session_id s.run.sessions ≡ some session

find_session-Leaves :
    (c : Call) (event : Event) (o : Option SessionState) (s : Feed)
    → get event.session_id s.run.sessions ≡ o
    → Kept s
    → Leaves (Opened event) Kept (find_session c event o s)
find_session-Leaves c event (some session) s e h = record { kept = h; stored = e }
find_session-Leaves c event none s e h = record {
  kept =
      λ valid. cc (valid, stored_error event.session_id _ (at c s event) session_not_started s.run);
  stored = stored_there event.session_id _ _;
}

-- a session that is new has no number yet
last-new :
    (id k : String) (s : SessionState) (m : Assoc String SessionState)
    → get id m ≡ none
    → s.last_sequence ≡ 0
    → last_sequence k (set id s m) ≡ last_sequence k m
last-new id k s m e z = ground (arith, get-set id k s m, eq_iff id k)

start_session-Leaves :
    (c : Call) (event : Event) (p : SessionStartedPayload) (o : Option SessionState) (s : Feed)
    → get event.session_id s.run.sessions ≡ o
    → Kept s
    → Leaves (Opened event) Kept (start_session c event p o s)
unfolding is_valid
start_session-Leaves c event p (some _) s e h = erred _ _ s.run h
start_session-Leaves c event p none s e h = record {
  kept = λ valid. (
    (h valid).0,
    λ id.
        (h valid).1 id
        ∙ ap upto (sym (last-new event.session_id id (started_session p) s.run.sessions e refl)),
  );
  stored = stored_there event.session_id _ _;
}

open_session-Leaves :
    (c : Call) (event : Event) (p : Payload) (o : Option SessionState) (s : Feed)
    → get event.session_id s.run.sessions ≡ o
    → Kept s
    → Leaves (Opened event) Kept (open_session c event p o s)
open_session-Leaves c event (session_started p) o s e h = start_session-Leaves c event p o s e h
open_session-Leaves c event _ o s e h = find_session-Leaves c event o s e h

pub enter_session_rule :
    (c : Call) (event : Event) → Triple Kept (enter_session c event) (Opened event) Kept
unfolding enter_session
enter_session_rule c event = record {
  from = λ s h. open_session-Leaves c event event.payload _ s refl h;
}

-- The event has the next number, and its line is still to be kept.
pub record Pending (event : Event) (session : SessionState) (s : Feed) : Type 0 where
  pub pending : IfKeptWith event accepted s.run
  pub stored : get event.session_id s.run.sessions ≡ some session

upto-next : (n : ℕ) → upto (n + 1) ≡ upto n ++ (n + 1) ∷ []
upto-next n =
    let next : suc n ≡ n + 1 = omega arith in subst (λ k. upto k ≡ upto n ++ k ∷ []) next refl

last-own :
    (i : String) (number : ℕ) (session session' : SessionState) (v : RunValidator)
    → get i v.sessions ≡ some session
    → session'.last_sequence ≡ session.last_sequence + 1
    → number ≡ session.last_sequence + 1
    → Contiguous v
    → sequences i v.source ++ number ∷ [] ≡ upto (last_sequence i (set i session' v.sessions))
last-own i number session session' v known next same h =
    let before : sequences i v.source ≡ upto session.last_sequence =
      h i ∙ ap (λ o. upto (last_of o)) known in
    let after : last_sequence i (set i session' v.sessions) ≡ session.last_sequence + 1 =
      ap last_of (stored_there i session' v.sessions) ∙ next in
    rw (before, after, same, upto-next) refl

last-other :
    (i id : String) (session' : SessionState) (m : Assoc String SessionState)
    → (i === id) ≡ false
    → last_sequence id (set i session' m) ≡ last_sequence id m
last-other i id session' m other = ground (arith, get-set i id session' m)

last-next :
    (event : Event) (session session' : SessionState) (v : RunValidator)
    → get event.session_id v.sessions ≡ some session
    → session'.last_sequence ≡ session.last_sequence + 1
    → event.sequence ≡ session.last_sequence + 1
    → Contiguous v
    → (id : String)
    → sequences id v.source ++ only_if (event.session_id === id && true) event.sequence
      ≡ upto (last_sequence id (set event.session_id session' v.sessions))
last-next event session session' v known next number h id =
    elim (Bool-cases (event.session_id === id)) [
      | inl same ↦ rw same (
          subst
            (λ k.
              sequences k v.source ++ event.sequence ∷ []
              ≡ upto (last_sequence k (set event.session_id session' v.sessions)))
            ((eq_iff event.session_id id).0 same)
            (last-own event.session_id event.sequence session session' v known next number h))
      | inr other ↦ rw other (
          append-nil (sequences id v.source)
          ∙ h id
          ∙ ap upto (sym (last-other event.session_id id session' v.sessions other)))
    ]

not-not : (b : Bool) → not (not b) ≡ true → b ≡ true
not-not true h = refl
not-not false h = h

gap_found :
    (event : Event) (session : SessionState) (at : Position) (v : RunValidator)
    → is_valid (report_if (not (event.sequence == session.last_sequence + 1)) at sequence_gap v)
      ≡ true
    → event.sequence ≡ session.last_sequence + 1
gap_found event session at v h =
    let (right, before) = and_parts _ _ (rw is_valid-report_if at h) in
    (==_iff event.sequence (session.last_sequence + 1)).0 (not-not _ right)

pub check_sequence_rule :
    (c : Call) (event : Event) (session : SessionState)
    → Triple (Opened event session) (check_sequence c event session) (Pending event) Kept
unfolding check_sequence
check_sequence_rule c event session = record {
  from = λ s h.
      let v : RunValidator =
        report_if (not (event.sequence == session.last_sequence + 1)) (at c s event) sequence_gap
          s.run in
      let b : Beside s.run v = Beside-report_if _ _ _ s.run in
      record {
        pending = λ valid.
            let number = gap_found event session (at c s event) s.run (unfold is_valid in valid) in
            let before =
              Around-IfKept s.run v (Around-Beside b) h.kept (unfold is_valid in valid) in
            (
              before.0,
              last-next event session (record session { last_sequence = event.sequence }) v
                  (rw b.sessions h.stored) number number before.1,
            );
        stored = stored_there event.session_id _ v.sessions;
      };
}

pub check_unfinished_rule :
    (c : Call) (event : Event) (session : SessionState)
    → Triple
        (Pending event session)
        (check_unfinished c event session)
        (λ _ s. Pending event session s)
        Kept
unfolding check_unfinished
check_unfinished_rule c event session = record {
  from = λ s h. elim (Bool-cases (session.finished && not (is_run_finished event.payload))) [
    | inl over ↦
        rw (over, check_unfinished)
          (λ valid. cc (valid, is_valid-lifecycle (at c s event) session_already_finished s.run))
    | inr active ↦ rw (active, check_unfinished) h
  ];
}
