-- ===== src/Validator/Brackets/Steps.antt =====
-- The brackets of the run under the first steps on a line.
use qe_report.Prelude.{
  String, true, false, some, ◌≡◌, refl, arith, ◌&&◌, Bool-cases, Option-cases, inl, inr, not,
}
use qe_report.Prelude.Keys.{text_keys, ◌===◌}
use qe_report.Prelude.Assoc.{get}
use qe_report.Protocol.Model.{
  Payload, session_started, session_finished, run_finished, attempt_started, attempt_finished,
  step_started, step_finished, attachment_added, scope_failed, unknown, Event,
}
use qe_report.Validator.Model.{
  Disposition, Diagnostic, SessionState, Position, RunValidator, is_valid, push, duplicate,
  duplicate_event,
}
use qe_report.Validator.Events.{dispatch, finish_run}
use qe_report.Validator.Feed.{
  Call, Feed, at, notice, archive, repeated, check_seen, join_run, join_file_session, check_file,
  check_closed, is_run_finished, count_duplicate, retain,
}
use qe_report.Validator.Validity.{is_valid-push, and_parts}
use qe_report.Validator.Beside.{Beside-lifecycle, Beside-report_if}
use qe_report.Validator.Hoare.{Triple}
use qe_report.Validator.Brackets.{IfValid}
use qe_report.Validator.Brackets.Keep.{
  Beside-IfValid, finish_session-IfValid, start_attempt-IfValid, finish_attempt-IfValid,
  start_step-IfValid, finish_step-IfValid, add_attachment-IfValid,
}

-- the session of an event may still take it
abbrev pub Takes : SessionState → Payload → Type 0
Takes s p = (s.finished && not (is_run_finished p)) ≡ false

finish_run-IfValid : (at : Position) (v : RunValidator) → IfValid v → IfValid (finish_run at v)
unfolding finish_run
finish_run-IfValid at v h = elim (Option-cases v.run_finished) [
  | inl first ↦ rw (first, finish_run) (unfold is_valid in h)
  | inr (_, again) ↦ rw (again, finish_run) (Beside-IfValid (Beside-lifecycle at _ v) h)
]

pub dispatch-IfValid :
    (at : Position) (id : String) (p : Payload) (s : SessionState) (v : RunValidator)
    → get id v.sessions ≡ some s
    → Takes s p
    → IfValid v
    → IfValid (dispatch at id p s v)
unfolding dispatch
dispatch-IfValid at id (session_started p) s v known takes h = h
dispatch-IfValid at id (session_finished p) s v known takes h = finish_session-IfValid at id p s v h
dispatch-IfValid at id run_finished s v known takes h = finish_run-IfValid at v h
dispatch-IfValid at id (attempt_started p) s v known takes h =
    start_attempt-IfValid at id p s v known (ground arith) h
dispatch-IfValid at id (attempt_finished p) s v known takes h = finish_attempt-IfValid at p v h
dispatch-IfValid at id (step_started p) s v known takes h = start_step-IfValid at p v h
dispatch-IfValid at id (step_finished p) s v known takes h = finish_step-IfValid at p v h
dispatch-IfValid at id (attachment_added p) s v known takes h = add_attachment-IfValid at p v h
dispatch-IfValid at id (scope_failed p) s v known takes h = unfold is_valid in h
dispatch-IfValid at id (unknown type p) s v known takes h = h

-- What bookkeeping leaves alone.
pub record Aside (v w : RunValidator) : Type 0 where
  pub sessions : w.sessions ≡ v.sessions
  pub attempts : w.attempts ≡ v.attempts
  pub valid : is_valid w ≡ true → is_valid v ≡ true

pub Aside-IfValid : (v w : RunValidator) → Aside v w → IfValid v → IfValid w
Aside-IfValid v w b h valid = rw (b.sessions, b.attempts) (h (b.valid valid))

pub Aside-archive :
    (c : Call) (raw key : String) (event : Event) (d : Disposition) (s : Feed)
    → Aside s.run (archive c raw key event d s).run
unfolding archive is_valid
Aside-archive c raw key event d s = elim (Bool-cases s.run.options.retain_source_lines) [
  | inl on ↦ rw (on, archive) (record { sessions = refl; attempts = refl; valid = λ h. h })
  | inr off ↦ rw (off, archive) (record { sessions = refl; attempts = refl; valid = λ h. h })
]

pub Aside-push : (d : Diagnostic) (v : RunValidator) → Aside v (push d v)
Aside-push d v = record {
  sessions = refl;
  attempts = refl;
  valid = λ h. (and_parts _ _ (rw is_valid-push at h)).1;
}

pub Aside-trans : {u v w : RunValidator} → Aside u v → Aside v w → Aside u w
Aside-trans b c = record {
  sessions = cc (b.sessions, c.sessions);
  attempts = cc (b.attempts, c.attempts);
  valid = λ h. b.valid (c.valid h);
}

pub Aside-retain : (event : Event) (v : RunValidator) → Aside v (retain event v)
unfolding is_valid
Aside-retain event v = elim (Bool-cases v.options.retain_events) [
  | inl on ↦ rw on (record { sessions = refl; attempts = refl; valid = λ h. h })
  | inr off ↦ rw off (record { sessions = refl; attempts = refl; valid = λ h. h })
]

-- an archived line with a notice
pub noticed-IfValid :
    (c : Call) (raw key : String) (event : Event) (d : Disposition) (n : Diagnostic) (s : Feed)
    → IfValid s.run
    → IfValid (push n (archive c raw key event d s).run)
noticed-IfValid c raw key event d n s h =
    Aside-IfValid (archive c raw key event d s).run _ (Aside-push n _)
      (Aside-IfValid s.run _ (Aside-archive c raw key event d s) h)

repeated-IfValid :
    (c : Call) (raw key : String) (event : Event) (previous : String) (s : Feed)
    → IfValid s.run
    → IfValid (repeated c raw key event previous s).run
unfolding repeated is_valid
repeated-IfValid c raw key event previous s h = elim (Bool-cases (previous === key)) [
  | inl same ↦
      rw (same, repeated)
        (noticed-IfValid c raw key event duplicate (notice c s duplicate_event event)
          (count_duplicate s) h)
  | inr other ↦ rw (other, repeated) (Beside-IfValid (Beside-lifecycle _ _ s.run) h)
]

abbrev pub Keeps : Feed → Type 0
Keeps s = IfValid s.run

pub check_seen_rule :
    (c : Call) (raw key : String) (event : Event)
    → Triple Keeps (check_seen c raw key event) (λ _ s. Keeps s) Keeps
unfolding check_seen is_valid
check_seen_rule c raw key event = record {
  from = λ s h. elim (Option-cases (get event.event_id s.run.seen)) [
    | inl new ↦ rw (new, check_seen) h
    | inr (previous, e) ↦ rw (e, check_seen) (repeated-IfValid c raw key event previous s h)
  ];
}

pub join_run_rule :
    (c : Call) (event : Event) → Triple Keeps (join_run c event) (λ _ s. Keeps s) Keeps
unfolding join_run is_valid
join_run_rule c event = record {
  from = λ s h. elim (Option-cases s.run.run_id) [
    | inl first ↦ rw (first, join_run) h
    | inr (id, e) ↦ rw (e, join_run) (Beside-IfValid (Beside-report_if _ _ _ s.run) h)
  ];
}

pub check_file_rule :
    (c : Call) (event : Event) → Triple Keeps (check_file c event) (λ _ s. Keeps s) Keeps
unfolding check_file
check_file_rule c event = record {
  from = λ s h. elim (Bool-cases c.single_session) [
    | inr stream ↦ rw (stream, check_file) h
    | inl single ↦
        rw (single, check_file)
          (elim (Option-cases s.file_session) [
            | inl first ↦ rw (first, join_file_session) h
            | inr (id, e) ↦
                rw (e, join_file_session)
                  (elim (Bool-cases (id === event.session_id)) [
                    | inl same ↦ rw same h
                    | inr other ↦ rw other (Beside-IfValid (Beside-lifecycle _ _ s.run) h)
                  ])
          ])
  ];
}

pub check_closed_rule :
    (c : Call) (event : Event) → Triple Keeps (check_closed c event) (λ _ s. Keeps s) Keeps
unfolding check_closed
check_closed_rule c event = record { from = λ s h. Beside-IfValid (Beside-report_if _ _ _ s.run) h }

-- The session of the event is the one that the map holds.
