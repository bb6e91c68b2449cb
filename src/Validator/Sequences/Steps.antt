-- ===== src/Validator/Sequences/Steps.antt =====
-- The sessions' numbers under the first steps on a line, up to the session of its event.
use qe_report.Prelude.{
  String, Bool, true, false, ◌++◌, ◌≡◌, refl, sym, ap, ◌∙◌, arith, not, ◌&&◌, if◌then◌else◌,
  Bool-cases, Option-cases, inl, inr,
}
use mathlib.Core.List.{append-nil}
use qe_report.Prelude.Keys.{text_keys, ◌===◌}
use qe_report.Prelude.Assoc.{get}
use qe_report.Protocol.Model.{Event}
use qe_report.Validator.Model.{
  Diagnostic, Disposition, duplicate, duplicate_event, LifecycleDetail, RunValidator, Position,
  is_valid, push, lifecycle,
}
use qe_report.Validator.Events.{report_if}
use qe_report.Validator.Feed.{
  Call, Feed, at, notice, archive, count_duplicate, repeated, check_seen, join_run,
  join_file_session, check_file, check_closed,
}
use qe_report.Validator.Hoare.{Triple}
use qe_report.Validator.Beside.{Beside-lifecycle, Beside-report_if, Beside-push}
use qe_report.Validator.Sequences.{
  is_duplicate, sequences, only_if, sequences-append, upto, last_sequence, IfKept,
}
use qe_report.Validator.Sequences.AroundSessions.{Around, Around-Beside}

pub Around-IfKept : (v w : RunValidator) → Around v w → IfKept v → IfKept w
Around-IfKept v w a h valid =
    let before = h (a.valid valid) in
    (
      ap (λ o. o.retain_source_lines) a.options ∙ before.0,
      λ id. ap (sequences id) a.source ∙ before.1 id ∙ ap upto (sym (a.last id)),
    )

-- The numbers are contiguous once the event's line is kept.
abbrev pub ContiguousWith : Event → Disposition → RunValidator → Type 0
ContiguousWith event d v =
    (id : String)
    → sequences id v.source
        ++ only_if (event.session_id === id && not (is_duplicate d)) event.sequence
      ≡ upto (last_sequence id v.sessions)

abbrev pub IfKeptWith : Event → Disposition → RunValidator → Type 0
IfKeptWith event d v =
    is_valid v ≡ true → (v.options.retain_source_lines ≡ true) × ContiguousWith event d v

pub IfKept-if :
    (b : Bool) (x y : Feed)
    → (b ≡ true → IfKept x.run)
    → (b ≡ false → IfKept y.run)
    → IfKept (if b then x else y).run
IfKept-if true x y f g = f refl
IfKept-if false x y f g = g refl

pub archive-IfKept :
    (c : Call) (raw key : String) (event : Event) (d : Disposition) (s : Feed)
    → IfKeptWith event d s.run
    → IfKept (archive c raw key event d s).run
unfolding archive is_valid
archive-IfKept c raw key event d s h =
    IfKept-if s.run.options.retain_source_lines _ s
      (λ on valid. (on, λ id. sequences-append id s.run.source _ ∙ (h valid).1 id))
      (λ off valid. cc (off, (h valid).0))

-- a repetition adds nothing
IfKeptWith-duplicate : (event : Event) (v : RunValidator) → IfKept v → IfKeptWith event duplicate v
IfKeptWith-duplicate event v h valid =
    ((h valid).0, λ id. ground (arith, (h valid).1 id, append-nil (sequences id v.source)))

pub pushed : (d : Diagnostic) (v : RunValidator) → IfKept v → IfKept (push d v)
pushed d v h = Around-IfKept v _ (Around-Beside (Beside-push d v)) h

pub erred :
    (at : Position) (x : LifecycleDetail) (v : RunValidator) → IfKept v → IfKept (lifecycle at x v)
erred at x v h = Around-IfKept v _ (Around-Beside (Beside-lifecycle at x v)) h

reported :
    (b : Bool) (at : Position) (x : LifecycleDetail) (v : RunValidator)
    → IfKept v
    → IfKept (report_if b at x v)
reported b at x v h = Around-IfKept v _ (Around-Beside (Beside-report_if b at x v)) h

abbrev pub Kept : Feed → Type 0
Kept s = IfKept s.run

repeated-IfKept :
    (c : Call) (raw key : String) (event : Event) (previous : String) (s : Feed)
    → Kept s
    → Kept (repeated c raw key event previous s)
unfolding repeated is_valid
repeated-IfKept c raw key event previous s h =
    IfKept-if (previous === key) _ _
      (λ _.
        pushed (notice c s duplicate_event event)
          (archive c raw key event duplicate (count_duplicate s)).run
          (archive-IfKept c raw key event duplicate (count_duplicate s)
            (IfKeptWith-duplicate event (count_duplicate s).run h)))
      (λ _. erred _ _ s.run h)

pub check_seen_rule :
    (c : Call) (raw key : String) (event : Event)
    → Triple Kept (check_seen c raw key event) (λ _ s. Kept s) Kept
unfolding check_seen is_valid
check_seen_rule c raw key event = record {
  from = λ s h. elim (Option-cases (get event.event_id s.run.seen)) [
    | inl new ↦ rw (new, check_seen) h
    | inr (previous, e) ↦ rw (e, check_seen) (repeated-IfKept c raw key event previous s h)
  ];
}

pub join_run_rule : (c : Call) (event : Event) → Triple Kept (join_run c event) (λ _ s. Kept s) Kept
unfolding join_run is_valid
join_run_rule c event = record {
  from = λ s h. elim (Option-cases s.run.run_id) [
    | inl first ↦ rw (first, join_run) h
    | inr (id, e) ↦ rw (e, join_run) (reported _ _ _ s.run h)
  ];
}

pub check_file_rule :
    (c : Call) (event : Event) → Triple Kept (check_file c event) (λ _ s. Kept s) Kept
unfolding check_file
check_file_rule c event = record {
  from = λ s h. elim (Bool-cases c.single_session) [
    | inr stream ↦ rw (stream, check_file) h
    | inl single ↦
        rw (single, check_file)
          (elim (Option-cases s.file_session) [
            | inl first ↦ rw (first, join_file_session) h
            | inr (id, e) ↦
                rw (e, join_file_session)
                  (elim (Bool-cases (id === event.session_id)) [
                    | inl same ↦ rw same h
                    | inr other ↦ rw other (erred _ _ s.run h)
                  ])
          ])
  ];
}

pub check_closed_rule :
    (c : Call) (event : Event) → Triple Kept (check_closed c event) (λ _ s. Kept s) Kept
unfolding check_closed
check_closed_rule c event = record { from = λ s h. reported _ _ _ s.run h }

-- The session of the event is the one that the map holds.
