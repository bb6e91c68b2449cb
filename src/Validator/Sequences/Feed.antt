-- ===== src/Validator/Sequences/Feed.antt =====
-- The sessions' numbers under each line that `feed` reads.
use qe_report.Prelude.{
  String, Bool, true, false, some, List, [], ◌∷◌, ◌++◌, ◌≡◌, refl, sym, ap, ◌∙◌, not, ◌&&◌, ◌||◌,
  if◌then◌else◌, Bool-cases, inl, inr,
}
use qe_report.Prelude.Keys.{text_keys, ◌===◌}
use qe_report.Prelude.Assoc.{get}
use qe_report.Protocol.Json.{Json}
use qe_report.Protocol.Model.{Payload, unknown, Event}
use qe_report.Validator.Canonical.{canonical}
use qe_report.Validator.Model.{
  Disposition, accepted, ignored, ignored_event_type, SessionState, RunValidator, is_valid,
}
use qe_report.Validator.Decode.{Decoding, refused, decoded, is_blank}
use qe_report.Validator.Feed.{
  Call, Feed, at, update, notice, archive, count_ignored, retain, handle, apply_payload,
  apply_event, accept, take, feed_line, feed_lines, feed,
}
use qe_report.Validator.Hoare.{Triple, Triple-bind, Leaves-after_line}
use qe_report.Validator.Sequences.{is_duplicate, sequences, only_if, upto, IfKept}
use qe_report.Validator.Sequences.Around.{Around-dispatch}
use qe_report.Validator.Sequences.AroundSessions.{Around}
use qe_report.Validator.Sequences.Steps.{
  Around-IfKept, IfKept-if, IfKeptWith, Kept, archive-IfKept, check_closed_rule, check_file_rule,
  check_seen_rule, join_run_rule, pushed,
}
use qe_report.Validator.Sequences.Numbers.{
  Pending, check_sequence_rule, check_unfinished_rule, enter_session_rule,
}

Around-retain : (event : Event) (v : RunValidator) → Around v (retain event v)
unfolding is_valid
Around-retain event v = elim (Bool-cases v.options.retain_events) [
  | inl on ↦ rw on (record { options = refl; source = refl; last = λ _. refl; valid = λ h. h })
  | inr off ↦ rw off (record { options = refl; source = refl; last = λ _. refl; valid = λ h. h })
]

Around-IfKeptWith :
    (event : Event) (d : Disposition) (v w : RunValidator)
    → Around v w
    → IfKeptWith event d v
    → IfKeptWith event d w
Around-IfKeptWith event d v w a h valid =
    let before = h (a.valid valid) in
    (
      ap (λ o. o.retain_source_lines) a.options ∙ before.0,
      λ id.
          ap
            (λ ls.
              sequences id ls
              ++ only_if (event.session_id === id && not (is_duplicate d)) event.sequence)
            a.source
          ∙ before.1 id
          ∙ ap upto (sym (a.last id)),
    )

sessions-if :
    (b : Bool) (x y : Feed)
    → x.run.sessions ≡ y.run.sessions
    → (if b then x else y).run.sessions ≡ y.run.sessions
sessions-if true x y e = e
sessions-if false x y e = refl

archive-sessions :
    (c : Call) (raw key : String) (event : Event) (d : Disposition) (s : Feed)
    → (archive c raw key event d s).run.sessions ≡ s.run.sessions
unfolding archive
archive-sessions c raw key event d s = sessions-if s.run.options.retain_source_lines _ s refl

retain-sessions : (event : Event) (v : RunValidator) → (retain event v).sessions ≡ v.sessions
retain-sessions event v = elim (Bool-cases v.options.retain_events) [
  | inl on ↦ rw on refl
  | inr off ↦ rw off refl
]

handle-IfKept :
    (c : Call) (raw key : String) (event : Event) (session : SessionState) (s : Feed)
    → Pending event session s
    → Kept (handle c raw key event session s)
handle-IfKept c raw key event session s h =
    let r : Feed = update (retain event) s in
    let t : Feed = archive c raw key event accepted r in
    let kept : IfKept t.run =
      archive-IfKept c raw key event accepted r
        (Around-IfKeptWith event accepted s.run r.run (Around-retain event s.run) h.pending) in
    let known : get event.session_id t.run.sessions ≡ some session =
      ap (get event.session_id)
        (archive-sessions c raw key event accepted r ∙ retain-sessions event s.run)
      ∙ h.stored in
    Around-IfKept t.run _
      (Around-dispatch (at c s event) event.session_id event.payload session t.run known) kept

apply_payload-IfKept :
    (c : Call) (raw key : String) (event : Event) (session : SessionState) (p : Payload) (s : Feed)
    → Pending event session s
    → Kept (apply_payload c raw key event session p s)
apply_payload-IfKept c raw key event session (unknown _ _) s h =
    pushed (notice c s ignored_event_type event)
      (archive c raw key event ignored (count_ignored s)).run
      (archive-IfKept c raw key event ignored (count_ignored s) (unfold is_valid in h.pending))
apply_payload-IfKept c raw key event session _ s h = handle-IfKept c raw key event session s h

apply_event_rule :
    (c : Call) (raw key : String) (event : Event) (session : SessionState)
    → Triple (Pending event session) (apply_event c raw key event session) (λ _ s. Kept s) Kept
unfolding apply_event
apply_event_rule c raw key event session = record {
  from = λ s h. apply_payload-IfKept c raw key event session event.payload s h;
}

accept_rule :
    (c : Call) (raw : String) (json : Json) (event : Event)
    → Triple Kept (accept c raw json event) (λ _ s. Kept s) Kept
unfolding accept
accept_rule c raw json event =
    Triple-bind (check_seen_rule c raw (canonical c.externals json) event) λ _.
      Triple-bind (join_run_rule c event) λ _. Triple-bind (check_file_rule c event) λ _.
        Triple-bind (check_closed_rule c event) λ _.
          Triple-bind (enter_session_rule c event) λ opened.
            Triple-bind (check_sequence_rule c event opened) λ session.
              Triple-bind (check_unfinished_rule c event session)
                λ _. apply_event_rule c raw _ event session

take-IfKept : (c : Call) (raw : String) (d : Decoding) (s : Feed) → Kept s → Kept (take c raw d s)
take-IfKept c raw (refused code pointer id) s h = pushed _ s.run h
take-IfKept c raw (decoded json event) s h =
    Leaves-after_line Kept (accept c raw json event s) ((accept_rule c raw json event).from s h)

feed_line-IfKept : (c : Call) (raw : String) (s : Feed) → Kept s → Kept (feed_line c raw s)
unfolding feed_line
feed_line-IfKept c raw s h =
    IfKept-if (s.abandoned || is_blank raw) _ _ (λ _. h) (λ _. take-IfKept c raw _ _ h)

feed_lines-IfKept :
    (c : Call) (lines : List String) (s : Feed) → Kept s → Kept (feed_lines c lines s)
unfolding feed_lines
feed_lines-IfKept c [] s h = h
feed_lines-IfKept c (raw ∷ rest) s h =
    feed_lines-IfKept c rest (feed_line c raw s) (feed_line-IfKept c raw s h)

-- If a run without errors keeps its source lines and those of every session carry the numbers 1, 2, 3
-- up to the session's last one, repetitions aside, then the same holds after `feed` has read any
-- lines, unless it has found an error.
pub feed-IfKept :
    (c : Call) (lines : List String) (v : RunValidator) → IfKept v → IfKept (feed c lines v)
unfolding feed is_valid
feed-IfKept c lines v h = feed_lines-IfKept c lines _ h
