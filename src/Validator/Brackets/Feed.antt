-- ===== src/Validator/Brackets/Feed.antt =====
-- The bracket invariant under `feed`, line by line.
use qe_report.Prelude.{
  ◌+◌, String, false, Option, none, some, List, [], ◌∷◌, ◌≡◌, refl, ◌&&◌, ◌||◌, ◌==◌, Bool-cases,
  inl, inr, not,
}
use qe_report.Prelude.Keys.{text_keys, ===_refl}
use qe_report.Prelude.Assoc.{Assoc, get, set, get-set}
use qe_report.Protocol.Json.{Json}
use qe_report.Protocol.Model.{SessionStartedPayload, Payload, session_started, unknown, Event}
use qe_report.Validator.Canonical.{canonical}
use qe_report.Validator.Decode.{Decoding, refused, decoded, is_blank}
use qe_report.Validator.Model.{
  SessionState, Position, RunValidator, is_valid, lifecycle, sequence_gap, session_not_started,
  accepted, ignored, LifecycleDetail, ignored_event_type,
}
use qe_report.Validator.Events.{store_session, report_if}
use qe_report.Validator.Feed.{
  Call, Feed, at, update, notice, archive, find_session, start_session, open_session, enter_session,
  check_sequence, is_run_finished, check_unfinished, count_ignored, retain, handle, apply_payload,
  apply_event, accept, take, feed_line, feed_lines, begin, feed,
}
use qe_report.Validator.Validity.{is_valid-lifecycle}
use qe_report.Validator.Beside.{Beside, Beside-lifecycle, Beside-report_if}
use qe_report.Validator.Hoare.{Triple, Triple-bind, Leaves, Leaves-after_line}
use qe_report.Validator.Brackets.{IfValid, Bracketed-new_session, Bracketed-same_session}
use qe_report.Validator.Brackets.Keep.{Beside-IfValid}
use qe_report.Validator.Brackets.Steps.{
  Aside, Aside-IfValid, Aside-archive, Aside-push, Aside-retain, Aside-trans, Keeps, Takes,
  check_closed_rule, check_file_rule, check_seen_rule, dispatch-IfValid, join_run_rule,
  noticed-IfValid,
}

record Ready (event : Event) (session : SessionState) (s : Feed) : Type 0 where
  bracketed : IfValid s.run
  stored : get event.session_id s.run.sessions ≡ some session

pub stored_there :
    (id : String) (s : SessionState) (m : Assoc String SessionState) → get id (set id s m) ≡ some s
stored_there id s m = rw (get-set, ===_refl)

pub stored_error :
    (id : String) (session : SessionState) (at : Position) (x : LifecycleDetail) (v : RunValidator)
    → is_valid (store_session id session (lifecycle at x v)) ≡ false
unfolding is_valid
stored_error id session at x v = is_valid-lifecycle at x v

find_session-Leaves :
    (c : Call) (event : Event) (o : Option SessionState) (s : Feed)
    → get event.session_id s.run.sessions ≡ o
    → IfValid s.run
    → Leaves (Ready event) Keeps (find_session c event o s)
find_session-Leaves c event (some session) s e h = record { bracketed = h; stored = e }
find_session-Leaves c event none s e h = record {
  bracketed =
      λ valid. cc (valid, stored_error event.session_id _ (at c s event) session_not_started s.run);
  stored = stored_there event.session_id _ _;
}

start_session-Leaves :
    (c : Call) (event : Event) (p : SessionStartedPayload) (o : Option SessionState) (s : Feed)
    → get event.session_id s.run.sessions ≡ o
    → IfValid s.run
    → Leaves (Ready event) Keeps (start_session c event p o s)
unfolding is_valid
start_session-Leaves c event p (some _) s e h = Beside-IfValid (Beside-lifecycle _ _ s.run) h
start_session-Leaves c event p none s e h = record {
  bracketed = λ valid. Bracketed-new_session event.session_id _ _ _ e (h valid);
  stored = stored_there event.session_id _ _;
}

open_session-Leaves :
    (c : Call) (event : Event) (p : Payload) (o : Option SessionState) (s : Feed)
    → get event.session_id s.run.sessions ≡ o
    → IfValid s.run
    → Leaves (Ready event) Keeps (open_session c event p o s)
open_session-Leaves c event (session_started p) o s e h = start_session-Leaves c event p o s e h
open_session-Leaves c event _ o s e h = find_session-Leaves c event o s e h

enter_session_rule :
    (c : Call) (event : Event) → Triple Keeps (enter_session c event) (Ready event) Keeps
unfolding enter_session
enter_session_rule c event = record {
  from = λ s h. open_session-Leaves c event event.payload _ s refl h;
}

check_sequence_rule :
    (c : Call) (event : Event) (session : SessionState)
    → Triple (Ready event session) (check_sequence c event session) (Ready event) Keeps
unfolding check_sequence
check_sequence_rule c event session = record {
  from = λ s h.
      let v : RunValidator =
        report_if (not (event.sequence == session.last_sequence + 1)) (at c s event) sequence_gap
          s.run in
      let b : Beside s.run v = Beside-report_if _ _ _ s.run in
      record {
        bracketed = λ valid.
            Bracketed-same_session event.session_id session _ v.sessions v.attempts
              (rw b.sessions h.stored) refl
              (Beside-IfValid b h.bracketed (unfold is_valid in valid));
        stored = stored_there event.session_id _ v.sessions;
      };
}

record Open (event : Event) (session : SessionState) (s : Feed) : Type 0 where
  ready : Ready event session s
  takes : Takes session event.payload

check_unfinished_rule :
    (c : Call) (event : Event) (session : SessionState)
    → Triple
        (Ready event session)
        (check_unfinished c event session)
        (λ _ s. Open event session s)
        Keeps
unfolding check_unfinished
check_unfinished_rule c event session = record {
  from = λ s h. elim (Bool-cases (session.finished && not (is_run_finished event.payload))) [
    | inl over ↦
        rw (over, check_unfinished) (Beside-IfValid (Beside-lifecycle _ _ s.run) h.bracketed)
    | inr active ↦ rw (active, check_unfinished) (record { ready = h; takes = active })
  ];
}

-- retaining and archiving an event leave the sessions as they are
kept :
    (c : Call) (raw key : String) (event : Event) (s : Feed)
    → Aside s.run (archive c raw key event accepted (update (retain event) s)).run
kept c raw key event s =
    Aside-trans (Aside-retain event s.run) (Aside-archive c raw key event accepted _)

handle-IfValid :
    (c : Call) (raw key : String) (event : Event) (session : SessionState) (s : Feed)
    → Open event session s
    → IfValid (handle c raw key event session s).run
handle-IfValid c raw key event session s h =
    let b = kept c raw key event s in
    dispatch-IfValid (at c s event) event.session_id event.payload session _
      (rw b.sessions h.ready.stored) h.takes (Aside-IfValid s.run _ b h.ready.bracketed)

apply_payload-IfValid :
    (c : Call) (raw key : String) (event : Event) (session : SessionState) (p : Payload) (s : Feed)
    → Open event session s
    → IfValid (apply_payload c raw key event session p s).run
apply_payload-IfValid c raw key event session (unknown _ _) s h =
    noticed-IfValid c raw key event ignored (notice c s ignored_event_type event) (count_ignored s)
      (unfold is_valid in h.ready.bracketed)
apply_payload-IfValid c raw key event session _ s h = handle-IfValid c raw key event session s h

apply_event_rule :
    (c : Call) (raw key : String) (event : Event) (session : SessionState)
    → Triple (Open event session) (apply_event c raw key event session) (λ _ s. Keeps s) Keeps
unfolding apply_event
apply_event_rule c raw key event session = record {
  from = λ s h. apply_payload-IfValid c raw key event session event.payload s h;
}

accept_rule :
    (c : Call) (raw : String) (json : Json) (event : Event)
    → Triple Keeps (accept c raw json event) (λ _ s. Keeps s) Keeps
unfolding accept
accept_rule c raw json event =
    Triple-bind (check_seen_rule c raw (canonical c.externals json) event) λ _.
      Triple-bind (join_run_rule c event) λ _. Triple-bind (check_file_rule c event) λ _.
        Triple-bind (check_closed_rule c event) λ _.
          Triple-bind (enter_session_rule c event) λ opened.
            Triple-bind (check_sequence_rule c event opened) λ session.
              Triple-bind (check_unfinished_rule c event session)
                λ _. apply_event_rule c raw _ event session

take-IfValid :
    (c : Call) (raw : String) (d : Decoding) (s : Feed)
    → IfValid s.run
    → IfValid (take c raw d s).run
take-IfValid c raw (refused code pointer id) s h = Aside-IfValid s.run _ (Aside-push _ s.run) h
take-IfValid c raw (decoded json event) s h =
    Leaves-after_line Keeps (accept c raw json event s) ((accept_rule c raw json event).from s h)

feed_line-IfValid :
    (c : Call) (raw : String) (s : Feed) → IfValid s.run → IfValid (feed_line c raw s).run
unfolding feed_line
feed_line-IfValid c raw s h = elim (Bool-cases (s.abandoned || is_blank raw)) [
  | inl passed ↦ rw passed h
  | inr read ↦ rw read (take-IfValid c raw _ _ h)
]

feed_lines-IfValid :
    (c : Call) (lines : List String) (s : Feed) → IfValid s.run → IfValid (feed_lines c lines s).run
unfolding feed_lines
feed_lines-IfValid c [] s h = h
feed_lines-IfValid c (raw ∷ rest) s h =
    feed_lines-IfValid c rest (feed_line c raw s) (feed_line-IfValid c raw s h)

-- Feeding any lines to a bracketed run leaves a bracketed run.
pub feed-IfValid :
    (c : Call) (lines : List String) (v : RunValidator) → IfValid v → IfValid (feed c lines v)
unfolding feed is_valid
feed-IfValid c lines v h = feed_lines-IfValid c lines (begin v) h
