-- ===== src/Validator/Feed.antt =====
-- validator.ts: `feed`. The body of its loop over the lines is a chain of steps on the state of the
-- run and the variables of the call; `skip` is `continue`, which ends the work on a line.
use qe_report.Prelude.{
  ℕ, ◌+◌, ◌-◌, String, Bool, true, false, Option, none, some, List, [], ◌∷◌, ◌++◌, ◌||◌, ◌&&◌, not,
  ◌==◌, if◌then◌else◌,
}
use qe_report.Prelude.Keys.{text_keys, option_keys, ◌===◌}
use qe_report.Prelude.Assoc.{get, set}
use qe_report.Protocol.Errors.{Pointer}
use qe_report.Protocol.Json.{Json}
use qe_report.Protocol.Model.{
  Component, SessionStartedPayload, Payload, session_started, run_finished, unknown, Event,
  event_type,
}
use qe_report.Validator.Externals.{Externals}
use qe_report.Validator.Canonical.{canonical}
use qe_report.Validator.Model.{
  error, info, DiagnosticCode, ignored_event_type, duplicate_event, Diagnostic, Disposition,
  accepted, ignored, duplicate, SessionState, Position, RunValidator, push, lifecycle,
  run_id_mismatch, session_not_started, session_already_started, session_already_finished,
  session_file_mixed, sequence_gap, duplicate_event_id, event_after_run_finished,
}
use qe_report.Validator.Decode.{Decoding, refused, decoded, is_blank, decode}
use qe_report.Validator.Events.{store_session, report_if, dispatch}

-- The arguments of one call of `feed`.
pub record Call : Type 0 where
  pub externals : Externals
  pub file : String
  pub single_session : Bool

-- `this`, and the variables of the loop.
pub record Feed : Type 0 where
  pub run : RunValidator
  pub line : ℕ
  pub file_session : Option String
  pub closed_here : Bool
  pub abandoned : Bool

pub data Flow (A : Type 0) : Type 0 where
  skip : Feed → Flow A
  next : A → Feed → Flow A

abbrev pub Step : Type 0 → Type 0
Step A = Feed → Flow A

infixl 5 ◌>>=◌ ◌>>◌
abbrev pub follow : {A B : Type 0} → Flow A → (A → Step B) → Flow B
follow (skip s) f = skip s
follow (next a s) f = f a s

abbrev pub ◌>>=◌ : {A B : Type 0} → Step A → (A → Step B) → Step B
◌>>=◌ m f s = follow (m s) f

abbrev pub ◌>>◌ : {B : Type 0} → Step (Unit {0}) → Step B → Step B
m >> k = m >>= λ _. k

-- the state after a line
abbrev pub after_line : {A : Type 0} → Flow A → Feed
after_line (skip s) = s
after_line (next a s) = s

abbrev pub at : Call → Feed → Event → Position
at c s event = record { file = c.file; line = s.line; event_id = event.event_id }

abbrev pub update : (RunValidator → RunValidator) → Feed → Feed
update f s = record s { run = f s.run }

abbrev pub notice : Call → Feed → DiagnosticCode → Event → Diagnostic
notice c s code event = record {
  severity = info;
  code = code;
  file = c.file;
  line = s.line;
  event_id = some event.event_id;
  pointer = none;
}

-- `archive(disposition)`
unfoldable pub archive : Call → String → String → Event → Disposition → Feed → Feed
archive c raw key event disposition s =
    if s.run.options.retain_source_lines
    then update
        (λ v. record v {
          source =
              v.source
              ++ record {
                raw_line = raw;
                event_id = event.event_id;
                run_id = event.run_id;
                session_id = event.session_id;
                sequence = event.sequence;
                protocol_version = event.protocol_version;
                event_type = event_type event.payload;
                canonical_sha256 = c.externals.sha256 key;
                disposition = disposition;
                source_file = c.file;
                source_line = s.line;
              }
                ∷ [];
        })
        s
    else s

abbrev pub count_duplicate : Feed → Feed
count_duplicate = update (λ v. record v { duplicates = v.duplicates + 1 })

abbrev pub count_ignored : Feed → Feed
count_ignored = update (λ v. record v { ignored = v.ignored + 1 })

-- A repeated event id: an identical event is counted, another one is an error.
unfoldable pub repeated : Call → String → String → Event → String → Feed → Feed
unfolding archive
repeated c raw key event previous s =
    if previous === key
    then update (push (notice c s duplicate_event event))
        (archive c raw key event duplicate (count_duplicate s))
    else update (lifecycle (at c s event) duplicate_event_id) s

unfoldable pub check_seen : Call → String → String → Event → Step (Unit {0})
unfolding repeated
check_seen c raw key event s = elim (get event.event_id s.run.seen) [
  | some previous ↦ skip (repeated c raw key event previous s)
  | none ↦
      next tt
        (update (λ v. record v { seen = set event.event_id key v.seen; events = v.events + 1 }) s)
]

-- The first event fixes the run id.
unfoldable pub join_run : Call → Event → Step (Unit {0})
unfolding report_if
join_run c event s = elim s.run.run_id [
  | none ↦ next tt (update (λ v. record v { run_id = some event.run_id }) s)
  | some id ↦
      next tt (update (report_if (not (id === event.run_id)) (at c s event) run_id_mismatch) s)
]

abbrev pub join_file_session : Call → Event → Step (Unit {0})
join_file_session c event s = elim s.file_session [
  | none ↦ next tt (record s { file_session = some event.session_id })
  | some id ↦
      if id === event.session_id
      then next tt s
      else skip (update (lifecycle (at c s event) session_file_mixed) s)
]

unfoldable pub check_file : Call → Event → Step (Unit {0})
check_file c event s = if c.single_session then join_file_session c event s else next tt s

unfoldable pub check_closed : Call → Event → Step (Unit {0})
unfolding report_if
check_closed c event s =
    next tt (update (report_if s.closed_here (at c s event) event_after_run_finished) s)

abbrev pub runner_name : Option Component → Option String
runner_name none = none
runner_name (some c) = some c.name

abbrev pub started_session : SessionStartedPayload → SessionState
started_session p = record {
  finished = false;
  last_sequence = 0;
  runner_name = runner_name p.runner;
  synthesized = false;
}

-- the session of an event that came before session.started
abbrev pub synthesized_session : ℕ → SessionState
synthesized_session sequence = record {
  finished = false;
  last_sequence = sequence - 1;
  runner_name = none;
  synthesized = true;
}

-- any other event finds its session, or makes one up with an error
abbrev pub find_session : Call → Event → Option SessionState → Step SessionState
find_session c event (some session) s = next session s
find_session c event none s =
    let session = synthesized_session event.sequence in
    next session (
      update
        (λ v.
          store_session event.session_id session (lifecycle (at c s event) session_not_started v))
        s)

-- `session.started` opens a session, which nothing may have opened before
abbrev pub start_session :
    Call → Event → SessionStartedPayload → Option SessionState → Step SessionState
start_session c event p (some _) s =
    skip (record (update (lifecycle (at c s event) session_already_started) s) {
      abandoned = s.abandoned || c.single_session;
    })
start_session c event p none s =
    next (started_session p) (update (store_session event.session_id (started_session p)) s)

abbrev pub open_session : Call → Event → Payload → Option SessionState → Step SessionState
open_session c event (session_started p) o s = start_session c event p o s
open_session c event _ o s = find_session c event o s

unfoldable pub enter_session : Call → Event → Step SessionState
enter_session c event s = open_session c event event.payload (get event.session_id s.run.sessions) s

-- The sequence of a session goes up by one; a gap is reported and taken over.
unfoldable pub check_sequence : Call → Event → SessionState → Step SessionState
unfolding report_if
check_sequence c event session s =
    let session' = record session { last_sequence = event.sequence } in
    next session' (
      update
        (λ v. store_session event.session_id session' (
          report_if (not (event.sequence == session.last_sequence + 1)) (at c s event) sequence_gap
            v))
        s)

abbrev pub is_run_finished : Payload → Bool
is_run_finished run_finished = true
is_run_finished _ = false

-- After session.finished only run.finished goes on.
unfoldable pub check_unfinished : Call → Event → SessionState → Step (Unit {0})
check_unfinished c event session s =
    if session.finished && not (is_run_finished event.payload)
    then skip (update (lifecycle (at c s event) session_already_finished) s)
    else next tt s

abbrev pub retain : Event → RunValidator → RunValidator
retain event v =
    if v.options.retain_events then record v { accepted = v.accepted ++ event ∷ [] } else v

abbrev pub ignore : Call → String → String → Event → Feed → Feed
ignore c raw key event s =
    update (push (notice c s ignored_event_type event))
      (archive c raw key event ignored (count_ignored s))

abbrev pub handle : Call → String → String → Event → SessionState → Feed → Feed
handle c raw key event session s =
    let t = archive c raw key event accepted (update (retain event) s) in
    record (update (dispatch (at c s event) event.session_id event.payload session) t) {
      closed_here = s.closed_here || is_run_finished event.payload;
    }

-- Unknown events are counted and skipped, known ones are retained and handled.
abbrev pub apply_payload : Call → String → String → Event → SessionState → Payload → Feed → Feed
apply_payload c raw key event session (unknown _ _) s = ignore c raw key event s
apply_payload c raw key event session _ s = handle c raw key event session s

unfoldable pub apply_event : Call → String → String → Event → SessionState → Step (Unit {0})
unfolding archive dispatch
apply_event c raw key event session s =
    next tt (apply_payload c raw key event session event.payload s)

-- one decoded event
unfoldable pub accept : Call → String → Json → Event → Step (Unit {0})
accept c raw json event = do
  let key = canonical c.externals json
  check_seen c raw key event
  join_run c event
  check_file c event
  check_closed c event
  opened ← enter_session c event
  session ← check_sequence c event opened
  check_unfinished c event session
  apply_event c raw key event session

abbrev pub refuse : Call → DiagnosticCode → Option Pointer → Option String → Feed → Feed
refuse c code pointer id s =
    update
      (push (record {
        severity = error;
        code = code;
        file = c.file;
        line = s.line;
        event_id = id;
        pointer = pointer;
      }))
      s

abbrev pub take : Call → String → Decoding → Feed → Feed
take c raw (refused code pointer id) s = refuse c code pointer id s
take c raw (decoded json event) s = after_line (accept c raw json event s)

-- one round of the loop
unfoldable pub feed_line : Call → String → Feed → Feed
feed_line c raw s0 =
    let s = record s0 { line = s0.line + 1 } in
    if s.abandoned || is_blank raw then s else take c raw (decode c.externals s.run.options raw) s

unfoldable pub feed_lines : Call → List String → Feed → Feed
feed_lines c [] s = s
feed_lines c (raw ∷ rest) s = feed_lines c rest (feed_line c raw s)

abbrev pub begin : RunValidator → Feed
begin v = record {
  run = record v { files = v.files + 1 };
  line = 0;
  file_session = none;
  closed_here = false;
  abandoned = false;
}

unfoldable pub feed : Call → List String → RunValidator → RunValidator
unfolding feed_lines
feed c lines v = (feed_lines c lines (begin v)).run
