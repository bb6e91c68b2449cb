-- ===== src/Validator/Tests.antt =====
-- A small run on a file system given by tables, to which the theorems on validator.ts are applied.
use Prim.Native.String.{◌++◌ as append}
use qe_report.Prelude.{
  ℕ, String, Bool, true, false, Option, none, some, List, [], ◌∷◌, ◌≡◌, refl, ◌||◌,
}
use qe_report.Prelude.Int.{pos}
use qe_report.Prelude.Keys.{text_keys}
use qe_report.Prelude.Assoc.{Assoc, get, set}
use qe_report.Prelude.Order.{sort}
use qe_report.Protocol.Json.{
  Json, text, null, array, object, number, integer, cons, Number, nil, Obj, empty, property,
  from_entries,
}
use qe_report.Validator.Externals.{Externals}
use qe_report.Validator.Model.{
  AttemptState, ValidateOptions, DeclaredAttachment, RunValidator, new_validator, is_valid,
}
use qe_report.Validator.FileSystem.{
  Lstat, stat, Opened, descriptor, Descriptor, FileSystem, file, directory, entry_kind,
  open_regular,
}
use qe_report.Validator.Finish.{
  passed, verdict_of, final_attempts, final_attempts_from, Report, finish, is_complete,
  report_incomplete,
}
use qe_report.Validator.Directory.{ValidatedRun, validate_run_directory_snapshot}
use qe_report.Validator.Sequences.{sequences, upto}
use qe_report.Validator.Sequences.Results.{validate_run_directory_snapshot-Ordered}
use qe_report.Protocol.Model.{Event}
use qe_report.Validator.Canonical.{open_value, run, round, rounds, sorted_entries, canonical}
use qe_report.Prelude.Order.{text_le, units, units_le}
use qe_report.Validator.Decode.{decode, decoded, is_blank}
use qe_report.Validator.Feed.{Feed, begin, feed_line}
use qe_report.Validator.Repeated.{Inert, feed_line-Inert}
use qe_report.Validator.Finals.{Passed, verdict_of-Passed}
use qe_report.Validator.Results.{
  validate_run_directory_snapshot-closed_complete, finish-attachments_verified,
}
use qe_report.Validator.Attachments.Verified.{AllVerified}
use qe_report.Validator.Attachments.{check_attachments, check_all, check_attachment}

abbrev event : String → ℕ → String → List (String × Json) → Json
event id sequence type payload = object (
    property "protocolVersion" (text "0.3.0") (
      property "eventId" (text id) (
        property "eventType" (text type) (
          property "runId" (text "run-1") (
            property "sessionId" (text "s-1") (
              property "sequence" (number (integer (pos sequence))) (
                property "occurredAt" (text "2024-01-02T03:04:05Z")
                  (property "payload" (object (from_entries payload)) empty))))))))

abbrev case : Json
case = object (
    property "executionId" (text "x-1") (
      property "historicalIdStability" (text "unavailable")
        (property "displayName" (text "adds") (property "path" (array nil) empty))))

abbrev lines : Assoc String Json
lines =
    (
      "1",
      event "e-1" 1 "session.started"
          (("producer", object (property "name" (text "sdk") empty)) ∷ []),
    )
    ∷ (
      "2",
      event "e-2" 2 "attempt.started" (
          ("attemptId", text "a-1")
          ∷ ("attemptNumber", number (integer (pos 1)))
          ∷ ("test", case)
          ∷ []),
    )
    ∷ (
      "3",
      event "e-3" 3 "attachment.added" (
          ("attemptId", text "a-1")
          ∷ ("name", text "log")
          ∷ ("mediaType", text "text/plain")
          ∷ ("sizeBytes", number (integer (pos 5)))
          ∷ ("sha256", text "abc")
          ∷ []),
    )
    ∷ (
      "4",
      event "e-4" 4 "attempt.finished" (("attemptId", text "a-1") ∷ ("status", text "passed") ∷ []),
    )
    ∷ ("5", event "e-5" 5 "session.finished" [])
    ∷ ("6", event "e-6" 6 "run.finished" [])
    ∷ []

abbrev externals : Externals
externals = record {
  parse = λ raw. get raw lines;
  quote = λ s. append "'" (append s "'");
  number_text = λ n. "1";
  by_type = λ type json. none;
  envelope = λ json. none;
  sha256 = λ s. s;
}

abbrev bytes : Descriptor
bytes = record { kind = some file; size = some 5; lines = none; sha256 = some "abc" }

abbrev events_file : Descriptor
events_file = record {
  kind = some file;
  size = none;
  lines = some ("1" ∷ "2" ∷ "" ∷ "3" ∷ "4" ∷ "5" ∷ "6" ∷ []);
  sha256 = none;
}

abbrev kinds : Assoc String Lstat
kinds =
    ("run/events", stat directory)
    ∷ ("run/events/s.ndjson", stat file)
    ∷ ("run/attachments", stat directory)
    ∷ ("run/attachments/abc", stat file)
    ∷ []

abbrev files : Assoc String Opened
files =
    ("run/events/s.ndjson", descriptor events_file) ∷ ("run/attachments/abc", descriptor bytes) ∷ []

abbrev lstat_of : Option Lstat → Lstat
lstat_of none = Lstat.enoent
lstat_of (some l) = l

abbrev opened_of : Option Opened → Opened
opened_of none = Opened.enoent
opened_of (some o) = o

abbrev file_system : FileSystem
unfolding get
file_system = record {
  lstat = λ path. lstat_of (get path kinds);
  open_read = λ path. opened_of (get path files);
  readdir = λ path. some ("readme.md" ∷ "s.ndjson" ∷ []);
  realpath = λ path. some (some path);
  join = λ dir name. append dir (append "/" name);
}

abbrev defaults : ValidateOptions
defaults = record {
  attachments_dir = none;
  require_complete = false;
  max_event_bytes = none;
  retain_events = true;
  retain_source_lines = true;
}

closed_run :
    (r : ValidatedRun) × (validate_run_directory_snapshot externals file_system "run" defaults
      ≡ some r)
    × (r.report.valid ≡ true)
    × (r.report.summary.closed ≡ true)
unfolding qe_report.Prelude.Order.units qe_report.Prelude.Order.units_le
    qe_report.Prelude.Order.text_le qe_report.Protocol.Json.member qe_report.Protocol.Version.digits
    qe_report.Protocol.Version.numeral qe_report.Protocol.Version.dot
    qe_report.Protocol.Version.parse_codes qe_report.Protocol.Version.parse_protocol_version
    qe_report.Protocol.Version.is_supported_protocol_version
    qe_report.Protocol.Patterns.is_identifier_codes qe_report.Protocol.Patterns.is_identifier
    qe_report.Protocol.Patterns.dotted_words qe_report.Protocol.Patterns.is_event_type
    qe_report.Protocol.Patterns.after qe_report.Protocol.Patterns.is_zone
    qe_report.Protocol.Patterns.fraction qe_report.Protocol.Patterns.after_seconds
    qe_report.Protocol.Patterns.is_timestamp qe_report.Protocol.Codec.Fields.required
    qe_report.Protocol.Codec.Fields.required_string qe_report.Protocol.Codec.Fields.optional_string
    qe_report.Protocol.Codec.Fields.identifier qe_report.Protocol.Codec.Fields.optional_identifier
    qe_report.Protocol.Codec.Fields.integral qe_report.Protocol.Codec.Fields.optional_integral
    qe_report.Protocol.Codec.Fields.one_of qe_report.Protocol.Codec.Fields.string_entries
    qe_report.Protocol.Codec.Fields.string_map qe_report.Protocol.Codec.Fields.read_items
    qe_report.Protocol.Codec.Fields.string_list qe_report.Protocol.Codec.Fields.optional_object
    qe_report.Protocol.Codec.Parts.component qe_report.Protocol.Codec.Parts.executor
    qe_report.Protocol.Codec.Parts.source qe_report.Protocol.Codec.Parts.location
    qe_report.Protocol.Codec.Parts.failure qe_report.Protocol.Codec.Parts.failures
    qe_report.Protocol.Codec.Parts.path_segment qe_report.Protocol.Codec.Parts.path_segments
    qe_report.Protocol.Codec.Parts.check_identity qe_report.Protocol.Codec.Parts.test_case
    qe_report.Protocol.Codec.Read.read_session_started qe_report.Protocol.Codec.Read.checked_outcome
    qe_report.Protocol.Codec.Read.read_session_finished
    qe_report.Protocol.Codec.Read.read_attempt_started
    qe_report.Protocol.Codec.Read.read_attempt_finished
    qe_report.Protocol.Codec.Read.read_step_started qe_report.Protocol.Codec.Read.read_step_finished
    qe_report.Protocol.Codec.Read.read_attachment_added
    qe_report.Protocol.Codec.Read.read_scope_failed qe_report.Protocol.Codec.Read.read_payload
    qe_report.Protocol.Codec.Read.check_version qe_report.Protocol.Codec.Read.read_event
    qe_report.Protocol.Codec.Read.event_from_object qe_report.Validator.Canonical.sorted_entries
    qe_report.Validator.Canonical.open_value qe_report.Validator.Canonical.round
    qe_report.Validator.Canonical.run qe_report.Validator.Canonical.canonical
    qe_report.Validator.Canonical.rounds qe_report.Validator.Canonical.rounds_items
    qe_report.Validator.Canonical.rounds_object qe_report.Validator.Decode.is_blank
    qe_report.Validator.Decode.decode qe_report.Validator.Executions.check_number
    qe_report.Validator.Executions.check_identity qe_report.Validator.Executions.check_runner
    qe_report.Validator.Executions.check_execution qe_report.Validator.Events.report_if
    qe_report.Validator.Events.report_open_attempts qe_report.Validator.Events.finish_session
    qe_report.Validator.Events.finish_run qe_report.Validator.Events.start_attempt
    qe_report.Validator.Events.report_open_steps qe_report.Validator.Events.finish_attempt
    qe_report.Validator.Events.start_step qe_report.Validator.Events.close_known_step
    qe_report.Validator.Events.finish_step qe_report.Validator.Events.report_some
    qe_report.Validator.Events.add_attachment qe_report.Validator.Events.dispatch
    qe_report.Validator.Feed.archive qe_report.Validator.Feed.repeated
    qe_report.Validator.Feed.check_seen qe_report.Validator.Feed.join_run
    qe_report.Validator.Feed.check_file qe_report.Validator.Feed.check_closed
    qe_report.Validator.Feed.enter_session qe_report.Validator.Feed.check_sequence
    qe_report.Validator.Feed.check_unfinished qe_report.Validator.Feed.apply_event
    qe_report.Validator.Feed.accept qe_report.Validator.Feed.feed_line
    qe_report.Validator.Feed.feed_lines qe_report.Validator.Feed.feed
    qe_report.Validator.FileSystem.entry_kind qe_report.Validator.FileSystem.open_regular
    qe_report.Validator.FileSystem.trusted_directory qe_report.Validator.Attachments.refuse_entry
    qe_report.Validator.Attachments.check_attachment qe_report.Validator.Attachments.check_all
    qe_report.Validator.Attachments.check_attachments
    qe_report.Validator.Finish.report_open_sessions qe_report.Validator.Finish.check_run_end
    qe_report.Validator.Finish.is_complete qe_report.Validator.Finish.report_incomplete
    qe_report.Validator.Finish.final_attempts_from qe_report.Validator.Finish.final_attempts
    qe_report.Validator.Finish.verdict_of qe_report.Validator.Finish.finished_validator
    qe_report.Validator.Finish.finish qe_report.Validator.Directory.is_event_file
    qe_report.Validator.Directory.event_files qe_report.Validator.Directory.read_files
    qe_report.Validator.Directory.attachments_directory
    qe_report.Validator.Directory.validate_run_directory_snapshot
    qe_report.Validator.Directory.validate_run_directory
    qe_report.Validator.Directory.validate_lines qe_report.Validator.Model.is_valid get set sort
closed_run = (_, refl, refl, refl)

validate_run_directory_snapshot-closed_complete_example :
    closed_run.0.report.summary.complete ≡ true
validate_run_directory_snapshot-closed_complete_example =
    validate_run_directory_snapshot-closed_complete externals file_system "run" defaults
      closed_run.1 closed_run.2 closed_run.3

abbrev declared : DeclaredAttachment
declared = record {
  position = record { file = "run/events/s.ndjson"; line = 4; event_id = "e-3" };
  sha256 = "abc";
  size_bytes = pos 5;
}

abbrev with_attachment : RunValidator
with_attachment =
    record (new_validator (record defaults { attachments_dir = some "run/attachments" })) {
      attachments = declared ∷ [];
    }

checked_attachment : (r : Report) × (finish file_system with_attachment ≡ some r) × (r.valid ≡ true)
unfolding finish check_attachments check_all check_attachment entry_kind open_regular is_valid
    is_complete report_incomplete get
checked_attachment = (_, refl, refl)

finish-attachments_verified_example : AllVerified file_system "run/attachments" (declared ∷ [])
finish-attachments_verified_example =
    finish-attachments_verified file_system with_attachment refl refl checked_attachment.1
      checked_attachment.2

abbrev attempt : ℕ → Bool → AttemptState
attempt n unexpected = record {
  session = "s-1";
  execution_id = "x-1";
  attempt_number = n;
  inconclusive = false;
  finished = true;
  unexpected = unexpected;
  steps = ("p-1", true) ∷ [];
}

-- the second attempt of a test passes
abbrev flaky : RunValidator
flaky = record (new_validator defaults) {
  sessions =
      (
        "s-1",
        record { finished = true; last_sequence = 9; runner_name = none; synthesized = false },
      )
      ∷ [];
  attempts = ("a-1", attempt 2 false) ∷ ("a-2", attempt 1 true) ∷ [];
}

flaky_verdict : verdict_of flaky ≡ passed
unfolding verdict_of is_complete final_attempts final_attempts_from get set
flaky_verdict = refl

verdict_of-Passed_example : Passed flaky
verdict_of-Passed_example = verdict_of-Passed flaky flaky_verdict

validate_run_directory_snapshot-Ordered_example :
    (n : ℕ) × (sequences "s-1" closed_run.0.source_lines ≡ upto n)
validate_run_directory_snapshot-Ordered_example =
    validate_run_directory_snapshot-Ordered externals file_system "run" defaults refl closed_run.1
      closed_run.2 "s-1"

not_blank : (false || is_blank "1") ≡ false
unfolding is_blank
not_blank = refl

first_line :
    (json : Json) × (e : Event) × (decode externals defaults "1" ≡ decoded json e)
    × (e.event_id ≡ "e-1")
unfolding get qe_report.Prelude.Order.units qe_report.Prelude.Order.units_le
    qe_report.Prelude.Order.text_le qe_report.Protocol.Json.member qe_report.Protocol.Version.digits
    qe_report.Protocol.Version.numeral qe_report.Protocol.Version.dot
    qe_report.Protocol.Version.parse_codes qe_report.Protocol.Version.parse_protocol_version
    qe_report.Protocol.Version.is_supported_protocol_version
    qe_report.Protocol.Patterns.is_identifier_codes qe_report.Protocol.Patterns.is_identifier
    qe_report.Protocol.Patterns.dotted_words qe_report.Protocol.Patterns.is_event_type
    qe_report.Protocol.Patterns.after qe_report.Protocol.Patterns.is_zone
    qe_report.Protocol.Patterns.fraction qe_report.Protocol.Patterns.after_seconds
    qe_report.Protocol.Patterns.is_timestamp qe_report.Protocol.Codec.Fields.required
    qe_report.Protocol.Codec.Fields.required_string qe_report.Protocol.Codec.Fields.optional_string
    qe_report.Protocol.Codec.Fields.identifier qe_report.Protocol.Codec.Fields.optional_identifier
    qe_report.Protocol.Codec.Fields.integral qe_report.Protocol.Codec.Fields.optional_integral
    qe_report.Protocol.Codec.Fields.one_of qe_report.Protocol.Codec.Fields.string_entries
    qe_report.Protocol.Codec.Fields.string_map qe_report.Protocol.Codec.Fields.read_items
    qe_report.Protocol.Codec.Fields.string_list qe_report.Protocol.Codec.Fields.optional_object
    qe_report.Protocol.Codec.Parts.component qe_report.Protocol.Codec.Parts.executor
    qe_report.Protocol.Codec.Parts.source qe_report.Protocol.Codec.Parts.location
    qe_report.Protocol.Codec.Parts.failure qe_report.Protocol.Codec.Parts.failures
    qe_report.Protocol.Codec.Parts.path_segment qe_report.Protocol.Codec.Parts.path_segments
    qe_report.Protocol.Codec.Parts.check_identity qe_report.Protocol.Codec.Parts.test_case
    qe_report.Protocol.Codec.Read.read_session_started qe_report.Protocol.Codec.Read.checked_outcome
    qe_report.Protocol.Codec.Read.read_session_finished
    qe_report.Protocol.Codec.Read.read_attempt_started
    qe_report.Protocol.Codec.Read.read_attempt_finished
    qe_report.Protocol.Codec.Read.read_step_started qe_report.Protocol.Codec.Read.read_step_finished
    qe_report.Protocol.Codec.Read.read_attachment_added
    qe_report.Protocol.Codec.Read.read_scope_failed qe_report.Protocol.Codec.Read.read_payload
    qe_report.Protocol.Codec.Read.check_version qe_report.Protocol.Codec.Read.read_event
    qe_report.Protocol.Codec.Read.event_from_object qe_report.Validator.Decode.is_blank
    qe_report.Validator.Decode.decode
first_line = (_, _, refl, refl)

-- a file whose first line has been read before
abbrev read_before : Feed
read_before =
    begin
      (record (new_validator defaults) { seen = ("e-1", canonical externals first_line.0) ∷ [] })

seen_before :
    get first_line.1.event_id read_before.run.seen ≡ some (canonical externals first_line.0)
unfolding get
seen_before = rw (first_line.3) refl

feed_line-Inert_example :
    Inert read_before.run
      (feed_line
        (record { externals = externals; file = "s"; single_session = true })
        "1"
        read_before).run
feed_line-Inert_example =
    feed_line-Inert (record { externals = externals; file = "s"; single_session = true }) "1"
      read_before not_blank first_line.2 seen_before

abbrev nested : Json
nested =
    object
      (property "b" (array (cons null (cons (object empty) nil))) (property "a" (text "x") empty))

nested_text : canonical externals nested ≡ "{'a':'x','b':[null,{}]}"
unfolding canonical open_value run round rounds sorted_entries sort text_le units units_le
nested_text = refl
