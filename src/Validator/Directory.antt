-- ===== src/Validator/Directory.antt =====
-- validator.ts: the entry points `validateLines`, `validateRunDirectory` and its snapshot form.
use Prim.Native.String.{len, slice}
use Prim.Native.Nat.{◌-◌}
use qe_report.Prelude.{String, Bool, true, false, Option, none, some, List, [], ◌∷◌, if◌then◌else◌}
use qe_report.Prelude.Keys.{text_keys, ◌===◌}
use qe_report.Prelude.Order.{text_le, sort}
use qe_report.Protocol.Model.{Event}
use qe_report.Validator.Externals.{Externals}
use qe_report.Validator.Model.{ValidateOptions, ValidatedSourceLine, RunValidator, new_validator}
use qe_report.Validator.FileSystem.{
  FoundKind, EntryKind, directory, file, missing, found, FileSystem, entry_kind, Regular, fd, gone,
  refused, open_regular, trusted_directory,
}
use qe_report.Validator.Attachments.{bind, refuse_entry}
use qe_report.Validator.Feed.{feed}
use qe_report.Validator.Finish.{Report, finish, finished_validator, report_of}

pub record ValidatedRun : Type 0 where
  pub report : Report
  pub events : List Event
  pub source_lines : List ValidatedSourceLine

-- f.endsWith('.ndjson')
unfoldable pub is_event_file : String → Bool
is_event_file name = slice name (len name - 7) (len name) === ".ndjson"

unfoldable pub event_files : List String → List String
unfolding is_event_file
event_files [] = []
event_files (n ∷ names) = let rest = event_files names in if is_event_file n then n ∷ rest else rest

abbrev pub read_file :
    Externals → String → Option (List String) → RunValidator → Option RunValidator
read_file x path none v = none
read_file x path (some lines) v =
    some (feed (record { externals = x; file = path; single_session = true }) lines v)

abbrev pub read_opened : Externals → String → Option Regular → RunValidator → Option RunValidator
read_opened x path none v = none
read_opened x path (some gone) v = some v
read_opened x path (some (refused _)) v = some (refuse_entry path v)
read_opened x path (some (fd d)) v = read_file x path d.lines v

abbrev pub read_entry :
    Externals → FileSystem → String → Option EntryKind → RunValidator → Option RunValidator
read_entry x fs path none v = none
read_entry x fs path (some missing) v = some v
read_entry x fs path (some (found file)) v = read_opened x path (open_regular fs path) v
read_entry x fs path (some (found _)) v = some (refuse_entry path v)

-- the loop over the event files
unfoldable pub read_files :
    Externals → FileSystem → String → List String → RunValidator → Option RunValidator
read_files x fs events_dir [] v = some v
read_files x fs events_dir (name ∷ rest) v =
    let path = fs.join events_dir name in
    bind (read_entry x fs path (entry_kind fs path) v) (read_files x fs events_dir rest)

-- `join(dir, 'attachments')` unless the caller names a directory
unfoldable pub attachments_directory : FileSystem → String → Option String → Option String
attachments_directory fs dir none = some (fs.join dir "attachments")
attachments_directory fs dir (some named) = trusted_directory fs named

abbrev pub read_directory :
    Externals → FileSystem → String → FoundKind → RunValidator → Option RunValidator
read_directory x fs events_dir directory v =
    bind (fs.readdir events_dir)
      λ names. read_files x fs events_dir (sort text_le (event_files names)) v
read_directory x fs events_dir _ v = some (refuse_entry events_dir v)

abbrev pub snapshot : FileSystem → RunValidator → Option ValidatedRun
snapshot fs v =
    bind (finished_validator fs v)
      λ w. some (record { report = report_of w; events = w.accepted; source_lines = w.source })

abbrev pub validate_found :
    Externals → FileSystem → String → ValidateOptions → String → EntryKind → Option ValidatedRun
validate_found x fs dir options events_dir missing = none
validate_found x fs dir options events_dir (found kind) =
    bind (attachments_directory fs dir options.attachments_dir) λ attachments.
      bind
        (read_directory x fs events_dir kind
          (new_validator (record options { attachments_dir = some attachments })))
        (snapshot fs)

-- `validateRunDirectorySnapshot`; `options.retain_events` holds the default that the caller meant
unfoldable pub validate_run_directory_snapshot :
    Externals → FileSystem → String → ValidateOptions → Option ValidatedRun
unfolding feed finished_validator
validate_run_directory_snapshot x fs dir options =
    let events_dir = fs.join dir "events" in
    bind (entry_kind fs events_dir) (validate_found x fs dir options events_dir)

unfoldable pub validate_run_directory :
    Externals → FileSystem → String → ValidateOptions → Option Report
unfolding validate_run_directory_snapshot
validate_run_directory x fs dir options =
    bind (validate_run_directory_snapshot x fs dir (record options { retain_events = false }))
      λ r. some r.report

unfoldable pub validate_lines :
    Externals → FileSystem → List String → ValidateOptions → String → Option Report
unfolding feed finish
validate_lines x fs lines options name = finish fs (
    feed (record { externals = x; file = name; single_session = false }) lines
      (new_validator options))
