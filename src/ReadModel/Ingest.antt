-- ===== src/ReadModel/Ingest.antt =====
-- ts/packages/read-model/src/ingest.ts and discovery.ts: from directories to runs. `none` is an error
-- that leaves these functions.
use qe_report.Prelude.{String, Bool, true, false, Option, none, some, List, [], ◌∷◌, if◌then◌else◌}
use qe_report.Prelude.Order.{text_le, sort}
use qe_report.Protocol.Model.{Event}
use qe_report.Validator.Externals.{Externals}
use qe_report.Validator.Model.{Diagnostic, error, ValidateOptions}
use qe_report.Validator.FileSystem.{FoundKind, Lstat, stat, file, directory, symlink, FileSystem}
use qe_report.Validator.Directory.{ValidatedRun, validate_run_directory_snapshot}
use qe_report.ReadModel.Model.{
  AmbiguityDetail, DiscoveryProblem, IngestionProblem, IngestionProblemCode, runs_directory_missing,
  symlink_skipped, not_a_directory, no_events_directory, not_a_run_directory, not_a_regular_file,
  validation_error, empty_run, run_invalid, projection_ambiguous, ProjectedRun,
}
use qe_report.ReadModel.ProjectId.{check_project_id}
use qe_report.ReadModel.Executions.{Projected, returned, ambiguous, failed}
use qe_report.ReadModel.Instant.{bind}
use qe_report.ReadModel.Run.{project_run}

pub data ProjectionResult : Type 0 where
  projected : ProjectedRun → ProjectionResult
  rejected : IngestionProblem → ProjectionResult

pub record ProjectionRequest : Type 0 where
  pub project_id : String
  pub run_directory : String

abbrev pub problem :
    IngestionProblemCode
    → ProjectionRequest
    → Option String
    → Option AmbiguityDetail
    → List Diagnostic
    → ProjectionResult
problem code r run_id detail diagnostics = rejected (record {
  code = code;
  project_id = r.project_id;
  run_directory = r.run_directory;
  run_id = run_id;
  detail = detail;
  diagnostics = diagnostics;
})

-- A problem with no run, detail or diagnostics.
abbrev pub refusal : IngestionProblemCode → ProjectionRequest → ProjectionResult
refusal code r = problem code r none none []

-- the first entry that is not a regular file: `some (some true)` for a symbolic link
abbrev pub irregular_of : Lstat → Option (Option Bool) → Option (Option Bool)
irregular_of (stat file) rest = rest
irregular_of (stat symlink) rest = some (some true)
irregular_of (stat _) rest = some (some false)
irregular_of _ rest = none

abbrev pub irregular_in :
    FileSystem → String → List String → Option (Option Bool) → Option (Option Bool)
irregular_in fs dir [] rest = rest
irregular_in fs dir (name ∷ names) rest =
    irregular_of (fs.lstat (fs.join dir name)) (irregular_in fs dir names rest)

abbrev pub irregular_listed :
    FileSystem → String → Option (List String) → Option (Option Bool) → Option (Option Bool)
irregular_listed fs dir none rest = rest
irregular_listed fs dir (some names) rest = irregular_in fs dir (sort text_le names) rest

-- the loop over the two collections
abbrev pub irregular_collections : FileSystem → String → List String → Option (Option Bool)
irregular_collections fs run_directory [] = some none
irregular_collections fs run_directory (collection ∷ r) =
    let dir = fs.join run_directory collection in
    irregular_listed fs dir (fs.readdir dir) (irregular_collections fs run_directory r)

-- The result is `none` where `lstatSync` throws.
unfoldable pub irregular_entry : FileSystem → String → Option (Option Bool)
irregular_entry fs run_directory =
    irregular_collections fs run_directory ("events" ∷ "attachments" ∷ [])

abbrev pub first_run_id : List Event → Option String
first_run_id [] = none
first_run_id (e ∷ _) = some e.run_id

-- `diagnostics.filter((d) => d.severity === 'error')`
abbrev pub errors : List Diagnostic → List Diagnostic
errors [] = []
errors (d ∷ r) = elim d.severity [ error ↦ d ∷ errors r | _ ↦ errors r ]

abbrev pub answer :
    ProjectionRequest → List Event → Projected ProjectedRun → Option ProjectionResult
answer r events (returned run) = some (projected run)
answer r events (ambiguous detail _) =
    some (problem projection_ambiguous r (first_run_id events) (some detail) [])
answer r events failed = none

-- A snapshot whose report is valid: the last two steps.
abbrev pub project_events_of :
    ProjectionRequest → ValidatedRun → List Event → Option ProjectionResult
project_events_of r s [] = some (refusal empty_run r)
project_events_of r s events = answer r events (project_run r.project_id r.run_directory s)

abbrev pub project_snapshot : ProjectionRequest → Option ValidatedRun → Option ProjectionResult
project_snapshot r none = some (refusal validation_error r)
project_snapshot r (some s) =
    if s.report.valid
    then project_events_of r s s.events
    else some (problem run_invalid r (first_run_id s.events) none (errors s.report.diagnostics))

-- the options that `validateRunDirectorySnapshot` takes by default
abbrev pub default_options : ValidateOptions
default_options = record {
  attachments_dir = none;
  require_complete = false;
  max_event_bytes = none;
  retain_events = true;
  retain_source_lines = false;
}

abbrev pub project_regular :
    Externals → FileSystem → ProjectionRequest → Option Bool → Option ProjectionResult
project_regular x fs r (some true) = some (refusal symlink_skipped r)
project_regular x fs r (some false) = some (refusal not_a_regular_file r)
project_regular x fs r none =
    project_snapshot r (validate_run_directory_snapshot x fs r.run_directory default_options)

-- `exists` is existsSync. `none` is an error that `projectRunDirectory` throws.
unfoldable pub project_run_directory :
    Externals → FileSystem → (exists : String → Bool) → ProjectionRequest → Option ProjectionResult
unfolding check_project_id irregular_entry project_run validate_run_directory_snapshot
project_run_directory x fs exists r =
    if check_project_id r.project_id
    then (if exists (fs.join r.run_directory "events")
        then bind (irregular_entry fs r.run_directory) (project_regular x fs r)
        else some (refusal not_a_run_directory r))
    else none

pub record Discovery : Type 0 where
  pub run_directories : List String
  pub problems : List DiscoveryProblem

-- `statOrUndefined`
abbrev pub stat_or_undefined : Lstat → Option FoundKind
stat_or_undefined (stat kind) = some kind
stat_or_undefined _ = none

abbrev pub with_problem : IngestionProblemCode → String → Discovery → Discovery
with_problem code path d = record d { problems = record { code = code; path = path } ∷ d.problems }

abbrev pub with_directory : String → Discovery → Discovery
with_directory path d = record d { run_directories = path ∷ d.run_directories }

abbrev pub events_found : String → String → Option FoundKind → Discovery → Discovery
events_found path events (some directory) rest = with_directory path rest
events_found path events (some symlink) rest = with_problem symlink_skipped events rest
events_found path events _ rest = with_problem no_events_directory path rest

-- A directory entry has its kind.
abbrev pub entry_found : FileSystem → String → FoundKind → Discovery → Discovery
entry_found fs path symlink rest = with_problem symlink_skipped path rest
entry_found fs path directory rest =
    let events = fs.join path "events" in
    events_found path events (stat_or_undefined (fs.lstat events)) rest
entry_found fs path _ rest = with_problem not_a_directory path rest

-- The loop over the entries in order: what this entry gives stands before what the rest gives.
abbrev pub discover_entries : FileSystem → String → List (String × FoundKind) → Discovery
discover_entries fs runs_directory [] = record { run_directories = []; problems = [] }
discover_entries fs runs_directory ((name, kind) ∷ r) =
    entry_found fs (fs.join runs_directory name) kind (discover_entries fs runs_directory r)

abbrev pub discover_in :
    FileSystem → String → Option FoundKind → Option (List (String × FoundKind)) → Option Discovery
discover_in fs dir (some directory) none = none
discover_in fs dir (some directory) (some entries) =
    some (discover_entries fs dir (sort (λ a b. text_le a.0 b.0) entries))
discover_in fs dir (some symlink) entries =
    some (record {
      run_directories = [];
      problems = record { code = symlink_skipped; path = dir } ∷ [];
    })
discover_in fs dir _ entries = some (record {
  run_directories = [];
  problems = record { code = runs_directory_missing; path = dir } ∷ [];
})

-- `entries` is readdirSync with the kinds of the entries.
unfoldable pub discover_run_directories :
    FileSystem → (entries : String → Option (List (String × FoundKind))) → String → Option Discovery
discover_run_directories fs entries output_root =
    let dir = fs.join output_root "runs" in
    discover_in fs dir (stat_or_undefined (fs.lstat dir)) (entries dir)
