-- ===== src/ReadModel/Assemble.antt =====
-- ts/packages/read-model/src/read-model.ts: `ReadModel.assemble`.
use Prim.Native.Nat.{Ordering}
use qe_report.Prelude.{
  String, Bool, false, ◌&&◌, not, Option, none, some, List, [], ◌∷◌, ◌++◌, map, any, if◌then◌else◌,
}
use qe_report.Prelude.Int.{ℤ}
use qe_report.Prelude.Keys.{text_keys, ◌===◌}
use qe_report.Prelude.Assoc.{Assoc, get, set}
use qe_report.Prelude.Order.{sort}
use qe_report.Validator.Finish.{values}
use qe_report.ReadModel.Model.{
  ProjectedRun, AttachmentReference, Blob, BlobSource, BlobReference, ExecutionOccurrence,
  IngestionProblem, IngestionProblemCode, duplicate_run, blob_size_conflict,
}
use qe_report.ReadModel.Compare.{compare, or_else, at_or_before, is_eq}
use qe_report.ReadModel.Executions.{or_new, compare_keys}
use qe_report.ReadModel.Instant.{HistoryInstant, bind, compare_ints}
use qe_report.ReadModel.History.{sort_history, history_occurrences_of}

pub record ReadModel : Type 0 where
  pub runs_by_key : Assoc String ProjectedRun
  pub history : Assoc String (List ExecutionOccurrence)
  pub blobs_by_sha : Assoc String Blob

pub record ReadModelBuild : Type 0 where
  pub model : ReadModel
  pub problems : List IngestionProblem

-- The loop of `assemble` over the run keys changes these.
pub record Assembly : Type 0 where
  pub problems : List IngestionProblem
  pub accepted : Assoc String ProjectedRun
  pub blobs : Assoc String Blob

-- JSON.stringify on a list of texts, and the reading of a timestamp
pub record Seams : Type 0 where
  pub stringify : List String → String
  pub instant : String → Option HistoryInstant

abbrev pub run_key : Seams → String → String → String
run_key c project run = c.stringify (project ∷ run ∷ [])

abbrev pub history_key : Seams → String → String → String → String
history_key c project runner historical_id = c.stringify (project ∷ runner ∷ historical_id ∷ [])

abbrev pub Candidates : Type 0
Candidates = Assoc String (List ProjectedRun)

abbrev pub with_candidate : ProjectedRun → Option (List ProjectedRun) → List ProjectedRun
with_candidate run none = run ∷ []
with_candidate run (some known) =
    if any (λ r. r.run_directory === run.run_directory) known then known else known ++ (run ∷ [])

abbrev pub add_candidate : Seams → Candidates → ProjectedRun → Candidates
add_candidate c by_key run =
    let key = run_key c run.project_id run.run_id in
    set key (with_candidate run (get key by_key)) by_key

abbrev pub candidates : Seams → Candidates → List ProjectedRun → Candidates
candidates c by_key [] = by_key
candidates c by_key (run ∷ r) = candidates c (add_candidate c by_key run) r

abbrev pub run_problem : IngestionProblemCode → ProjectedRun → IngestionProblem
run_problem code run = record {
  code = code;
  project_id = run.project_id;
  run_directory = run.run_directory;
  run_id = some run.run_id;
  detail = none;
  diagnostics = [];
}

unfoldable pub same_size : ℤ → ℤ → Bool
same_size a b = is_eq (compare_ints a b)

abbrev pub differs : ℤ → Option Blob → Bool
differs size none = false
differs size (some known) = not (same_size known.size_bytes size)

-- `run.attachments.find` finds a conflict
abbrev pub conflicts : Assoc String Blob → List AttachmentReference → Bool
conflicts blobs attachments = any (λ a. differs a.size_bytes (get a.sha256 blobs)) attachments

abbrev pub source_of : ProjectedRun → BlobSource
source_of run = record {
  project_id = run.project_id;
  run_id = run.run_id;
  run_directory = run.run_directory;
}

abbrev pub is_source : ProjectedRun → BlobSource → Bool
is_source run s = (s.project_id === run.project_id) && (s.run_id === run.run_id)

abbrev pub known_or_new : AttachmentReference → Option Blob → Blob
known_or_new a none = record {
  sha256 = a.sha256;
  size_bytes = a.size_bytes;
  sources = [];
  references = [];
}
known_or_new a (some b) = b

abbrev pub refer : ProjectedRun → AttachmentReference → Blob → Blob
refer run a b = record b {
  sources = if any (is_source run) b.sources then b.sources else b.sources ++ (source_of run ∷ []);
  references =
      b.references
      ++ (record { project_id = run.project_id; run_id = run.run_id; reference = a } ∷ []);
}

abbrev pub add_reference :
    ProjectedRun → Assoc String Blob → AttachmentReference → Assoc String Blob
add_reference run blobs a = set a.sha256 (refer run a (known_or_new a (get a.sha256 blobs))) blobs

abbrev pub add_references :
    ProjectedRun → Assoc String Blob → List AttachmentReference → Assoc String Blob
add_references run blobs [] = blobs
add_references run blobs (a ∷ r) = add_references run (add_reference run blobs a) r

abbrev pub accept : String → ProjectedRun → Assembly → Assembly
accept key run s =
    if conflicts s.blobs run.attachments
    then record s { problems = s.problems ++ (run_problem blob_size_conflict run ∷ []) }
    else record s {
      accepted = set key run s.accepted;
      blobs = add_references run s.blobs run.attachments;
    }

-- A key has one candidate or more.
abbrev pub assemble_key : Assembly → String × List ProjectedRun → Assembly
assemble_key s (key, []) = s
assemble_key s (key, run ∷ []) = accept key run s
assemble_key s (key, runs) = record s {
  problems = s.problems ++ map (run_problem duplicate_run) runs;
}

abbrev pub assemble_keys : Assembly → Candidates → Assembly
assemble_keys s [] = s
assemble_keys s (k ∷ r) = assemble_keys (assemble_key s k) r

abbrev pub Histories : Type 0
Histories = Assoc String (List ExecutionOccurrence)

abbrev pub add_occurrence : Seams → Histories → ExecutionOccurrence → Histories
add_occurrence c history o =
    let key = history_key c o.project_id o.runner_name o.historical_id in
    set key (or_new (get key history) ++ (o ∷ [])) history

abbrev pub add_occurrences : Seams → Histories → List ExecutionOccurrence → Histories
add_occurrences c history [] = history
add_occurrences c history (o ∷ r) = add_occurrences c (add_occurrence c history o) r

abbrev pub histories : Seams → Histories → List ProjectedRun → Option Histories
histories c history [] = some history
histories c history (run ∷ r) =
    bind (history_occurrences_of run) λ os. histories c (add_occurrences c history os) r

abbrev pub sort_histories : Seams → Histories → Option Histories
sort_histories c [] = some []
sort_histories c ((key, list) ∷ r) =
    bind (sort_history c.instant list)
      λ sorted. bind (sort_histories c r) λ rest. some ((key, sorted) ∷ rest)

abbrev pub compare_sources : BlobSource → BlobSource → Ordering
compare_sources a b = or_else (compare a.project_id b.project_id) (compare a.run_id b.run_id)

abbrev pub compare_references : BlobReference → BlobReference → Ordering
compare_references a b = or_else (compare a.project_id b.project_id) (compare a.run_id b.run_id)

abbrev pub freeze : Blob → Blob
freeze b = record b {
  sources = sort (at_or_before compare_sources) b.sources;
  references = sort (at_or_before compare_references) b.references;
}

abbrev pub frozen_blobs : Assoc String Blob → Assoc String Blob
frozen_blobs blobs = map (λ e. (e.0, freeze e.1)) (sort (at_or_before compare_keys) blobs)

abbrev pub nothing : Assembly
nothing = record { problems = []; accepted = []; blobs = [] }

unfoldable pub assembled : Seams → List ProjectedRun → Assembly
assembled c runs = assemble_keys nothing (sort (at_or_before compare_keys) (candidates c [] runs))

abbrev pub build : Assembly → Histories → ReadModelBuild
build s history = record {
  model = record {
    runs_by_key = s.accepted;
    history = history;
    blobs_by_sha = frozen_blobs s.blobs;
  };
  problems = s.problems;
}

-- `none` is an error that `assemble` throws.
unfoldable pub assemble : Seams → List ProjectedRun → Option ReadModelBuild
unfolding assembled history_occurrences_of sort_history
assemble c runs =
    let s = assembled c runs in
    bind (histories c [] (values s.accepted))
      λ history. bind (sort_histories c history) λ sorted. some (build s sorted)
