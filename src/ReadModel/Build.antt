-- ===== src/ReadModel/Build.antt =====
-- read-model.ts: `buildReadModel`. `none` is an error that it throws.
use qe_report.Prelude.{String, Bool, Option, none, some, List, [], ◌∷◌, ◌++◌, map, if◌then◌else◌}
use qe_report.Validator.Externals.{Externals}
use qe_report.Validator.FileSystem.{FoundKind, FileSystem}
use qe_report.ReadModel.Model.{ProjectedRun, DiscoveryProblem, IngestionProblem}
use qe_report.ReadModel.ProjectId.{check_project_id}
use qe_report.ReadModel.Instant.{bind}
use qe_report.ReadModel.Ingest.{
  ProjectionResult, projected, rejected, Discovery, project_run_directory, discover_run_directories,
}
use qe_report.ReadModel.Assemble.{ReadModelBuild, Seams, assemble}

-- A source names one of the two; the check that it does not name both is left out.
pub data Location : Type 0 where
  output_root run_directory : String → Location

pub record ReadModelSource : Type 0 where
  pub project_id : String
  pub location : Location

-- What the file system and the validator's parameters are.
pub record Host : Type 0 where
  pub externals : Externals
  pub fs : FileSystem
  pub exists : String → Bool
  pub entries : String → Option (List (String × FoundKind))

pub record Built : Type 0 where
  pub runs : List ProjectedRun
  pub problems : List IngestionProblem

abbrev pub discovery_problem : String → DiscoveryProblem → IngestionProblem
discovery_problem project p = record {
  code = p.code;
  project_id = project;
  run_directory = p.path;
  run_id = none;
  detail = none;
  diagnostics = [];
}

abbrev pub add_result : ProjectionResult → Built → Built
add_result (projected run) b = record b { runs = b.runs ++ (run ∷ []) }
add_result (rejected p) b = record b { problems = b.problems ++ (p ∷ []) }

module _ (h : Host) where
  abbrev pub build_directories : String → List String → Built → Option Built
  build_directories project [] b = some b
  build_directories project (directory ∷ r) b =
      bind
        (project_run_directory h.externals h.fs h.exists
          (record { project_id = project; run_directory = directory }))
        λ result. build_directories project r (add_result result b)

  abbrev pub build_discovered : String → Discovery → Built → Option Built
  build_discovered project d b =
      build_directories project d.run_directories
        (record b { problems = b.problems ++ map (discovery_problem project) d.problems })

  abbrev pub build_location : String → Location → Built → Option Built
  build_location project (run_directory dir) b = build_directories project (dir ∷ []) b
  build_location project (output_root root) b =
      bind (discover_run_directories h.fs h.entries root) λ d. build_discovered project d b

  abbrev pub build_source : ReadModelSource → Built → Option Built
  build_source s b =
      if check_project_id s.project_id then build_location s.project_id s.location b else none

  abbrev pub build_sources : List ReadModelSource → Built → Option Built
  build_sources [] b = some b
  build_sources (s ∷ r) b = bind (build_source s b) (build_sources r)

  abbrev pub with_problems : List IngestionProblem → ReadModelBuild → ReadModelBuild
  with_problems problems a = record a { problems = problems ++ a.problems }

  unfoldable pub build_read_model : Seams → List ReadModelSource → Option ReadModelBuild
  unfolding check_project_id project_run_directory discover_run_directories assemble
  build_read_model c sources =
      bind (build_sources sources (record { runs = []; problems = [] }))
        λ b. bind (assemble c b.runs) λ a. some (with_problems b.problems a)
