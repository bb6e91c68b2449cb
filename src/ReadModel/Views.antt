-- ===== src/ReadModel/Views.antt =====
-- read-model.ts: the queries on a `ReadModel`. `none` is the TypeError of `checkProjectId`.
use Prim.Native.Nat.{Ordering}
use qe_report.Prelude.{String, Bool, Option, none, some, List, [], ◌∷◌, length, ltb, if◌then◌else◌}
use qe_report.Prelude.Keys.{text_keys}
use qe_report.Prelude.Assoc.{get}
use qe_report.Prelude.Order.{sort}
use qe_report.Validator.Finish.{values}
use qe_report.ReadModel.Model.{ProjectedRun, Blob, TestHistory, Flakiness, ExecutionOccurrence}
use qe_report.ReadModel.Compare.{compare, or_else, at_or_before}
use qe_report.ReadModel.Executions.{or_new}
use qe_report.ReadModel.ProjectId.{check_project_id}
use qe_report.ReadModel.Assemble.{ReadModel, Seams, run_key, history_key}

abbrev pub compare_runs : ProjectedRun → ProjectedRun → Ordering
compare_runs a b = or_else (compare a.project_id b.project_id) (compare a.run_id b.run_id)

abbrev pub only {ℓ} : {A : Type ℓ} → (A → Bool) → List A → List A
only p [] = []
only p (x ∷ xs) = if p x then x ∷ only p xs else only p xs

module _ (c : Seams) (m : ReadModel) where
  unfoldable pub get_run : String → String → Option (Option ProjectedRun)
  get_run project run =
      if check_project_id project then some (get (run_key c project run) m.runs_by_key) else none

  abbrev pub test_history : String → String → String → TestHistory
  test_history project runner historical_id = record {
    project_id = project;
    runner_name = runner;
    historical_id = historical_id;
    occurrences = or_new (get (history_key c project runner historical_id) m.history);
  }

  unfoldable pub get_test_history : String → String → String → Option TestHistory
  get_test_history project runner historical_id =
      if check_project_id project then some (test_history project runner historical_id) else none

  abbrev pub flakiness_of : TestHistory → Flakiness
  flakiness_of h =
      let flaky : List ExecutionOccurrence = only (λ o. o.flaky) h.occurrences in
      record {
        project_id = h.project_id;
        runner_name = h.runner_name;
        historical_id = h.historical_id;
        total_occurrences = length h.occurrences;
        flaky_occurrences = length flaky;
        ever_flaky = ltb 0 (length flaky);
        flaky = flaky;
      }

  unfoldable pub get_flakiness : String → String → String → Option Flakiness
  unfolding get_test_history
  get_flakiness project runner historical_id =
      elim (get_test_history project runner historical_id) [
        | none ↦ none
        | some h ↦ some (flakiness_of h)
      ]

unfoldable pub runs : ReadModel → List ProjectedRun
runs m = sort (at_or_before compare_runs) (values m.runs_by_key)

unfoldable pub get_blob : ReadModel → String → Option Blob
get_blob m sha256 = get sha256 m.blobs_by_sha

unfoldable pub blobs : ReadModel → List Blob
blobs m = values m.blobs_by_sha
