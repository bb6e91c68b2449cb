-- ===== src/ReadModel/HistoryTests.antt =====
-- Dated runs to which the theorems on histories are applied.
use mathlib.Core.List.{Permᴰ}
use qe_report.Prelude.{
  ℕ, ◌+◌, ◌-◌, ◌*◌, String, true, false, Option, none, some, List, [], ◌∷◌, ◌≡◌, refl,
  if◌then◌else◌,
}
use qe_report.Prelude.Int.{pos}
use qe_report.Prelude.Assoc.{get}
use qe_report.Prelude.Keys.{text_keys}
use qe_report.Prelude.Text.{within}
use qe_report.Prelude.Sorting.{Pairwise}
use qe_report.Protocol.Model.{TestCase, uncertain, Status}
use qe_report.Validator.Finish.{values}
use qe_report.ReadModel.Model.{ProjectedRun, ExecutionOccurrence, TestExecution, Attempt}
use qe_report.ReadModel.Executions.{or_new}
use qe_report.ReadModel.Instant.{history_instant}
use qe_report.ReadModel.History.{sort_history}
use qe_report.ReadModel.HistoryOrder.{InHistoryOrder}
use qe_report.ReadModel.Chronology.{assemble-Chronological}
use qe_report.ReadModel.Assemble.{Seams, ReadModelBuild, assemble}
use qe_report.ReadModel.Histories.{all_occurrences, under, assemble-history}
use qe_report.ReadModel.Tests.{joined, run}

-- the digits of a timestamp as a number
abbrev number : ℕ → List ℕ → ℕ
number n [] = n
number n (c ∷ s) = number (if within b'0' b'9' c then 10 * n + (c - b'0') else n) s

abbrev instants : Seams
instants = record { stringify = joined; instant = history_instant (λ s. some (pos (number 0 s))) }

abbrev case : TestCase
case = record {
  execution_id = "x-1";
  historical_id = some "h-1";
  historical_id_stability = uncertain;
  display_name = "adds";
  path = [];
  location = none;
  tags = none;
  labels = none;
}

abbrev attempt : String → Attempt
attempt started_at = record {
  attempt_id = "a-1";
  attempt_number = 1;
  session_id = "s-1";
  started_at = started_at;
  test = case;
  finished = true;
  finished_at = none;
  status = some Status.passed;
  raw_status = none;
  expected_status = none;
  duration_ms = none;
  failures = [];
  steps = [];
  attachments = [];
}

abbrev execution : String → TestExecution
execution started_at = record {
  execution_id = "x-1";
  runner_name = some "runner";
  test = case;
  attempts = attempt started_at ∷ [];
  final_attempt = attempt started_at;
  complete = true;
  final_status = some Status.passed;
  flaky = false;
}

abbrev dated : String → String → String → ProjectedRun
dated id directory started_at = record (run directory) {
  run_id = id;
  executions = execution started_at ∷ [];
}

abbrev dated_runs : List ProjectedRun
dated_runs =
    dated "run-1" "a" "2024-01-02T03:04:06Z" ∷ dated "run-2" "b" "2024-01-02T03:04:05Z" ∷ []

dated_build : (b : ReadModelBuild) × (assemble instants dated_runs ≡ some b)
unfolding assemble qe_report.Prelude.Assoc.get qe_report.Prelude.Assoc.set history_instant
    qe_report.Prelude.Order.sort qe_report.ReadModel.Compare.compare qe_report.Prelude.Order.text_le
dated_build = (_, refl)

assemble-history_example :
    (os : List ExecutionOccurrence) × (all_occurrences (values dated_build.0.model.runs_by_key)
      ≡ some os)
    × ((k : String)
        → sort_history instants.instant (under instants k os)
          ≡ some (or_new (get k dated_build.0.model.history)))
assemble-history_example = assemble-history instants dated_runs dated_build.0 dated_build.1

assemble-Chronological_example :
    (os : List ExecutionOccurrence) × (all_occurrences (values dated_build.0.model.runs_by_key)
      ≡ some os)
    × ((k : String)
        → Permᴰ (or_new (get k dated_build.0.model.history)) (under instants k os)
          × Pairwise (InHistoryOrder instants.instant) (or_new (get k dated_build.0.model.history)))
assemble-Chronological_example =
    assemble-Chronological instants dated_runs dated_build.0 dated_build.1
