-- ===== src/ReadModel/Chronology.antt =====
-- read-model.ts: the histories of a model and the order of their occurrences.
use mathlib.Core.List.{Permᴰ}
use qe_report.Prelude.{String, some, List, ◌≡◌}
use qe_report.Prelude.Keys.{text_keys}
use qe_report.Prelude.Assoc.{get}
use qe_report.Prelude.Sorting.{Pairwise}
use qe_report.Validator.Finish.{values}
use qe_report.ReadModel.Model.{ProjectedRun, ExecutionOccurrence}
use qe_report.ReadModel.Executions.{or_new}
use qe_report.ReadModel.Assemble.{Seams, ReadModelBuild, assemble}
use qe_report.ReadModel.Histories.{all_occurrences, under, assemble-history}
use qe_report.ReadModel.HistoryOrder.{InHistoryOrder, sort_history-Sorts}

-- If `assemble` returns, then each history of the model has the occurrences of the model's runs under its
-- key and no others, each as often; and of two in it that have instants, the first has an earlier instant, or
-- the same and a run id before the other by code unit, or both the same and an execution id that is not after
-- the other.
pub assemble-Chronological :
    (c : Seams) (runs : List ProjectedRun) (b : ReadModelBuild)
    → assemble c runs ≡ some b
    → (os : List ExecutionOccurrence) × (all_occurrences (values b.model.runs_by_key) ≡ some os)
      × ((k : String)
          → Permᴰ (or_new (get k b.model.history)) (under c k os)
            × Pairwise (InHistoryOrder c.instant) (or_new (get k b.model.history)))
assemble-Chronological c runs b e =
    let (os, p, f) = assemble-history c runs b e in
    (os, p, λ k. sort_history-Sorts c.instant (under c k os) (or_new (get k b.model.history)) (f k))
