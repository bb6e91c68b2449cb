-- ===== src/ReadModel/History.antt =====
-- history-order.ts and `historyOccurrencesOf` of read-model.ts: the occurrences of tests in a run.
use Prim.Native.Nat.{Ordering}
use qe_report.Prelude.{String, Option, none, some, List, [], ◌∷◌, ◌++◌, map, length}
use qe_report.Prelude.Keys.{text_keys}
use qe_report.Prelude.Assoc.{Assoc, get, set}
use qe_report.Prelude.Order.{sort}
use qe_report.ReadModel.Model.{
  ExecutionOccurrence, ProjectedRun, ProjectedSession, TestExecution, Attempt,
}
use qe_report.ReadModel.Compare.{compare, or_else, at_or_before}
use qe_report.ReadModel.Project.{add}
use qe_report.ReadModel.Executions.{at}
use qe_report.ReadModel.Instant.{HistoryInstant, compare_history_instants}

abbrev pub Placed : Type 0
Placed = HistoryInstant × ExecutionOccurrence

-- `compareHistoryOccurrences`, on occurrences with the instants that it reads
abbrev pub compare_history_occurrences : Placed → Placed → Ordering
compare_history_occurrences (i, a) (j, b) =
    or_else (compare_history_instants i j)
      (or_else (compare a.run_id b.run_id) (compare a.execution_id b.execution_id))

abbrev pub placed :
    ExecutionOccurrence → Option HistoryInstant → Option (List Placed) → Option (List Placed)
placed o (some i) (some r) = some ((i, o) ∷ r)
placed o _ _ = none

-- each occurrence with its instant
abbrev pub place :
    (String → Option HistoryInstant) → List ExecutionOccurrence → Option (List Placed)
place instant [] = some []
place instant (o ∷ r) = placed o (instant o.occurred_at) (place instant r)

abbrev pub in_order : Option (List Placed) → Option (List ExecutionOccurrence)
in_order none = none
in_order (some os) = some (map (λ o. o.1) (sort (at_or_before compare_history_occurrences) os))

-- `list.sort(compareHistoryOccurrences)`: a sort of two or more compares each of them, and the
-- comparator throws on a text that is no timestamp. One occurrence is not compared.
unfoldable pub sort_history :
    (String → Option HistoryInstant) → List ExecutionOccurrence → Option (List ExecutionOccurrence)
sort_history instant [] = some []
sort_history instant (o ∷ []) = some (o ∷ [])
sort_history instant os = in_order (place instant os)

abbrev pub by_session :
    List ProjectedSession → Assoc String ProjectedSession → Assoc String ProjectedSession
by_session [] m = m
by_session (s ∷ r) m = by_session r (set s.session_id s m)

-- `[...new Set(xs)]`
abbrev pub unique : List String → List String → List String
unique seen [] = seen
unique seen (x ∷ xs) = unique (add x seen) xs

abbrev pub first_started : List Attempt → Option String
first_started [] = none
first_started (a ∷ _) = some a.started_at

abbrev pub occurrence_at :
    ProjectedRun → TestExecution → String → String → String → ExecutionOccurrence
occurrence_at run e historical_id runner started = record {
  project_id = run.project_id;
  runner_name = runner;
  historical_id = historical_id;
  run_id = run.run_id;
  execution_id = e.execution_id;
  session_ids = sort (at_or_before compare) (unique [] (map (λ a. a.session_id) e.attempts));
  historical_id_stability = e.test.historical_id_stability;
  occurred_at = started;
  attempt_count = length e.attempts;
  complete = e.complete;
  final_status = e.final_status;
  expected_status = e.final_attempt.expected_status;
  flaky = e.flaky;
  run_verdict = run.validator.verdict;
  run_complete = run.validator.complete;
  session_status = at (λ s. s.status) (get e.final_attempt.session_id (by_session run.sessions []));
}

abbrev pub occurrence :
    ProjectedRun
    → TestExecution
    → Option String
    → Option String
    → Option String
    → Option (List ExecutionOccurrence)
occurrence run e (some historical_id) (some runner) none = none
occurrence run e (some historical_id) (some runner) (some started) =
    some (occurrence_at run e historical_id runner started ∷ [])
occurrence run e _ _ _ = some []

abbrev pub joined {ℓ} : {A : Type ℓ} → Option (List A) → Option (List A) → Option (List A)
joined (some xs) (some ys) = some (xs ++ ys)
joined _ _ = none

abbrev pub occurrences_from : ProjectedRun → List TestExecution → Option (List ExecutionOccurrence)
occurrences_from run [] = some []
occurrences_from run (e ∷ r) =
    joined (occurrence run e e.test.historical_id e.runner_name (first_started e.attempts))
      (occurrences_from run r)

-- `none` is the TypeError on an execution without attempts.
unfoldable pub history_occurrences_of : ProjectedRun → Option (List ExecutionOccurrence)
history_occurrences_of run = occurrences_from run run.executions
