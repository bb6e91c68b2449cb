-- ===== src/ReadModel/Partition.antt =====
-- projector.ts: the attempts in the executions that `groupExecutions` returns.
use mathlib.Core.List.{Permᴰ}
use mathlib.Core.List.Permᴰ
use qe_report.Prelude.{String, List, [], ◌∷◌, ◌++◌, ◌≡◌, map, All}
use qe_report.Prelude.Keys.{text_keys}
use qe_report.Prelude.Assoc.{Assoc}
use qe_report.ReadModel.Model.{Attempt, TestExecution}
use qe_report.ReadModel.Project.{SessionState, AttemptState}
use qe_report.ReadModel.Executions.{attempt, Groups}
use qe_report.ReadModel.Settled.{Settled}

abbrev pub all_attempts : List TestExecution → List Attempt
all_attempts [] = []
all_attempts (e ∷ es) = e.attempts ++ all_attempts es

-- The attempts of an execution carry its id.
abbrev pub OwnAttempts : TestExecution → Type 0
OwnAttempts e = All (λ a. a.test.execution_id ≡ e.execution_id) e.attempts

module _ (sessions : Assoc String SessionState) where
  -- The executions are settled, and share out the attempts by their execution ids.
  pub record Shares (states : List AttemptState) (es : List TestExecution) : Type 0 where
    pub settled : All (Settled sessions) es
    pub own : All OwnAttempts es
    pub shared : Permᴰ (all_attempts es) (map attempt states)
