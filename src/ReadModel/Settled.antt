-- ===== src/ReadModel/Settled.antt =====
-- projector.ts: an execution that `groupExecutions` returns.
use qe_report.Prelude.{
  ◌≤◌, String, true, false, Option, List, [], ◌∷◌, ◌≡◌, refl, sym, ap, subst, map, length, all, All,
  ltb, arith, Bool-cases, inl, inr,
}
use qe_report.Prelude.Keys.{text_keys, option_keys}
use qe_report.Prelude.Assoc.{Assoc, get}
use qe_report.Validator.Model.{stability_keys}
use qe_report.ReadModel.Model.{Attempt, TestExecution}
use qe_report.ReadModel.Project.{SessionState}
use qe_report.ReadModel.Executions.{
  returned, repeats_number, same_identity, runner_of, runner_names, first_runner, execution_of,
  check_execution,
}
use qe_report.ReadModel.Attempts.{
  All-map, Ascending, Sorted, distinct-one, flaky_of, is_flaky-Ascending, last-highest,
  one_identity_of, repeats-Ascending,
}

-- What an execution says of its attempts and of the sessions that they ran in.
pub record Settled (sessions : Assoc String SessionState) (e : TestExecution) : Type 0 where
  pub ascending : Ascending e.attempts
  pub final_highest : All (λ a. a.attempt_number ≤ e.final_attempt.attempt_number) e.attempts
  pub one_identity :
      All
        (λ a.
          (a.test.historical_id ≡ e.test.historical_id)
          × (a.test.historical_id_stability ≡ e.test.historical_id_stability))
        e.attempts
  pub one_runner : All (λ a. runner_of (get a.session_id sessions) ≡ e.runner_name) e.attempts
  pub complete_eq : e.complete ≡ all (λ a. a.finished) e.attempts
  pub final_status_eq : e.final_status ≡ e.final_attempt.status
  pub flaky_eq : e.flaky ≡ flaky_of e.final_attempt e.attempts

module _ (sessions : Assoc String SessionState) where
  execution_of-Settled :
      (id : String) (first : Attempt) (rest : List Attempt)
      → Sorted (first ∷ rest)
      → repeats_number (first ∷ rest) ≡ false
      → all (same_identity first) (first ∷ rest) ≡ true
      → ltb 1 (length (runner_names sessions (first ∷ rest))) ≡ false
      → Settled sessions
          (execution_of id (first_runner (runner_names sessions (first ∷ rest))) first rest)
  execution_of-Settled id first rest s h i r =
      let up : Ascending (first ∷ rest) = repeats-Ascending (first ∷ rest) s h in
      let name : Option String = runner_of (get first.session_id sessions) in
      let names : List (Option String) = map (λ a. runner_of (get a.session_id sessions)) rest in
      let one = distinct-one name names r in
      let head : first_runner (runner_names sessions (first ∷ rest)) ≡ name =
        ap first_runner one.0 in
      record {
        ascending = up;
        final_highest = last-highest first rest up;
        one_identity = one_identity_of first (first ∷ rest) i;
        one_runner =
            subst (λ k. All (λ a. runner_of (get a.session_id sessions) ≡ k) (first ∷ rest))
              (sym head)
              (
                refl,
                All-map (λ x. x ≡ name) (λ a. runner_of (get a.session_id sessions)) rest one.1,
              );
        complete_eq = refl;
        final_status_eq = refl;
        flaky_eq = is_flaky-Ascending first rest up;
      }

  pub returned-injective : {A : Type 0} (a b : A) → returned a ≡ returned b → a ≡ b
  returned-injective a b h = cc

  -- what a returned execution passed, and what it is
  check_execution-returned :
      (id : String) (first : Attempt) (rest : List Attempt) (e : TestExecution)
      → let list : List Attempt = first ∷ rest in
        check_execution sessions id list ≡ returned e
        → (repeats_number list ≡ false)
          × (all (same_identity first) list ≡ true)
          × (ltb 1 (length (runner_names sessions list)) ≡ false)
          × (execution_of id (first_runner (runner_names sessions list)) first rest ≡ e)
  unfolding check_execution
  check_execution-returned id first rest e h =
      let list : List Attempt = first ∷ rest in
      elim (Bool-cases (repeats_number list)) [
        | inl a ↦ absurd (ground arith)
        | inr a ↦ elim (Bool-cases (all (same_identity first) list)) [
          | inr b ↦ absurd (ground arith)
          | inl b ↦ elim (Bool-cases (ltb 1 (length (runner_names sessions list)))) [
            | inl d ↦ absurd (ground arith)
            | inr d ↦ (a, b, d, returned-injective _ e (rw (a, b, d) at h))
          ]
        ]
      ]

  pub check_execution-Settled :
      (id : String) (list : List Attempt) (e : TestExecution)
      → Sorted list
      → check_execution sessions id list ≡ returned e
      → Settled sessions e
  unfolding check_execution
  check_execution-Settled id [] e s h = cc
  check_execution-Settled id (first ∷ rest) e s h =
      let (a, b, d, same) = check_execution-returned id first rest e h in
      subst (Settled sessions) same (execution_of-Settled id first rest s a b d)

  pub check_execution-attempts :
      (id : String) (list : List Attempt) (e : TestExecution)
      → check_execution sessions id list ≡ returned e
      → (e.execution_id ≡ id) × (e.attempts ≡ list)
  unfolding check_execution
  check_execution-attempts id [] e h = cc
  check_execution-attempts id (first ∷ rest) e h =
      let (a, b, d, same) = check_execution-returned id first rest e h in
      (sym (ap (λ x. x.execution_id) same), sym (ap (λ x. x.attempts) same))
