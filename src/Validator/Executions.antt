-- ===== src/Validator/Executions.antt =====
-- validator.ts: `checkExecution`, the relational rules of the attempts of one execution.
use qe_report.Prelude.{String, Bool, none, some, [], ◌∷◌, ◌&&◌, not, if◌then◌else◌}
use qe_report.Prelude.Keys.{text_keys, nat_keys, option_keys, ◌===◌}
use qe_report.Prelude.Assoc.{get, set}
use qe_report.Protocol.Model.{TestCase, AttemptStartedPayload}
use qe_report.Validator.Model.{
  SessionState, Position, AttemptReference, ExecutionState, RunValidator, lifecycle, stability_keys,
  duplicate_attempt_number, historical_identity_changed, execution_runner_changed,
}

-- the state that the first attempt of an execution fixes
abbrev pub new_execution : AttemptStartedPayload → SessionState → AttemptReference → ExecutionState
new_execution p session here = record {
  attempt_numbers = (p.attempt_number, here) ∷ [];
  historical_id = p.test.historical_id;
  historical_id_stability = p.test.historical_id_stability;
  runner_name = session.runner_name;
  runner_known = not session.synthesized;
  reference = here;
}

abbrev pub store_execution : String → ExecutionState → RunValidator → RunValidator
store_execution id e v = record v { executions = set id e v.executions }

-- A number that another attempt has is an error; a new one is recorded.
unfoldable pub check_number :
    Position
    → AttemptStartedPayload
    → AttemptReference
    → ExecutionState
    → RunValidator
    → RunValidator
check_number at p here known v = elim (get p.attempt_number known.attempt_numbers) [
  | some _ ↦ lifecycle at duplicate_attempt_number v
  | none ↦
      store_execution p.test.execution_id
        (record known { attempt_numbers = set p.attempt_number here known.attempt_numbers }) v
]

abbrev pub same_identity : ExecutionState → TestCase → Bool
same_identity known test =
    known.historical_id === test.historical_id
    && known.historical_id_stability === test.historical_id_stability

unfoldable pub check_identity : Position → ExecutionState → TestCase → RunValidator → RunValidator
check_identity at known test v =
    if same_identity known test then v else lifecycle at historical_identity_changed v

-- Runners are compared where both sessions were started properly.
abbrev pub other_runner : ExecutionState → SessionState → Bool
other_runner known session =
    known.runner_known && not session.synthesized && not (known.runner_name === session.runner_name)

unfoldable pub check_runner : Position → ExecutionState → SessionState → RunValidator → RunValidator
check_runner at known session v =
    if other_runner known session then lifecycle at execution_runner_changed v else v

unfoldable pub check_execution :
    Position → AttemptStartedPayload → SessionState → RunValidator → RunValidator
unfolding check_number check_identity check_runner
check_execution at p session v =
    let here : AttemptReference = record { position = at; attempt_id = p.attempt_id } in
    elim (get p.test.execution_id v.executions) [
      | none ↦ store_execution p.test.execution_id (new_execution p session here) v
      | some known ↦
          check_runner at known session
            (check_identity at known p.test (check_number at p here known v))
    ]
