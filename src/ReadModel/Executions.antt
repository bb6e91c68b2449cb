-- ===== src/ReadModel/Executions.antt =====
-- projector.ts: the sessions, steps and attempts as they are read, and the executions they make up.
use Prim.Native.Nat.{Ordering}
use qe_report.Prelude.{
  String, Bool, true, false, ◌&&◌, ◌||◌, not, Option, none, some, List, [], ◌∷◌, ◌++◌, map, length,
  is_some, any, all, ltb, ◌==◌, if◌then◌else◌,
}
use qe_report.Prelude.Keys.{text_keys, option_keys, ◌===◌}
use qe_report.Prelude.Assoc.{Assoc, get, set}
use qe_report.Prelude.Order.{sort}
use qe_report.Protocol.Model.{Status, ExpectedStatus}
use qe_report.Validator.Model.{stability_keys}
use qe_report.ReadModel.Model.{
  Attempt, Step, TestExecution, ProjectedSession, AmbiguityDetail, duplicate_attempt_number,
  historical_identity_changed, execution_runner_changed,
}
use qe_report.ReadModel.Compare.{compare, by_number, at_or_before}
use qe_report.ReadModel.Project.{SessionState, StepState, AttemptState}

-- A result, an AmbiguousRunError, or another error.
pub data Projected {ℓ} (A : Type ℓ) : Type ℓ where
  returned : A → Projected A
  ambiguous : AmbiguityDetail → String → Projected A
  failed : Projected A

infixl 5 ◌>>=◌
abbrev pub ◌>>=◌ {ℓ κ} : {A : Type ℓ} {B : Type κ} → Projected A → (A → Projected B) → Projected B
returned a >>= f = f a
ambiguous d e >>= f = ambiguous d e
failed >>= f = failed

-- the parts of a `finished` event that may be missing: `f?.x`
abbrev pub at {ℓ κ} : {A : Type ℓ} {B : Type κ} → (A → Option B) → Option A → Option B
at f none = none
at f (some a) = f a

abbrev pub or_none {ℓ} : {A : Type ℓ} → Option (List A) → List A
or_none none = []
or_none (some xs) = xs

abbrev pub session : SessionState → ProjectedSession
session s = record {
  session_id = s.started.event.session_id;
  started_at = s.started.event.occurred_at;
  producer = s.started.payload.producer;
  runner = s.started.payload.runner;
  environment = s.started.payload.environment;
  executor = s.started.payload.executor;
  source = s.started.payload.source;
  labels = s.started.payload.labels;
  finished = is_some s.finished;
  finished_at = at (λ f. some f.event.occurred_at) s.finished;
  status = at (λ f. f.payload.status) s.finished;
  raw_status = at (λ f. f.payload.raw_status) s.finished;
  failures = or_none (at (λ f. f.payload.failures) s.finished);
  execution_ids = sort (at_or_before compare) s.execution_ids;
}

abbrev pub step : StepState → Step
step s = record {
  step_id = s.started.payload.step_id;
  parent_step_id = s.started.payload.parent_step_id;
  name = s.started.payload.name;
  kind = s.started.payload.kind;
  location = s.started.payload.location;
  started_at = s.started.event.occurred_at;
  finished = is_some s.finished;
  finished_at = at (λ f. some f.event.occurred_at) s.finished;
  status = at (λ f. some f.payload.status) s.finished;
  raw_status = at (λ f. f.payload.raw_status) s.finished;
  duration_ms = at (λ f. f.payload.duration_ms) s.finished;
  failures = or_none (at (λ f. f.payload.failures) s.finished);
}

abbrev pub attempt : AttemptState → Attempt
attempt a = record {
  attempt_id = a.started.payload.attempt_id;
  attempt_number = a.started.payload.attempt_number;
  session_id = a.started.event.session_id;
  started_at = a.started.event.occurred_at;
  test = a.started.payload.test;
  finished = is_some a.finished;
  finished_at = at (λ f. some f.event.occurred_at) a.finished;
  status = at (λ f. some f.payload.status) a.finished;
  raw_status = at (λ f. f.payload.raw_status) a.finished;
  expected_status = at (λ f. f.payload.expected_status) a.finished;
  duration_ms = at (λ f. f.payload.duration_ms) a.finished;
  failures = or_none (at (λ f. f.payload.failures) a.finished);
  steps = map step a.steps;
  attachments = a.attachments;
}

abbrev pub is_passed : Option Status → Bool
is_passed (some Status.passed) = true
is_passed _ = false

abbrev pub is_failed : Option Status → Bool
is_failed (some Status.failed) = true
is_failed _ = false

-- `expected(a) === 'passed'`
abbrev pub expects_passed : Option ExpectedStatus → Bool
expects_passed none = true
expects_passed (some ExpectedStatus.passed) = true
expects_passed (some _) = false

-- The `reduce` of `isFlaky`: the first attempt with the highest number, and the others.
abbrev pub highest : Attempt → List Attempt → List Attempt → Attempt × List Attempt
highest f others [] = (f, others)
highest f others (a ∷ r) =
    let above = ltb f.attempt_number a.attempt_number in
    highest (if above then a else f) ((if above then f else a) ∷ others) r

abbrev pub failed_unexpectedly : Attempt → Bool
failed_unexpectedly a = a.finished && is_failed a.status && expects_passed a.expected_status

abbrev pub flaky_with : Attempt × List Attempt → Bool
flaky_with (f, others) =
    f.finished
    && is_passed f.status
    && expects_passed f.expected_status
    && any failed_unexpectedly others

unfoldable pub is_flaky : List Attempt → Bool
is_flaky [] = false
is_flaky (a ∷ []) = false
is_flaky (a ∷ b ∷ r) = flaky_with (highest a [] (b ∷ r))

abbrev pub or_new {ℓ} : {A : Type ℓ} → Option (List A) → List A
or_new none = []
or_new (some xs) = xs

abbrev pub Groups : Type 0
Groups = Assoc String (List AttemptState)

-- one round of the first loop of `groupExecutions`
abbrev pub group_one : Groups → AttemptState → Groups
group_one groups a =
    let id = a.started.payload.test.execution_id in
    set id (or_new (get id groups) ++ (a ∷ [])) groups

abbrev pub group : Groups → Assoc String AttemptState → Groups
group groups [] = groups
group groups ((_, a) ∷ r) = group (group_one groups a) r

abbrev pub compare_keys {ℓ} : {V : Type ℓ} → String × V → String × V → Ordering
compare_keys a b = compare a.0 b.0

abbrev pub compare_attempts : Attempt → Attempt → Ordering
compare_attempts a b = by_number a.attempt_number b.attempt_number

-- two neighbours with one number
abbrev pub repeats_number : List Attempt → Bool
repeats_number [] = false
repeats_number (a ∷ []) = false
repeats_number (a ∷ b ∷ r) = (a.attempt_number == b.attempt_number) || repeats_number (b ∷ r)

abbrev pub same_identity : Attempt → Attempt → Bool
same_identity first a =
    (a.test.historical_id === first.test.historical_id)
    && (a.test.historical_id_stability === first.test.historical_id_stability)

abbrev pub runner_of : Option SessionState → Option String
runner_of none = none
runner_of (some s) = at (λ r. some r.name) s.started.payload.runner

-- `new Set(xs)`
abbrev pub distinct : List (Option String) → List (Option String) → List (Option String)
distinct seen [] = seen
distinct seen (x ∷ xs) = distinct (if any (λ y. y === x) seen then seen else seen ++ (x ∷ [])) xs

abbrev pub runner_names : Assoc String SessionState → List Attempt → List (Option String)
runner_names sessions list = distinct [] (map (λ a. runner_of (get a.session_id sessions)) list)

abbrev pub first_runner : List (Option String) → Option String
first_runner [] = none
first_runner (r ∷ _) = r

abbrev pub last : Attempt → List Attempt → Attempt
last a [] = a
last a (b ∷ r) = last b r

abbrev pub execution_of : String → Option String → Attempt → List Attempt → TestExecution
execution_of id runner first rest = record {
  execution_id = id;
  runner_name = runner;
  test = first.test;
  attempts = first ∷ rest;
  final_attempt = last first rest;
  complete = all (λ a. a.finished) (first ∷ rest);
  final_status = (last first rest).status;
  flaky = is_flaky (first ∷ rest);
}

-- The second loop of `groupExecutions` on the sorted attempts of one execution; a group without
-- attempts has no first one to read.
unfoldable pub check_execution :
    Assoc String SessionState → String → List Attempt → Projected TestExecution
unfolding is_flaky
check_execution sessions id [] = failed
check_execution sessions id (first ∷ rest) =
    let list = first ∷ rest in
    let names = runner_names sessions list in
    if repeats_number list
    then ambiguous duplicate_attempt_number id
    else if not (all (same_identity first) list)
    then ambiguous historical_identity_changed id
    else if ltb 1 (length names)
    then ambiguous execution_runner_changed id
    else returned (execution_of id (first_runner names) first rest)

abbrev pub sorted_attempts : List AttemptState → List Attempt
sorted_attempts states = sort (at_or_before compare_attempts) (map attempt states)

abbrev pub check_executions : Assoc String SessionState → Groups → Projected (List TestExecution)
check_executions sessions [] = returned []
check_executions sessions ((id, states) ∷ r) =
    check_execution sessions id (sorted_attempts states) >>= λ e.
    check_executions sessions r >>= λ es. returned (e ∷ es)

unfoldable pub group_executions :
    Assoc String AttemptState → Assoc String SessionState → Projected (List TestExecution)
unfolding check_execution
group_executions attempts sessions =
    check_executions sessions (sort (at_or_before compare_keys) (group [] attempts))
