-- ===== src/ReadModel/Tests.antt =====
-- Runs and attempts to which the theorems on the read model are applied.
use mathlib.Core.List.{Permᴰ}
use qe_report.Prelude.{ℕ, String, true, false, Option, none, some, List, [], ◌∷◌, ◌≡◌, refl}
use qe_report.Prelude.Assoc.{Assoc}
use qe_report.Protocol.Model.{
  Event, Payload, session_started, attempt_started, TestCase, uncertain, SessionStartedPayload,
  AttemptStartedPayload, AttemptFinishedPayload, Status,
}
use qe_report.Validator.Finish.{Report, Verdict}
use qe_report.ReadModel.Project.{SessionState, AttemptState}
use qe_report.ReadModel.Run.{project_run}
use qe_report.ReadModel.Independent.{OnePlaceEach, project_run-perm}
use Prim.Native.String.{◌++◌}
use qe_report.Prelude.{All, arith}
use qe_report.ReadModel.Model.{ProjectedRun}
use qe_report.ReadModel.Assemble.{Seams, ReadModelBuild, assemble}
use qe_report.ReadModel.Accounted.{Accounted, NotPreferred, assemble-Accounted}
use qe_report.Prelude.Sorting.{Pairwise}
use qe_report.ReadModel.Standings.{Agrees}
use qe_report.ReadModel.AnyOrder.{model_of, assemble-perm}

abbrev event : ℕ → Payload → Event
event n p = record {
  protocol_version = "0.3.0";
  event_id = "e";
  run_id = "run-1";
  session_id = "s-1";
  sequence = n;
  occurred_at = "2024-01-02T03:04:05Z";
  ignorable = none;
  payload = p;
}

abbrev case : TestCase
case = record {
  execution_id = "x-1";
  historical_id = some "h-1";
  historical_id_stability = uncertain;
  display_name = "adds";
  path = [];
  location = none;
  tags = none;
  labels = none;
}

abbrev started : SessionStartedPayload
started = record {
  producer = record { name = "sdk"; version = none };
  runner = some (record { name = "runner"; version = none });
  environment = none;
  executor = none;
  source = none;
  labels = none;
}

abbrev begun : String → ℕ → AttemptStartedPayload
begun id n = record { attempt_id = id; attempt_number = n; test = case }

abbrev ended : String → Status → AttemptFinishedPayload
ended id status = record {
  attempt_id = id;
  status = status;
  raw_status = none;
  expected_status = none;
  duration_ms = none;
  failures = none;
}

abbrev second_session : Event
second_session = record (event 1 (session_started started)) { session_id = "s-2" }

abbrev fed : List Event
fed =
    event 2 (attempt_started (begun "a-1" 1))
    ∷ event 1 (session_started started)
    ∷ second_session
    ∷ []

abbrev fed_otherwise : List Event
fed_otherwise =
    event 1 (session_started started)
    ∷ event 2 (attempt_started (begun "a-1" 1))
    ∷ second_session
    ∷ []

abbrev report : Report
report = record {
  valid = true;
  diagnostics = [];
  summary = record {
    files = 1;
    events = 2;
    sessions = 1;
    attempts = 1;
    steps = 0;
    attachments = 0;
    failed_attempts = 0;
    scope_failures = 0;
    failed_sessions = 0;
    inconclusive_sessions = 0;
    session_failures = 0;
    ignored = 0;
    duplicates = 0;
    complete = false;
    closed = false;
    verdict = Verdict.incomplete;
  };
}

fed_apart : OnePlaceEach fed
fed_apart = (((λ s n. absurd (omega (arith, n))), ((λ s n. cc), tt)), (((λ s n. cc), tt), (tt, tt)))

project_run-perm_example :
    project_run "p" "runs/1" (record { report = report; events = fed; source_lines = [] })
    ≡ project_run "p" "runs/1"
        (record { report = report; events = fed_otherwise; source_lines = [] })
project_run-perm_example =
    project_run-perm "p" "runs/1" report fed fed_otherwise [] [] (Permᴰ.swap refl refl) fed_apart

abbrev open_sessions : Assoc String SessionState
open_sessions =
    (
      "s-1",
      record {
        started = record { event = event 1 (session_started started); payload = started };
        finished = none;
        execution_ids = [];
      },
    )
    ∷ []

abbrev state : String → ℕ → Status → AttemptState
state id n status = record {
  started = record { event = event n (attempt_started (begun id n)); payload = begun id n };
  finished =
      some (record { event = event n (attempt_started (begun id n)); payload = ended id status });
  steps = [];
  steps_by_id = [];
  attachments = [];
}

abbrev states : Assoc String AttemptState
states = ("a-2", state "a-2" 2 Status.passed) ∷ ("a-1", state "a-1" 1 Status.failed) ∷ []

abbrev pub joined : List String → String
joined [] = ""
joined (s ∷ l) = s ++ ("," ++ joined l)

abbrev seams : Seams
seams = record { stringify = joined; instant = λ s. none }

abbrev pub run : String → ProjectedRun
run directory = record {
  project_id = "p";
  run_id = "run-1";
  run_directory = directory;
  validator = record {
    complete = true;
    closed = true;
    verdict = Verdict.passed;
    ignored_events = 0;
    duplicate_events = 0;
  };
  sessions = [];
  executions = [];
  scope_failures = [];
  attachments = [];
}

abbrev runs : List ProjectedRun
runs = run "a" ∷ run "b" ∷ run "a" ∷ []

built : (b : ReadModelBuild) × (assemble seams runs ≡ some b)
unfolding assemble qe_report.Prelude.Assoc.get qe_report.Prelude.Assoc.set
    qe_report.Prelude.Order.sort
built = (_, refl)

assemble-Accounted_example :
    All (Accounted seams built.0.model.runs_by_key built.0.problems) runs
    × All (λ r. All (NotPreferred seams built.0.model.runs_by_key r) runs) runs
assemble-Accounted_example = assemble-Accounted seams runs built.0 built.1

abbrev another : ProjectedRun
another = record (run "c") { run_id = "run-2" }

three_agree : Pairwise (Agrees seams) (run "a" ∷ another ∷ run "b" ∷ [])
three_agree = (((λ k d. cc), ((λ k d. cc), tt)), (((λ k d. cc), tt), (tt, tt)))

assemble-perm_example :
    model_of (assemble seams (run "a" ∷ another ∷ run "b" ∷ []))
    ≡ model_of (assemble seams (another ∷ run "a" ∷ run "b" ∷ []))
assemble-perm_example = assemble-perm seams (Permᴰ.swap refl refl) three_agree
