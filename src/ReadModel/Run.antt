-- ===== src/ReadModel/Run.antt =====
-- projector.ts: `projectRun`.
use qe_report.Prelude.{String, Bool, true, false, Option, none, some, List, map}
use qe_report.Prelude.Order.{sort}
use qe_report.Protocol.Model.{Event}
use qe_report.Validator.Finish.{Report, values}
use qe_report.Validator.Directory.{ValidatedRun}
use qe_report.ReadModel.Model.{ProjectedRun, ProjectedSession, ValidatorFacts, TestExecution}
use qe_report.ReadModel.Compare.{compare, at_or_before}
use qe_report.ReadModel.Project.{Projection, no_events, project_events, ordered, compare_emitted}
use qe_report.ReadModel.Executions.{Projected, returned, failed, ◌>>=◌, session, group_executions}
use Prim.Native.Nat.{Ordering}

abbrev pub compare_sessions : ProjectedSession → ProjectedSession → Ordering
compare_sessions a b = compare a.session_id b.session_id

abbrev pub facts : Report → ValidatorFacts
facts r = record {
  complete = r.summary.complete;
  closed = r.summary.closed;
  verdict = r.summary.verdict;
  ignored_events = r.summary.ignored;
  duplicate_events = r.summary.duplicates;
}

abbrev pub run_of :
    String → String → String → Report → Projection → List TestExecution → ProjectedRun
run_of project run directory report s executions = record {
  project_id = project;
  run_id = run;
  run_directory = directory;
  validator = facts report;
  sessions = sort (at_or_before compare_sessions) (map session (values s.sessions));
  executions = executions;
  scope_failures = s.scope_failures;
  attachments = map (λ e. e.reference) (sort (at_or_before compare_emitted) s.emitted);
}

-- after the loop
abbrev pub projected_run :
    String → String → Report → Projection → Option String → Projected ProjectedRun
projected_run project directory report s none = failed
projected_run project directory report s (some run) =
    group_executions s.attempts s.sessions >>= λ executions.
    returned (run_of project run directory report s executions)

abbrev pub project_valid : String → String → Report → Projection → Projected ProjectedRun
project_valid project directory report s = projected_run project directory report s s.run_id

-- `valid` is that of the report; the events are in order.
abbrev pub project_if : Bool → String → String → Report → List Event → Projected ProjectedRun
project_if true project directory report events =
    project_valid project directory report (project_events no_events events)
project_if false project directory report events = failed

unfoldable pub project_run : String → String → ValidatedRun → Projected ProjectedRun
unfolding ordered group_executions
project_run project directory s =
    project_if s.report.valid project directory s.report (ordered s.events)
