-- ===== src/Sdk/Session/Lifecycle.antt =====
-- session.ts: the operations that move a session through its lifecycle: `emit`, `finish`, `finishRun`
-- and `close`.
use qe_report.Prelude.{
  ℕ, zero, suc, Bool, true, false, Option, none, some, ◌&&◌, ◌||◌, leb, if◌then◌else◌, is_some,
}
use qe_report.Protocol.Model.{
  SessionStatus, SessionStartedPayload, SessionFinishedPayload, Payload, session_started,
  max_event_bytes,
}
use qe_report.Protocol.Codec.Read.{some_failures}
use qe_report.Sdk.Session.Model.{
  Options, Session, SessionState, active, closed, Outcome, returned, thrown, Action, continue,
  problem, refuse, new_session, event_too_large, sink_failure, invalid_payload,
  terminal_outcome_not_written, ReportProblemKind,
}
use qe_report.Sdk.Session.Write.{WriteAttempt, written, too_large, failed, write, put_sink}

abbrev pub set_lifecycle : {S : Type 0} → SessionState → Session S → Session S
set_lifecycle state s = record s { lifecycle = state }

-- the problem of an event that comes too late
abbrev pub late : SessionState → ReportProblemKind
late SessionState.run_finished = ReportProblemKind.run_finished
late _ = ReportProblemKind.session_finished

abbrev pub accepts_in : {S : Type 0} → SessionState → Action S Bool
accepts_in active s = returned true s
accepts_in state s = refuse (late state) s

unfoldable pub accepts_session_events : {S : Type 0} → Action S Bool
accepts_session_events s =
    if s.terminal_outcome_lost
    then refuse terminal_outcome_not_written s
    else accepts_in s.lifecycle s

-- `if (!this.acceptsSessionEvents(...)) return false`
abbrev pub guard : {S : Type 0} → Action S Bool → Bool → Action S Bool
guard act true s = act s
guard act false s = returned false s

abbrev pub if_accepted : {S : Type 0} → Action S Bool → Action S Bool
if_accepted act s = continue (accepts_session_events s) (guard act)

-- `outcomeViolation(outcome) !== undefined`
unfoldable pub outcome_violation : SessionFinishedPayload → Bool
outcome_violation p = violates p.status
  where
    violates : Option SessionStatus → Bool
    violates none = is_some p.raw_status || some_failures p.failures
    violates (some SessionStatus.passed) = some_failures p.failures
    violates (some _) = false

abbrev pub finished_as : {S : Type 0} → SessionState → WriteAttempt → Action S Bool
finished_as state written s = returned true (set_lifecycle state s)
finished_as state _ s = returned false s

-- a terminal event without an outcome
abbrev pub write_terminal : {S : Type 0} → Options S → Payload → SessionState → Action S Bool
write_terminal c payload state s = continue (write c payload true s) (finished_as state)

-- The outcome with less in it: without failures, then without the raw status.
unfoldable pub reduction : SessionFinishedPayload → Option SessionFinishedPayload
reduction p =
    if some_failures p.failures
    then some (record p { failures = none })
    else if is_some p.raw_status
    then some (record { status = p.status; raw_status = none; failures = none })
    else none

abbrev pub lose_outcome : {S : Type 0} → Action S Bool
lose_outcome s =
    returned false
      (problem terminal_outcome_not_written (record s { terminal_outcome_lost = true }))

abbrev pub retry_reduced :
    {S : Type 0}
    → (SessionFinishedPayload → Action S Bool)
    → Option SessionFinishedPayload
    → Action S Bool
retry_reduced retry none s = lose_outcome s
retry_reduced retry (some q) s = retry q (problem event_too_large s)

abbrev pub after_attempt :
    {S : Type 0}
    → (SessionFinishedPayload → Action S Bool)
    → SessionFinishedPayload
    → WriteAttempt
    → Action S Bool
after_attempt retry p written s = returned true (set_lifecycle SessionState.session_finished s)
after_attempt retry p failed s = lose_outcome s
after_attempt retry p too_large s = retry_reduced retry (reduction p) s

-- The loop of `finish`; a call that runs out of rounds throws.
unfoldable pub finish_with : {S : Type 0} → Options S → ℕ → SessionFinishedPayload → Action S Bool
unfolding write reduction
finish_with c zero p s = thrown s
finish_with c (suc rounds) p s =
    continue (write c (Payload.session_finished p) false s) (after_attempt (finish_with c rounds) p)

abbrev pub finish_open : {S : Type 0} → Options S → SessionFinishedPayload → Action S Bool
finish_open c p s =
    if is_some p.status
    then finish_with c 3 p s
    else write_terminal c (Payload.session_finished p) SessionState.session_finished s

unfoldable pub finish : {S : Type 0} → Options S → SessionFinishedPayload → Action S Bool
unfolding accepts_session_events outcome_violation finish_with
finish c p s =
    if outcome_violation p then refuse invalid_payload s else if_accepted (finish_open c p) s

abbrev pub no_outcome : SessionFinishedPayload
no_outcome = record { status = none; raw_status = none; failures = none }

abbrev pub write_run_finished : {S : Type 0} → Options S → SessionState → Action S Bool
write_run_finished c SessionState.session_finished s =
    write_terminal c Payload.run_finished SessionState.run_finished s
write_run_finished c state s = refuse ReportProblemKind.run_finished s

-- an active session is finished first
abbrev pub finish_run_in : {S : Type 0} → Options S → SessionState → Action S Bool
finish_run_in c active s =
    continue (finish c no_outcome s) (guard λ t. write_run_finished c t.lifecycle t)
finish_run_in c state s = write_run_finished c state s

unfoldable pub finish_run : {S : Type 0} → Options S → Action S Bool
unfolding finish
finish_run c s =
    if s.terminal_outcome_lost
    then refuse terminal_outcome_not_written s
    else finish_run_in c s.lifecycle s

abbrev pub closed_sink : {S : Type 0} → Bool × S → Session S → Session S
closed_sink (true, sink) s = put_sink sink s
closed_sink (false, sink) s = problem sink_failure (put_sink sink s)

abbrev pub close_sink : {S : Type 0} → Options S → Action S (Unit {0})
close_sink c s = returned tt (closed_sink (c.sink.close s.sink) (set_lifecycle closed s))

abbrev pub close_in : {S : Type 0} → Options S → SessionState → Action S (Unit {0})
close_in c closed s = returned tt s
close_in c active s =
    if s.terminal_outcome_lost
    then close_sink c s
    else continue (finish c no_outcome s) (λ _. close_sink c)
close_in c state s = close_sink c s

unfoldable pub close : {S : Type 0} → Options S → Action S (Unit {0})
unfolding finish
close c s = close_in c s.lifecycle s

abbrev pub is_written : {S : Type 0} → WriteAttempt → Action S Bool
is_written written s = returned true s
is_written _ s = returned false s

abbrev pub write_event : {S : Type 0} → Options S → Payload → Action S Bool
write_event c payload s = continue (write c payload true s) is_written

unfoldable pub emit : {S : Type 0} → Options S → Payload → Action S Bool
unfolding finish finish_run
emit c Payload.run_finished s = finish_run c s
emit c (Payload.session_finished p) s = finish c p s
emit c payload s = if_accepted (write_event c payload) s

-- `start`: the limit is checked, and `session.started` emitted. No session comes of an exception.
abbrev pub opened : {S : Type 0} → Outcome S Bool → Option (Session S)
opened (returned _ s) = some s
opened (thrown s) = none

unfoldable pub start : {S : Type 0} → Options S → SessionStartedPayload → S → Option (Session S)
unfolding emit
start c payload sink =
    if leb 1 c.max_event_bytes && leb c.max_event_bytes max_event_bytes
    then opened (emit c (session_started payload) (new_session sink))
    else none
