-- ===== src/Sdk/Session/Silent.antt =====
-- The problems that each call on a session owes for the events it drops.
use qe_report.Prelude.{
  ℕ, zero, suc, Bool, true, false, Option, none, some, arith, if◌then◌else◌, is_some,
}
use qe_report.Protocol.Model.{Payload, SessionFinishedPayload}
use qe_report.Sdk.Session.Model.{
  Options, Session, SessionState, active, session_finished, run_finished, closed, Action, problem,
  refuse, ReportProblemKind, terminal_outcome_not_written, event_too_large,
}
use qe_report.Sdk.Session.Write.{WriteAttempt, written, too_large, failed, write}
use qe_report.Sdk.Session.Lifecycle.{
  guard, if_accepted, outcome_violation, finished_as, write_terminal, reduction, retry_reduced,
  after_attempt, finish_with, finish_open, finish, no_outcome, write_run_finished, finish_run_in,
  finish_run,
}
use qe_report.Sdk.Session.Order.{Ends-continue}
use qe_report.Sdk.Session.Told.{
  Owing, Told, Tells, problem-Told, refuse-Told, Attempt, write-Told, write_then-Told,
  if_accepted-Told,
}

module _ {S : Type 0} (c : Options S) where
  pub problem_too : (kind : ReportProblemKind) (s : Session S) → Told s → Told (problem kind s)
  problem_too kind s h = problem-Told kind 0 s (omega arith)

  finished_as-Told :
      (q : SessionState) (w : WriteAttempt) (t : Session S) → Told t → Tells (finished_as q w t)
  finished_as-Told q written t h = h
  finished_as-Told q too_large t h = h
  finished_as-Told q failed t h = h

  write_terminal-Told :
      (p : Payload) (q : SessionState) (s : Session S) → Told s → Tells (write_terminal c p q s)
  write_terminal-Told p q s h = write_then-Told c p s (finished_as q) (finished_as-Told q) h

  abbrev Retried : (SessionFinishedPayload → Action S Bool) → Type 0
  Retried retry = (p : SessionFinishedPayload) (t : Session S) → Told t → Tells (retry p t)

  -- a retry reports the event that was too large
  retry_reduced-Told :
      (retry : SessionFinishedPayload → Action S Bool) (o : Option SessionFinishedPayload)
      (t : Session S)
      → Retried retry
      → Owing 1 t
      → Tells (retry_reduced retry o t)
  retry_reduced-Told retry none t k h = problem-Told terminal_outcome_not_written 0 t h
  retry_reduced-Told retry (some p) t k h = k p _ (problem-Told event_too_large 0 t h)

  after_attempt-Told :
      (retry : SessionFinishedPayload → Action S Bool) (p : SessionFinishedPayload)
      (w : WriteAttempt) (t : Session S)
      → Retried retry
      → Attempt false w t
      → Tells (after_attempt retry p w t)
  after_attempt-Told retry p written t k h = h
  after_attempt-Told retry p failed t k h = problem_too terminal_outcome_not_written t h
  after_attempt-Told retry p too_large t k h = retry_reduced-Told retry (reduction p) t k h

  finish_with-Told : (rounds : ℕ) → Retried (finish_with c rounds)
  unfolding finish_with
  finish_with-Told zero p t h = h
  finish_with-Told (suc rounds) p t h =
      Ends-continue (Attempt false) (λ _ u. Told u) Told Told
        (write c (Payload.session_finished p) false t) (after_attempt (finish_with c rounds) p)
        (λ _ h. h)
        (λ w u. after_attempt-Told (finish_with c rounds) p w u (finish_with-Told rounds))
        (write-Told c (Payload.session_finished p) false t h)

  finish_open-Told :
      (b : Bool) (p : SessionFinishedPayload) (s : Session S)
      → Told s
      → Tells (
          if b
          then finish_with c 3 p s
          else write_terminal c (Payload.session_finished p) session_finished s)
  finish_open-Told true p s h = finish_with-Told 3 p s h
  finish_open-Told false p s h =
      write_terminal-Told (Payload.session_finished p) session_finished s h

  finish_if-Told :
      (violated : Bool) (p : SessionFinishedPayload) (s : Session S)
      → Told s
      → Tells (
          if violated
          then refuse ReportProblemKind.invalid_payload s
          else if_accepted (finish_open c p) s)
  finish_if-Told true p s h = refuse-Told ReportProblemKind.invalid_payload s h
  finish_if-Told false p s h =
      if_accepted-Told (finish_open c p) s (λ t. finish_open-Told (is_some p.status) p t) h

  pub finish-Told : (p : SessionFinishedPayload) (s : Session S) → Told s → Tells (finish c p s)
  unfolding finish
  finish-Told p s h = finish_if-Told (outcome_violation p) p s h

  write_run_finished-Told :
      (l : SessionState) (s : Session S) → Told s → Tells (write_run_finished c l s)
  write_run_finished-Told session_finished s h =
      write_terminal-Told Payload.run_finished run_finished s h
  write_run_finished-Told active s h = refuse-Told _ s h
  write_run_finished-Told run_finished s h = refuse-Told _ s h
  write_run_finished-Told closed s h = refuse-Told _ s h

  guarded_run-Told :
      (b : Bool) (t : Session S)
      → Told t
      → Tells (guard (λ u. write_run_finished c u.lifecycle u) b t)
  guarded_run-Told true t h = write_run_finished-Told t.lifecycle t h
  guarded_run-Told false t h = h

  finish_run_in-Told : (l : SessionState) (s : Session S) → Told s → Tells (finish_run_in c l s)
  finish_run_in-Told active s h =
      Ends-continue (λ _ t. Told t) (λ _ t. Told t) Told Told (finish c no_outcome s) _ (λ _ h. h)
        guarded_run-Told (finish-Told no_outcome s h)
  finish_run_in-Told session_finished s h = write_run_finished-Told session_finished s h
  finish_run_in-Told run_finished s h = write_run_finished-Told run_finished s h
  finish_run_in-Told closed s h = write_run_finished-Told closed s h

  finish_run_if-Told :
      (lost : Bool) (s : Session S)
      → Told s
      → Tells
          (if lost then refuse terminal_outcome_not_written s else finish_run_in c s.lifecycle s)
  finish_run_if-Told true s h = refuse-Told terminal_outcome_not_written s h
  finish_run_if-Told false s h = finish_run_in-Told s.lifecycle s h

  pub finish_run-Told : (s : Session S) → Told s → Tells (finish_run c s)
  unfolding finish_run
  finish_run-Told s h = finish_run_if-Told s.terminal_outcome_lost s h
