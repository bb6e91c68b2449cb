-- ===== src/Sdk/Session/Told.antt =====
-- session.ts: the problems that dropped events owe.
use qe_report.Prelude.{
  ℕ, ◌+◌, ◌≤◌, Bool, true, false, [], ◌∷◌, length, length-append, arith, if◌then◌else◌, ltb,
}
use qe_report.Protocol.Errors.{Result, ok, err}
use qe_report.Protocol.Model.{Payload, Event}
use qe_report.Sdk.Redactor.{redact_event}
use qe_report.Sdk.Session.Model.{
  Options, Session, SessionState, active, session_finished, run_finished, closed, Outcome, returned,
  Action, continue, problem, drop, refuse, ReportProblemKind, event_too_large, sink_failure,
  terminal_outcome_not_written,
}
use qe_report.Sdk.Session.Write.{
  WriteAttempt, written, too_large, failed, candidate, event_bytes, report_size, put_sink, settle,
  send, send_redacted, tick, write,
}
use qe_report.Sdk.Session.Lifecycle.{accepts_in, accepts_session_events, guard, if_accepted}
use qe_report.Sdk.Session.Order.{Ends, Ends-continue}

-- Every dropped event has a problem of its own; `n` problems are still owed.
abbrev pub Owing : {S : Type 0} → ℕ → Session S → Type 0
Owing n s = s.dropped ≤ length s.problems + n

abbrev pub Told : {S : Type 0} → Session S → Type 0
Told s = Owing 0 s

abbrev pub Tells : {S A : Type 0} → Outcome S A → Type 0
Tells o = Ends (λ _ s. Told s) Told o

module _ {S : Type 0} where
  pub problem-Told :
      (kind : ReportProblemKind) (n : ℕ) (s : Session S)
      → Owing (n + 1) s
      → Owing n (problem kind s)
  problem-Told kind n s h = omega (arith, length-append s.problems (kind ∷ []))

  Told-more : (n : ℕ) (s : Session S) → Told s → Owing n s
  Told-more n s h = omega arith

  pub refuse-Told :
      (kind : ReportProblemKind) (s : Session S) → Told s → Told (problem kind (drop s))
  refuse-Told kind s h = problem-Told kind 0 (drop s) (omega arith)

  -- what a write owes: the report of an event that was too large, where it was not to be reported
  abbrev pub Attempt : Bool → WriteAttempt → Session S → Type 0
  Attempt false too_large s = Owing 1 s
  Attempt _ _ s = Told s

  settle-Told :
      (report : Bool) (r : Bool × S) (s : Session S)
      → Told s
      → Ends (Attempt report) Told (settle r s)
  settle-Told true (true, k) s h = h
  settle-Told true (false, k) s h = refuse-Told sink_failure (put_sink k s) h
  settle-Told false (true, k) s h = h
  settle-Told false (false, k) s h = refuse-Told sink_failure (put_sink k s) h

  send_if-Told :
      (c : Options S) (e : Event) (report big : Bool) (s : Session S)
      → Told s
      → Ends (Attempt report) Told (
          if big
          then returned too_large (report_size report (drop s))
          else settle (c.sink.write e s.sink) s)
  send_if-Told c e true true s h = refuse-Told event_too_large s h
  send_if-Told c e false true s h = omega arith
  send_if-Told c e report false s h = settle-Told report _ s h

  send_redacted-Told :
      (c : Options S) (r : Result Event) (report : Bool) (s : Session S)
      → Told s
      → Ends (Attempt report) Told (send_redacted c r report s)
  unfolding send
  send_redacted-Told c (err _) report s h = h
  send_redacted-Told c (ok e) report s h =
      send_if-Told c e report (ltb c.max_event_bytes (event_bytes c e)) s h

  pub write-Told :
      (c : Options S) (p : Payload) (report : Bool) (s : Session S)
      → Told s
      → Ends (Attempt report) Told (write c p report s)
  unfolding write
  write-Told c p report s h =
      send_redacted-Told c (redact_event c.redactor (candidate c p s)) report (tick s) h

  Attempt-Told : (w : WriteAttempt) (s : Session S) → Attempt true w s → Told s
  Attempt-Told written s h = h
  Attempt-Told too_large s h = h
  Attempt-Told failed s h = h

  -- a write that reports what it drops, and anything that tells after it
  pub write_then-Told :
      {A : Type 0} (c : Options S) (p : Payload) (s : Session S) (f : WriteAttempt → Action S A)
      → ((w : WriteAttempt) (t : Session S) → Told t → Tells (f w t))
      → Told s
      → Tells (continue (write c p true s) f)
  write_then-Told c p s f k h =
      Ends-continue (Attempt true) (λ _ t. Told t) Told Told (write c p true s) f (λ _ h. h)
        (λ w t a. k w t (Attempt-Told w t a)) (write-Told c p true s h)

  accepts_in-Told : (l : SessionState) (s : Session S) → Told s → Tells (accepts_in l s)
  accepts_in-Told active s h = h
  accepts_in-Told session_finished s h = refuse-Told _ s h
  accepts_in-Told run_finished s h = refuse-Told _ s h
  accepts_in-Told closed s h = refuse-Told _ s h

  accepts_if-Told :
      (lost : Bool) (s : Session S)
      → Told s
      → Tells (if lost then refuse terminal_outcome_not_written s else accepts_in s.lifecycle s)
  accepts_if-Told true s h = refuse-Told terminal_outcome_not_written s h
  accepts_if-Told false s h = accepts_in-Told s.lifecycle s h

  guard-Told :
      (act : Action S Bool) (b : Bool) (s : Session S)
      → ((t : Session S) → Told t → Tells (act t))
      → Told s
      → Tells (guard act b s)
  guard-Told act true s k h = k s h
  guard-Told act false s k h = h

  pub if_accepted-Told :
      (act : Action S Bool) (s : Session S)
      → ((t : Session S) → Told t → Tells (act t))
      → Told s
      → Tells (if_accepted act s)
  unfolding accepts_session_events
  if_accepted-Told act s k h =
      Ends-continue (λ _ t. Told t) (λ _ t. Told t) Told Told (accepts_session_events s) (guard act)
        (λ _ h. h) (λ b t. guard-Told act b t k) (accepts_if-Told s.terminal_outcome_lost s h)
