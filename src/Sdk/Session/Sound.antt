-- ===== src/Sdk/Session/Sound.antt =====
-- The lifecycle of a session beside the events that its sink has accepted.
use qe_report.Prelude.{
  ℕ, zero, suc, Bool, true, false, Option, none, some, ◌≡◌, refl, subst, sym, if◌then◌else◌,
  is_some,
}
use qe_report.Protocol.Model.{Payload, event_type, SessionFinishedPayload}
use qe_report.Sdk.Session.Model.{
  Options, Session, SessionState, active, session_finished, run_finished, closed, Outcome, Action,
  refuse, ReportProblemKind, terminal_outcome_not_written,
}
use qe_report.Sdk.Session.Write.{WriteAttempt, written, too_large, failed, write}
use qe_report.Sdk.Session.Lifecycle.{
  accepts_in, accepts_session_events, guard, if_accepted, outcome_violation, finished_as,
  write_terminal, reduction, lose_outcome, retry_reduced, after_attempt, finish_with, finish_open,
  finish,
}
use qe_report.Sdk.Session.Recorded.{Recorded, recorded, step, Logged}
use qe_report.Sdk.Session.Order.{Ends, Ends-continue, In, Attempted, Logged-kept, write_rule}

-- A closed session may be in any state of the automaton.
abbrev pub Agrees : SessionState → SessionState → Type 0
Agrees q closed = Unit
Agrees q active = q ≡ active
Agrees q session_finished = q ≡ session_finished
Agrees q run_finished = q ≡ run_finished

module _ {K : Type 0} (c : Options K) where
  abbrev pub Sound : Session (Recorded K) → Type 0
  Sound s = (q : SessionState) × Logged c q s × Agrees q s.lifecycle

  abbrev pub Keeps : {A : Type 0} → Outcome (Recorded K) A → Type 0
  Keeps o = Ends (λ _ s. Sound s) Sound o

  pub refuse_rule :
      (kind : ReportProblemKind) (s : Session (Recorded K)) → Sound s → Keeps (refuse kind s)
  refuse_rule kind s h = (h.0, Logged-kept c h.0 s _ refl refl refl h.1, h.2)

  -- `true` only of an active session
  abbrev pub Accepted : Bool → Session (Recorded K) → Type 0
  Accepted true s = In c active active s
  Accepted false s = Sound s

  accepts_in_rule :
      (l : SessionState) (s : Session (Recorded K))
      → s.lifecycle ≡ l
      → Sound s
      → Ends Accepted Sound (accepts_in l s)
  accepts_in_rule active s e h = (subst (λ q. Logged c q s) (subst (Agrees h.0) e h.2) h.1, e)
  accepts_in_rule session_finished s e h = refuse_rule _ s h
  accepts_in_rule run_finished s e h = refuse_rule _ s h
  accepts_in_rule closed s e h = refuse_rule _ s h

  accepts_if_rule :
      (lost : Bool) (s : Session (Recorded K))
      → Sound s
      → Ends Accepted Sound
          (if lost then refuse terminal_outcome_not_written s else accepts_in s.lifecycle s)
  accepts_if_rule true s h = refuse_rule terminal_outcome_not_written s h
  accepts_if_rule false s h = accepts_in_rule s.lifecycle s refl h

  accepts_rule :
      (s : Session (Recorded K)) → Sound s → Ends Accepted Sound (accepts_session_events s)
  unfolding accepts_session_events
  accepts_rule s h = accepts_if_rule s.terminal_outcome_lost s h

  guard_rule :
      (act : Action (Recorded K) Bool) (b : Bool) (s : Session (Recorded K))
      → ((t : Session (Recorded K)) → In c active active t → Keeps (act t))
      → Accepted b s
      → Keeps (guard act b s)
  guard_rule act true s k h = k s h
  guard_rule act false s k h = h

  pub if_accepted_rule :
      (act : Action (Recorded K) Bool) (s : Session (Recorded K))
      → ((t : Session (Recorded K)) → In c active active t → Keeps (act t))
      → Sound s
      → Keeps (if_accepted act s)
  if_accepted_rule act s k h =
      Ends-continue Accepted (λ _ t. Sound t) Sound Sound (accepts_session_events s) (guard act)
        (λ _ h. h) (λ b t. guard_rule act b t k) (accepts_rule s h)

  In-Sound : (q : SessionState) (s : Session (Recorded K)) → Agrees q q → In c q q s → Sound s
  In-Sound q s a h = (q, h.0, subst (Agrees q) (sym h.1) a)

  lose_outcome_rule : (s : Session (Recorded K)) → In c active active s → Keeps (lose_outcome s)
  lose_outcome_rule s h = In-Sound active _ refl (Logged-kept c active s _ refl refl refl h.0, h.1)

  finished_as_rule :
      (q q' : SessionState) (w : WriteAttempt) (t : Session (Recorded K))
      → Agrees q q
      → Agrees q' q'
      → Attempted c q q' q w t
      → Keeps (finished_as q' w t)
  finished_as_rule q q' written t a a' h = (q', Logged-kept c q' t _ refl refl refl h.0, a')
  finished_as_rule q q' too_large t a a' h = In-Sound q t a h
  finished_as_rule q q' failed t a a' h = In-Sound q t a h

  -- A terminal event that was written moves the lifecycle.
  pub write_terminal_rule :
      (q q' : SessionState) (payload : Payload) (s : Session (Recorded K))
      → Agrees q q
      → Agrees q' q'
      → step q (event_type payload) ≡ some q'
      → In c q q s
      → Keeps (write_terminal (recorded c) payload q' s)
  write_terminal_rule q q' payload s a a' allowed h =
      Ends-continue (Attempted c q q' q) (λ _ t. Sound t) (In c q q) Sound
        (write (recorded c) payload true s) (finished_as q') (λ t. In-Sound q t a)
        (λ w t. finished_as_rule q q' w t a a') (write_rule c q q' q s payload true allowed h)

  -- the loop of `finish`, whatever it retries with
  abbrev Retries : (SessionFinishedPayload → Action (Recorded K) Bool) → Type 0
  Retries retry =
      (p : SessionFinishedPayload) (t : Session (Recorded K))
      → In c active active t
      → Keeps (retry p t)

  retry_reduced_rule :
      (retry : SessionFinishedPayload → Action (Recorded K) Bool)
      (o : Option SessionFinishedPayload) (t : Session (Recorded K))
      → Retries retry
      → In c active active t
      → Keeps (retry_reduced retry o t)
  retry_reduced_rule retry none t k h = lose_outcome_rule t h
  retry_reduced_rule retry (some p) t k h = k p _ (Logged-kept c active t _ refl refl refl h.0, h.1)

  after_attempt_rule :
      (retry : SessionFinishedPayload → Action (Recorded K) Bool) (p : SessionFinishedPayload)
      (w : WriteAttempt) (t : Session (Recorded K))
      → Retries retry
      → Attempted c active session_finished active w t
      → Keeps (after_attempt retry p w t)
  after_attempt_rule retry p written t k h =
      (session_finished, Logged-kept c session_finished t _ refl refl refl h.0, refl)
  after_attempt_rule retry p failed t k h = lose_outcome_rule t h
  after_attempt_rule retry p too_large t k h = retry_reduced_rule retry (reduction p) t k h

  finish_with_rule : (rounds : ℕ) → Retries (finish_with (recorded c) rounds)
  unfolding finish_with step
  finish_with_rule zero p t h = In-Sound active t refl h
  finish_with_rule (suc rounds) p t h =
      Ends-continue (Attempted c active session_finished active) (λ _ u. Sound u)
        (In c active active) Sound (write (recorded c) (Payload.session_finished p) false t)
        (after_attempt (finish_with (recorded c) rounds) p) (λ u. In-Sound active u refl)
        (λ w u.
          after_attempt_rule (finish_with (recorded c) rounds) p w u (finish_with_rule rounds))
        (write_rule c active session_finished active t (Payload.session_finished p) false refl h)

  finish_open_rule :
      (b : Bool) (p : SessionFinishedPayload) (s : Session (Recorded K))
      → In c active active s
      → Keeps (
          if b
          then finish_with (recorded c) 3 p s
          else write_terminal (recorded c) (Payload.session_finished p) session_finished s)
  unfolding step
  finish_open_rule true p s h = finish_with_rule 3 p s h
  finish_open_rule false p s h =
      write_terminal_rule active session_finished (Payload.session_finished p) s refl refl refl h

  finish_if_rule :
      (violated : Bool) (p : SessionFinishedPayload) (s : Session (Recorded K))
      → Sound s
      → Keeps (
          if violated
          then refuse ReportProblemKind.invalid_payload s
          else if_accepted (finish_open (recorded c) p) s)
  finish_if_rule true p s h = refuse_rule ReportProblemKind.invalid_payload s h
  finish_if_rule false p s h =
      if_accepted_rule (finish_open (recorded c) p) s (λ t. finish_open_rule (is_some p.status) p t)
        h

  pub finish_rule :
      (p : SessionFinishedPayload) (s : Session (Recorded K))
      → Sound s
      → Keeps (finish (recorded c) p s)
  unfolding finish
  finish_rule p s h = finish_if_rule (outcome_violation p) p s h
