-- ===== src/Sdk/Session/Escapes.antt =====
-- session.ts: the exceptions that leave a call on a session.
use qe_report.Prelude.{Bool, true, false, ◌≡◌, refl, ◌⊎◌, if◌then◌else◌, ltb}
use qe_report.Prelude.Int.{pos}
use qe_report.Protocol.Errors.{ProtocolError, Result, ok, err}
use qe_report.Protocol.Model.{Payload, Event, SessionFinishedPayload, attachment_added}
use qe_report.Sdk.Redactor.{redact_event}
use qe_report.Sdk.Session.Model.{
  StoredAttachment, Options, Session, SessionState, active, session_finished, run_finished, closed,
  Outcome, returned, thrown, Action, continue,
}
use qe_report.Sdk.Session.Write.{
  WriteAttempt, written, too_large, failed, candidate, event_bytes, settle, send, send_redacted,
  tick, write,
}
use qe_report.Sdk.Session.Lifecycle.{
  accepts_in, accepts_session_events, guard, if_accepted, is_written, finished_as, write_terminal,
  no_outcome,
}
use qe_report.Sdk.Session.Attach.{AttachmentInput}

-- the events that a call makes: of `finish`, with the status that it was given
abbrev pub FinishOf : SessionFinishedPayload → Payload → Type 0
FinishOf p q =
    (r : SessionFinishedPayload) × (q ≡ Payload.session_finished r) × (r.status ≡ p.status)

abbrev pub RunOf : Payload → Type 0
RunOf q = FinishOf no_outcome q ⊎ (q ≡ Payload.run_finished)

abbrev pub EmitOf : Payload → Payload → Type 0
EmitOf (Payload.session_finished p) q = FinishOf p q
EmitOf Payload.run_finished q = RunOf q
EmitOf p q = q ≡ p

abbrev pub AttachOf : AttachmentInput → Payload → Type 0
AttachOf input q =
    (a : StoredAttachment) × (q
      ≡ attachment_added (record {
        attempt_id = input.attempt_id;
        step_id = input.step_id;
        name = input.name;
        media_type = input.media_type;
        size_bytes = pos a.size_bytes;
        sha256 = a.sha256;
      }))

module _ {S : Type 0} (c : Options S) where
  -- An exception is the codec's, on an event with a payload in `P`, and nothing has happened since the
  -- envelope of this event was filled.
  abbrev pub Escapes : {A : Type 0} → (Payload → Type 0) → Outcome S A → Type 0
  Escapes P (returned a s) = Unit
  Escapes P (thrown s) =
      (q : Payload) × P q
      × (t : Session S) × (s ≡ tick t)
      × (e : ProtocolError) × (redact_event c.redactor (candidate c q t) ≡ err e)

  pub continue-Escapes :
      {A B : Type 0} (P : Payload → Type 0) (o : Outcome S A) (f : A → Action S B)
      → Escapes P o
      → ((a : A) (s : Session S) → Escapes P (f a s))
      → Escapes P (continue o f)
  continue-Escapes P (returned a s) f h k = k a s
  continue-Escapes P (thrown s) f h k = h

  pub either :
      {A : Type 0} (P : Payload → Type 0) (b : Bool) (x y : Outcome S A)
      → Escapes P x
      → Escapes P y
      → Escapes P (if b then x else y)
  either P true x y h k = h
  either P false x y h k = k

  settle-Escapes : (P : Payload → Type 0) (r : Bool × S) (s : Session S) → Escapes P (settle r s)
  settle-Escapes P (true, k) s = tt
  settle-Escapes P (false, k) s = tt

  redacted-Escapes :
      (P : Payload → Type 0) (p : Payload) (r : Result Event) (report : Bool) (s : Session S)
      → P p
      → redact_event c.redactor (candidate c p s) ≡ r
      → Escapes P (send_redacted c r report (tick s))
  unfolding send
  redacted-Escapes P p (ok e) report s h k =
      either P (ltb c.max_event_bytes (event_bytes c e)) _ _ tt
        (settle-Escapes P (c.sink.write e s.sink) (tick s))
  redacted-Escapes P p (err e) report s h k = (p, h, s, refl, e, k)

  pub write-Escapes :
      (P : Payload → Type 0) (p : Payload) (report : Bool) (s : Session S)
      → P p
      → Escapes P (write c p report s)
  unfolding write
  write-Escapes P p report s h =
      redacted-Escapes P p (redact_event c.redactor (candidate c p s)) report s h refl

  accepts_in-Escapes :
      (P : Payload → Type 0) (l : SessionState) (s : Session S) → Escapes P (accepts_in l s)
  accepts_in-Escapes P active s = tt
  accepts_in-Escapes P session_finished s = tt
  accepts_in-Escapes P run_finished s = tt
  accepts_in-Escapes P closed s = tt

  pub guard-Escapes :
      (P : Payload → Type 0) (act : Action S Bool) (b : Bool) (s : Session S)
      → ((t : Session S) → Escapes P (act t))
      → Escapes P (guard act b s)
  guard-Escapes P act true s h = h s
  guard-Escapes P act false s h = tt

  pub if_accepted-Escapes :
      (P : Payload → Type 0) (act : Action S Bool) (s : Session S)
      → ((t : Session S) → Escapes P (act t))
      → Escapes P (if_accepted act s)
  unfolding accepts_session_events
  if_accepted-Escapes P act s h =
      continue-Escapes P (accepts_session_events s) (guard act)
        (either P s.terminal_outcome_lost _ _ tt (accepts_in-Escapes P s.lifecycle s))
        (λ b t. guard-Escapes P act b t h)

  pub is_written-Escapes :
      (P : Payload → Type 0) (w : WriteAttempt) (s : Session S) → Escapes P (is_written w s)
  is_written-Escapes P written s = tt
  is_written-Escapes P too_large s = tt
  is_written-Escapes P failed s = tt

  finished_as-Escapes :
      (P : Payload → Type 0) (l : SessionState) (w : WriteAttempt) (s : Session S)
      → Escapes P (finished_as l w s)
  finished_as-Escapes P l written s = tt
  finished_as-Escapes P l too_large s = tt
  finished_as-Escapes P l failed s = tt

  pub write_terminal-Escapes :
      (P : Payload → Type 0) (p : Payload) (l : SessionState) (s : Session S)
      → P p
      → Escapes P (write_terminal c p l s)
  write_terminal-Escapes P p l s h =
      continue-Escapes P (write c p true s) (finished_as l) (write-Escapes P p true s h)
        (finished_as-Escapes P l)
