-- ===== src/Sdk/Session/Order.antt =====
-- The order of the accepted events under each operation of a session.
use qe_report.Prelude.{
  ◌+◌, Bool, true, false, some, [], ◌∷◌, ◌++◌, ◌≡◌, refl, length, length-append, All-append, arith,
  ltb, Bool-cases, inl, inr, ap, ◌∙◌,
}
use qe_report.Protocol.Errors.{Result, ok, err}
use qe_report.Protocol.Model.{Payload, Event, event_type}
use qe_report.Sdk.Envelope.{SameEnvelope, redact_event-SameEnvelope}
use qe_report.Sdk.Redactor.{redact_event}
use qe_report.Sdk.Session.Model.{
  Options, Session, SessionState, Outcome, returned, thrown, Action, continue, after, drop,
}
use qe_report.Sdk.Session.Write.{
  WriteAttempt, written, candidate, event_bytes, report_size, settle, send, send_redacted, tick,
  write,
}
use qe_report.Sdk.Session.Recorded.{
  Recorded, record_write, recorded, log, step, replay-append, Numbered-append, Owned, Logged,
}

-- a property of a returned value and its state, and one of the state of an exception
abbrev pub Ends {ℓ} :
    {S A : Type 0} → (A → Session S → Type ℓ) → (Session S → Type ℓ) → Outcome S A → Type ℓ
Ends P Q (returned a s) = P a s
Ends P Q (thrown s) = Q s

pub Ends-continue {ℓ} :
    {S A B : Type 0} (P : A → Session S → Type ℓ) (R : B → Session S → Type ℓ)
    (Q Q' : Session S → Type ℓ) (o : Outcome S A) (f : A → Action S B)
    → ((s : Session S) → Q s → Q' s)
    → ((a : A) (s : Session S) → P a s → Ends R Q' (f a s))
    → Ends P Q o
    → Ends R Q' (continue o f)
Ends-continue P R Q Q' (returned a s) f weaken k h = k a s h
Ends-continue P R Q Q' (thrown s) f weaken k h = weaken s h

pub Ends-after {ℓ} :
    {S A : Type 0} (Q : Session S → Type ℓ) (o : Outcome S A) → Ends (λ _ s. Q s) Q o → Q (after o)
Ends-after Q (returned a s) h = h
Ends-after Q (thrown s) h = h

module _ {K : Type 0} (c : Options K) where
  -- a session in the given state of the automaton and of its lifecycle
  abbrev pub In : SessionState → SessionState → Session (Recorded K) → Type 0
  In q l s = Logged c q s × (s.lifecycle ≡ l)

  -- What leaves the log and the counters alone.
  pub Logged-kept :
      (q : SessionState) (s t : Session (Recorded K))
      → log t ≡ log s
      → t.sequence ≡ s.sequence
      → t.written ≡ s.written
      → Logged c q s
      → Logged c q t
  Logged-kept q s t same n w h = record {
    numbered = rw same h.numbered;
    sequence = rw (same, n) h.sequence;
    written = rw (same, w) h.written;
    owned = rw same h.owned;
    reached = rw same h.reached;
  }

  -- An event of the session with the next number is appended.
  Logged-append :
      (q q' : SessionState) (s t : Session (Recorded K)) (e : Event)
      → log t ≡ log s ++ e ∷ []
      → t.sequence ≡ s.sequence + 1
      → t.written ≡ s.written + 1
      → Owned c e
      → e.sequence ≡ s.sequence + 1
      → step q (event_type e.payload) ≡ some q'
      → Logged c q s
      → Logged c q' t
  Logged-append q q' s t e grown next more owned number allowed h =
      let longer : length (log t) ≡ length (log s) + 1 =
        ap length grown ∙ length-append (log s) (e ∷ []) in
      record {
        numbered =
            rw grown (Numbered-append 0 (log s) e h.numbered (omega (arith, number, h.sequence)));
        sequence = omega (arith, next, longer, h.sequence);
        written = omega (arith, more, longer, h.written);
        owned = rw grown (All-append (Owned c) (log s) (e ∷ []) h.owned (owned, tt));
        reached = rw grown (rw (replay-append, h.reached) allowed);
      }

  -- What a write ends in: the event is appended, or nothing is.
  abbrev pub Attempted :
      SessionState → SessionState → SessionState → WriteAttempt → Session (Recorded K) → Type 0
  Attempted q q' l written s = In q' l s
  Attempted q q' l _ s = In q l s

  settle_rule :
      (q q' l : SessionState) (s : Session (Recorded K)) (e : Event) (r : Bool × K)
      → Owned c e
      → e.sequence ≡ s.sequence + 1
      → step q (event_type e.payload) ≡ some q'
      → In q l s
      → Ends (Attempted q q' l) (In q l) (settle (record_write e (log s) r) s)
  settle_rule q q' l s e (true, k) owned number allowed h =
      (Logged-append q q' s _ e refl refl refl owned number allowed h.0, h.1)
  settle_rule q q' l s e (false, k) owned number allowed h =
      (Logged-kept q s _ refl refl refl h.0, h.1)

  report_size_rule :
      (report : Bool) (q l : SessionState) (s : Session (Recorded K))
      → In q l s
      → In q l (report_size report (drop s))
  report_size_rule true q l s h = (Logged-kept q s _ refl refl refl h.0, h.1)
  report_size_rule false q l s h = (Logged-kept q s _ refl refl refl h.0, h.1)

  send_rule :
      (q q' l : SessionState) (s : Session (Recorded K)) (e : Event) (report : Bool)
      → Owned c e
      → e.sequence ≡ s.sequence + 1
      → step q (event_type e.payload) ≡ some q'
      → In q l s
      → Ends (Attempted q q' l) (In q l) (send (recorded c) e report s)
  unfolding send
  send_rule q q' l s e report owned number allowed h =
      elim (Bool-cases (ltb c.max_event_bytes (event_bytes (recorded c) e))) [
        | inl big ↦ rw (big, send) (report_size_rule report q l s h)
        | inr fits ↦ rw (fits, send) (settle_rule q q' l s e _ owned number allowed h)
      ]

  send_redacted_rule :
      (q q' l : SessionState) (s : Session (Recorded K)) (a : Event) (r : Result Event)
      (report : Bool)
      → ((b : Event) → r ≡ ok b → SameEnvelope a b)
      → Owned c a
      → a.sequence ≡ s.sequence + 1
      → step q (event_type a.payload) ≡ some q'
      → In q l s
      → Ends (Attempted q q' l) (In q l) (send_redacted (recorded c) r report s)
  send_redacted_rule q q' l s a (err _) report same owned number allowed h = h
  send_redacted_rule q q' l s a (ok b) report same owned number allowed h =
      let e : SameEnvelope a b = same b refl in
      send_rule q q' l s b report (e.run_id ∙ owned.0, e.session_id ∙ owned.1) (e.sequence ∙ number)
        (ap (step q) e.type ∙ allowed) h

  -- One write of an event that the automaton allows.
  pub write_rule :
      (q q' l : SessionState) (s : Session (Recorded K)) (payload : Payload) (report : Bool)
      → step q (event_type payload) ≡ some q'
      → In q l s
      → Ends (Attempted q q' l) (In q l) (write (recorded c) payload report s)
  unfolding write
  write_rule q q' l s payload report allowed h =
      let a : Event = candidate (recorded c) payload s in
      send_redacted_rule q q' l (tick s) a (redact_event c.redactor a) report
        (λ b e. redact_event-SameEnvelope c.redactor a refl e) (refl, refl) refl allowed
        (Logged-kept q s _ refl refl refl h.0, h.1)
