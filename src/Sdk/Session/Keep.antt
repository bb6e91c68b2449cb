-- ===== src/Sdk/Session/Keep.antt =====
-- The agreement of lifecycle and events under each call on a session.
use qe_report.Prelude.{Bool, true, false, Option, none, some, ◌≡◌, refl, subst, sym, if◌then◌else◌}
use qe_report.Protocol.Model.{
  Payload, session_started, attempt_started, attempt_finished, step_started, step_finished,
  attachment_added, scope_failed, unknown, event_type,
}
use qe_report.Sdk.Session.Model.{
  Bytes, StoreResult, stored, attachment_too_large, store_failure, Options, Session, SessionState,
  active, session_finished, run_finished, closed, Outcome, returned, thrown, continue, refuse,
  terminal_outcome_not_written,
}
use qe_report.Sdk.Session.Write.{WriteAttempt, written, too_large, failed, write, put_sink}
use qe_report.Sdk.Session.Lifecycle.{
  set_lifecycle, guard, if_accepted, finish, no_outcome, write_run_finished, finish_run_in,
  finish_run, closed_sink, close_sink, close_in, close, is_written, write_event, emit,
}
use qe_report.Sdk.Session.Attach.{
  AttachmentInput, after_store, attach, FileRead, chunks, read_error, attach_read, attach_found,
  caught, resume_attach,
}
use qe_report.Sdk.Session.Calls.{
  is_event_input, Call, emit_call, finish_call, finish_run_call, close_call, attach_call,
  attach_file_sync_call, attach_text_file_call, resume_attach_call, call,
}
use qe_report.Sdk.Session.Recorded.{Recorded, recorded, beside_log, log, step, Logged}
use qe_report.Sdk.Session.Order.{Ends-continue, Ends-after, In, Attempted, Logged-kept, write_rule}
use qe_report.Sdk.Session.Sound.{
  Agrees, Sound, Keeps, refuse_rule, if_accepted_rule, write_terminal_rule, finish_rule,
}

module _ {K : Type 0} (c : Options K) where
  -- what changes neither the log, nor the counters, nor the lifecycle
  Sound-kept :
      (s t : Session (Recorded K))
      → log t ≡ log s
      → t.sequence ≡ s.sequence
      → t.written ≡ s.written
      → t.lifecycle ≡ s.lifecycle
      → Sound c s
      → Sound c t
  Sound-kept s t same n w l h =
      (h.0, Logged-kept c h.0 s t same n w h.1, subst (Agrees h.0) (sym l) h.2)

  write_run_finished_rule :
      (l : SessionState) (s : Session (Recorded K))
      → s.lifecycle ≡ l
      → Sound c s
      → Keeps c (write_run_finished (recorded c) l s)
  unfolding step
  write_run_finished_rule session_finished s e h =
      write_terminal_rule c session_finished run_finished Payload.run_finished s refl refl refl
        (subst (λ q. Logged c q s) (subst (Agrees h.0) e h.2) h.1, e)
  write_run_finished_rule active s e h = refuse_rule c _ s h
  write_run_finished_rule run_finished s e h = refuse_rule c _ s h
  write_run_finished_rule closed s e h = refuse_rule c _ s h

  guarded_run_rule :
      (b : Bool) (t : Session (Recorded K))
      → Sound c t
      → Keeps c (guard (λ u. write_run_finished (recorded c) u.lifecycle u) b t)
  guarded_run_rule true t h = write_run_finished_rule t.lifecycle t refl h
  guarded_run_rule false t h = h

  finish_run_in_rule :
      (l : SessionState) (s : Session (Recorded K))
      → s.lifecycle ≡ l
      → Sound c s
      → Keeps c (finish_run_in (recorded c) l s)
  finish_run_in_rule active s e h =
      Ends-continue (λ _ t. Sound c t) (λ _ t. Sound c t) (Sound c) (Sound c)
        (finish (recorded c) no_outcome s) _ (λ _ h. h) guarded_run_rule
        (finish_rule c no_outcome s h)
  finish_run_in_rule session_finished s e h = write_run_finished_rule session_finished s e h
  finish_run_in_rule run_finished s e h = write_run_finished_rule run_finished s e h
  finish_run_in_rule closed s e h = write_run_finished_rule closed s e h

  finish_run_if_rule :
      (lost : Bool) (s : Session (Recorded K))
      → Sound c s
      → Keeps c (
          if lost
          then refuse terminal_outcome_not_written s
          else finish_run_in (recorded c) s.lifecycle s)
  finish_run_if_rule true s h = refuse_rule c terminal_outcome_not_written s h
  finish_run_if_rule false s h = finish_run_in_rule s.lifecycle s refl h

  finish_run_rule : (s : Session (Recorded K)) → Sound c s → Keeps c (finish_run (recorded c) s)
  unfolding finish_run
  finish_run_rule s h = finish_run_if_rule s.terminal_outcome_lost s h

  close_sink_rule :
      (s : Session (Recorded K)) (r : Bool × K)
      → Sound c s
      → Sound c (closed_sink (beside_log (log s) r) (set_lifecycle closed s))
  close_sink_rule s (true, k) h = (h.0, Logged-kept c h.0 s _ refl refl refl h.1, tt)
  close_sink_rule s (false, k) h = (h.0, Logged-kept c h.0 s _ refl refl refl h.1, tt)

  close_active_rule :
      (lost : Bool) (s : Session (Recorded K))
      → Sound c s
      → Keeps c (
          if lost
          then close_sink (recorded c) s
          else continue (finish (recorded c) no_outcome s) (λ _. close_sink (recorded c)))
  close_active_rule true s h = close_sink_rule s _ h
  close_active_rule false s h =
      Ends-continue (λ _ t. Sound c t) (λ _ t. Sound c t) (Sound c) (Sound c)
        (finish (recorded c) no_outcome s) (λ _. close_sink (recorded c)) (λ _ h. h)
        (λ _ t h. close_sink_rule t _ h) (finish_rule c no_outcome s h)

  close_in_rule :
      (l : SessionState) (s : Session (Recorded K))
      → Sound c s
      → Keeps c (close_in (recorded c) l s)
  close_in_rule active s h = close_active_rule s.terminal_outcome_lost s h
  close_in_rule session_finished s h = close_sink_rule s _ h
  close_in_rule run_finished s h = close_sink_rule s _ h
  close_in_rule closed s h = h

  close_rule : (s : Session (Recorded K)) → Sound c s → Keeps c (close (recorded c) s)
  unfolding close
  close_rule s h = close_in_rule s.lifecycle s h

  is_written_rule :
      (w : WriteAttempt) (t : Session (Recorded K))
      → Attempted c active active active w t
      → Keeps c (is_written w t)
  is_written_rule written t h = (active, h.0, subst (Agrees active) (sym h.1) refl)
  is_written_rule too_large t h = (active, h.0, subst (Agrees active) (sym h.1) refl)
  is_written_rule failed t h = (active, h.0, subst (Agrees active) (sym h.1) refl)

  -- an event that does not end the session
  write_event_rule :
      (payload : Payload) (s : Session (Recorded K))
      → step active (event_type payload) ≡ some active
      → Sound c s
      → Keeps c (if_accepted (write_event (recorded c) payload) s)
  write_event_rule payload s allowed h =
      if_accepted_rule c (write_event (recorded c) payload) s
        (λ t a.
          Ends-continue (Attempted c active active active) (λ _ u. Sound c u) (In c active active)
            (Sound c) (write (recorded c) payload true t) is_written
            (λ u b. is_written_rule failed u b) is_written_rule
            (write_rule c active active active t payload true allowed a))
        h

  pub emit_rule :
      (payload : Payload) (s : Session (Recorded K))
      → is_event_input payload ≡ true
      → Sound c s
      → Keeps c (emit (recorded c) payload s)
  unfolding emit step
  emit_rule (session_started p) s k h = write_event_rule (session_started p) s refl h
  emit_rule (Payload.session_finished p) s k h = finish_rule c p s h
  emit_rule Payload.run_finished s k h = finish_run_rule s h
  emit_rule (attempt_started p) s k h = write_event_rule (attempt_started p) s refl h
  emit_rule (attempt_finished p) s k h = write_event_rule (attempt_finished p) s refl h
  emit_rule (step_started p) s k h = write_event_rule (step_started p) s refl h
  emit_rule (step_finished p) s k h = write_event_rule (step_finished p) s refl h
  emit_rule (attachment_added p) s k h = write_event_rule (attachment_added p) s refl h
  emit_rule (scope_failed p) s k h = write_event_rule (scope_failed p) s refl h
  emit_rule (unknown type p) s k h = cc (k)

  after_store_rule :
      (input : AttachmentInput) (r : StoreResult × K) (s : Session (Recorded K))
      → Sound c s
      → Keeps c (after_store (recorded c) input (beside_log (log s) r) s)
  after_store_rule input (stored a, k) s h =
      emit_rule _ (put_sink (k, log s) s) refl (Sound-kept s _ refl refl refl refl h)
  after_store_rule input (attachment_too_large, k) s h = Sound-kept s _ refl refl refl refl h
  after_store_rule input (store_failure, k) s h = Sound-kept s _ refl refl refl refl h

  active_Sound : (s : Session (Recorded K)) → In c active active s → Sound c s
  active_Sound s h = (active, h.0, subst (Agrees active) (sym h.1) refl)

  attach_rule :
      (input : AttachmentInput) (bytes : Bytes) (s : Session (Recorded K))
      → Sound c s
      → Keeps c (attach (recorded c) input bytes s)
  unfolding attach
  attach_rule input bytes s h =
      if_accepted_rule c _ s (λ t a. after_store_rule input _ t (active_Sound t a)) h

  attach_read_rule :
      (input : AttachmentInput) (o : Option Bytes) (s : Session (Recorded K))
      → Sound c s
      → Keeps c (attach_read (recorded c) input o s)
  attach_read_rule input none s h = Sound-kept s _ refl refl refl refl h
  attach_read_rule input (some bytes) s h = attach_rule input bytes s h

  attach_found_rule :
      (input : AttachmentInput) (file : FileRead) (s : Session (Recorded K))
      → Sound c s
      → Keeps c (attach_found (recorded c) input file s)
  attach_found_rule input (chunks bytes) s h = attach_read_rule input _ s h
  attach_found_rule input read_error s h = Sound-kept s _ refl refl refl refl h

  caught_rule : (o : Outcome (Recorded K) Bool) → Keeps c o → Keeps c (caught o)
  caught_rule (returned a s) h = h
  caught_rule (thrown s) h = Sound-kept s _ refl refl refl refl h

  pub call_rule :
      (x : Call) (s : Session (Recorded K)) → Sound c s → Sound c (call (recorded c) x s)
  unfolding call resume_attach
  call_rule (emit_call p k) s h = Ends-after (Sound c) _ (emit_rule p s k h)
  call_rule (finish_call p) s h = Ends-after (Sound c) _ (finish_rule c p s h)
  call_rule finish_run_call s h = Ends-after (Sound c) _ (finish_run_rule s h)
  call_rule close_call s h = Ends-after (Sound c) _ (close_rule s h)
  call_rule (attach_call input bytes) s h = Ends-after (Sound c) _ (attach_rule input bytes s h)
  call_rule (attach_file_sync_call input file) s h =
      Ends-after (Sound c) _
        (if_accepted_rule c _ s (λ t a. attach_found_rule input file t (active_Sound t a)) h)
  call_rule (attach_text_file_call input file) s h = Ends-after (Sound c) _ (
      if_accepted_rule c _ s
        (λ t a. caught_rule _ (attach_found_rule input file t (active_Sound t a))) h)
  call_rule (resume_attach_call input bytes) s h =
      Ends-after (Sound c) (resume_attach (recorded c) input bytes s) (
        caught_rule
          (after_store (recorded c) input (beside_log (log s) (c.sink.store_stream bytes s.sink.0))
            s)
          (after_store_rule input (c.sink.store_stream bytes s.sink.0) s h))
