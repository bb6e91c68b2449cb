-- ===== src/Sdk/Session/Reported.antt =====
-- What a session has dropped after any calls, and what it has reported.
use qe_report.Prelude.{Bool, true, false, Option, none, some, List, [], ◌∷◌, arith, if◌then◌else◌}
use qe_report.Protocol.Model.{
  Payload, session_started, attempt_started, attempt_finished, step_started, step_finished,
  attachment_added, scope_failed, unknown,
}
use qe_report.Sdk.Session.Model.{
  Bytes, StoreResult, stored, attachment_too_large, store_failure, Options, Session, SessionState,
  active, session_finished, run_finished, closed, Outcome, returned, thrown, continue, new_session,
  ReportProblemKind, sink_failure,
}
use qe_report.Sdk.Session.Write.{WriteAttempt, written, too_large, failed, put_sink}
use qe_report.Sdk.Session.Lifecycle.{
  set_lifecycle, if_accepted, finish, no_outcome, closed_sink, close_sink, close_in, close,
  is_written, write_event, emit,
}
use qe_report.Sdk.Session.Attach.{
  AttachmentInput, after_store, attach, FileRead, chunks, read_error, attach_read, attach_found,
  attach_file_sync, caught, attach_text_file, resume_attach,
}
use qe_report.Sdk.Session.Calls.{
  Call, emit_call, finish_call, finish_run_call, close_call, attach_call, attach_file_sync_call,
  attach_text_file_call, resume_attach_call, call, calls,
}
use qe_report.Sdk.Session.Order.{Ends-continue, Ends-after}
use qe_report.Sdk.Session.Told.{Told, Tells, write_then-Told, if_accepted-Told}
use qe_report.Sdk.Session.Silent.{problem_too, finish-Told, finish_run-Told}

module _ {S : Type 0} (c : Options S) where
  closed_sink-Told :
      (r : Bool × S) (s : Session S) → Told s → Told (closed_sink r (set_lifecycle closed s))
  closed_sink-Told (true, k) s h = h
  closed_sink-Told (false, k) s h =
      problem_too c sink_failure (put_sink k (set_lifecycle closed s)) h

  close_active-Told :
      (lost : Bool) (s : Session S)
      → Told s
      → Tells
          (if lost then close_sink c s else continue (finish c no_outcome s) (λ _. close_sink c))
  close_active-Told true s h = closed_sink-Told _ s h
  close_active-Told false s h =
      Ends-continue (λ _ t. Told t) (λ _ t. Told t) Told Told (finish c no_outcome s)
        (λ _. close_sink c) (λ _ h. h) (λ _ t h. closed_sink-Told _ t h)
        (finish-Told c no_outcome s h)

  close_in-Told : (l : SessionState) (s : Session S) → Told s → Tells (close_in c l s)
  close_in-Told active s h = close_active-Told s.terminal_outcome_lost s h
  close_in-Told session_finished s h = closed_sink-Told _ s h
  close_in-Told run_finished s h = closed_sink-Told _ s h
  close_in-Told closed s h = h

  close-Told : (s : Session S) → Told s → Tells (close c s)
  unfolding close
  close-Told s h = close_in-Told s.lifecycle s h

  is_written-Told : (w : WriteAttempt) (t : Session S) → Told t → Tells (is_written w t)
  is_written-Told written t h = h
  is_written-Told too_large t h = h
  is_written-Told failed t h = h

  write_event-Told :
      (p : Payload) (s : Session S) → Told s → Tells (if_accepted (write_event c p) s)
  write_event-Told p s h =
      if_accepted-Told (write_event c p) s (λ t. write_then-Told c p t is_written is_written-Told) h

  emit-Told : (p : Payload) (s : Session S) → Told s → Tells (emit c p s)
  unfolding emit
  emit-Told (session_started p) s h = write_event-Told (session_started p) s h
  emit-Told (Payload.session_finished p) s h = finish-Told c p s h
  emit-Told Payload.run_finished s h = finish_run-Told c s h
  emit-Told (attempt_started p) s h = write_event-Told (attempt_started p) s h
  emit-Told (attempt_finished p) s h = write_event-Told (attempt_finished p) s h
  emit-Told (step_started p) s h = write_event-Told (step_started p) s h
  emit-Told (step_finished p) s h = write_event-Told (step_finished p) s h
  emit-Told (attachment_added p) s h = write_event-Told (attachment_added p) s h
  emit-Told (scope_failed p) s h = write_event-Told (scope_failed p) s h
  emit-Told (unknown type p) s h = write_event-Told (unknown type p) s h

  after_store-Told :
      (input : AttachmentInput) (r : StoreResult × S) (s : Session S)
      → Told s
      → Tells (after_store c input r s)
  after_store-Told input (stored a, k) s h = emit-Told _ (put_sink k s) h
  after_store-Told input (attachment_too_large, k) s h =
      problem_too c ReportProblemKind.attachment_too_large (put_sink k s) h
  after_store-Told input (store_failure, k) s h = problem_too c sink_failure (put_sink k s) h

  attach-Told :
      (input : AttachmentInput) (bytes : Bytes) (s : Session S)
      → Told s
      → Tells (attach c input bytes s)
  unfolding attach
  attach-Told input bytes s h = if_accepted-Told _ s (λ t. after_store-Told input _ t) h

  attach_read-Told :
      (input : AttachmentInput) (o : Option Bytes) (s : Session S)
      → Told s
      → Tells (attach_read c input o s)
  attach_read-Told input none s h = problem_too c ReportProblemKind.attachment_too_large s h
  attach_read-Told input (some bytes) s h = attach-Told input bytes s h

  attach_found-Told :
      (input : AttachmentInput) (file : FileRead) (s : Session S)
      → Told s
      → Tells (attach_found c input file s)
  attach_found-Told input (chunks bytes) s h = attach_read-Told input _ s h
  attach_found-Told input read_error s h = problem_too c sink_failure s h

  caught-Told : (o : Outcome S Bool) → Tells o → Tells (caught o)
  caught-Told (returned a s) h = h
  caught-Told (thrown s) h = problem_too c sink_failure s h

  call-Told : (x : Call) (s : Session S) → Told s → Told (call c x s)
  unfolding call attach_file_sync attach_text_file resume_attach
  call-Told (emit_call p k) s h = Ends-after Told _ (emit-Told p s h)
  call-Told (finish_call p) s h = Ends-after Told _ (finish-Told c p s h)
  call-Told finish_run_call s h = Ends-after Told _ (finish_run-Told c s h)
  call-Told close_call s h = Ends-after Told _ (close-Told s h)
  call-Told (attach_call input bytes) s h = Ends-after Told _ (attach-Told input bytes s h)
  call-Told (attach_file_sync_call input file) s h =
      Ends-after Told (attach_file_sync c input file s)
        (if_accepted-Told (attach_found c input file) s (attach_found-Told input file) h)
  call-Told (attach_text_file_call input file) s h =
      Ends-after Told (attach_text_file c input file s) (
        if_accepted-Told (λ t. caught (attach_found c input file t)) s
          (λ t a. caught-Told (attach_found c input file t) (attach_found-Told input file t a)) h)
  call-Told (resume_attach_call input bytes) s h = Ends-after Told (resume_attach c input bytes s) (
      caught-Told (after_store c input (c.sink.store_stream bytes s.sink) s)
        (after_store-Told input (c.sink.store_stream bytes s.sink) s h))

  calls_from-Told : (xs : List Call) (s : Session S) → Told s → Told (calls c xs s)
  unfolding calls
  calls_from-Told [] s h = h
  calls_from-Told (x ∷ xs) s h = calls_from-Told xs (call c x s) (call-Told x s h)

  -- After any calls on a new session, whether they return or throw and whatever the sink does, at least
  -- as many problems have been reported to the handler as events have been counted as dropped.
  pub calls-Told : (k : S) (xs : List Call) → Told (calls c xs (new_session k))
  calls-Told k xs = calls_from-Told xs (new_session k) (omega arith)
