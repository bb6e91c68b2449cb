-- ===== src/Sdk/Session/Calls.antt =====
-- session.ts: the calls that a caller makes on a session, one after the other.
use qe_report.Prelude.{Bool, true, false, List, [], ◌∷◌, ◌≡◌}
use qe_report.Protocol.Model.{Payload, unknown, SessionFinishedPayload}
use qe_report.Sdk.Session.Model.{Bytes, Options, Session, after}
use qe_report.Sdk.Session.Lifecycle.{emit, finish, finish_run, close}
use qe_report.Sdk.Session.Attach.{
  AttachmentInput, FileRead, attach, attach_file_sync, attach_text_file, resume_attach,
}

-- `EventInput`: the payload of a known event
abbrev pub is_event_input : Payload → Bool
is_event_input (unknown _ _) = false
is_event_input _ = true

-- A call with its arguments, and what it finds on the file system.
pub data Call : Type 0 where
  emit_call : (payload : Payload) → is_event_input payload ≡ true → Call
  finish_call : SessionFinishedPayload → Call
  finish_run_call : Call
  close_call : Call
  attach_call : AttachmentInput → Bytes → Call
  attach_file_sync_call : AttachmentInput → FileRead → Call
  attach_text_file_call : AttachmentInput → FileRead → Call
  resume_attach_call : AttachmentInput → Bytes → Call

-- the session after a call, also after one that throws
unfoldable pub call : {S : Type 0} → Options S → Call → Session S → Session S
unfolding emit finish finish_run close attach attach_file_sync attach_text_file resume_attach
call c (emit_call payload known) s = after (emit c payload s)
call c (finish_call p) s = after (finish c p s)
call c finish_run_call s = after (finish_run c s)
call c close_call s = after (close c s)
call c (attach_call input bytes) s = after (attach c input bytes s)
call c (attach_file_sync_call input file) s = after (attach_file_sync c input file s)
call c (attach_text_file_call input file) s = after (attach_text_file c input file s)
call c (resume_attach_call input bytes) s = after (resume_attach c input bytes s)

unfoldable pub calls : {S : Type 0} → Options S → List Call → Session S → Session S
unfolding call
calls c [] s = s
calls c (x ∷ xs) s = calls c xs (call c x s)
