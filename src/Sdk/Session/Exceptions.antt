-- ===== src/Sdk/Session/Exceptions.antt =====
-- session.ts: the exceptions of each operation of a session.
use qe_report.Prelude.{◌≡◌}
use qe_report.Protocol.Model.{Payload, SessionFinishedPayload}
use qe_report.Sdk.Session.Model.{Bytes, Options, Session, session_finished}
use qe_report.Sdk.Session.Lifecycle.{emit, finish, no_outcome, finish_run, close}
use qe_report.Sdk.Session.Attach.{
  AttachmentInput, FileRead, attach, attach_file_sync, attach_text_file, resume_attach,
}
use qe_report.Sdk.Session.Escapes.{FinishOf, RunOf, EmitOf, AttachOf, Escapes}

module _ {S : Type 0} (c : Options S) where
  -- `P` has every session.finished with this status
  abbrev Has : SessionFinishedPayload → (Payload → Type 0) → Type 0
  Has p P = (r : SessionFinishedPayload) → r.status ≡ p.status → P (Payload.session_finished r)

  -- no exception at all
  abbrev pub Nothing : Payload → Type 0
  Nothing q = ⊥

  -- the exceptions that a call on `s` can come to
  abbrev pub OnlyRefusals : Session S → Type 0
  OnlyRefusals s =
      ((p : Payload) → Escapes c (EmitOf p) (emit c p s))
      × ((p : SessionFinishedPayload) → Escapes c (FinishOf p) (finish c p s))
      × Escapes c RunOf (finish_run c s)
      × Escapes c (FinishOf no_outcome) (close c s)
      × ((input : AttachmentInput) (bytes : Bytes)
          → Escapes c (AttachOf input) (attach c input bytes s))
      × ((input : AttachmentInput) (file : FileRead)
          → Escapes c (AttachOf input) (attach_file_sync c input file s))
      × ((input : AttachmentInput) (file : FileRead)
          → Escapes c Nothing (attach_text_file c input file s))
      × ((input : AttachmentInput) (bytes : Bytes)
          → Escapes c Nothing (resume_attach c input bytes s))
