-- ===== src/Sdk/Session/Attach.antt =====
-- session.ts: `attach`, `attachFile`, `attachFileSync` and `readBounded`.
use qe_report.Prelude.{
  ℕ, ◌+◌, String, Bool, false, Option, none, some, List, [], ◌∷◌, ◌++◌, length, ltb, if◌then◌else◌,
}
use qe_report.Prelude.Int.{pos}
use qe_report.Protocol.Model.{attachment_added}
use qe_report.Sdk.Redactor.{redact_text}
use qe_report.Sdk.MediaTypes.{is_textual_media_type}
use qe_report.Sdk.Session.Model.{
  Outcome, thrown, Bytes, StoredAttachment, StoreResult, stored, attachment_too_large,
  store_failure, ReportProblemKind, sink_failure, Options, returned, Action, problem,
}
use qe_report.Sdk.Session.Write.{put_sink}
use qe_report.Sdk.Session.Lifecycle.{if_accepted, emit}

pub record AttachmentInput : Type 0 where
  pub attempt_id : String
  pub step_id : Option String
  pub name : String
  pub media_type : String

abbrev pub emit_attachment :
    {S : Type 0} → Options S → AttachmentInput → StoredAttachment → Action S Bool
emit_attachment c input a = emit c (
    attachment_added (record {
      attempt_id = input.attempt_id;
      step_id = input.step_id;
      name = input.name;
      media_type = input.media_type;
      size_bytes = pos a.size_bytes;
      sha256 = a.sha256;
    }))

-- `storeFailed`
abbrev pub store_failed : {S : Type 0} → ReportProblemKind → Action S Bool
store_failed kind s = returned false (problem kind s)

abbrev pub after_store :
    {S : Type 0} → Options S → AttachmentInput → StoreResult × S → Action S Bool
after_store c input (stored a, sink) s = emit_attachment c input a (put_sink sink s)
after_store c input (attachment_too_large, sink) s =
    store_failed ReportProblemKind.attachment_too_large (put_sink sink s)
after_store c input (store_failure, sink) s = store_failed sink_failure (put_sink sink s)

abbrev pub is_textual : {S : Type 0} → Options S → AttachmentInput → Bool
is_textual c input = is_textual_media_type c.lower_case input.media_type

-- text is redacted before it is stored
unfoldable pub content : {S : Type 0} → Options S → AttachmentInput → Bytes → Bytes
content c input bytes =
    if is_textual c input then c.encode (redact_text c.redactor (c.decode bytes)) else bytes

unfoldable pub attach : {S : Type 0} → Options S → AttachmentInput → Bytes → Action S Bool
unfolding emit content
attach c input bytes =
    if_accepted λ s. after_store c input (c.sink.store_attachment (content c input bytes) s.sink) s

-- A file as the chunks that `readSync` returns up to the end of the file, or an exception.
pub data FileRead : Type 0 where
  chunks : List Bytes → FileRead
  read_error : FileRead

-- The loop of `readBounded`: `none` as soon as more than `limit` bytes have been read.
unfoldable pub read_chunks : ℕ → ℕ → Bytes → List Bytes → Option Bytes
read_chunks limit total so_far [] = some so_far
read_chunks limit total so_far (chunk ∷ rest) =
    let n = total + length chunk in
    let result = read_chunks limit n (so_far ++ chunk) rest in if ltb limit n then none else result

unfoldable pub read_bounded : ℕ → List Bytes → Option Bytes
unfolding read_chunks
read_bounded limit file = read_chunks limit 0 [] file

abbrev pub attach_read : {S : Type 0} → Options S → AttachmentInput → Option Bytes → Action S Bool
attach_read c input none = store_failed ReportProblemKind.attachment_too_large
attach_read c input (some bytes) = attach c input bytes

abbrev pub attach_found : {S : Type 0} → Options S → AttachmentInput → FileRead → Action S Bool
attach_found c input read_error = store_failed sink_failure
attach_found c input (chunks file) =
    attach_read c input (read_bounded c.sink.max_attachment_bytes file)

unfoldable pub attach_file_sync :
    {S : Type 0} → Options S → AttachmentInput → FileRead → Action S Bool
unfolding attach read_bounded
attach_file_sync c input file = if_accepted (attach_found c input file)

-- the `catch` of `attachFile`, which catches an exception of `attach` too
abbrev pub caught : {S : Type 0} → Outcome S Bool → Outcome S Bool
caught (returned a s) = returned a s
caught (thrown s) = store_failed sink_failure s

-- `attachFile` of a textual attachment
unfoldable pub attach_text_file :
    {S : Type 0} → Options S → AttachmentInput → FileRead → Action S Bool
unfolding attach read_bounded
attach_text_file c input file = if_accepted λ s. caught (attach_found c input file s)

-- `attachFile` of another one, from where the stored stream is awaited
unfoldable pub resume_attach : {S : Type 0} → Options S → AttachmentInput → Bytes → Action S Bool
unfolding emit
resume_attach c input bytes s = caught (after_store c input (c.sink.store_stream bytes s.sink) s)
