-- ===== src/Validator/Decode.antt =====
-- validator.ts: what `feed` decides about a line by itself, before the state of the run matters.
use Prim.Native.String.{len}
use qe_report.Prelude.{
  ℕ, ◌+◌, String, Bool, Option, none, some, ◌||◌, ◌==◌, all, ltb, if◌then◌else◌,
}
use qe_report.Prelude.Text.{codes, within}
use qe_report.Protocol.Errors.{Pointer, ProtocolErrorCode, Result, ok, err}
use qe_report.Protocol.Json.{Json}
use qe_report.Protocol.Model.{Event, is_known_event, event_type, max_event_bytes}
use qe_report.Protocol.Codec.Read.{event_from_object}
use qe_report.Validator.Externals.{Externals}
use qe_report.Validator.Model.{
  DiagnosticCode, malformed_json, schema_invalid, unsupported_protocol_version,
  unsupported_event_type, event_too_large, ValidateOptions,
}

-- white space and line terminators, which `trim` removes
abbrev pub is_space : ℕ → Bool
is_space c =
    within 0x9 0xD c
    || c == 0x20
    || c == 0xA0
    || c == 0x1680
    || within 0x2000 0x200A c
    || within 0x2028 0x2029 c
    || c == 0x202F
    || c == 0x205F
    || c == 0x3000
    || c == 0xFEFF

-- raw.trim() === ''
unfoldable pub is_blank : String → Bool
is_blank raw = all is_space (codes raw)

pub data Decoding : Type 0 where
  refused : DiagnosticCode → Option Pointer → Option String → Decoding
  decoded : Json → Event → Decoding

abbrev pub code_of : ProtocolErrorCode → DiagnosticCode
code_of ProtocolErrorCode.malformed_json = malformed_json
code_of ProtocolErrorCode.schema_invalid = schema_invalid
code_of ProtocolErrorCode.unsupported_protocol_version = unsupported_protocol_version
code_of ProtocolErrorCode.unsupported_event_type = unsupported_event_type

-- the limit in force
abbrev pub event_limit : ValidateOptions → ℕ
event_limit options = elim options.max_event_bytes [ none ↦ max_event_bytes | some n ↦ n ]

-- the first error of the schema that applies to the event
abbrev pub schema_error : Externals → Json → Event → Option Pointer
schema_error x json event =
    if is_known_event event then x.by_type (event_type event.payload) json else x.envelope json

abbrev pub check_schema : Externals → Json → Event → Decoding
check_schema x json event = elim (schema_error x json event) [
  | none ↦ decoded json event
  | some pointer ↦ refused schema_invalid (some pointer) (some event.event_id)
]

abbrev pub check_event : Externals → Json → Result Event → Decoding
check_event x json (err e) = refused (code_of e.code) e.pointer none
check_event x json (ok event) = check_schema x json event

abbrev pub check_json : Externals → Option Json → Decoding
check_json x none = refused malformed_json none none
check_json x (some json) = check_event x json (event_from_object json)

unfoldable pub decode : Externals → ValidateOptions → String → Decoding
decode x options raw =
    if ltb (event_limit options) (len raw + 1)
    then refused event_too_large none none
    else check_json x (x.parse raw)
