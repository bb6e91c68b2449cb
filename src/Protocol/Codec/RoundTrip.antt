-- ===== src/Protocol/Codec/RoundTrip.antt =====
-- codec.ts: `eventFromObject` after `eventToObject`.
use qe_report.Prelude.{ℕ, ◌≤◌, String, Bool, true, Option, none, some, [], ◌∷◌, ◌≡◌, refl, arith}
use qe_report.Prelude.Int.{pos}
use qe_report.Protocol.Errors.{Pointer, key, ok}
use qe_report.Protocol.Json.{text, object, boolean, Obj}
use qe_report.Protocol.Model.{Event, event_type}
use qe_report.Protocol.Patterns.{is_identifier, is_event_type, is_timestamp}
use qe_report.Protocol.Version.{
  ParsedVersion, parse_protocol_version, is_supported_protocol_version,
}
use qe_report.Protocol.Codec.Fields.{present, max_safe, optional}
use qe_report.Protocol.Codec.Read.{
  check_version, as_boolean, is_true, at_least_one, event_from_object,
}
use qe_report.Protocol.Codec.Write.{write, whole, write_payload, event_to_object}
use qe_report.Protocol.Codec.Built.{
  Fields, build, member-build, required_string-member, identifier-member, integral-member,
}
use qe_report.Protocol.Codec.PayloadsBack.{ReadablePayload, tidy_payload, payload-write}

-- An event that the codec reads.
pub record Readable (e : Event) : Type 0 where
  pub version :
      (v : ParsedVersion) × (parse_protocol_version e.protocol_version ≡ some v)
      × (is_supported_protocol_version v ≡ true)
  pub type : is_event_type (event_type e.payload) ≡ true
  pub event_id : is_identifier e.event_id ≡ true
  pub run_id : is_identifier e.run_id ≡ true
  pub session_id : is_identifier e.session_id ≡ true
  pub sequence : (1 ≤ e.sequence) × (e.sequence ≤ max_safe)
  pub occurred_at : is_timestamp e.occurred_at ≡ true
  pub payload : ReadablePayload (is_true e.ignorable) e.payload

abbrev pub tidy_event : Event → Event
tidy_event e = record e { payload = tidy_payload e.payload }

version-write :
    (s : String) (v : ParsedVersion)
    → parse_protocol_version s ≡ some v
    → is_supported_protocol_version v ≡ true
    → check_version s ≡ ok tt
unfolding check_version
version-write s v h k = ground (arith, h, k)

sequence-write : (n : ℕ) (at : Pointer) → 1 ≤ n → at_least_one at (pos n) ≡ ok n
sequence-write n at h = ground arith

ignorable-write :
    (v : Option Bool) (at : Pointer) → optional (as_boolean at) (present (write boolean v)) ≡ ok v
ignorable-write none at = refl
ignorable-write (some b) at = refl

-- An event that satisfies the codec's rules is read back as it was written, but that an empty list or
-- map, which is not written, comes back as none.
pub event_from_object-event_to_object :
    (e : Event) → Readable e → event_from_object (object (event_to_object e)) ≡ ok (tidy_event e)
unfolding event_from_object event_to_object
event_from_object-event_to_object e h =
    let l : Fields =
      ("protocolVersion", some (text e.protocol_version))
      ∷ ("eventId", some (text e.event_id))
      ∷ ("eventType", some (text (event_type e.payload)))
      ∷ ("runId", some (text e.run_id))
      ∷ ("sessionId", some (text e.session_id))
      ∷ ("sequence", some (whole (pos e.sequence)))
      ∷ ("occurredAt", some (text e.occurred_at))
      ∷ ("ignorable", write boolean e.ignorable)
      ∷ ("payload", some (object (write_payload e.payload)))
      ∷ [] in
    let o : Obj = build l in
    let (v, parsed, supported) = h.version in
    rw (
      required_string-member o "protocolVersion" [] e.protocol_version
          (member-build "protocolVersion" l refl),
      version-write e.protocol_version v parsed supported,
      required_string-member o "eventType" [] (event_type e.payload)
          (member-build "eventType" l refl),
      h.type,
      identifier-member o "eventId" [] e.event_id h.event_id (member-build "eventId" l refl),
      identifier-member o "runId" [] e.run_id h.run_id (member-build "runId" l refl),
      identifier-member o "sessionId" [] e.session_id h.session_id
          (member-build "sessionId" l refl),
      integral-member o "sequence" [] (pos e.sequence) (ground arith)
          (member-build "sequence" l refl),
      sequence-write e.sequence (key "sequence" ∷ []) h.sequence.0,
      required_string-member o "occurredAt" [] e.occurred_at (member-build "occurredAt" l refl),
      h.occurred_at,
      member-build "ignorable" l refl,
      ignorable-write e.ignorable (key "ignorable" ∷ []),
      member-build "payload" l refl,
      payload-write (is_true e.ignorable) e.payload h.payload,
    )
