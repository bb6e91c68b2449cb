-- ===== src/Protocol/Codec/StepsBack.antt =====
-- codec.ts: payloads of attempts, steps and attachments, written and read.
use qe_report.Prelude.{true, some, List, [], ◌∷◌, ◌≡◌, refl, ap, ◌∙◌}
use qe_report.Prelude.Keys.{text_keys}
use qe_report.Protocol.Errors.{Pointer, ◌▹◌, ok}
use qe_report.Protocol.Json.{text, Obj}
use qe_report.Protocol.Model.{
  status_name, expected_status_name, AttemptFinishedPayload, StepStartedPayload,
  StepFinishedPayload, AttachmentAddedPayload, ScopeFailedPayload, attempt_finished, step_started,
  step_finished, attachment_added, scope_failed,
}
use qe_report.Protocol.Patterns.{is_identifier}
use qe_report.Protocol.Codec.Fields.{present, is_safe}
use qe_report.Protocol.Codec.Read.{
  payload_at, read_attempt_finished, read_step_started, read_step_finished, read_attachment_added,
  read_scope_failed, nonempty, some_nonempty,
}
use qe_report.Protocol.Codec.Write.{
  write, whole, write_list, write_location, write_failures, write_segment, write_attempt_finished,
  write_step_started, write_step_finished, write_attachment_added, write_scope_failed,
}
use qe_report.Protocol.Codec.Built.{
  Fields, build, member-build, required-member, required_string-member, identifier-member,
  IsIdentifier, optional_identifier-member, optional_string-member, IsSafe, integral-member,
  optional_integral-member,
}
use qe_report.Protocol.Codec.Lists.{
  tidy, one_of-status, one_of-expected_status, name_of, write-name,
}
use qe_report.Protocol.Codec.FailuresBack.{
  SafePlace, place-write, SafeFailures, failures-write, path-write,
}

pub attempt_finished-write :
    (p : AttemptFinishedPayload)
    → is_identifier p.attempt_id ≡ true
    → IsSafe p.duration_ms
    → SafeFailures p.failures
    → read_attempt_finished (write_attempt_finished p)
      ≡ ok (attempt_finished (record p { failures = tidy p.failures }))
unfolding read_attempt_finished write_attempt_finished
attempt_finished-write p i d s =
    let l : Fields =
      ("attemptId", some (text p.attempt_id))
      ∷ ("status", some (text (status_name p.status)))
      ∷ ("rawStatus", write text p.raw_status)
      ∷ ("expectedStatus", write (λ s. text (expected_status_name s)) p.expected_status)
      ∷ ("durationMs", write whole p.duration_ms)
      ∷ ("failures", write_failures p.failures)
      ∷ [] in
    let o : Obj = build l in
    let at : Pointer = payload_at in
    rw (
      optional_string-member o "expectedStatus" at (name_of expected_status_name p.expected_status)
          (member-build "expectedStatus" l refl
            ∙ write-name expected_status_name p.expected_status),
      identifier-member o "attemptId" at p.attempt_id i (member-build "attemptId" l refl),
      required_string-member o "status" at (status_name p.status) (member-build "status" l refl),
      one_of-status (at ▹ "status") p.status,
      optional_string-member o "rawStatus" at p.raw_status (member-build "rawStatus" l refl),
      one_of-expected_status (at ▹ "expectedStatus") p.expected_status,
      optional_integral-member o "durationMs" at p.duration_ms d (member-build "durationMs" l refl),
      failures-write o at p.failures s (member-build "failures" l refl),
    )

pub step_started-write :
    (p : StepStartedPayload)
    → is_identifier p.step_id ≡ true
    → is_identifier p.attempt_id ≡ true
    → IsIdentifier p.parent_step_id
    → SafePlace p.location
    → read_step_started (write_step_started p) ≡ ok (step_started p)
unfolding read_step_started write_step_started
step_started-write p i j k s =
    let l : Fields =
      ("stepId", some (text p.step_id))
      ∷ ("attemptId", some (text p.attempt_id))
      ∷ ("parentStepId", write text p.parent_step_id)
      ∷ ("name", some (text p.name))
      ∷ ("kind", write text p.kind)
      ∷ ("location", write write_location p.location)
      ∷ [] in
    let o : Obj = build l in
    let at : Pointer = payload_at in
    rw (
      identifier-member o "stepId" at p.step_id i (member-build "stepId" l refl),
      identifier-member o "attemptId" at p.attempt_id j (member-build "attemptId" l refl),
      required_string-member o "name" at p.name (member-build "name" l refl),
      optional_identifier-member o "parentStepId" at p.parent_step_id k
          (member-build "parentStepId" l refl),
      optional_string-member o "kind" at p.kind (member-build "kind" l refl),
      place-write o at p.location s (member-build "location" l refl),
    )

pub step_finished-write :
    (p : StepFinishedPayload)
    → is_identifier p.step_id ≡ true
    → is_identifier p.attempt_id ≡ true
    → IsSafe p.duration_ms
    → SafeFailures p.failures
    → read_step_finished (write_step_finished p)
      ≡ ok (step_finished (record p { failures = tidy p.failures }))
unfolding read_step_finished write_step_finished
step_finished-write p i j d s =
    let l : Fields =
      ("stepId", some (text p.step_id))
      ∷ ("attemptId", some (text p.attempt_id))
      ∷ ("status", some (text (status_name p.status)))
      ∷ ("rawStatus", write text p.raw_status)
      ∷ ("durationMs", write whole p.duration_ms)
      ∷ ("failures", write_failures p.failures)
      ∷ [] in
    let o : Obj = build l in
    let at : Pointer = payload_at in
    rw (
      identifier-member o "stepId" at p.step_id i (member-build "stepId" l refl),
      identifier-member o "attemptId" at p.attempt_id j (member-build "attemptId" l refl),
      required_string-member o "status" at (status_name p.status) (member-build "status" l refl),
      one_of-status (at ▹ "status") p.status,
      optional_string-member o "rawStatus" at p.raw_status (member-build "rawStatus" l refl),
      optional_integral-member o "durationMs" at p.duration_ms d (member-build "durationMs" l refl),
      failures-write o at p.failures s (member-build "failures" l refl),
    )

pub attachment_added-write :
    (p : AttachmentAddedPayload)
    → is_identifier p.attempt_id ≡ true
    → IsIdentifier p.step_id
    → is_safe p.size_bytes ≡ true
    → read_attachment_added (write_attachment_added p) ≡ ok (attachment_added p)
unfolding read_attachment_added write_attachment_added
attachment_added-write p i k s =
    let l : Fields =
      ("attemptId", some (text p.attempt_id))
      ∷ ("stepId", write text p.step_id)
      ∷ ("name", some (text p.name))
      ∷ ("mediaType", some (text p.media_type))
      ∷ ("sizeBytes", some (whole p.size_bytes))
      ∷ ("sha256", some (text p.sha256))
      ∷ [] in
    let o : Obj = build l in
    let at : Pointer = payload_at in
    rw (
      identifier-member o "attemptId" at p.attempt_id i (member-build "attemptId" l refl),
      required_string-member o "name" at p.name (member-build "name" l refl),
      required_string-member o "mediaType" at p.media_type (member-build "mediaType" l refl),
      integral-member o "sizeBytes" at p.size_bytes s (member-build "sizeBytes" l refl),
      required_string-member o "sha256" at p.sha256 (member-build "sha256" l refl),
      optional_identifier-member o "stepId" at p.step_id k (member-build "stepId" l refl),
    )

abbrev pub IsNonempty {ℓ} : {A : Type ℓ} → List A → Type 0
IsNonempty [] = ⊥
IsNonempty (_ ∷ _) = Unit

nonempty-IsNonempty {ℓ} :
    {A : Type ℓ} (at : Pointer) (l : List A) → IsNonempty l → nonempty at l ≡ ok l
nonempty-IsNonempty at [] h = absurd h
nonempty-IsNonempty at (x ∷ l) h = refl

some_nonempty-tidy {ℓ} :
    {A : Type ℓ} (at : Pointer) (l : List A)
    → IsNonempty l
    → some_nonempty at (tidy (some l)) ≡ ok l
some_nonempty-tidy at [] h = absurd h
some_nonempty-tidy at (x ∷ l) h = refl

pub scope_failed-write :
    (p : ScopeFailedPayload)
    → IsNonempty p.path
    → IsNonempty p.failures
    → SafeFailures (some p.failures)
    → SafePlace p.location
    → read_scope_failed (write_scope_failed p) ≡ ok (scope_failed p)
unfolding read_scope_failed write_scope_failed
scope_failed-write p n m s t =
    let l : Fields =
      ("path", some (write_list write_segment p.path))
      ∷ ("displayName", write text p.display_name)
      ∷ ("rawStatus", write text p.raw_status)
      ∷ ("location", write write_location p.location)
      ∷ ("failures", write_failures (some p.failures))
      ∷ [] in
    let o : Obj = build l in
    let at : Pointer = payload_at in
    rw (
      required-member o "path" at (write_list write_segment p.path)
          (ap present (member-build "path" l refl)),
      path-write p.path (at ▹ "path"),
      nonempty-IsNonempty (at ▹ "path") p.path n,
      failures-write o at (some p.failures) s (member-build "failures" l refl),
      some_nonempty-tidy (at ▹ "failures") p.failures m,
      optional_string-member o "displayName" at p.display_name (member-build "displayName" l refl),
      optional_string-member o "rawStatus" at p.raw_status (member-build "rawStatus" l refl),
      place-write o at p.location t (member-build "location" l refl),
    )
