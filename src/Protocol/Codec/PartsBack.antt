-- ===== src/Protocol/Codec/PartsBack.antt =====
-- codec.ts: the parts of payloads, written and read.
use qe_report.Prelude.{String, true, Option, none, some, [], ◌∷◌, ◌≡◌, refl, ap}
use qe_report.Protocol.Errors.{Pointer, ◌▹◌, ok}
use qe_report.Protocol.Json.{text, Obj}
use qe_report.Protocol.Model.{
  TestCase, HistoricalIdStability, stable, uncertain, unavailable, stability_name,
}
use qe_report.Protocol.Patterns.{is_identifier}
use qe_report.Protocol.Codec.Fields.{present}
use qe_report.Protocol.Codec.Parts.{check_identity, test_case}
use qe_report.Protocol.Codec.Write.{
  write, write_list, write_location, write_segment, write_tags, nonempty_map,
}
use qe_report.Protocol.Codec.Built.{
  Fields, build, member-build, required-member, required_string-member, identifier-member,
  optional_string-member,
}
use qe_report.Protocol.Codec.Lists.{tidy, string_map-member, string_list-member, one_of-stability}
use qe_report.Protocol.Codec.FailuresBack.{SafePlace, path-write, place-write}

-- The historical id is there exactly if the stability is not `unavailable`.
abbrev pub HasIdentity : HistoricalIdStability → Option String → Type 0
HasIdentity unavailable v = v ≡ none
HasIdentity _ v = (s : String) × (v ≡ some s)

check_identity-HasIdentity :
    (s : HistoricalIdStability) (v : Option String) (p : Pointer)
    → HasIdentity s v
    → check_identity s v p ≡ ok tt
unfolding check_identity
check_identity-HasIdentity unavailable v p h = rw h
check_identity-HasIdentity stable v p (s, h) = rw h
check_identity-HasIdentity uncertain v p (s, h) = rw h

-- A test case that the codec reads.
pub record ReadableTest (t : TestCase) : Type 0 where
  pub execution : is_identifier t.execution_id ≡ true
  pub identity : HasIdentity t.historical_id_stability t.historical_id
  pub place : SafePlace t.location

abbrev pub tidy_test : TestCase → TestCase
tidy_test t = record t { tags = tidy t.tags; labels = tidy t.labels }

abbrev pub test_fields : TestCase → Fields
test_fields t =
    ("executionId", some (text t.execution_id))
    ∷ ("historicalId", write text t.historical_id)
    ∷ ("historicalIdStability", some (text (stability_name t.historical_id_stability)))
    ∷ ("displayName", some (text t.display_name))
    ∷ ("path", some (write_list write_segment t.path))
    ∷ ("location", write write_location t.location)
    ∷ ("tags", write_tags t.tags)
    ∷ ("labels", nonempty_map t.labels)
    ∷ []

pub test-write :
    (t : TestCase) (p : Pointer)
    → ReadableTest t
    → test_case (build (test_fields t)) p ≡ ok (tidy_test t)
unfolding test_case
test-write t p h =
    let l : Fields = test_fields t in
    let o : Obj = build l in
    rw (
      required_string-member o "historicalIdStability" p (stability_name t.historical_id_stability)
          (member-build "historicalIdStability" l refl),
      one_of-stability (p ▹ "historicalIdStability") t.historical_id_stability,
      optional_string-member o "historicalId" p t.historical_id
          (member-build "historicalId" l refl),
      check_identity-HasIdentity t.historical_id_stability t.historical_id p h.identity,
      required-member o "path" p (write_list write_segment t.path)
          (ap present (member-build "path" l refl)),
      path-write t.path (p ▹ "path"),
      identifier-member o "executionId" p t.execution_id h.execution
          (member-build "executionId" l refl),
      required_string-member o "displayName" p t.display_name (member-build "displayName" l refl),
      place-write o p t.location h.place (member-build "location" l refl),
      string_list-member o "tags" p t.tags (member-build "tags" l refl),
      string_map-member o "labels" p t.labels (member-build "labels" l refl),
    )
