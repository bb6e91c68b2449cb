-- ===== src/Protocol/Codec/Parts.antt =====
-- codec.ts: the readers of the parts that payloads share. Properties are read in the order of the
-- source, which decides the error that is reported.
use qe_report.Prelude.{String, Option, none, some, List}
use qe_report.Protocol.Errors.{Pointer, ◌▹◌, Result, ok, err, ◌>>=◌, ◌>>◌, invalid}
use qe_report.Protocol.Json.{Json, Obj, member}
use qe_report.Protocol.Model.{
  Component, Executor, Source, Location, Failure, PathSegment, TestCase, HistoricalIdStability,
  stable, uncertain, unavailable, phase_name, failure_phases, stability_name,
  historical_id_stabilities,
}
use qe_report.Protocol.Codec.Fields.{
  present, required, required_string, optional, optional_string, identifier, optional_integral,
  one_of, one_of_optional, string_map, string_list, as_array, as_object, optional_object,
}

unfoldable pub component : Obj → Pointer → Result Component
component o at = do
  name ← required_string o "name" at
  version ← optional_string o "version" at
  ok (record { name = name; version = version })

unfoldable pub executor : Obj → Pointer → Result Executor
executor o at = do
  name ← optional_string o "name" at
  build_id ← optional_string o "buildId" at
  build_url ← optional_string o "buildUrl" at
  ok (record { name = name; build_id = build_id; build_url = build_url })

unfoldable pub source : Obj → Pointer → Result Source
source o at = do
  repository ← optional_string o "repository" at
  revision ← optional_string o "revision" at
  branch ← optional_string o "branch" at
  ok (record { repository = repository; revision = revision; branch = branch })

unfoldable pub location : Obj → Pointer → Result Location
location o at = do
  file ← required_string o "file" at
  line ← optional_integral o "line" at
  column ← optional_integral o "column" at
  ok (record { file = file; line = line; column = column })

-- one element of `failures`
unfoldable pub failure : Obj → Pointer → Result Failure
unfolding location
failure f at = do
  phase_raw ← optional_string f "phase" at
  message ← required_string f "message" at
  type ← optional_string f "type" at
  stack_trace ← optional_string f "stackTrace" at
  phase ← one_of_optional phase_name phase_raw failure_phases (at ▹ "phase")
  place ← optional_object f "location" at location
  ok (record {
    message = message;
    type = type;
    stack_trace = stack_trace;
    phase = phase;
    location = place;
  })

unfoldable pub failures : Obj → Pointer → Result (Option (List Failure))
unfolding failure
failures o at =
    optional (as_array (at ▹ "failures") (λ p v. as_object p failure v))
      (present (member "failures" o))

unfoldable pub path_segment : Obj → Pointer → Result PathSegment
path_segment seg at = do
  kind ← required_string seg "kind" at
  name ← required_string seg "name" at
  ok (record { kind = kind; name = name })

unfoldable pub path_segments : Json → Pointer → Result (List PathSegment)
unfolding path_segment
path_segments raw at = as_array at (λ p v. as_object p path_segment v) raw

-- The historical id is there exactly if the stability is not `unavailable`.
unfoldable pub check_identity : HistoricalIdStability → Option String → Pointer → Result (Unit {0})
check_identity unavailable none at = ok tt
check_identity unavailable (some _) at = err (invalid (at ▹ "historicalId"))
check_identity stable (some _) at = ok tt
check_identity stable none at = err (invalid at)
check_identity uncertain (some _) at = ok tt
check_identity uncertain none at = err (invalid at)

unfoldable pub test_case : Obj → Pointer → Result TestCase
unfolding check_identity path_segments location
test_case o at = do
  stability_raw ← required_string o "historicalIdStability" at
  stability ←
      one_of stability_name stability_raw historical_id_stabilities (at ▹ "historicalIdStability")
  historical_id ← optional_string o "historicalId" at
  check_identity stability historical_id at
  path_raw ← required o "path" at
  path ← path_segments path_raw (at ▹ "path")
  execution_id ← identifier o "executionId" at
  display_name ← required_string o "displayName" at
  place ← optional_object o "location" at location
  tags ← string_list o "tags" at
  labels ← string_map o "labels" at
  ok (record {
    execution_id = execution_id;
    historical_id = historical_id;
    historical_id_stability = stability;
    display_name = display_name;
    path = path;
    location = place;
    tags = tags;
    labels = labels;
  })
