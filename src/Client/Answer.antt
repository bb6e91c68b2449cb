-- ===== src/Client/Answer.antt =====
-- ts/packages/http-client/src/client.ts, how one answer of the service is read.
use qe_report.Prelude.{
  ℕ, String, Bool, true, ◌&&◌, ◌||◌, not, Option, none, some, List, [], ◌∷◌, leb, ◌==◌,
  if◌then◌else◌, length,
}
use qe_report.Prelude.Text.{codes}
use qe_report.Prelude.Keys.{text_keys, ◌===◌}
use qe_report.Protocol.Json.{Json, boolean, text, array, object, member}
use qe_report.Client.Retry.{retriable_status}

-- `AttemptResponse`, with the headers that are read
pub record Response : Type 0 where
  pub status : ℕ
  pub content_type : Option String
  pub retry_after : Option String
  pub request_id : Option String
  pub text : String
  pub truncated : Bool

pub data UploadOutcome : Type 0 where
  inserted already_present : UploadOutcome

pub record UploadResult : Type 0 where
  pub outcome : UploadOutcome
  pub run_id : String
  pub run_ref : String
  pub ingestion_sequence : String
  pub request_id : Option String
  pub attempts : ℕ
  pub query_index_rebuilt : Option Bool

pub record ProblemFacts : Type 0 where
  pub code : Option String
  pub detail : Option String
  pub run_id : Option String
  pub diagnostics : Option Json

-- `UploadRejectedError`, less its message
pub record Rejection : Type 0 where
  pub status : ℕ
  pub problem : ProblemFacts
  pub request_id : Option String

pub data Answer : Type 0 where
  done : UploadResult → Answer
  rejected : Rejection → Answer
  again : Answer

-- JSON.parse, and the tests of JSON_TYPE and PROBLEM_TYPE
pub record Reader : Type 0 where
  pub parse : String → Option Json
  pub is_json_type : String → Bool
  pub is_problem_type : String → Bool

abbrev pub as_text : Option Json → Option String
as_text (some (text s)) = some s
as_text _ = none

abbrev pub as_array : Option Json → Option Json
as_array (some (array xs)) = some (array xs)
as_array _ = none

abbrev pub as_boolean : Option Json → Option Bool
as_boolean (some (boolean b)) = some b
as_boolean _ = none

abbrev pub no_facts : ProblemFacts
no_facts = record { code = none; detail = none; run_id = none; diagnostics = none }

-- an array has none of the fields that are read
abbrev pub facts : Option Json → ProblemFacts
facts (some (object o)) = record {
  code = as_text (member "code" o);
  detail = as_text (member "detail" o);
  run_id = as_text (member "runId" o);
  diagnostics = as_array (member "diagnostics" o);
}
facts _ = no_facts

unfoldable pub problem_of : Reader → String → ProblemFacts
problem_of c s = facts (c.parse s)

abbrev pub outcome_of : Option String → Option UploadOutcome
outcome_of none = none
outcome_of (some s) =
    if s === "inserted"
    then some inserted
    else if s === "already_present"
    then some already_present
    else none

abbrev pub nonempty : Option String → Option String
nonempty none = none
nonempty (some s) = if s === "" then none else some s

abbrev pub all_digits : List ℕ → Bool
all_digits [] = true
all_digits (c ∷ r) = leb 48 c && leb c 57 && all_digits r

abbrev pub decimal_text : Option String → Option String
decimal_text none = none
decimal_text (some s) = if leb 1 (length (codes s)) && all_digits (codes s) then some s else none

abbrev pub result :
    Option UploadOutcome
    → Option String
    → Option String
    → Option String
    → Option String
    → ℕ
    → Option Bool
    → Option UploadResult
result (some o) (some id) (some ref) (some sequence) request attempts rebuilt = some (record {
  outcome = o;
  run_id = id;
  run_ref = ref;
  ingestion_sequence = sequence;
  request_id = request;
  attempts = attempts;
  query_index_rebuilt = rebuilt;
})
result _ _ _ _ _ _ _ = none

abbrev pub success : Option Json → Option String → ℕ → Option UploadResult
success (some (object o)) request attempts =
    result (outcome_of (as_text (member "outcome" o))) (nonempty (as_text (member "runId" o)))
      (nonempty (as_text (member "runRef" o)))
      (decimal_text (as_text (member "ingestionSequence" o))) request attempts
      (as_boolean (member "queryIndexRebuilt" o))
success _ request attempts = none

unfoldable pub success_of : Reader → String → Option String → ℕ → Option UploadResult
success_of c s request attempts = success (c.parse s) request attempts

abbrev pub done_or_again : Option UploadResult → Answer
done_or_again none = again
done_or_again (some r) = done r

abbrev pub type_of : Option String → String
type_of none = ""
type_of (some s) = s

abbrev pub read_success : Reader → Response → ℕ → Answer
read_success c r attempt =
    if r.truncated || not (c.is_json_type (type_of r.content_type))
    then again
    else done_or_again (success_of c r.text r.request_id attempt)

abbrev pub read_problem : Reader → Response → ProblemFacts
read_problem c r =
    if c.is_problem_type (type_of r.content_type) && not r.truncated
    then problem_of c r.text
    else no_facts

abbrev pub read_failure : Reader → Response → Answer
read_failure c r =
    if retriable_status r.status
    then again
    else rejected
        (record { status = r.status; problem = read_problem c r; request_id = r.request_id })

unfoldable pub read : Reader → Response → ℕ → Answer
read c r attempt =
    if (r.status == 200) || (r.status == 201) then read_success c r attempt else read_failure c r
