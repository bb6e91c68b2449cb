-- ===== src/Sdk/Redactor.antt =====
-- redactor.ts: `redactText`, `walk` and `redactEvent`. One replacement of a regular expression by the
-- engine's `String.replace` is a function on texts; the order of the replacements is the source's.
use qe_report.Prelude.{String, Bool, List, [], ◌∷◌, any, if◌then◌else◌}
use qe_report.Prelude.Keys.{text_keys, ◌===◌}
use qe_report.Protocol.Errors.{Result}
use qe_report.Protocol.Json.{
  Json, null, boolean, number, text, array, object, Items, nil, cons, Obj, empty, property,
}
use qe_report.Protocol.Model.{Event}
use qe_report.Protocol.Codec.Read.{event_from_object}
use qe_report.Protocol.Codec.Write.{write_payload, envelope}

-- The replacements that `redactText` applies.
pub record Redactor : Type 0 where
  pub private_key_block : String → String
  pub header_value : String → String
  pub key_value : String → String
  pub url_userinfo : String → String
  pub bearer : String → String
  pub jwt : String → String
  pub well_known_tokens : List (String → String)
  pub rules : List (String → String)

abbrev pub replace_all : List (String → String) → String → String
replace_all [] s = s
replace_all (f ∷ fs) s = replace_all fs (f s)

unfoldable pub redact_text : Redactor → String → String
redact_text r s =
    let out =
      r.jwt (r.bearer (r.url_userinfo (r.key_value (r.header_value (r.private_key_block s))))) in
    replace_all r.rules (replace_all r.well_known_tokens out)

-- STRUCTURAL_KEYS
abbrev pub structural_keys : List String
structural_keys =
    "attemptId" ∷ "stepId" ∷ "parentStepId" ∷ "executionId" ∷ "historicalId"
    ∷ "historicalIdStability" ∷ "status" ∷ "rawStatus" ∷ "expectedStatus" ∷ "mediaType" ∷ "sha256"
    ∷ "kind" ∷ "phase" ∷ "version" ∷ []

unfoldable pub is_structural : String → Bool
is_structural k = any (λ s. s === k) structural_keys

unfoldable mutual
  pub walk : Redactor → Json → Json
  walk r (text s) = text (redact_text r s)
  walk r (array vs) = array (walk_items r vs)
  walk r (object o) = object (walk_properties r o)
  walk r null = null
  walk r (boolean b) = boolean b
  walk r (number n) = number n

  pub walk_items : Redactor → Items → Items
  walk_items r nil = nil
  walk_items r (cons v vs) = cons (walk r v) (walk_items r vs)

  pub walk_properties : Redactor → Obj → Obj
  walk_properties r empty = empty
  walk_properties r (property k v o) =
      property k (if is_structural k then v else walk r v) (walk_properties r o)

-- The payload of the written event is walked, and the event is read again.
unfoldable pub redact_event : Redactor → Event → Result Event
unfolding write_payload event_from_object walk
redact_event r event =
    event_from_object (object (envelope event (walk r (object (write_payload event.payload)))))
