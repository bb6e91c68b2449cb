-- ===== src/Validator/Externals.antt =====
-- What validator.ts takes from Node, from Ajv and from the engine's JSON functions.
use qe_report.Prelude.{String, Option}
use qe_report.Protocol.Errors.{Pointer}
use qe_report.Protocol.Json.{Json, Number}

pub record Externals : Type 0 where
  -- JSON.parse: no value for a text that is not JSON
  pub parse : String → Option Json
  -- JSON.stringify of a text and of a number
  pub quote : String → String
  pub number_text : Number → String
  -- The compiled schema of a known event type, and that of the envelope: where the first error is.
  pub by_type : String → Json → Option Pointer
  pub envelope : Json → Option Pointer
  -- SHA-256 of a text's UTF-8, in hexadecimal digits
  pub sha256 : String → String
