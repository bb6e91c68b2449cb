-- ===== src/Protocol/Errors.antt =====
-- errors.ts: `ProtocolError`, and what a function that may throw one returns. A JSON pointer is the
-- list of its segments; the wording of a message is left out.
use qe_report.Prelude.{ℕ, String, Bool, true, false, Option, some, List, [], ◌∷◌, ◌++◌}

pub data ProtocolErrorCode : Type 0 where
  malformed_json schema_invalid unsupported_protocol_version unsupported_event_type :
      ProtocolErrorCode

pub data Segment : Type 0 where
  key : String → Segment
  index : ℕ → Segment

abbrev pub Pointer : Type 0
Pointer = List Segment

-- `${at}/${field}`
infixl 60 ◌▹◌
abbrev pub ◌▹◌ : Pointer → String → Pointer
at ▹ field = at ++ key field ∷ []

pub record ProtocolError : Type 0 where
  pub code : ProtocolErrorCode
  pub pointer : Option Pointer

pub data Result {ℓ} (A : Type ℓ) : Type ℓ where
  err : ProtocolError → Result A
  ok : A → Result A

-- a thrown error goes past the rest of the function
abbrev pub chain {ℓ κ} : {A : Type ℓ} {B : Type κ} → (A → Result B) → Result A → Result B
chain rest (err e) = err e
chain rest (ok value) = rest value

infixl 5 ◌>>=◌ ◌>>◌
abbrev pub ◌>>=◌ {ℓ κ} : {A : Type ℓ} {B : Type κ} → Result A → (A → Result B) → Result B
m >>= rest = chain rest m

abbrev pub ◌>>◌ {ℓ} : {B : Type ℓ} → Result (Unit {0}) → Result B → Result B
test >> rest = chain (λ _. rest) test

-- `invalid(pointer, message)`
abbrev pub invalid : Pointer → ProtocolError
invalid at = record { code = schema_invalid; pointer = some at }

-- `if (!test) throw invalid(...)`
abbrev pub require : Bool → ProtocolError → Result (Unit {0})
require true e = ok tt
require false e = err e
