-- ===== src/Sdk/Session/Model.antt =====
-- session.ts and sink.ts: the interface of a sink, the state of a session, and the operations'
-- results. `S` is the state of the sink. A byte is a number; an exception carries no value.
use qe_report.Prelude.{ℕ, String, Bool, false, List, [], ◌∷◌, ◌++◌, ◌+◌}
use qe_report.Protocol.Json.{Json}
use qe_report.Protocol.Model.{Event}
use qe_report.Sdk.Redactor.{Redactor}

abbrev pub Bytes : Type 0
Bytes = List ℕ

pub record StoredAttachment : Type 0 where
  pub sha256 : String
  pub size_bytes : ℕ

-- What a call that stores bytes comes to: the digest, or one of the exceptions of a sink.
pub data StoreResult : Type 0 where
  stored : StoredAttachment → StoreResult
  attachment_too_large : StoreResult
  store_failure : StoreResult

-- `false` is an exception.
pub record ReportSink (S : Type 0) : Type 0 where
  pub max_attachment_bytes : ℕ
  pub write : Event → S → Bool × S
  pub store_attachment : Bytes → S → StoreResult × S
  -- what the stream of these bytes has come to when it is awaited
  pub store_stream : Bytes → S → StoreResult × S
  pub close : S → Bool × S

pub data ReportProblemKind : Type 0 where
  event_too_large attachment_too_large sink_failure session_finished run_finished :
      ReportProblemKind
  invalid_payload terminal_outcome_not_written : ReportProblemKind

pub data SessionState : Type 0 where
  active session_finished run_finished closed : SessionState

-- The options of a session and what it takes from its platform. `ids` and `clock` are the values of
-- their successive calls; `handler` only keeps the problems.
pub record Options (S : Type 0) : Type 0 where
  pub run_id : String
  pub session_id : String
  pub sink : ReportSink S
  pub redactor : Redactor
  pub ids : ℕ → String
  pub clock : ℕ → String
  pub max_event_bytes : ℕ
  -- JSON.stringify, and the conversions between texts and their UTF-8
  pub stringify : Json → String
  pub encode : String → Bytes
  pub decode : Bytes → String
  -- toLowerCase, over code points
  pub lower_case : List ℕ → List ℕ

pub record Session (S : Type 0) : Type 0 where
  pub sink : S
  pub calls : ℕ
  pub sequence : ℕ
  pub written : ℕ
  pub dropped : ℕ
  pub lifecycle : SessionState
  pub terminal_outcome_lost : Bool
  pub problems : List ReportProblemKind

-- A call returns or throws, and leaves the session in a state either way.
pub data Outcome (S A : Type 0) : Type 0 where
  returned : A → Session S → Outcome S A
  thrown : Session S → Outcome S A

abbrev pub Action : Type 0 → Type 0 → Type 0
Action S A = Session S → Outcome S A

abbrev pub continue : {S A B : Type 0} → Outcome S A → (A → Action S B) → Outcome S B
continue (returned a s) f = f a s
continue (thrown s) f = thrown s

-- the state after a call
abbrev pub after : {S A : Type 0} → Outcome S A → Session S
after (returned a s) = s
after (thrown s) = s

abbrev pub problem : {S : Type 0} → ReportProblemKind → Session S → Session S
problem kind s = record s { problems = s.problems ++ kind ∷ [] }

-- this.dropped += 1, and the report of it
abbrev pub drop : {S : Type 0} → Session S → Session S
drop s = record s { dropped = s.dropped + 1 }

abbrev pub refuse : {S : Type 0} → ReportProblemKind → Action S Bool
refuse kind s = returned false (problem kind (drop s))

abbrev pub new_session : {S : Type 0} → S → Session S
new_session sink = record {
  sink = sink;
  calls = 0;
  sequence = 0;
  written = 0;
  dropped = 0;
  lifecycle = active;
  terminal_outcome_lost = false;
  problems = [];
}
