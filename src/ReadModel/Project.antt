-- ===== src/ReadModel/Project.antt =====
-- ts/packages/read-model/src/projector.ts: the events of a valid run, one by one.
use Prim.Native.Nat.{Ordering}
use qe_report.Prelude.{
  ℕ, zero, suc, String, Option, none, some, List, [], ◌∷◌, ◌++◌, length, any, if◌then◌else◌,
}
use qe_report.Prelude.Keys.{text_keys, ◌===◌}
use qe_report.Prelude.Assoc.{Assoc, get, set}
use qe_report.Prelude.Order.{sort}
use qe_report.Protocol.Model.{
  Event, Payload, SessionStartedPayload, SessionFinishedPayload, AttemptStartedPayload,
  AttemptFinishedPayload, StepStartedPayload, StepFinishedPayload, AttachmentAddedPayload,
  ScopeFailedPayload, session_started, session_finished, run_finished, attempt_started,
  attempt_finished, step_started, step_finished, attachment_added, scope_failed, unknown,
}
use qe_report.ReadModel.Model.{AttachmentReference, ScopeFailure}
use qe_report.ReadModel.Compare.{compare, or_else, by_number, at_or_before}

-- An event of one type: its envelope is that of `event`.
pub record Of (P : Type 0) : Type 0 where
  pub event : Event
  pub payload : P

pub record SessionState : Type 0 where
  pub started : Of SessionStartedPayload
  pub finished : Option (Of SessionFinishedPayload)
  pub execution_ids : List String

pub record StepState : Type 0 where
  pub started : Of StepStartedPayload
  pub finished : Option (Of StepFinishedPayload)

-- `steps_by_id` holds the place in `steps` of the state that the source shares between the two.
pub record AttemptState : Type 0 where
  pub started : Of AttemptStartedPayload
  pub finished : Option (Of AttemptFinishedPayload)
  pub steps : List StepState
  pub steps_by_id : Assoc String ℕ
  pub attachments : List AttachmentReference

pub record Emitted : Type 0 where
  pub session_id : String
  pub sequence : ℕ
  pub reference : AttachmentReference

-- The variables of the loop of `projectRun`.
pub record Projection : Type 0 where
  pub sessions : Assoc String SessionState
  pub attempts : Assoc String AttemptState
  pub scope_failures : List ScopeFailure
  pub emitted : List Emitted
  pub run_id : Option String

abbrev pub reference : Event → AttachmentAddedPayload → AttachmentReference
reference e p = record {
  session_id = e.session_id;
  attempt_id = p.attempt_id;
  step_id = p.step_id;
  name = p.name;
  media_type = p.media_type;
  size_bytes = p.size_bytes;
  sha256 = p.sha256;
}

abbrev pub scope_failure : Event → ScopeFailedPayload → ScopeFailure
scope_failure e p = record {
  session_id = e.session_id;
  occurred_at = e.occurred_at;
  path = p.path;
  display_name = p.display_name;
  raw_status = p.raw_status;
  location = p.location;
  failures = p.failures;
}

-- `set.add(x)`
abbrev pub add : String → List String → List String
add x xs = if any (λ y. y === x) xs then xs else xs ++ (x ∷ [])

abbrev pub updated {ℓ} :
    {V : Type ℓ} → (V → V) → String → Option V → Assoc String V → Assoc String V
updated f k none m = m
updated f k (some v) m = set k (f v) m

-- what `map.get(k)` holds is changed, if it is there
abbrev pub update {ℓ} : {V : Type ℓ} → (V → V) → String → Assoc String V → Assoc String V
update f k m = updated f k (get k m) m

abbrev pub change_at {ℓ} : {A : Type ℓ} → (A → A) → ℕ → List A → List A
change_at f i [] = []
change_at f zero (x ∷ xs) = f x ∷ xs
change_at f (suc i) (x ∷ xs) = x ∷ change_at f i xs

abbrev pub start_step : Of StepStartedPayload → AttemptState → AttemptState
start_step s a = record a {
  steps = a.steps ++ (record { started = s; finished = none } ∷ []);
  steps_by_id = set s.payload.step_id (length a.steps) a.steps_by_id;
}

abbrev pub finish_at : Of StepFinishedPayload → Option ℕ → AttemptState → AttemptState
finish_at s none a = a
finish_at s (some i) a = record a {
  steps = change_at (λ t. record t { finished = some s }) i a.steps;
}

abbrev pub finish_step : Of StepFinishedPayload → AttemptState → AttemptState
finish_step s a = finish_at s (get s.payload.step_id a.steps_by_id) a

-- the switch on the type of the event
abbrev pub project_payload : Event → Payload → Projection → Projection
project_payload e (session_started p) s = record s {
  sessions =
      set e.session_id
        (record {
          started = record { event = e; payload = p };
          finished = none;
          execution_ids = [];
        })
        s.sessions;
}
project_payload e (session_finished p) s = record s {
  sessions =
      update (λ t. record t { finished = some (record { event = e; payload = p }) }) e.session_id
        s.sessions;
}
project_payload e run_finished s = s
project_payload e (attempt_started p) s = record s {
  attempts =
      set p.attempt_id
        (record {
          started = record { event = e; payload = p };
          finished = none;
          steps = [];
          steps_by_id = [];
          attachments = [];
        })
        s.attempts;
  sessions =
      update (λ t. record t { execution_ids = add p.test.execution_id t.execution_ids })
        e.session_id s.sessions;
}
project_payload e (attempt_finished p) s = record s {
  attempts =
      update (λ a. record a { finished = some (record { event = e; payload = p }) }) p.attempt_id
        s.attempts;
}
project_payload e (step_started p) s = record s {
  attempts = update (start_step (record { event = e; payload = p })) p.attempt_id s.attempts;
}
project_payload e (step_finished p) s = record s {
  attempts = update (finish_step (record { event = e; payload = p })) p.attempt_id s.attempts;
}
project_payload e (attachment_added p) s = record s {
  attempts =
      update (λ a. record a { attachments = a.attachments ++ (reference e p ∷ []) }) p.attempt_id
        s.attempts;
  emitted =
      s.emitted
      ++ (record { session_id = e.session_id; sequence = e.sequence; reference = reference e p }
          ∷ []);
}
project_payload e (scope_failed p) s = record s {
  scope_failures = s.scope_failures ++ (scope_failure e p ∷ []);
}
project_payload e (unknown type p) s = s

-- `runId ??= event.runId`
abbrev pub or_default : String → Option String → Option String
or_default x none = some x
or_default x (some y) = some y

unfoldable pub project_event : Projection → Event → Projection
project_event s e = project_payload e e.payload (record s { run_id = or_default e.run_id s.run_id })

abbrev pub project_events : Projection → List Event → Projection
project_events s [] = s
project_events s (e ∷ es) = project_events (project_event s e) es

abbrev pub no_events : Projection
no_events = record {
  sessions = [];
  attempts = [];
  scope_failures = [];
  emitted = [];
  run_id = none;
}

abbrev pub compare_events : Event → Event → Ordering
compare_events a b = or_else (compare a.session_id b.session_id) (by_number a.sequence b.sequence)

unfoldable pub ordered : List Event → List Event
ordered = sort (at_or_before compare_events)

abbrev pub compare_emitted : Emitted → Emitted → Ordering
compare_emitted a b = or_else (compare a.session_id b.session_id) (by_number a.sequence b.sequence)
