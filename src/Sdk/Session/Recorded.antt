-- ===== src/Sdk/Session/Recorded.antt =====
-- The events that a sink has accepted, kept beside the state of any sink; and the protocol's order of
-- a session's events, as an automaton on their types.
use qe_report.Prelude.{
  ℕ, ◌+◌, String, Bool, true, false, Option, none, some, List, [], ◌∷◌, ◌++◌, ◌≡◌, refl, length,
  All, arith, if◌then◌else◌,
}
use qe_report.Prelude.Keys.{text_keys, ◌===◌}
use qe_report.Protocol.Model.{Event, event_type}
use qe_report.Sdk.Session.Model.{
  ReportSink, Options, Session, SessionState, active, session_finished, run_finished, closed,
}

abbrev pub Recorded : Type 0 → Type 0
Recorded K = K × List Event

abbrev pub record_write : {K : Type 0} → Event → List Event → Bool × K → Bool × Recorded K
record_write e log (true, k) = (true, (k, log ++ e ∷ []))
record_write e log (false, k) = (false, (k, log))

abbrev pub beside_log : {K A : Type 0} → List Event → A × K → A × Recorded K
beside_log log (a, k) = (a, (k, log))

abbrev pub recording : {K : Type 0} → ReportSink K → ReportSink (Recorded K)
recording sink = record {
  max_attachment_bytes = sink.max_attachment_bytes;
  write = λ e r. record_write e r.1 (sink.write e r.0);
  store_attachment = λ bytes r. beside_log r.1 (sink.store_attachment bytes r.0);
  store_stream = λ bytes r. beside_log r.1 (sink.store_stream bytes r.0);
  close = λ r. beside_log r.1 (sink.close r.0);
}

-- the same options over the recording sink
abbrev pub recorded : {K : Type 0} → Options K → Options (Recorded K)
recorded c = record {
  run_id = c.run_id;
  session_id = c.session_id;
  sink = recording c.sink;
  redactor = c.redactor;
  ids = c.ids;
  clock = c.clock;
  max_event_bytes = c.max_event_bytes;
  stringify = c.stringify;
  encode = c.encode;
  decode = c.decode;
  lower_case = c.lower_case;
}

-- the events that the sink has accepted
abbrev pub log : {K : Type 0} → Session (Recorded K) → List Event
log s = s.sink.1

-- The order of a session's events: session.finished ends it, and run.finished may follow.
unfoldable pub step : SessionState → String → Option SessionState
step active type =
    if type === "session.finished"
    then some session_finished
    else if type === "run.finished"
    then none
    else some active
step session_finished type = if type === "run.finished" then some run_finished else none
step run_finished type = none
step closed type = none

abbrev pub step_from : Option SessionState → String → Option SessionState
step_from none type = none
step_from (some state) type = step state type

-- the state that the automaton reaches, unless it rejects the events
abbrev pub replay : Option SessionState → List Event → Option SessionState
replay state [] = state
replay state (e ∷ es) = replay (step_from state (event_type e.payload)) es

pub replay-append :
    (state : Option SessionState) (es : List Event) (e : Event)
    → replay state (es ++ e ∷ []) ≡ step_from (replay state es) (event_type e.payload)
replay-append state [] e = refl
replay-append state (x ∷ es) e = replay-append (step_from state (event_type x.payload)) es e

-- The sequence numbers go up by one from `n`.
abbrev pub Numbered : ℕ → List Event → Type 0
Numbered n [] = Unit
Numbered n (e ∷ es) = (e.sequence ≡ n + 1) × Numbered (n + 1) es

pub Numbered-append :
    (n : ℕ) (es : List Event) (e : Event)
    → Numbered n es
    → e.sequence ≡ n + length es + 1
    → Numbered n (es ++ e ∷ [])
Numbered-append n [] e h s = (omega arith, tt)
Numbered-append n (x ∷ es) e h s = (h.0, Numbered-append (n + 1) es e h.1 (omega arith))

abbrev pub Owned : {K : Type 0} → Options K → Event → Type 0
Owned c e = (e.run_id ≡ c.run_id) × (e.session_id ≡ c.session_id)

-- What holds of a session whose sink has accepted events that leave the automaton in `state`.
pub record Logged {K : Type 0} (c : Options K) (state : SessionState) (s : Session (Recorded K))
    : Type 0 where
  pub numbered : Numbered 0 (log s)
  pub sequence : s.sequence ≡ length (log s)
  pub written : s.written ≡ length (log s)
  pub owned : All (Owned c) (log s)
  pub reached : replay (some active) (log s) ≡ some state
