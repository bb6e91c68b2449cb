-- ===== src/Sdk/Session/Results.antt =====
-- A session after any calls.
use qe_report.Prelude.{
  Bool, true, false, none, some, List, [], ◌∷◌, ◌≡◌, refl, subst, if◌then◌else◌,
}
use mathlib.Core.Option.{some-injective}
use qe_report.Protocol.Model.{SessionStartedPayload, session_started}
use qe_report.Sdk.Session.Model.{Options, Session, Outcome, returned, thrown, active, new_session}
use qe_report.Sdk.Session.Lifecycle.{emit, opened, start}
use qe_report.Sdk.Session.Calls.{Call, call, calls}
use qe_report.Sdk.Session.Recorded.{Recorded, recorded}
use qe_report.Sdk.Session.Sound.{Sound, Keeps}
use qe_report.Sdk.Session.Keep.{emit_rule, call_rule}

module _ {K : Type 0} (c : Options K) where
  calls_rule :
      (xs : List Call) (s : Session (Recorded K)) → Sound c s → Sound c (calls (recorded c) xs s)
  unfolding calls
  calls_rule [] s h = h
  calls_rule (x ∷ xs) s h = calls_rule xs (call (recorded c) x s) (call_rule c x s h)

  new_session-Sound : (k : K) → Sound c (new_session (k, []))
  new_session-Sound k = (
    active,
    record { numbered = tt; sequence = refl; written = refl; owned = tt; reached = refl },
    refl,
  )

  opened-Sound :
      (o : Outcome (Recorded K) Bool) {s : Session (Recorded K)}
      → Keeps c o
      → opened o ≡ some s
      → Sound c s
  opened-Sound (returned a t) h e = subst (Sound c) (some-injective _ _ e) h
  opened-Sound (thrown t) h e = cc

  started_if :
      (b : Bool) (o : Outcome (Recorded K) Bool) {s : Session (Recorded K)}
      → Keeps c o
      → (if b then opened o else none) ≡ some s
      → Sound c s
  started_if true o h e = opened-Sound o h e
  started_if false o h e = cc

  start-Sound :
      (p : SessionStartedPayload) (k : K) {s : Session (Recorded K)}
      → start (recorded c) p (k, []) ≡ some s
      → Sound c s
  unfolding start
  start-Sound p k e =
      started_if _ (emit (recorded c) (session_started p) (new_session (k, [])))
        (emit_rule c (session_started p) (new_session (k, [])) refl (new_session-Sound k)) e

  -- After `start` and any calls, whether they return or throw and whatever the sink does, the events
  -- that the sink has accepted are numbered 1, 2, 3 and so on, `sequence` and `written` count them,
  -- they carry the run and session of the options, and their types are in the protocol's order: after
  -- session.finished only one run.finished follows, and nothing after that. The lifecycle is the state
  -- that this order has reached, unless the session is closed.
  pub calls-Sound :
      (p : SessionStartedPayload) (k : K) (xs : List Call) {s : Session (Recorded K)}
      → start (recorded c) p (k, []) ≡ some s
      → Sound c (calls (recorded c) xs s)
  calls-Sound p k xs {s} e = calls_rule xs s (start-Sound p k e)
