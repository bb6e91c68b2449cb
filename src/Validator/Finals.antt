-- ===== src/Validator/Finals.antt =====
-- validator.ts: what a verdict of `passed` says of the final attempts.
use qe_report.Prelude.{
  inl, inr, String, true, false, Option, none, some, List, [], ◌∷◌, ◌≡◌, refl, subst, arith, any,
  All,
}
use text.Mathlib.TextEquality.{eq_iff}
use qe_report.Prelude.Keys.{text_keys}
use qe_report.Prelude.Assoc.{Assoc, get}
use qe_report.Validator.Model.{AttemptState, RunValidator}
use qe_report.Validator.Finish.{
  passed, is_complete, verdict_of, any_unexpected, any_inconclusive, values, final_attempts_from,
  final_attempts,
}
use qe_report.Validator.Highest.{
  Highest, Member, OtherThan, any-values-get, final_attempts_from-Highest,
}

-- the attempt that decides the outcome of an attempt's execution, and it is neither unexpected nor
-- inconclusive
abbrev pub Decided : List AttemptState → AttemptState → Type 0
Decided l a =
    (f : AttemptState) × Highest a.execution_id l (some f)
    × (f.unexpected ≡ false)
    × (f.inconclusive ≡ false)

-- What a verdict of `passed` says of a run.
pub record Passed (v : RunValidator) : Type 0 where
  pub complete : is_complete v ≡ true
  pub no_scope_failure : v.scope_failures ≡ 0
  pub no_failed_session : v.failed_sessions ≡ 0
  pub no_inconclusive_session : v.inconclusive_sessions ≡ 0
  pub decided : All (Decided (values v.attempts)) (values v.attempts)

no_finals :
    (v : RunValidator)
    → verdict_of v ≡ passed
    → (is_complete v ≡ true)
      × (any_unexpected v ≡ false)
      × (v.scope_failures ≡ 0)
      × (v.failed_sessions ≡ 0)
      × (any_inconclusive v ≡ false)
      × (v.inconclusive_sessions ≡ 0)
unfolding verdict_of
no_finals v h = ground arith

All-members :
    (P : AttemptState → Type 0) (l : List AttemptState)
    → ((a : AttemptState) → Member a l → P a)
    → All P l
All-members P [] f = tt
All-members P (a ∷ l) f = (f a (inl refl), All-members P l (λ b m. f b (inr m)))

All-member :
    (P : AttemptState → Type 0) (a : AttemptState) (l : List AttemptState)
    → All P l
    → Member a l
    → P a
All-member P a [] h m = elim m [ ]
All-member P a (b ∷ l) h (inl e) = subst P e h.0
All-member P a (b ∷ l) h (inr m) = All-member P a l h.1 m

-- the execution of an attempt has a final attempt
final_is_decisive :
    (l : List AttemptState) (m : Assoc String AttemptState) (a : AttemptState)
    (o : Option AttemptState)
    → get a.execution_id m ≡ o
    → any (λ (f : AttemptState). f.unexpected) (values m) ≡ false
    → any (λ (f : AttemptState). f.inconclusive) (values m) ≡ false
    → Member a l
    → Highest a.execution_id l o
    → Decided l a
final_is_decisive l m a none e u i member h = absurd (
    ground (
      arith,
      eq_iff a.execution_id a.execution_id,
      All-member (OtherThan a.execution_id) a l h member,
    ))
final_is_decisive l m a (some f) e u i member h = (
  f,
  h,
  any-values-get (λ (f : AttemptState). f.unexpected) a.execution_id m u e,
  any-values-get (λ (f : AttemptState). f.inconclusive) a.execution_id m i e,
)

-- If the verdict is `passed`, then the run is complete, no scope and no session failed, no session was
-- inconclusive, and every execution has a final attempt: one with the highest number among the
-- execution's attempts, and neither unexpected nor inconclusive.
pub verdict_of-Passed : (v : RunValidator) → verdict_of v ≡ passed → Passed v
unfolding final_attempts
verdict_of-Passed v h =
    let facts = no_finals v h in
    let l : List AttemptState = values v.attempts in
    let m : Assoc String AttemptState = final_attempts_from [] l in
    record {
      complete = facts.0;
      no_scope_failure = facts.2;
      no_failed_session = facts.3;
      no_inconclusive_session = facts.5;
      decided = All-members (Decided l) l λ a member.
          final_is_decisive l m a (get a.execution_id m) refl facts.1 facts.4 member
            (final_attempts_from-Highest l a.execution_id);
    }
