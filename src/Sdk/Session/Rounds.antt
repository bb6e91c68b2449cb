-- ===== src/Sdk/Session/Rounds.antt =====
-- session.ts: the rounds of the loop of `finish`.
use qe_report.Prelude.{
  ℕ, zero, suc, ◌+◌, ◌<◌, Bool, false, Option, none, some, ◌≡◌, refl, arith, if◌then◌else◌, is_some,
}
use qe_report.Protocol.Model.{Payload, SessionFinishedPayload}
use qe_report.Protocol.Codec.Read.{some_failures}
use qe_report.Sdk.Session.Model.{
  Options, Session, Outcome, returned, thrown, Action, continue, problem, event_too_large,
}
use qe_report.Sdk.Session.Write.{WriteAttempt, written, too_large, failed, write}
use qe_report.Sdk.Session.Lifecycle.{reduction, retry_reduced, after_attempt, finish_with}

-- how often an outcome can be reduced
abbrev pub reductions : SessionFinishedPayload → ℕ
reductions p = (if some_failures p.failures then 1 else 0) + (if is_some p.raw_status then 1 else 0)

pub reduction-smaller :
    (p : SessionFinishedPayload) {q : SessionFinishedPayload}
    → reduction p ≡ some q
    → reductions q < reductions p
unfolding reduction
reduction-smaller p h = ground arith

continue-same :
    {S A B : Type 0} (o : Outcome S A) (f g : A → Action S B)
    → ((a : A) (s : Session S) → f a s ≡ g a s)
    → continue o f ≡ continue o g
continue-same (returned a s) f g same = same a s
continue-same (thrown s) f g same = refl

retry_reduced-same :
    {S : Type 0} (f g : SessionFinishedPayload → Action S Bool) (o : Option SessionFinishedPayload)
    (s : Session S)
    → ((q : SessionFinishedPayload) (t : Session S) → o ≡ some q → f q t ≡ g q t)
    → retry_reduced f o s ≡ retry_reduced g o s
retry_reduced-same f g none s same = refl
retry_reduced-same f g (some q) s same = same q (problem event_too_large s) refl

after_attempt-same :
    {S : Type 0} (f g : SessionFinishedPayload → Action S Bool) (p : SessionFinishedPayload)
    (w : WriteAttempt) (s : Session S)
    → ((q : SessionFinishedPayload) (t : Session S) → reduction p ≡ some q → f q t ≡ g q t)
    → after_attempt f p w s ≡ after_attempt g p w s
after_attempt-same f g p written s same = refl
after_attempt-same f g p failed s same = refl
after_attempt-same f g p too_large s same = retry_reduced-same f g (reduction p) s same

rounds-enough :
    {S : Type 0} (c : Options S) (m n : ℕ) (p : SessionFinishedPayload) (s : Session S)
    → reductions p < m
    → reductions p < n
    → finish_with c m p s ≡ finish_with c n p s
unfolding finish_with
rounds-enough c zero n p s hm hn = absurd (omega arith)
rounds-enough c (suc m) zero p s hm hn = absurd (omega arith)
rounds-enough c (suc m) (suc n) p s hm hn =
    continue-same (write c (Payload.session_finished p) false s) (after_attempt (finish_with c m) p)
      (after_attempt (finish_with c n) p)
      λ w t. after_attempt-same (finish_with c m) (finish_with c n) p w t λ q u e.
        rounds-enough c m n q u (omega (arith, reduction-smaller p e))
          (omega (arith, reduction-smaller p e))

pub reductions-bound : (p : SessionFinishedPayload) → reductions p < 3
reductions-bound p = ground arith

-- The loop of `finish` needs three rounds at most: from there on, more rounds change nothing, whatever
-- the outcome, the sink and the redactor. So the loop always ends.
pub finish_with-three_rounds :
    {S : Type 0} (c : Options S) (n : ℕ) (p : SessionFinishedPayload) (s : Session S)
    → finish_with c (3 + n) p s ≡ finish_with c 3 p s
finish_with-three_rounds c n p s =
    rounds-enough c (3 + n) 3 p s (omega (arith, reductions-bound p)) (reductions-bound p)
