-- ===== src/Client/Counted.antt =====
-- client.ts: the number of attempts that an upload's outcome names.
use qe_report.Prelude.{
  ℕ, zero, suc, ◌+◌, String, Bool, true, false, Option, none, some, ◌≡◌, refl, arith, ◌||◌, not,
  ◌==◌, leb, sym,
}
use qe_report.Protocol.Json.{Json, null, boolean, number, text, array, object}
use qe_report.Client.Retry.{
  RetryPolicy, is_retriable_error, delay_before, retry_after_ms, retriable_status,
}
use qe_report.Client.Answer.{
  Response, UploadOutcome, Answer, done, rejected, again, Reader, read, read_success, read_failure,
  success_of, success, result, done_or_again, type_of, read_problem,
}
use qe_report.Client.Delivery.{
  Attempt, directory_error, upload_aborted, failed, answered, Seams, Progress, Ending,
  unless_cancelled, slept, sleep_for, wait_before, after_answer, after_attempt, sent_once, try_once,
  deliver_from, deliver, delivered, refused, transport_error, cancelled, directory_changed,
}
use qe_report.Client.Bounds.{either}

-- A result that an attempt gives names this attempt.
abbrev Names : ℕ → Answer → Type 0
Names n (done r) = r.attempts ≡ n
Names n (rejected e) = Unit
Names n again = Unit

result-Names :
    (o : Option UploadOutcome) (a b d q : Option String) (n : ℕ) (r : Option Bool)
    → Names n (done_or_again (result o a b d q n r))
result-Names none a b d q n r = tt
result-Names (some o) none b d q n r = tt
result-Names (some o) (some a) none d q n r = tt
result-Names (some o) (some a) (some b) none q n r = tt
result-Names (some o) (some a) (some b) (some d) q n r = refl

success-Names :
    (j : Option Json) (q : Option String) (n : ℕ) → Names n (done_or_again (success j q n))
success-Names none q n = tt
success-Names (some null) q n = tt
success-Names (some (boolean b)) q n = tt
success-Names (some (number b)) q n = tt
success-Names (some (text b)) q n = tt
success-Names (some (array b)) q n = tt
success-Names (some (object o)) q n = result-Names _ _ _ _ q n _

module _ (c : Reader) (r : Response) (n : ℕ) where
  read_success-Names : Names n (read_success c r n)
  unfolding success_of
  read_success-Names =
      either (Names n) (r.truncated || not (c.is_json_type (type_of r.content_type))) again _
        (λ _. tt) (λ _. success-Names (c.parse r.text) r.request_id n)

  read_failure-Names : Names n (read_failure c r)
  read_failure-Names =
      either (Names n) (retriable_status r.status) again
        (rejected
          (record { status = r.status; problem = read_problem c r; request_id = r.request_id }))
        (λ _. tt) (λ _. tt)

  read-Names : Names n (read c r n)
  unfolding read
  read-Names =
      either (Names n) ((r.status == 200) || (r.status == 201)) (read_success c r n)
        (read_failure c r) (λ _. read_success-Names) (λ _. read_failure-Names)

-- The outcome names the number of requests sent.
abbrev pub Counted : {W : Type 0} → Ending W → Type 0
Counted (delivered r, p) = r.attempts ≡ p.sent
Counted (transport_error k, p) = k ≡ p.sent
Counted (refused e, p) = Unit
Counted (cancelled, p) = Unit
Counted (directory_changed, p) = Unit

module _ {W : Type 0} (c : Seams W) (policy : RetryPolicy) where
  module _ (n : ℕ) (next : Progress W → Ending W)
      (next_lem : (p : Progress W) → p.sent ≡ n → Counted (next p)) where
    unless_cancelled-Counted :
        (b : Bool) (q : Progress W) → q.sent ≡ n → Counted (unless_cancelled c policy next b q)
    unless_cancelled-Counted true q h = tt
    unless_cancelled-Counted false q h =
        either Counted (c.aborted q.world) (cancelled, q) (next q) (λ _. tt) (λ _. next_lem q h)

    slept-Counted :
        (r : Bool × W) (d : ℕ) (p : Progress W) → p.sent ≡ n → Counted (slept c policy next r d p)
    slept-Counted (ended, w) d p h = unless_cancelled-Counted ended _ h

    wait_before-Counted :
        (header : Option String) (p : Progress W)
        → p.sent ≡ n
        → Counted (wait_before c policy n header next p)
    unfolding wait_before
    wait_before-Counted header p h =
        let d : ℕ =
          delay_before (c.scale p.world) n policy
            (retry_after_ms c.trim c.http_date header (c.now p.world)) in
        either Counted (leb policy.max_attempts n) (next p) (sleep_for c policy next d p)
          (λ _. next_lem p h) (λ _. slept-Counted _ d p h)

    after_answer-Counted :
        (r : Response) (a : Answer) (p : Progress W)
        → Names n a
        → p.sent ≡ n
        → Counted (after_answer c policy n r a next p)
    after_answer-Counted r (done result) p k h = omega (arith, k, h)
    after_answer-Counted r (rejected e) p k h = tt
    after_answer-Counted r again p k h = wait_before-Counted r.retry_after p h

    after_attempt-Counted :
        (a : Attempt) (p : Progress W) → p.sent ≡ n → Counted (after_attempt c policy n a next p)
    after_attempt-Counted directory_error p h = tt
    after_attempt-Counted upload_aborted p h = tt
    after_attempt-Counted (failed code) p h =
        either Counted (is_retriable_error code) (wait_before c policy n none next p)
          (transport_error n, p) (λ _. wait_before-Counted none p h) (λ _. sym h)
    after_attempt-Counted (answered r) p h =
        after_answer-Counted r (read c.reader r n) p (read-Names c.reader r n) h

    sent_once-Counted :
        (r : Attempt × W) (p : Progress W)
        → p.sent + 1 ≡ n
        → Counted (sent_once c policy n r next p)
    sent_once-Counted (a, w) p h =
        after_attempt-Counted a (record { world = w; sent = p.sent + 1; waited = p.waited }) h

    try_once-Counted : (p : Progress W) → p.sent + 1 ≡ n → Counted (try_once c policy n next p)
    try_once-Counted p h =
        either Counted (c.aborted p.world) (cancelled, p)
          (sent_once c policy n (c.send p.world) next p) (λ _. tt)
          (λ _. sent_once-Counted (c.send p.world) p h)

  deliver_from-Counted :
      (left n : ℕ) (p : Progress W)
      → n + left ≡ policy.max_attempts + 1
      → p.sent + 1 ≡ n
      → Counted (deliver_from c policy left n p)
  unfolding deliver_from
  deliver_from-Counted zero n p h k = omega (arith, h, k)
  deliver_from-Counted (suc left) n p h k =
      try_once-Counted n (deliver_from c policy left (n + 1))
        (λ q e. deliver_from-Counted left (n + 1) q (omega (arith, h)) (omega (arith, e))) p k

  -- An upload that ends with a result or with a transport error names the number of requests that were
  -- sent as its attempts.
  pub deliver-Counted : (w : W) → Counted (deliver c policy w)
  unfolding deliver
  deliver-Counted w =
      deliver_from-Counted policy.max_attempts 1 (record { world = w; sent = 0; waited = 0 })
        (omega arith) (omega arith)
