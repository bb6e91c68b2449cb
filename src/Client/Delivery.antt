-- ===== src/Client/Delivery.antt =====
-- ts/packages/http-client/src/client.ts, `deliver`: the attempts of one upload.
use qe_report.Prelude.{ℕ, zero, suc, ◌+◌, String, Bool, Option, none, leb, if◌then◌else◌}
use qe_report.Client.Retry.{RetryPolicy, is_retriable_error, delay_before, retry_after_ms}
use qe_report.Client.Answer.{
  Response, UploadResult, Rejection, Answer, done, rejected, again, Reader, read,
}

-- What `send` gives: LocalRunDirectoryError, UploadAborted, another error by its `code`, or an answer.
pub data Attempt : Type 0 where
  directory_error upload_aborted : Attempt
  failed : Option String → Attempt
  answered : Response → Attempt

-- The transport for one plan, the clock, and the seams of the client, over a world of their own.
-- `scale w n` is `Math.round(n * random())`; a sleep says whether an abort has ended it.
pub record Seams (W : Type 0) : Type 0 where
  pub reader : Reader
  pub trim : String → String
  pub http_date : String → Option ℕ
  pub send : W → Attempt × W
  pub aborted : W → Bool
  pub now : W → ℕ
  pub scale : W → ℕ → ℕ
  pub sleep : ℕ → W → Bool × W

-- The world, the number of requests sent, and the milliseconds that sleeps were asked for.
pub record Progress (W : Type 0) : Type 0 where
  pub world : W
  pub sent : ℕ
  pub waited : ℕ

-- The result of `deliver` or the error that it throws; `transport_error` has its attempts.
pub data Delivery : Type 0 where
  delivered : UploadResult → Delivery
  refused : Rejection → Delivery
  transport_error : ℕ → Delivery
  cancelled directory_changed : Delivery

abbrev pub Ending : Type 0 → Type 0
Ending W = Delivery × Progress W

module _ {W : Type 0} (c : Seams W) (policy : RetryPolicy) where
  abbrev pub unless_cancelled : (Progress W → Ending W) → Bool → Progress W → Ending W
  unless_cancelled next ended q =
      if ended then (cancelled, q) else if c.aborted q.world then (cancelled, q) else next q

  abbrev pub slept : (Progress W → Ending W) → Bool × W → ℕ → Progress W → Ending W
  slept next (ended, w) d p =
      unless_cancelled next ended (record { world = w; sent = p.sent; waited = p.waited + d })

  abbrev pub sleep_for : (Progress W → Ending W) → ℕ → Progress W → Ending W
  sleep_for next d p = slept next (c.sleep d p.world) d p

  unfoldable pub wait_before : ℕ → Option String → (Progress W → Ending W) → Progress W → Ending W
  wait_before attempt header next p =
      if leb policy.max_attempts attempt
      then next p
      else sleep_for next
          (delay_before (c.scale p.world) attempt policy
            (retry_after_ms c.trim c.http_date header (c.now p.world)))
          p

  abbrev pub after_answer : ℕ → Response → Answer → (Progress W → Ending W) → Progress W → Ending W
  after_answer attempt r (done result) next p = (delivered result, p)
  after_answer attempt r (rejected e) next p = (refused e, p)
  after_answer attempt r again next p = wait_before attempt r.retry_after next p

  abbrev pub after_attempt : ℕ → Attempt → (Progress W → Ending W) → Progress W → Ending W
  after_attempt attempt directory_error next p = (directory_changed, p)
  after_attempt attempt upload_aborted next p = (cancelled, p)
  after_attempt attempt (failed code) next p =
      if is_retriable_error code
      then wait_before attempt none next p
      else (transport_error attempt, p)
  after_attempt attempt (answered r) next p =
      after_answer attempt r (read c.reader r attempt) next p

  abbrev pub sent_once : ℕ → Attempt × W → (Progress W → Ending W) → Progress W → Ending W
  sent_once attempt (a, w) next p =
      after_attempt attempt a next (record { world = w; sent = p.sent + 1; waited = p.waited })

  abbrev pub try_once : ℕ → (Progress W → Ending W) → Progress W → Ending W
  try_once attempt next p =
      if c.aborted p.world then (cancelled, p) else sent_once attempt (c.send p.world) next p

  -- the loop, with `n` attempts left
  unfoldable pub deliver_from : (n attempt : ℕ) → Progress W → Ending W
  deliver_from zero attempt p = (transport_error policy.max_attempts, p)
  deliver_from (suc n) attempt p = try_once attempt (deliver_from n (attempt + 1)) p

  unfoldable pub deliver : W → Ending W
  unfolding deliver_from
  deliver w = deliver_from policy.max_attempts 1 (record { world = w; sent = 0; waited = 0 })
