-- ===== src/Client/Bounds.antt =====
-- client.ts and retry.ts: how often an upload is tried, and how long it waits.
use qe_report.Prelude.{
  ℕ, zero, suc, ◌+◌, ◌-◌, ◌*◌, ◌^◌, ◌≤◌, String, Bool, true, false, Option, none, some, ◌≡◌, refl,
  sym, ◌&&◌, leb, if◌then◌else◌, arith, subst, ap,
}
use native.Mathlib.Nat.{suc-mul}
use mathlib.Core.Option.{some-injective}
use qe_report.Client.Retry.{
  RetryPolicy, Overrides, in_range, checked, whole, resolve_retry, max_attempts_ceiling, min,
  is_retriable_error, delay_before, retry_after_ms,
}
use qe_report.Client.Answer.{Response, Answer, done, rejected, again}
use qe_report.Client.Delivery.{
  Attempt, directory_error, upload_aborted, failed, answered, Seams, Progress, Delivery, Ending,
  slept, sleep_for, wait_before, after_answer, after_attempt, sent_once, try_once, unless_cancelled,
  delivered, refused, transport_error, cancelled, directory_changed, deliver_from, deliver,
}

abbrev Usable : RetryPolicy → Type 0
Usable p = (1 ≤ p.max_attempts) × (p.max_attempts ≤ max_attempts_ceiling)

pub either :
    {A : Type 0} (P : A → Type 0) (b : Bool) (x y : A)
    → (b ≡ true → P x)
    → (b ≡ false → P y)
    → P (if b then x else y)
either P true x y f g = f refl
either P false x y f g = g refl

within_ceiling : (n b m : ℕ) → (leb 1 n && leb n 10 && leb b m) ≡ true → (1 ≤ n) × (n ≤ 10)
within_ceiling n b m h = ground arith

in_range-Usable : (n b m : ℕ) (p : RetryPolicy) → in_range n b m ≡ some p → Usable p
in_range-Usable n b m p h =
    either (λ r. r ≡ some p → Usable p) (leb 1 n && leb n 10 && leb b m) _ none
      (λ e k. subst Usable (some-injective _ _ k) (within_ceiling n b m e)) (λ e k. ground arith) h

checked-Usable : (n b m : Option ℕ) (p : RetryPolicy) → checked n b m ≡ some p → Usable p
checked-Usable (some n) (some b) (some m) p h = in_range-Usable n b m p h
checked-Usable none b m p h = ground arith
checked-Usable (some n) none m p h = ground arith
checked-Usable (some n) (some b) none p h = ground arith

not_last : (n a m : ℕ) → a + m ≡ n → leb n a ≡ false → 1 ≤ m
not_last n a m h e = ground arith

less_one : (m : ℕ) → suc m - 1 ≡ m
less_one m = omega arith

one_more :
    (m d total waited longest : ℕ)
    → 1 ≤ m
    → d ≤ longest
    → total ≤ waited + d + (m - 1) * longest
    → total ≤ waited + m * longest
one_more zero d total waited longest k h e = omega arith
one_more (suc m) d total waited longest k h e =
    omega (arith, suc-mul m longest, ap (λ k. k * longest) (less_one m))

fewer :
    (m total waited longest : ℕ) → total ≤ waited + (m - 1) * longest → total ≤ waited + m * longest
fewer zero total waited longest e = e
fewer (suc m) total waited longest e =
    omega (arith, suc-mul m longest, ap (λ k. k * longest) (less_one m))

min_right : (a b : ℕ) → min a b ≤ b
min_right a b = ground arith

module _ {W : Type 0} (c : Seams W) (policy : RetryPolicy)
    (scale_lem : (w : W) (n : ℕ) → c.scale w n ≤ n) where
  delay_before-bounded :
      (w : W) (attempt : ℕ) (after : Option ℕ)
      → delay_before (c.scale w) attempt policy after ≤ policy.max_delay_ms
  unfolding delay_before
  delay_before-bounded w attempt (some t) = min_right t policy.max_delay_ms
  delay_before-bounded w attempt none =
      let m = min (policy.base_delay_ms * 2 ^ (attempt - 1)) policy.max_delay_ms in
      omega (
        arith,
        scale_lem w m,
        min_right (policy.base_delay_ms * 2 ^ (attempt - 1)) policy.max_delay_ms,
      )

  -- at most `n` more requests, and sleeps of at most `k` times the longest delay
  abbrev Within : ℕ → ℕ → Progress W → Ending W → Type 0
  Within n k p e = (e.1.sent ≤ p.sent + n) × (e.1.waited ≤ p.waited + k * policy.max_delay_ms)

  stopped : (n k : ℕ) (d : Delivery) (p : Progress W) → Within n k p (d, p)
  stopped n k d p = (omega arith, omega arith)

  module _ (m : ℕ) (next : Progress W → Ending W)
      (next_lem : (p : Progress W) → Within m (m - 1) p (next p)) where
    unless_cancelled-Within :
        (b : Bool) (q : Progress W) → Within m (m - 1) q (unless_cancelled c policy next b q)
    unless_cancelled-Within true q = stopped m (m - 1) cancelled q
    unless_cancelled-Within false q =
        either (Within m (m - 1) q) (c.aborted q.world) (cancelled, q) (next q)
          (λ _. stopped m (m - 1) cancelled q) (λ _. next_lem q)

    slept-Within :
        (r : Bool × W) (d : ℕ) (p : Progress W)
        → d ≤ policy.max_delay_ms
        → 1 ≤ m
        → Within m m p (slept c policy next r d p)
    slept-Within (ended, w) d p h k =
        let q : Progress W = record { world = w; sent = p.sent; waited = p.waited + d } in
        let e : Within m (m - 1) q (unless_cancelled c policy next ended q) =
          unless_cancelled-Within ended q in
        (e.0, one_more m d _ p.waited policy.max_delay_ms k h e.1)

    next_now : (p : Progress W) → Within m m p (next p)
    next_now p = ((next_lem p).0, fewer m _ p.waited policy.max_delay_ms (next_lem p).1)

    wait_before-Within :
        (attempt : ℕ) (header : Option String) (p : Progress W)
        → attempt + m ≡ policy.max_attempts
        → Within m m p (wait_before c policy attempt header next p)
    unfolding wait_before
    wait_before-Within attempt header p h =
        let d : ℕ =
          delay_before (c.scale p.world) attempt policy
            (retry_after_ms c.trim c.http_date header (c.now p.world)) in
        either (Within m m p) (leb policy.max_attempts attempt) (next p)
          (sleep_for c policy next d p) (λ _. next_now p)
          (λ e.
            slept-Within _ d p (delay_before-bounded p.world attempt _)
              (not_last policy.max_attempts attempt m h e))

    after_answer-Within :
        (attempt : ℕ) (r : Response) (a : Answer) (p : Progress W)
        → attempt + m ≡ policy.max_attempts
        → Within m m p (after_answer c policy attempt r a next p)
    after_answer-Within attempt r (done result) p h = stopped m m (delivered result) p
    after_answer-Within attempt r (rejected e) p h = stopped m m (refused e) p
    after_answer-Within attempt r again p h = wait_before-Within attempt r.retry_after p h

    after_attempt-Within :
        (attempt : ℕ) (a : Attempt) (p : Progress W)
        → attempt + m ≡ policy.max_attempts
        → Within m m p (after_attempt c policy attempt a next p)
    after_attempt-Within attempt directory_error p h = stopped m m directory_changed p
    after_attempt-Within attempt upload_aborted p h = stopped m m cancelled p
    after_attempt-Within attempt (failed code) p h =
        either (Within m m p) (is_retriable_error code) _ _
          (λ _. wait_before-Within attempt none p h) (λ _. stopped m m (transport_error attempt) p)
    after_attempt-Within attempt (answered r) p h = after_answer-Within attempt r _ p h

    sent_once-Within :
        (attempt : ℕ) (r : Attempt × W) (p : Progress W)
        → attempt + m ≡ policy.max_attempts
        → Within (suc m) m p (sent_once c policy attempt r next p)
    sent_once-Within attempt (a, w) p h =
        let q : Progress W = record { world = w; sent = p.sent + 1; waited = p.waited } in
        let e : Within m m q (after_attempt c policy attempt a next q) =
          after_attempt-Within attempt a q h in
        (omega (arith, e.0), e.1)

    try_once-Within :
        (attempt : ℕ) (p : Progress W)
        → attempt + m ≡ policy.max_attempts
        → Within (suc m) m p (try_once c policy attempt next p)
    try_once-Within attempt p h =
        either (Within (suc m) m p) (c.aborted p.world) (cancelled, p)
          (sent_once c policy attempt (c.send p.world) next p) (λ _. stopped (suc m) m cancelled p)
          (λ _. sent_once-Within attempt (c.send p.world) p h)

  deliver_from-Within :
      (n attempt : ℕ) (p : Progress W)
      → attempt + n ≡ policy.max_attempts + 1
      → Within n (n - 1) p (deliver_from c policy n attempt p)
  unfolding deliver_from
  deliver_from-Within zero attempt p h = stopped 0 0 (transport_error policy.max_attempts) p
  deliver_from-Within (suc n) attempt p h =
      let next : Progress W → Ending W = deliver_from c policy n (attempt + 1) in
      subst (λ k. Within (suc n) k p (try_once c policy attempt next p)) (sym (less_one n))
        (try_once-Within n next (λ q. deliver_from-Within n (attempt + 1) q (omega (arith, h)))
          attempt p (omega (arith, h)))

-- Under a policy that the client accepts, an upload sends at most the policy's attempts and at most ten
-- requests, and its waits add up to at most the policy's longest delay for each attempt but one, whatever
-- the service answers, provided that a random delay is no longer than its window.
pub deliver-bounded :
    {W : Type 0} (c : Seams W) (o : Overrides) (policy : RetryPolicy) (w : W)
    → ((w : W) (n : ℕ) → c.scale w n ≤ n)
    → resolve_retry o ≡ some policy
    → ((deliver c policy w).1.sent ≤ policy.max_attempts)
      × ((deliver c policy w).1.sent ≤ 10)
      × ((deliver c policy w).1.waited ≤ (policy.max_attempts - 1) * policy.max_delay_ms)
unfolding deliver resolve_retry
deliver-bounded c o policy w scale_lem h =
    let u : Usable policy =
      checked-Usable (whole 4 o.max_attempts) (whole 250 o.base_delay_ms)
        (whole 30000 o.max_delay_ms) policy h in
    let e =
      deliver_from-Within c policy scale_lem policy.max_attempts 1
        (record { world = w; sent = 0; waited = 0 }) (omega arith) in
    (omega (arith, e.0), omega (arith, e.0, u.1), omega (arith, e.1))
