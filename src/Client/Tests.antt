-- ===== src/Client/Tests.antt =====
-- An upload to a service that never answers.
use qe_report.Prelude.{ℕ, false, none, some, ◌+◌, ◌-◌, ◌*◌, ◌≡◌, ◌≤◌, refl, arith}
use qe_report.Client.Retry.{RetryPolicy, Overrides, resolve_retry}
use qe_report.Client.Delivery.{Attempt, failed, Seams, deliver, transport_error}
use qe_report.Client.Bounds.{deliver-bounded}
use qe_report.Client.Counted.{Counted, deliver-Counted}

abbrev seams : Seams ℕ
seams = record {
  reader = record { parse = λ s. none; is_json_type = λ s. false; is_problem_type = λ s. false };
  trim = λ s. s;
  http_date = λ s. none;
  send = λ w. (failed (some "ECONNRESET"), w + 1);
  aborted = λ w. false;
  now = λ w. 0;
  scale = λ w n. n;
  sleep = λ d w. (false, w);
}

abbrev overrides : Overrides
overrides = record { max_attempts = none; base_delay_ms = none; max_delay_ms = none }

abbrev standard : RetryPolicy
standard = record { max_attempts = 4; base_delay_ms = 250; max_delay_ms = 30000 }

never_answered : (deliver seams standard 0).0 ≡ transport_error 4
unfolding deliver qe_report.Client.Delivery.deliver_from qe_report.Client.Delivery.wait_before
    qe_report.Client.Retry.is_retriable_error
never_answered = refl

resolved : resolve_retry overrides ≡ some standard
unfolding resolve_retry
resolved = refl

deliver-bounded_example :
    ((deliver seams standard 0).1.sent ≤ 4)
    × ((deliver seams standard 0).1.sent ≤ 10)
    × ((deliver seams standard 0).1.waited ≤ (4 - 1) * 30000)
deliver-bounded_example = deliver-bounded seams overrides standard 0 (λ w n. omega arith) resolved

deliver-Counted_example : Counted (deliver seams standard 0)
deliver-Counted_example = deliver-Counted seams standard 0
