-- ===== src/Client/Retry.antt =====
-- ts/packages/http-client/src/retry.ts. A TypeError is `none`.
use qe_report.Prelude.{
  ℕ, ◌+◌, ◌-◌, ◌*◌, ◌^◌, String, Bool, false, ◌&&◌, ◌||◌, Option, none, some, List, [], ◌∷◌, leb,
  ◌==◌, if◌then◌else◌, length,
}
use qe_report.Prelude.Int.{pos}
use qe_report.Prelude.Text.{codes}
use qe_report.Prelude.Keys.{text_keys, ◌===◌}
use qe_report.Protocol.Json.{Number, integer}

pub record RetryPolicy : Type 0 where
  pub max_attempts : ℕ
  pub base_delay_ms : ℕ
  pub max_delay_ms : ℕ

-- `Partial<RetryPolicy>`; a number need not be whole.
pub record Overrides : Type 0 where
  pub max_attempts : Option Number
  pub base_delay_ms : Option Number
  pub max_delay_ms : Option Number

abbrev pub max_attempts_ceiling : ℕ
max_attempts_ceiling = 10

-- a whole number of at least zero, or the default
abbrev pub whole : ℕ → Option Number → Option ℕ
whole standard none = some standard
whole standard (some (integer (pos n))) = some n
whole standard (some _) = none

abbrev pub in_range : ℕ → ℕ → ℕ → Option RetryPolicy
in_range n b m =
    if leb 1 n && leb n max_attempts_ceiling && leb b m
    then some (record { max_attempts = n; base_delay_ms = b; max_delay_ms = m })
    else none

abbrev pub checked : Option ℕ → Option ℕ → Option ℕ → Option RetryPolicy
checked (some n) (some b) (some m) = in_range n b m
checked _ _ _ = none

unfoldable pub resolve_retry : Overrides → Option RetryPolicy
resolve_retry o =
    checked (whole 4 o.max_attempts) (whole 250 o.base_delay_ms) (whole 30000 o.max_delay_ms)

unfoldable pub retriable_status : ℕ → Bool
retriable_status s =
    (s == 408) || (s == 425) || (s == 429) || (s == 500) || (s == 502) || (s == 503) || (s == 504)

abbrev pub one_of_texts : List String → String → Bool
one_of_texts [] s = false
one_of_texts (x ∷ xs) s = (x === s) || one_of_texts xs s

abbrev pub retriable_codes : List String
retriable_codes =
    "ECONNRESET" ∷ "ECONNREFUSED" ∷ "ECONNABORTED" ∷ "EPIPE" ∷ "ETIMEDOUT" ∷ "EHOSTUNREACH"
    ∷ "ENETUNREACH" ∷ "ENETDOWN" ∷ "ENETRESET" ∷ "EAI_AGAIN" ∷ "UND_ERR_SOCKET" ∷ []

-- an error by its `code`, where that is a text
unfoldable pub is_retriable_error : Option String → Bool
is_retriable_error none = false
is_retriable_error (some code) = one_of_texts retriable_codes code

abbrev pub min : ℕ → ℕ → ℕ
min a b = if leb a b then a else b

-- `scale window` is `Math.round(window * random())`.
unfoldable pub delay_before : (scale : ℕ → ℕ) → ℕ → RetryPolicy → Option ℕ → ℕ
delay_before scale attempt policy (some after) = min after policy.max_delay_ms
delay_before scale attempt policy none =
    scale (min (policy.base_delay_ms * 2 ^ (attempt - 1)) policy.max_delay_ms)

abbrev pub decimal : ℕ → List ℕ → Option ℕ
decimal n [] = some n
decimal n (c ∷ r) =
    let rest = decimal (10 * n + (c - 48)) r in if leb 48 c && leb c 57 then rest else none

-- a text of 1 to 7 digits
abbrev pub seconds : List ℕ → Option ℕ
seconds s = if leb 1 (length s) && leb (length s) 7 then decimal 0 s else none

abbrev pub wait_of : Option ℕ → Option ℕ → ℕ → Option ℕ
wait_of (some s) at now = some (s * 1000)
wait_of none (some at) now = some (at - now)
wait_of none none now = none

-- `date` reads a text that matches HTTP_DATE by Date.parse; an instant before the epoch is 0, since
-- `now` is after it and the difference is cut off at 0.
unfoldable pub retry_after_ms :
    (trim : String → String) → (date : String → Option ℕ) → Option String → ℕ → Option ℕ
retry_after_ms trim date none now = none
retry_after_ms trim date (some header) now =
    wait_of (seconds (codes (trim header))) (date (trim header)) now
