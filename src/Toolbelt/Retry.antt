-- ===== src/Toolbelt/Retry.antt =====
-- packages/toolbelt/src/retry.ts: the bounded retry of a call, with exponential backoff.
pub mod Laws
use mx_loom.Common.{
  ℕ, zero, suc, ◌+◌, ◌-◌, ◌*◌, ◌^◌, ◌%◌, min, Bool, true, false, not, ◌||◌, Option, none, some,
  List, [], ◌∷◌, any, leb, if◌then◌else◌,
}
use mx_loom.Toolbelt.Transport.{
  TransportErrorCode, not_running, connect_failed, timeout, closed, frame, protocol, rpc,
  invalid_args, Thrown, transport_error, other_error, Outcome, resolved, rejected,
}

pub record RetryPolicy : Type 0 where
  pub max_attempts : ℕ
  pub base_delay_ms : ℕ
  pub max_delay_ms : ℕ
  pub factor : ℕ
  pub jitter : Bool
  pub retryable_codes : List TransportErrorCode

abbrev pub default_retry_policy : RetryPolicy
default_retry_policy = record {
  max_attempts = 3;
  base_delay_ms = 50;
  max_delay_ms = 1000;
  factor = 2;
  jitter = true;
  retryable_codes = connect_failed ∷ [];
}

unfoldable pub eq_code : TransportErrorCode → TransportErrorCode → Bool
eq_code not_running not_running = true
eq_code connect_failed connect_failed = true
eq_code timeout timeout = true
eq_code closed closed = true
eq_code frame frame = true
eq_code protocol protocol = true
eq_code rpc rpc = true
eq_code invalid_args invalid_args = true
eq_code c d = false

-- What `Math.random` draws: a multiple of 2^-53 below 1, given by the multiple. A delay is counted
-- in the same units of a millisecond; the policy's numbers are natural, and the rounding of doubles
-- is not modelled.
abbrev pub unit : ℕ
unit = 2 ^ 53

unfoldable pub backoff_delay : RetryPolicy → ℕ → ℕ → ℕ
backoff_delay policy attempt random =
    let capped = min policy.max_delay_ms (policy.base_delay_ms * policy.factor ^ (attempt - 1)) in
    if policy.jitter then capped * (random % unit) else capped * unit

-- `code !== undefined && policy.retryableCodes.includes(code)`.
unfoldable pub is_retryable : RetryPolicy → Thrown → Bool
is_retryable policy (transport_error c) = any (eq_code c) policy.retryable_codes
is_retryable policy other_error = false

-- What happened, the latest first: a call that settled, and the wait after a failed attempt. `T`
-- tells the callees of one log apart.
pub data RetryEvent (T A : Type 0) : Type 0 where
  attempted : T → Outcome A → RetryEvent T A
  waited : Thrown → ℕ → ℕ → RetryEvent T A

abbrev pub Log : Type 0 → Type 0 → Type 0
Log T A = List (RetryEvent T A)

-- The function that is retried, and `Math.random`, by all that happened before.
pub record Retried (T A : Type 0) : Type 0 where
  pub tag : T
  pub run : Log T A → Outcome A
  pub random : Log T A → ℕ

abbrev pub Settled : Type 0 → Type 0 → Type 0
Settled T A = Option (Outcome A × Log T A)

-- The `catch`: `again` is what comes after the wait.
abbrev pub after_attempt :
    {T A : Type 0} → RetryPolicy → ℕ → Outcome A → Log T A → (Thrown → Settled T A) → Settled T A
after_attempt policy attempt (resolved v) log again = some (resolved v, log)
after_attempt policy attempt (rejected err) log again =
    if not (is_retryable policy err) || leb policy.max_attempts attempt
    then some (rejected err, log)
    else again err

-- The loop from a 1-based attempt, on fuel: `none` means that the fuel ran out.
unfoldable pub with_retry :
    {T A : Type 0} → ℕ → Retried T A → RetryPolicy → ℕ → Log T A → Settled T A
with_retry zero fn policy attempt log = none
with_retry (suc fuel) fn policy attempt log =
    let out = fn.run log in
    let tried = attempted fn.tag out ∷ log in
    after_attempt policy attempt out tried (λ err.
      with_retry fuel fn policy (attempt + 1)
        (waited err attempt (backoff_delay policy attempt (fn.random tried)) ∷ tried))
