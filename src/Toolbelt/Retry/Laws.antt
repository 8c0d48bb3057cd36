-- ===== src/Toolbelt/Retry/Laws.antt =====
-- The retries end, repeat nothing that may have been carried out, and wait for no longer than the cap.
use mx_loom.Common.{
  ℕ, zero, suc, ◌+◌, ◌*◌, ◌-◌, ◌^◌, if_both, subst, ◌%◌, ◌≤◌, ◌<◌, min, max, ◌≡◌, refl, sym, ap,
  ◌∙◌, ◌⊎◌, inl, inr, true, false, none, some, [], ◌∷◌, ◌++◌, All, All-append, leb, arith,
  Bool-cases,
}
use mathlib.Core.List.{append_assoc}
use mx_loom.Toolbelt.Transport.{Thrown, Outcome, resolved, rejected}
use mx_loom.Toolbelt.Retry.{
  RetryPolicy, unit, backoff_delay, is_retryable, RetryEvent, attempted, waited, Log, Retried,
  Settled, after_attempt, with_retry,
}

mul-le : (c m x u : ℕ) → c ≤ m → x ≤ u → c * x ≤ m * u
mul-le c m x u h k = grind arith

below_unit : (r : ℕ) → r % unit ≤ unit
below_unit r = omega arith

pub backoff_delay-le :
    (policy : RetryPolicy) (attempt random : ℕ)
    → backoff_delay policy attempt random ≤ policy.max_delay_ms * unit
unfolding backoff_delay
backoff_delay-le policy attempt random =
    let capped = min policy.max_delay_ms (policy.base_delay_ms * policy.factor ^ (attempt - 1)) in
    if_both (λ d. d ≤ policy.max_delay_ms * unit) policy.jitter _ _
      (mul-le capped policy.max_delay_ms (random % unit) unit (omega arith) (below_unit random))
      (mul-le capped policy.max_delay_ms unit unit (omega arith) (omega arith))

module _ {T A : Type 0} (fn : Retried T A) (policy : RetryPolicy) where
  -- What may come before the last attempt: an attempt of this function that failed with a retryable
  -- code, and a wait after one for at most the cap.
  abbrev pub Again : RetryEvent T A → Type 0
  Again (attempted t (resolved v)) = ⊥
  Again (attempted t (rejected err)) = (t ≡ fn.tag) × (is_retryable policy err ≡ true)
  Again (waited err n d) = (is_retryable policy err ≡ true) × (d ≤ policy.max_delay_ms * unit)

  abbrev pub tries : Log T A → ℕ
  tries [] = 0
  tries (attempted t out ∷ log) = suc (tries log)
  tries (waited err n d ∷ log) = tries log

  abbrev pub Final : Outcome A → ℕ → Type 0
  Final (resolved v) n = Unit
  Final (rejected err) n = (is_retryable policy err ≡ false) ⊎ (policy.max_attempts ≤ n)

  -- The loop from an attempt ended: its outcome is that of the last event, before it stand only
  -- failures that are retried and their waits, and the attempts stay within the policy's number.
  abbrev pub Ended : ℕ → Log T A → Settled T A → Type 0
  Ended attempt log none = ⊥
  Ended attempt log (some (out, log')) =
      (more : Log T A) × (log' ≡ attempted fn.tag out ∷ (more ++ log))
      × All Again more
      × (attempt + tries more ≤ max attempt policy.max_attempts)
      × Final out (attempt + tries more)

  tries-append : (xs ys : Log T A) → tries (xs ++ ys) ≡ tries xs + tries ys
  tries-append [] ys = omega arith
  tries-append (attempted t out ∷ xs) ys = omega (arith, tries-append xs ys)
  tries-append (waited err n d ∷ xs) ys = tries-append xs ys

  Again-rejected :
      (out : Outcome A) (err : Thrown)
      → out ≡ rejected err
      → is_retryable policy err ≡ true
      → Again (attempted fn.tag out)
  Again-rejected out err is again = rw is (refl, again)

  -- One more round in front.
  Ended-again :
      (attempt d : ℕ) (err : Thrown) (failed : Outcome A) (log : Log T A) (r : Settled T A)
      → failed ≡ rejected err
      → is_retryable policy err ≡ true
      → d ≤ policy.max_delay_ms * unit
      → attempt < policy.max_attempts
      → Ended (attempt + 1) (waited err attempt d ∷ attempted fn.tag failed ∷ log) r
      → Ended attempt log r
  Ended-again attempt d err failed log none is again short early h = absurd h
  Ended-again attempt d err failed log (some (out, log')) is again short early
        (more, same, all, few, final) =
      let round : Log T A = waited err attempt d ∷ attempted fn.tag failed ∷ [] in
      let count : attempt + 1 + tries more ≡ attempt + tries (more ++ round) =
        omega (arith, tries-append more round) in
      (
        more ++ round,
        same ∙ ap (λ t. attempted fn.tag out ∷ t) (sym (append_assoc more round log)),
        All-append Again more round all ((again, short), (Again-rejected failed err is again, tt)),
        omega arith,
        subst (Final out) count final,
      )

  after_attempt-Ended :
      (attempt : ℕ) (out : Outcome A) (log : Log T A) (again : Thrown → Settled T A)
      → ((err : Thrown)
          → out ≡ rejected err
          → is_retryable policy err ≡ true
          → attempt < policy.max_attempts
          → Ended attempt log (again err))
      → Ended attempt log (after_attempt policy attempt out (attempted fn.tag out ∷ log) again)
  after_attempt-Ended attempt (resolved v) log again h = ([], refl, tt, omega arith, tt)
  after_attempt-Ended attempt (rejected err) log again h =
      elim (Bool-cases (is_retryable policy err)) [
        | inr fatal ↦ rw fatal ([], refl, tt, omega arith, inl fatal)
        | inl retry ↦ elim (Bool-cases (leb policy.max_attempts attempt)) [
          | inl last ↦ rw (retry, last) ([], refl, tt, omega arith, inr (ground arith))
          | inr early ↦ rw (retry, early) (h err refl retry (ground arith))
        ]
      ]

  with_retry-Ended :
      (fuel attempt : ℕ) (log : Log T A)
      → 0 < fuel
      → policy.max_attempts < attempt + fuel
      → Ended attempt log (with_retry fuel fn policy attempt log)
  unfolding with_retry
  with_retry-Ended zero attempt log some_fuel enough = absurd (omega arith)
  with_retry-Ended (suc fuel) attempt log some_fuel enough =
      after_attempt-Ended attempt (fn.run log) log _ (λ err is retry early.
        Ended-again attempt
          (backoff_delay policy attempt (fn.random (attempted fn.tag (fn.run log) ∷ log))) err
          (fn.run log) log _ is retry (backoff_delay-le policy attempt _) early
          (with_retry-Ended fuel (attempt + 1) _ (omega arith) (omega arith)))

  -- Counted from the first attempt, a call is retried to the end: it returns where the fuel exceeds
  -- the policy's number of attempts. It makes one attempt at least and that number at most; every
  -- attempt but the last failed with a retryable code, no wait is longer than the cap, and the outcome
  -- is that of the last attempt, which is a failure only if its code is not retryable or the attempts
  -- are used up.
  pub with_retry-bounded :
      (fuel : ℕ) (log : Log T A)
      → policy.max_attempts < fuel
      → Ended 1 log (with_retry fuel fn policy 1 log)
  with_retry-bounded fuel log enough = with_retry-Ended fuel 1 log (omega arith) (omega arith)
