-- ===== src/AwaitResult/Pending.antt =====
-- A pending envelope carries no error: the end of the budget is never a `timeout`.
use mx_loom.Fault.{fault_to_result}
use mx_loom.Errors.{CodeValue}
use mx_loom.Invocation.Failure.{is_denial_code, failure_result}
use mx_loom.Common.{
  Bool, true, false, inr, inl, ◌||◌, ◌+◌, Bool-cases, leb, ◌∷◌, ◌-◌, min, ℕ, zero, suc, ◌≡◌, refl,
  false, Option, none, some, if_both,
}
use mx_loom.Text.{Text}
use mx_loom.Json.{Value}
use mx_loom.Envelope.{
  AuditRef, denied_result, awaiting_result, running_result, ok_result, errored_result, ToolResult,
}
use mx_loom.Invocation.{cancelled_result, unrecognised_result, is_terminal}
use mx_loom.Invocation.Rule.{Arms, invocation-rule}
use mx_loom.Daemon.{clock_read, slept, Reply, resolved, rejected, History, Env, Deps}
use mx_loom.AwaitResult.{
  normalise_wait_ms, resolve_poll_interval, AwaitInput, probe_result, probe, poll_loop,
  wait_pending, mx_await_result,
}

abbrev pub CleanUnless : Bool → ToolResult Value → Type 0
CleanUnless true t = Unit
CleanUnless false t =
    (t.error ≡ none) × (t.result ≡ none) × (handle : Text) × (t.handle ≡ some handle)

-- An envelope that is not terminal has a handle and neither an error nor a result.
abbrev pub PendingClean : ToolResult Value → Type 0
PendingClean t = CleanUnless (is_terminal t.status) t

failure_result-PendingClean : (c : CodeValue) (ref : AuditRef) → PendingClean (failure_result c ref)
unfolding failure_result denied_result errored_result is_terminal
failure_result-PendingClean c ref = if_both PendingClean (is_denial_code c) _ _ tt tt

pending-Arms : (raw : Value) → Arms PendingClean raw
unfolding unrecognised_result cancelled_result errored_result ok_result running_result
    awaiting_result is_terminal
pending-Arms raw = record {
  failure = λ ref. failure_result-PendingClean _ ref;
  unrecognised = λ ref. tt;
  cancelled = λ ref. tt;
  success = λ ref. tt;
  running = λ handle ref. (refl, refl, handle, refl);
  awaiting = λ handle a ref. (refl, refl, handle, refl);
}

probe_result-PendingClean :
    (handle : Text) (reply : Reply) → PendingClean (probe_result handle reply)
unfolding probe_result fault_to_result
probe_result-PendingClean handle (resolved raw) =
    invocation-rule PendingClean raw (pending-Arms raw)
probe_result-PendingClean handle (rejected err) = failure_result-PendingClean _ _

probe-PendingClean : (env : Env) (handle : Text) (h : History) → PendingClean (probe env handle h).0
unfolding probe
probe-PendingClean env handle h = probe_result-PendingClean handle _

-- The envelope that a run returns, where it returns one, is clean.
abbrev pub ReturnsClean : Option (ToolResult Value × History) → Type 0
ReturnsClean none = Unit
ReturnsClean (some (r, h)) = PendingClean r

poll_loop-PendingClean :
    (env : Env) (handle : Text) (interval deadline fuel : ℕ) (current : ToolResult Value)
    (h : History)
    → PendingClean current
    → ReturnsClean (poll_loop env handle interval deadline fuel current h)
unfolding poll_loop
poll_loop-PendingClean env handle interval deadline zero current h clean = tt
poll_loop-PendingClean env handle interval deadline (suc fuel) current h clean =
    let (next, h') =
      probe env handle (slept (min interval (deadline - env.clock h)) ∷ clock_read ∷ h) in
    let next_clean = probe-PendingClean env handle _ in
    if_both ReturnsClean (leb deadline (env.clock h)) _ _ clean (
      if_both ReturnsClean (is_terminal next.status) _ _ next_clean
        (poll_loop-PendingClean env handle interval deadline fuel next h' next_clean))

wait_pending-PendingClean :
    (deps : Deps) (handle : Text) (wait fuel : ℕ) (current : ToolResult Value) (h : History)
    → PendingClean current
    → ReturnsClean (wait_pending deps handle wait fuel current h)
unfolding wait_pending
wait_pending-PendingClean deps handle wait fuel current h clean =
    poll_loop-PendingClean deps.env handle (resolve_poll_interval deps.poll_interval_ms)
      (deps.env.clock h + wait) fuel current (clock_read ∷ h) clean

-- An envelope that the resolver returns while the invocation is pending has a handle and neither an
-- error nor a result, so the end of the budget is never reported as a timeout.
mx_await_result-PendingClean :
    (input : AwaitInput) (deps : Deps) (fuel : ℕ) (h : History)
    → ReturnsClean (mx_await_result fuel input deps h)
unfolding mx_await_result
mx_await_result-PendingClean input deps fuel h =
    let (first, h') = probe deps.env input.handle h in
    let wait = normalise_wait_ms input.wait_ms in
    let first_clean = probe-PendingClean deps.env input.handle h in
    elim (Bool-cases (is_terminal first.status || leb wait 0)) [
      | inl at_once ↦ rw at_once first_clean
      | inr later ↦
          rw later (wait_pending-PendingClean deps input.handle wait fuel first h' first_clean)
    ]
