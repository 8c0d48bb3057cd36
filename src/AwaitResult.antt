-- ===== src/AwaitResult.antt =====
-- packages/registry/src/handlers/await-result.ts: a deferred handle is polled until the invocation
-- is terminal or the budget of `wait_ms` has passed.
pub mod Loop
pub mod Resolve
pub mod Pending
use mx_loom.Common.{
  ℕ, zero, suc, ◌+◌, ◌-◌, min, max, Bool, true, false, Option, none, some, ◌||◌, ◌∷◌, leb,
  if◌then◌else◌,
}
use mx_loom.Text.{Text, codes}
use mx_loom.Json.{Value, str, obj, field, end}
use mx_loom.Envelope.{AuditRef, ToolResult}
use mx_loom.Invocation.{invocation_to_result, is_terminal}
use mx_loom.Fault.{fault_to_result}
use mx_loom.Daemon.{
  Reply, resolved, rejected, Event, called, slept, clock_read, History, Env, Number, whole,
  below_zero, not_finite, call, Deps,
}

abbrev pub default_poll_interval_ms : ℕ
default_poll_interval_ms = 200

abbrev pub min_poll_interval_ms : ℕ
min_poll_interval_ms = 10

abbrev pub max_poll_interval_ms : ℕ
max_poll_interval_ms = 2000

pub record AwaitInput : Type 0 where
  pub handle : Text
  pub wait_ms : Option Number

unfoldable pub normalise_wait_ms : Option Number → ℕ
normalise_wait_ms (some (whole n)) = n
normalise_wait_ms _ = 0

abbrev clamp_poll_interval : ℕ → ℕ
clamp_poll_interval v = min max_poll_interval_ms (max min_poll_interval_ms v)

unfoldable pub resolve_poll_interval : Option Number → ℕ
resolve_poll_interval (some (whole n)) = clamp_poll_interval n
resolve_poll_interval (some below_zero) = clamp_poll_interval 0
resolve_poll_interval (some not_finite) = clamp_poll_interval default_poll_interval_ms
resolve_poll_interval none = clamp_poll_interval default_poll_interval_ms

unfoldable pub handle_audit_ref : Text → AuditRef
handle_audit_ref handle = record {
  invocation_id = some handle;
  request_id = none;
  room = none;
  event_id = none;
}

-- `{ invocation_id: handle }`.
unfoldable pub invocation_params : Text → Value
invocation_params handle = obj (field (codes "invocation_id") (str handle) end)

unfoldable pub probe_result : Text → Reply → ToolResult Value
probe_result handle (resolved raw) = invocation_to_result raw
probe_result handle (rejected err) = fault_to_result err (handle_audit_ref handle)

unfoldable pub probe : Env → Text → History → ToolResult Value × History
unfolding probe_result
probe env handle h =
    let (reply, h') = call env (codes "invocation.get") (invocation_params handle) h in
    (probe_result handle reply, h')

-- The `for (;;)` loop, on fuel: `none` means that the fuel ran out.
unfoldable pub poll_loop :
    Env → Text → ℕ → ℕ → ℕ → ToolResult Value → History → Option (ToolResult Value × History)
poll_loop env handle interval deadline zero current h = none
poll_loop env handle interval deadline (suc fuel) current h =
    let remaining = deadline - env.clock h in
    let slept_h = slept (min interval remaining) ∷ clock_read ∷ h in
    let (next, h') = probe env handle slept_h in
    let rest = poll_loop env handle interval deadline fuel next h' in
    if leb deadline (env.clock h)
    then some (current, clock_read ∷ h)
    else if is_terminal next.status
    then some (next, h')
    else rest

-- The steps after a first probe that found the invocation pending, with a positive budget.
unfoldable pub wait_pending :
    Deps → Text → ℕ → ℕ → ToolResult Value → History → Option (ToolResult Value × History)
wait_pending deps handle wait fuel current h =
    let interval = resolve_poll_interval deps.poll_interval_ms in
    let deadline = deps.env.clock h + wait in
    poll_loop deps.env handle interval deadline fuel current (clock_read ∷ h)

-- `fuel` bounds the rounds of the loop.
unfoldable pub mx_await_result :
    ℕ → AwaitInput → Deps → History → Option (ToolResult Value × History)
mx_await_result fuel input deps h =
    let (current, h') = probe deps.env input.handle h in
    let wait = normalise_wait_ms input.wait_ms in
    if is_terminal current.status || leb wait 0
    then some (current, h')
    else wait_pending deps input.handle wait fuel current h'
