-- ===== src/RunCommand.antt =====
-- packages/registry/src/handlers/run-command.ts: a guarded command on a remote agent, with an
-- optional wait for its end.
pub mod Laws
use mx_loom.Common.{
  ℕ, zero, suc, ◌&&◌, Bool, true, false, not, Option, none, some, List, [], ◌∷◌, get_or,
  if◌then◌else◌,
}
use mx_loom.Text.{Text, codes}
use mx_loom.Json.{Value, str, obj, field, end}
use mx_loom.Errors.{known, internal}
use mx_loom.Envelope.{ToolResult, errored_result}
use mx_loom.Invocation.{call_response_to_result, is_terminal}
use mx_loom.Fault.{empty_audit_ref, fault_to_result}
use mx_loom.Daemon.{Reply, resolved, rejected, History, Env, Number, whole, call, Deps}
use mx_loom.AwaitResult.{AwaitInput, mx_await_result}
use mx_loom.Tasks.Action.{optional, text_array, text_value}
use mx_loom.Tasks.Handlers.{usable_room, key_or_new}

pub record RunCommandInput : Type 0 where
  pub agent : Text
  pub command : Text
  pub args : Option (List Text)
  pub cwd : Option Text
  pub wait_ms : Option Number
  pub idempotency_key : Option Text

unfoldable pub is_positive_wait : Option Number → Bool
is_positive_wait (some (whole (suc n))) = true
is_positive_wait wait_ms = false

unfoldable pub run_params : RunCommandInput → Text → Text → Value
unfolding text_array
run_params input room key = obj (
    field (codes "room") (str room) (
      field (codes "agent") (str input.agent) (
        field (codes "command") (str input.command) (
          field (codes "args") (text_array (get_or input.args [])) (
            optional (codes "cwd") (text_value input.cwd)
              (field (codes "idempotency_key") (str key) end))))))

abbrev pub no_exec_room : ToolResult Value
no_exec_room =
    errored_result (known internal) (some (codes "no workspace room configured for exec"))
      empty_audit_ref

-- A handle that is missing, or empty, is not waited for.
abbrev pub wait_for :
    ℕ
    → Option Text
    → Option Number
    → Deps
    → ToolResult Value
    → History
    → Option (ToolResult Value × History)
wait_for fuel (some (c ∷ s)) wait_ms deps r h =
    mx_await_result fuel (record { handle = c ∷ s; wait_ms = wait_ms }) deps h
wait_for fuel handle wait_ms deps r h = some (r, h)

unfoldable pub wait_inline :
    ℕ → Option Number → Deps → ToolResult Value → History → Option (ToolResult Value × History)
wait_inline fuel wait_ms deps r h =
    if not (is_terminal r.status) && is_positive_wait wait_ms
    then wait_for fuel r.handle wait_ms deps r h
    else some (r, h)

abbrev pub after_start :
    ℕ → RunCommandInput → Deps → Reply → History → Option (ToolResult Value × History)
after_start fuel input deps (rejected err) h = some (fault_to_result err empty_audit_ref, h)
after_start fuel input deps (resolved raw) h =
    wait_inline fuel input.wait_ms deps (call_response_to_result raw) h

abbrev pub start_in :
    Option Text → ℕ → RunCommandInput → Deps → History → Option (ToolResult Value × History)
start_in none fuel input deps h = some (no_exec_room, h)
start_in (some room) fuel input deps h =
    let (key, h') = key_or_new deps.env input.idempotency_key h in
    let (reply, h'') = call deps.env (codes "exec.start") (run_params input room key) h' in
    after_start fuel input deps reply h''

-- `fuel` bounds the rounds of the wait.
unfoldable pub mx_run_command :
    ℕ → RunCommandInput → Deps → History → Option (ToolResult Value × History)
mx_run_command fuel input deps h = start_in (usable_room deps.room) fuel input deps h
