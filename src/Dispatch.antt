-- ===== src/Dispatch.antt =====
-- packages/registry/src/handlers/dispatch-task.ts: the action of a task is read from the plan and
-- sent through the handler of a tool or of a command.
pub mod Starts
pub mod Laws
use mx_loom.Common.{
  ℕ, Bool, true, false, Option, none, some, List, [], ◌∷◌, ◌++◌, get_or, ◌or_else◌, if◌then◌else◌,
}
use mx_loom.Text.{Text, codes, eq_text, is_empty}
use mx_loom.Json.{Value}
use mx_loom.Errors.{known, internal, not_found, invalid_args}
use mx_loom.Envelope.{
  ToolStatus, ok, running, awaiting_approval, denied, error, ToolResult, errored_result,
}
use mx_loom.Invocation.Failure.{failure_result}
use mx_loom.Fault.{empty_audit_ref}
use mx_loom.Daemon.{History, Number, Deps}
use mx_loom.Delegate.{DelegateToolInput, DelegateDeps, mx_delegate_tool}
use mx_loom.RunCommand.{RunCommandInput, mx_run_command}
use mx_loom.Tasks.Action.{ActionDispatch, to_tool, to_exec, invalid, action_to_dispatch}
use mx_loom.Tasks.Handlers.{ListTasksInput, ListTasksResult, list_view, mx_list_tasks, usable_room}
use mx_loom.Tasks.Node.{StateValue, state, foreign_state, succeeded, failed, TaskAction, TaskNode}

pub record DispatchTaskInput : Type 0 where
  pub task_id : Text
  pub wait_ms : Option Number
  pub idempotency_key : Option Text

unfoldable pub task_dispatch_key : Text → Text
unfolding codes
task_dispatch_key task_id = codes "idk_" ++ codes "task_" ++ task_id

abbrev pub no_dispatch_room : ToolResult Value
no_dispatch_room =
    errored_result (known internal) (some (codes "no workspace room configured for task dispatch"))
      empty_audit_ref

abbrev pub not_dispatched : ToolResult Value
not_dispatched = failure_result (known invalid_args) empty_audit_ref

-- An envelope that is not `ok` has no result, and is handed on.
abbrev pub handed_on : ToolResult ListTasksResult → ToolResult Value
handed_on r = record {
  status = r.status;
  result = none;
  error = r.error;
  handle = r.handle;
  approval = r.approval;
  audit_ref = r.audit_ref;
}

abbrev pub is_ok : ToolStatus → Bool
is_ok ok = true
is_ok _ = false

abbrev pub tasks_of : Option ListTasksResult → List TaskNode
tasks_of none = []
tasks_of (some r) = r.tasks

unfoldable pub find_task : Text → List TaskNode → Option TaskNode
find_task id [] = none
find_task id (t ∷ ts) = let rest = find_task id ts in if eq_text t.task_id id then some t else rest

abbrev pub is_over : StateValue → Bool
is_over (state succeeded) = true
is_over (state failed) = true
is_over _ = false

-- What to send and to whom.
pub data Routed : Type 0 where
  refused : ToolResult Value → Routed
  by_tool : DelegateToolInput → Routed
  by_command : RunCommandInput → Routed

module _ (input : DispatchTaskInput) where
  abbrev pub dispatch_key : Text
  unfolding task_dispatch_key
  dispatch_key = get_or input.idempotency_key (task_dispatch_key input.task_id)

  abbrev pub route_to : Option Text → ActionDispatch → Routed
  route_to target (invalid why) = refused not_dispatched
  route_to none d = refused not_dispatched
  route_to (some []) d = refused not_dispatched
  route_to (some (c ∷ s)) (to_tool name args) = by_tool (record {
    agent = c ∷ s;
    tool = name;
    args = args;
    wait_ms = input.wait_ms;
    idempotency_key = some dispatch_key;
  })
  route_to (some (c ∷ s)) (to_exec command args cwd) = by_command (record {
    agent = c ∷ s;
    command = command;
    args = some args;
    cwd = cwd;
    wait_ms = input.wait_ms;
    idempotency_key = some dispatch_key;
  })

  abbrev pub route_action : Option Text → Option TaskAction → Routed
  route_action target none = refused not_dispatched
  route_action target (some a) = route_to target (action_to_dispatch a)

  unfoldable pub route_node : Option TaskNode → Routed
  route_node none = refused (failure_result (known not_found) empty_audit_ref)
  route_node (some node) =
      if is_over node.state_value
      then refused not_dispatched
      else route_action node.assignee node.action

  unfoldable pub route_listed : ToolResult ListTasksResult → Routed
  route_listed listed =
      if is_ok listed.status
      then route_node (find_task input.task_id (tasks_of listed.result))
      else refused (handed_on listed)

-- `fuel` bounds the rounds of the wait.
abbrev pub send : ℕ → Routed → DelegateDeps → History → Option (ToolResult Value × History)
send fuel (refused r) d h = some (r, h)
send fuel (by_tool input) d h = mx_delegate_tool fuel input d h
send fuel (by_command input) d h = mx_run_command fuel input d.deps h

abbrev pub list_input : ListTasksInput
list_input = record { state = none; assignee = none; view = some list_view }

abbrev pub dispatch_in :
    Option Text
    → ℕ
    → DispatchTaskInput
    → DelegateDeps
    → History
    → Option (ToolResult Value × History)
dispatch_in none fuel input d h = some (no_dispatch_room, h)
dispatch_in (some room) fuel input d h =
    let (listed, h') = mx_list_tasks list_input d.deps h in
    let sent = send fuel (route_listed input listed) d h' in
    if is_empty input.task_id then some (not_dispatched, h) else sent

unfoldable pub mx_dispatch_task :
    ℕ → DispatchTaskInput → DelegateDeps → History → Option (ToolResult Value × History)
mx_dispatch_task fuel input d h = dispatch_in (usable_room d.deps.room) fuel input d h
