-- ===== src/Delegate.antt =====
-- packages/registry/src/handlers/delegate-tool.ts: a named tool on a remote agent, its arguments
-- checked against the schema that the agent publishes, with an optional wait for the end.
pub mod Tools
pub mod Laws
pub mod Refs
use mx_loom.Common.{ℕ, Bool, true, false, Option, none, some, List, [], ◌∷◌, if◌then◌else◌}
use mx_loom.Text.{Text, codes}
use mx_loom.Json.{Value, str, obj, field, end, get, as_record}
use mx_loom.Errors.{known, internal, not_found, invalid_args}
use mx_loom.Envelope.{ToolResult, errored_result}
use mx_loom.Invocation.{call_response_to_result}
use mx_loom.Invocation.Failure.{failure_result}
use mx_loom.Fault.{empty_audit_ref, fault_to_result}
use mx_loom.Daemon.{Reply, resolved, rejected, History, Number, call, Deps}
use mx_loom.RunCommand.{wait_inline}
use mx_loom.Tasks.Handlers.{usable_room, key_or_new}
use Tools.{PublishedTool, published_tools, parse_tool_ref, find_tool}

pub record DelegateToolInput : Type 0 where
  pub agent : Text
  pub tool : Text
  pub args : Value
  pub wait_ms : Option Number
  pub idempotency_key : Option Text

-- The validator of a schema, which is a library's; `none` is its throw on a schema that it cannot
-- compile.
pub record DelegateDeps : Type 0 where
  pub deps : Deps
  pub compile : Value → Option (Value → Bool)

unfoldable pub no_delegation_room : ToolResult Value
unfolding codes
no_delegation_room =
    errored_result (known internal) (some (codes "no workspace room configured for delegation"))
      empty_audit_ref

-- `validateArgs` finds nothing against the arguments: there is no schema, or none that compiles, or
-- the arguments fit it.
abbrev pub fits : Option (Value → Bool) → Value → Bool
fits none args = true
fits (some validate) args = validate args

unfoldable pub validate_args : DelegateDeps → Option Value → Value → Bool
validate_args d none args = true
validate_args d (some schema) args = fits (d.compile schema) args

unfoldable pub tools_params : Text → Value
tools_params agent = obj (field (codes "agent_id") (str agent) end)

unfoldable pub start_params : DelegateToolInput → Text → Text → Value
start_params input room key = obj (
    field (codes "room") (str room) (
      field (codes "agent") (str input.agent) (
        field (codes "tool") (str input.tool)
          (field (codes "args") input.args (field (codes "idempotency_key") (str key) end)))))

abbrev pub after_call :
    ℕ → DelegateToolInput → Deps → Reply → History → Option (ToolResult Value × History)
after_call fuel input deps (rejected err) h = some (fault_to_result err empty_audit_ref, h)
after_call fuel input deps (resolved raw) h =
    wait_inline fuel input.wait_ms deps (call_response_to_result raw) h

-- The dispatch, once the arguments passed.
unfoldable pub start_call :
    ℕ → DelegateToolInput → Deps → Text → History → Option (ToolResult Value × History)
start_call fuel input deps room h =
    let (key, h') = key_or_new deps.env input.idempotency_key h in
    let (reply, h'') = call deps.env (codes "call.start") (start_params input room key) h' in
    after_call fuel input deps reply h''

abbrev pub start_validated :
    Bool → ℕ → DelegateToolInput → Deps → Text → History → Option (ToolResult Value × History)
start_validated false fuel input deps room h =
    some (failure_result (known invalid_args) empty_audit_ref, h)
start_validated true fuel input deps room h = start_call fuel input deps room h

abbrev pub start_tool :
    Option PublishedTool
    → ℕ
    → DelegateToolInput
    → DelegateDeps
    → Text
    → History
    → Option (ToolResult Value × History)
start_tool none fuel input d room h = some (failure_result (known not_found) empty_audit_ref, h)
start_tool (some target) fuel input d room h =
    start_validated (validate_args d target.input_schema input.args) fuel input d.deps room h

abbrev pub after_tools :
    Reply
    → ℕ
    → DelegateToolInput
    → DelegateDeps
    → Text
    → History
    → Option (ToolResult Value × History)
after_tools (rejected err) fuel input d room h = some (fault_to_result err empty_audit_ref, h)
after_tools (resolved raw) fuel input d room h =
    start_tool (find_tool (parse_tool_ref input.tool) (published_tools raw)) fuel input d room h

abbrev pub delegate_in :
    Option Text
    → ℕ
    → DelegateToolInput
    → DelegateDeps
    → History
    → Option (ToolResult Value × History)
delegate_in none fuel input d h = some (no_delegation_room, h)
delegate_in (some room) fuel input d h =
    let (reply, h') = call d.deps.env (codes "agent.tools") (tools_params input.agent) h in
    after_tools reply fuel input d room h'

-- `fuel` bounds the rounds of the wait.
unfoldable pub mx_delegate_tool :
    ℕ → DelegateToolInput → DelegateDeps → History → Option (ToolResult Value × History)
mx_delegate_tool fuel input d h = delegate_in (usable_room d.deps.room) fuel input d h
