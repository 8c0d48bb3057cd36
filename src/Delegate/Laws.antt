-- ===== src/Delegate/Laws.antt =====
-- A tool is called once at most, after its arguments passed, and then only its invocation is read.
use mx_loom.Common.{ℕ, ◌<◌, ◌≡◌, refl, Bool, true, false, Option, none, some, [], ◌∷◌}
use mx_loom.Text.{Text, codes}
use mx_loom.Json.{Value}
use mx_loom.Errors.{known, not_found, invalid_args}
use mx_loom.Envelope.{ToolResult}
use mx_loom.Invocation.{call_response_to_result}
use mx_loom.Invocation.Failure.{failure_result}
use mx_loom.Fault.{empty_audit_ref, fault_to_result}
use mx_loom.Daemon.{Reply, resolved, rejected, called, History}
use mx_loom.Daemon.Traces.{Extends-refl, Progress}
use mx_loom.AwaitResult.{normalise_wait_ms}
use mx_loom.RunCommand.Laws.{Waited, wait_inline-Waited}
use mx_loom.Tasks.Handlers.{usable_room, key_or_new}
use mx_loom.Delegate.{
  DelegateToolInput, DelegateDeps, no_delegation_room, validate_args, tools_params, start_params,
  after_call, start_call, start_validated, start_tool, after_tools, delegate_in, mx_delegate_tool,
}
use mx_loom.Delegate.Tools.{PublishedTool, published_tools, parse_tool_ref, find_tool}

abbrev pub refusal_unless : Bool → Option (ToolResult Value)
refusal_unless true = none
refusal_unless false = some (failure_result (known invalid_args) empty_audit_ref)

-- What is returned before the dispatch, if anything: the fault of `agent.tools`, a tool that the agent
-- does not publish, or arguments that do not fit the tool's schema.
abbrev pub refusal_of_tool :
    DelegateToolInput → DelegateDeps → Option PublishedTool → Option (ToolResult Value)
refusal_of_tool input d none = some (failure_result (known not_found) empty_audit_ref)
refusal_of_tool input d (some t) = refusal_unless (validate_args d t.input_schema input.args)

abbrev pub refusal_by : DelegateToolInput → DelegateDeps → Reply → Option (ToolResult Value)
refusal_by input d (rejected err) = some (fault_to_result err empty_audit_ref)
refusal_by input d (resolved raw) =
    refusal_of_tool input d (find_tool (parse_tool_ref input.tool) (published_tools raw))

-- With a refusal nothing else is sent; without, the call, and then only the wait.
abbrev pub Starts :
    Option (ToolResult Value)
    → Text
    → DelegateToolInput
    → DelegateDeps
    → History
    → Option (ToolResult Value × History)
    → Type 0
Starts (some r) room input d h run = run ≡ some (r, h)
Starts none room input d h run =
    let (key, h') = key_or_new d.deps.env input.idempotency_key h in
    Waited d.deps (called (codes "call.start") (start_params input room key) ∷ h') run

abbrev pub DelegatesIn :
    Option Text
    → DelegateToolInput
    → DelegateDeps
    → History
    → Option (ToolResult Value × History)
    → Type 0
DelegatesIn none input d h run = run ≡ some (no_delegation_room, h)
DelegatesIn (some room) input d h run =
    let params = tools_params input.agent in
    Starts (refusal_by input d (d.deps.env.answer h (codes "agent.tools") params)) room input d
      (called (codes "agent.tools") params ∷ h) run

module _ (input : DelegateToolInput) (d : DelegateDeps) (fuel : ℕ) where
  module _ (progress : Progress d.deps.env) (enough : normalise_wait_ms input.wait_ms < fuel) where
    after_call-Waited :
        (reply : Reply) (h : History) → Waited d.deps h (after_call fuel input d.deps reply h)
    after_call-Waited (rejected err) h = ([], Extends-refl h)
    after_call-Waited (resolved raw) h =
        wait_inline-Waited input.wait_ms d.deps fuel progress enough (call_response_to_result raw) h

    module _ (room : Text) (h : History) where
      validated-Starts :
          (b : Bool)
          → Starts (refusal_unless b) room input d h (start_validated b fuel input d.deps room h)
      unfolding start_call
      validated-Starts true = after_call-Waited _ _
      validated-Starts false = refl

      start_tool-Starts :
          (target : Option PublishedTool)
          → Starts
              (refusal_of_tool input d target)
              room
              input
              d
              h
              (start_tool target fuel input d room h)
      start_tool-Starts none = refl
      start_tool-Starts (some t) = validated-Starts (validate_args d t.input_schema input.args)

      after_tools-Starts :
          (reply : Reply)
          → Starts (refusal_by input d reply) room input d h (after_tools reply fuel input d room h)
      after_tools-Starts (rejected err) = refl
      after_tools-Starts (resolved raw) = start_tool-Starts _

    delegate_in-DelegatesIn :
        (room : Option Text) (h : History)
        → DelegatesIn room input d h (delegate_in room fuel input d h)
    delegate_in-DelegatesIn none h = refl
    delegate_in-DelegatesIn (some room) h = after_tools-Starts room _ _

-- Where the clock goes forward, a delegation with more rounds than its `wait_ms` returns. With no room
-- nothing is sent. Otherwise the tools of the agent are read, and if that fails, if the tool is not
-- among them, or if the arguments do not fit its schema, nothing more is sent and the result says so;
-- else `call.start` is sent exactly once, under the input's key or one made for it, and all that
-- follows is the polling of one invocation.
pub mx_delegate_tool-DelegatesIn :
    (input : DelegateToolInput) (d : DelegateDeps) (fuel : ℕ) (h : History)
    → Progress d.deps.env
    → normalise_wait_ms input.wait_ms < fuel
    → DelegatesIn (usable_room d.deps.room) input d h (mx_delegate_tool fuel input d h)
unfolding mx_delegate_tool
mx_delegate_tool-DelegatesIn input d fuel h progress enough =
    delegate_in-DelegatesIn input d fuel progress enough (usable_room d.deps.room) h
