-- ===== src/Tests/Dispatches.antt =====
-- Runs of delegate-tool.ts and dispatch-task.ts of packages/registry/src/handlers at single inputs,
-- and the theorems applied.
use mx_loom.Common.{arith, none, some, [], ◌∷◌, if◌then◌else◌}
use mx_loom.Text.{codes, eq_text}
use mx_loom.Json.{Value, str, obj, arr, cons, nil, field, end}
use mx_loom.Envelope.{ToolResult, ok_result}
use mx_loom.Fault.{empty_audit_ref}
use mx_loom.Daemon.{resolved, Env, whole}
use mx_loom.Daemon.Traces.{Progress}
use mx_loom.AwaitResult.{normalise_wait_ms}
use mx_loom.Delegate.{DelegateToolInput, DelegateDeps, mx_delegate_tool}
use mx_loom.Delegate.Laws.{DelegatesIn, mx_delegate_tool-DelegatesIn}
use mx_loom.Dispatch.{DispatchTaskInput, tasks_of, route_listed, mx_dispatch_task}
use mx_loom.Dispatch.Starts.{StartsUpTo}
use mx_loom.Dispatch.Laws.{
  RoutedFrom, route_listed-RoutedFrom, DispatchesIn, mx_dispatch_task-DispatchesIn,
}
use mx_loom.Tasks.Handlers.{ListTasksResult, usable_room}
use mx_loom.Tasks.Node.{state, pending, tool, TaskAction}
use mx_loom.Tests.Handlers.{slept_for, env-monotone, running_reply}

-- { schemas: [{ name: "run_tests", version: "1.0" }] }
abbrev tools_reply : Value
tools_reply = obj (
    field (codes "schemas")
      (arr (
        cons
          (obj (
            field (codes "name") (str (codes "run_tests"))
              (field (codes "version") (str (codes "1.0")) end)))
          nil))
      end)

-- { tasks: [{ task_id: "t1", state: "pending", assignee: "a1", action: { kind: "tool", tool: … } }] }
abbrev tasks_reply : Value
tasks_reply = obj (
    field (codes "tasks")
      (arr (
        cons
          (obj (
            field (codes "task_id") (str (codes "t1")) (
              field (codes "state") (str (codes "pending")) (
                field (codes "assignee") (str (codes "a1")) (
                  field (codes "action")
                    (obj (
                      field (codes "kind") (str (codes "tool"))
                        (field (codes "tool") (str (codes "run_tests@1.0")) end)))
                    end)))))
          nil))
      end)

abbrev env : Env
env = record {
  answer = λ h method params. resolved (
      if eq_text method (codes "agent.tools")
      then tools_reply
      else if eq_text method (codes "task.list")
      then tasks_reply
      else running_reply);
  clock = slept_for;
  fresh_key = λ h. codes "k";
}

env-Progress : Progress env
env-Progress = record { monotone = env-monotone; sleeps = λ h ms. omega arith }

abbrev delegate_deps : DelegateDeps
delegate_deps = record {
  deps = record { env = env; room = some (codes "!r"); poll_interval_ms = none };
  compile = λ schema. none;
}

abbrev call_tests : DelegateToolInput
call_tests = record {
  agent = codes "a1";
  tool = codes "run_tests@1.0";
  args = obj end;
  wait_ms = some (whole 300);
  idempotency_key = none;
}

mx_delegate_tool-DelegatesIn_example :
    DelegatesIn
      (usable_room delegate_deps.deps.room)
      call_tests
      delegate_deps
      []
      (mx_delegate_tool 301 call_tests delegate_deps [])
unfolding normalise_wait_ms
mx_delegate_tool-DelegatesIn_example =
    mx_delegate_tool-DelegatesIn call_tests delegate_deps 301 [] env-Progress (omega arith)

abbrev dispatch_t1 : DispatchTaskInput
dispatch_t1 = record { task_id = codes "t1"; wait_ms = some (whole 300); idempotency_key = none }

mx_dispatch_task-DispatchesIn_example :
    StartsUpTo 1 [] (mx_dispatch_task 301 dispatch_t1 delegate_deps [])
    × DispatchesIn
        (usable_room delegate_deps.deps.room)
        301
        dispatch_t1
        delegate_deps
        []
        (mx_dispatch_task 301 dispatch_t1 delegate_deps [])
unfolding normalise_wait_ms
mx_dispatch_task-DispatchesIn_example =
    mx_dispatch_task-DispatchesIn dispatch_t1 delegate_deps 301 [] env-Progress (omega arith)

abbrev authored : TaskAction
authored = record {
  kind = tool;
  tool_name = some (codes "run_tests@1.0");
  args = none;
  command = none;
  command_args = none;
  cwd = none;
}

abbrev planned : ToolResult ListTasksResult
planned =
    ok_result
      (record {
        tasks =
            record {
              task_id = codes "t1";
              title = codes "tests";
              state_value = state pending;
              assignee = some (codes "a1");
              depends_on = [];
              blocks = [];
              action = some authored;
              created_at = none;
              updated_at = none;
            }
            ∷ [];
        edges = none;
      })
      empty_audit_ref

route_listed-RoutedFrom_example :
    RoutedFrom dispatch_t1 (tasks_of planned.result) (route_listed dispatch_t1 planned)
route_listed-RoutedFrom_example = route_listed-RoutedFrom dispatch_t1 planned
