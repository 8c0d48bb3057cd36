-- ===== src/Tests/Handlers.antt =====
-- Runs of the handlers.
use mx_loom.Common.{ℕ, ◌+◌, ◌≤◌, ◌≡◌, refl, true, none, some, List, [], ◌∷◌, map, arith}
use mx_loom.Text.{codes}
use mx_loom.Json.{Value, str, obj, field, end}
use mx_loom.Envelope.{ok_result}
use mx_loom.Fault.{empty_audit_ref}
use mx_loom.Daemon.{resolved, Event, called, slept, clock_read, key_made, History, Env, whole, Deps}
use mx_loom.Daemon.Traces.{Progress}
use mx_loom.AwaitResult.{AwaitInput, normalise_wait_ms, mx_await_result}
use mx_loom.AwaitResult.Resolve.{Resolves, mx_await_result-Resolves}
use mx_loom.Tasks.Node.{project_task_node}
use mx_loom.Tasks.Edges.{TaskEdge, derive_edges}
use mx_loom.Tasks.Edges.Laws.{keys, distinct}
use mx_loom.Tasks.Edges.Merge.{Adds}
use mx_loom.RunCommand.{RunCommandInput}
use mx_loom.Tasks.Handlers.{
  CreateTaskInput, UpdateTaskInput, create_params, update_params, mx_create_task, mx_update_task,
  ListTasksInput, read_task_rows, list_params, mx_list_tasks,
}
use mx_loom.Tasks.Handlers.Laws.{SendsOne, mutations-SendsOne, mx_list_tasks-tolerant}

-- A clock that only sleeping moves.
abbrev pub slept_for : History → ℕ
slept_for [] = 0
slept_for (slept ms ∷ h) = ms + slept_for h
slept_for (called m p ∷ h) = slept_for h
slept_for (clock_read ∷ h) = slept_for h
slept_for (key_made ∷ h) = slept_for h

-- { state: "running", invocation_id: "inv_1" }, whatever is asked.
abbrev pub running_reply : Value
running_reply = obj (
    field (codes "state") (str (codes "running"))
      (field (codes "invocation_id") (str (codes "inv_1")) end))

abbrev env : Env
env = record {
  answer = λ h method params. resolved running_reply;
  clock = slept_for;
  fresh_key = λ h. codes "k";
}

abbrev deps : Deps
deps = record { env = env; room = some (codes "!r"); poll_interval_ms = none }

pub env-monotone : (h : History) (e : Event) → slept_for h ≤ slept_for (e ∷ h)
env-monotone h (slept ms) = omega arith
env-monotone h (called m p) = omega arith
env-monotone h clock_read = omega arith
env-monotone h key_made = omega arith

env-Progress : Progress env
env-Progress = record { monotone = env-monotone; sleeps = λ h ms. omega arith }

abbrev wait_a_bit : AwaitInput
wait_a_bit = record { handle = codes "inv_1"; wait_ms = some (whole 500) }

mx_await_result-Resolves_example :
    Resolves wait_a_bit deps [] (mx_await_result 501 wait_a_bit deps [])
unfolding normalise_wait_ms
mx_await_result-Resolves_example =
    mx_await_result-Resolves wait_a_bit deps 501 [] env-Progress (omega arith)

-- { state: "policy_denied" }
abbrev denied_cancel : Value
denied_cancel = obj (field (codes "state") (str (codes "policy_denied")) end)

-- { code: "timeout" }
abbrev timed_out : Value
timed_out = obj (field (codes "code") (str (codes "timeout")) end)

abbrev create : CreateTaskInput
create = record {
  title = codes "build";
  depends_on = none;
  blocks = some (codes "t2" ∷ []);
  assign = none;
  state = none;
  action = none;
  idempotency_key = none;
}

abbrev update : UpdateTaskInput
update = record {
  task_id = codes "t1";
  state = none;
  assign = some (codes "a1");
  depends_on = none;
  blocks = none;
  idempotency_key = some (codes "mine");
}

mutations-SendsOne_example :
    SendsOne deps
      (codes "task.create")
      none
      (create_params create)
      (mx_create_task create deps [])
      []
    × SendsOne deps
        (codes "task.update")
        (some (codes "mine"))
        (update_params update)
        (mx_update_task update deps [])
        []
mutations-SendsOne_example = mutations-SendsOne deps [] create update

abbrev whole_plan : ListTasksInput
whole_plan = record { state = none; assignee = none; view = none }

mx_list_tasks-tolerant_example :
    (edges : List TaskEdge) × ((mx_list_tasks whole_plan deps []).0
      ≡ ok_result
          (record {
            tasks = map project_task_node (read_task_rows running_reply);
            edges = some edges;
          })
          empty_audit_ref)
    × Adds (derive_edges (map project_task_node (read_task_rows running_reply))) edges
    × (distinct (keys 0 edges) ≡ true)
    × ((mx_list_tasks whole_plan deps []).1
        ≡ called (codes "task.graph") (list_params whole_plan (some (codes "!r")))
          ∷ called (codes "task.list") (list_params whole_plan (some (codes "!r")))
          ∷ [])
mx_list_tasks-tolerant_example = mx_list_tasks-tolerant whole_plan deps [] running_reply refl refl

-- { agent: "a1", command: "make", args: ["test"], wait_ms: 500 }.
abbrev make_test : RunCommandInput
make_test = record {
  agent = codes "a1";
  command = codes "make";
  args = some (codes "test" ∷ []);
  cwd = none;
  wait_ms = some (whole 500);
  idempotency_key = none;
}
