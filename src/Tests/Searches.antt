-- ===== src/Tests/Searches.antt =====
-- Runs of packages/registry/src/handlers/find-agents.ts and workspace-status.ts at single inputs,
-- and the theorems applied.
use mx_loom.Common.{none, some, [], ◌∷◌, if◌then◌else◌}
use mx_loom.Text.{codes, eq_text}
use mx_loom.Json.{Value, undefined, str, obj, arr, cons, nil, field, end}
use mx_loom.Daemon.{resolved, called, Deps, Env}
use mx_loom.Tasks.Handlers.{usable_room}
use mx_loom.Discovery.Workspace.{status_params, mx_workspace_status}
use mx_loom.Discovery.Workspace.Laws.{Reports, mx_workspace_status-Reports}
use mx_loom.Toolbelt.Session.Params.{live_active}
use mx_loom.Discovery.{FindAgentsInput, mx_find_agents}
use mx_loom.Discovery.Laws.{Finds, mx_find_agents-Finds}
use mx_loom.Tests.Handlers.{slept_for}

-- [{ agent: { agent_id: "a1", capabilities: ["rust"] }, liveness: "active" }]
abbrev agents_reply : Value
agents_reply = arr (
    cons
      (obj (
        field (codes "agent")
          (obj (
            field (codes "agent_id") (str (codes "a1"))
              (field (codes "capabilities") (arr (cons (str (codes "rust")) nil)) end)))
          (field (codes "liveness") (str (codes "active")) end)))
      nil)

abbrev env : Env
env = record {
  answer = λ h method params. resolved (
      if eq_text method (codes "agent.list")
      then agents_reply
      else obj (field (codes "tools") (arr (cons (str (codes "run_tests")) nil)) end));
  clock = slept_for;
  fresh_key = λ h. codes "k";
}

abbrev rust_tests : FindAgentsInput
rust_tests = record {
  capability = some (codes "rust");
  tool = some (codes "run_tests");
  liveness = some live_active;
}

mx_find_agents-Finds_example :
    Finds rust_tests
      (env.answer [] (codes "agent.list") undefined)
      (called (codes "agent.list") undefined ∷ [])
      (mx_find_agents rust_tests env [])
mx_find_agents-Finds_example = mx_find_agents-Finds rust_tests env []

-- { room_id: "!r", members: [], project: { project_id: "p" } }
abbrev status_answer : Value
status_answer = obj (
    field (codes "room_id") (str (codes "!r")) (
      field (codes "members") (arr nil)
        (field (codes "project") (obj (field (codes "project_id") (str (codes "p")) end)) end)))

abbrev status_deps : Deps
status_deps = record {
  env = record {
    answer = λ h method params.
        resolved (if eq_text method (codes "agent.list") then agents_reply else status_answer);
    clock = slept_for;
    fresh_key = λ h. codes "k";
  };
  room = some (codes "!r");
  poll_interval_ms = none;
}

mx_workspace_status-Reports_example :
    Reports status_deps.env
      (status_deps.env.answer []
        (codes "workspace.status")
        (status_params (usable_room status_deps.room)))
      (called (codes "workspace.status") (status_params (usable_room status_deps.room)) ∷ [])
      (mx_workspace_status status_deps [])
mx_workspace_status-Reports_example = mx_workspace_status-Reports status_deps []
