-- ===== src/Tasks/Handlers.antt =====
-- The task handlers of packages/registry/src/handlers: create-task.ts, update-task.ts and
-- list-tasks.ts.
pub mod Laws
use mx_loom.Common.{
  Bool, true, false, Option, none, some, List, [], ◌∷◌, map, get_or, ◌or_else◌, if◌then◌else◌,
}
use mx_loom.Text.{Text, codes, is_empty}
use mx_loom.Json.{Value, undefined, str, arr, obj, Fields, end, field, get, as_array, coalesce}
use mx_loom.Errors.{known, internal}
use mx_loom.Envelope.{ToolResult, ok_result, errored_result}
use mx_loom.Fault.{empty_audit_ref, fault_to_result}
use mx_loom.Daemon.{Reply, resolved, rejected, key_made, History, Env, call, Deps}
use mx_loom.Tasks.Node.{
  TaskState, proposed, pending, assigned, executing, succeeded, failed, unknown, TaskAction,
  TaskNode, project_task_node, task_node_response_to_result,
}
use mx_loom.Tasks.Edges.{TaskEdge, derive_edges, merge_edges}
use mx_loom.Tasks.Action.{text_array, optional, text_value, build_action_param}

pub record CreateTaskInput : Type 0 where
  pub title : Text
  pub depends_on : Option (List Text)
  pub blocks : Option (List Text)
  pub assign : Option Text
  pub state : Option TaskState
  pub action : Option TaskAction
  pub idempotency_key : Option Text

pub record UpdateTaskInput : Type 0 where
  pub task_id : Text
  pub state : Option TaskState
  pub assign : Option Text
  pub depends_on : Option (List Text)
  pub blocks : Option (List Text)
  pub idempotency_key : Option Text

unfoldable pub task_state_name : TaskState → Text
task_state_name proposed = codes "proposed"
task_state_name pending = codes "pending"
task_state_name assigned = codes "assigned"
task_state_name executing = codes "executing"
task_state_name succeeded = codes "succeeded"
task_state_name failed = codes "failed"
task_state_name unknown = codes "unknown"

abbrev pub texts_value : Option (List Text) → Option Value
texts_value none = none
texts_value (some ss) = some (text_array ss)

abbrev pub state_value : Option TaskState → Option Value
state_value none = none
state_value (some s) = some (str (task_state_name s))

abbrev pub action_value : Option TaskAction → Option Value
action_value none = none
action_value (some a) = some (build_action_param a)

-- `deps.room === undefined || deps.room === ''`, and the room otherwise.
unfoldable pub usable_room : Option Text → Option Text
usable_room none = none
usable_room (some room) = if is_empty room then none else some room

-- `input.idempotency_key ?? newIdempotencyKey()`.
abbrev pub key_or_new : Env → Option Text → History → Text × History
key_or_new env none h = (env.fresh_key h, key_made ∷ h)
key_or_new env (some key) h = (key, h)

abbrev pub no_room_message : Text
no_room_message = codes "no workspace room configured for task"

abbrev pub no_room_result : ToolResult TaskNode
no_room_result = errored_result (known internal) (some no_room_message) empty_audit_ref

unfoldable pub task_reply : Reply → ToolResult TaskNode
task_reply (resolved raw) = task_node_response_to_result raw
task_reply (rejected err) = fault_to_result err empty_audit_ref

unfoldable pub create_params : CreateTaskInput → Text → Text → Value
create_params input room key = obj (
    field (codes "room") (str room) (
      field (codes "title") (str input.title) (
        optional (codes "depends_on") (texts_value input.depends_on) (
          optional (codes "blocks") (texts_value input.blocks) (
            optional (codes "assign") (text_value input.assign) (
              optional (codes "state") (state_value input.state) (
                optional (codes "action") (action_value input.action)
                  (field (codes "idempotency_key") (str key) end))))))))

unfoldable pub update_params : UpdateTaskInput → Text → Text → Value
update_params input room key = obj (
    field (codes "room") (str room) (
      field (codes "task_id") (str input.task_id) (
        optional (codes "state") (state_value input.state) (
          optional (codes "assign") (text_value input.assign) (
            optional (codes "depends_on") (texts_value input.depends_on) (
              optional (codes "blocks") (texts_value input.blocks)
                (field (codes "idempotency_key") (str key) end)))))))

-- The second phase of both mutations: the key, one call, and the normalised reply.
abbrev pub send_task :
    Env → Text → Option Text → (Text → Value) → History → ToolResult TaskNode × History
send_task env method key params h =
    let (k, h') = key_or_new env key h in
    let (reply, h'') = call env method (params k) h' in (task_reply reply, h'')

unfoldable pub mx_create_task : CreateTaskInput → Deps → History → ToolResult TaskNode × History
mx_create_task input deps h = elim (usable_room deps.room) [
  | none ↦ (no_room_result, h)
  | some room ↦
      send_task deps.env (codes "task.create") input.idempotency_key (create_params input room) h
]

unfoldable pub mx_update_task : UpdateTaskInput → Deps → History → ToolResult TaskNode × History
mx_update_task input deps h = elim (usable_room deps.room) [
  | none ↦ (no_room_result, h)
  | some room ↦
      send_task deps.env (codes "task.update") input.idempotency_key (update_params input room) h
]

pub data View : Type 0 where
  list_view graph_view : View

pub record ListTasksInput : Type 0 where
  pub state : Option TaskState
  pub assignee : Option Text
  pub view : Option View

pub record ListTasksResult : Type 0 where
  pub tasks : List TaskNode
  pub edges : Option (List TaskEdge)

unfoldable pub read_task_rows : Value → List Value
read_task_rows raw =
    get_or
      (as_array raw
        or_else as_array (get (codes "tasks") raw)
        or_else as_array (get (codes "nodes") raw)
        or_else as_array (get (codes "items") raw))
      []

abbrev array_or : Value → Value → Value
array_or (arr vs) d = arr vs
array_or v d = d

unfoldable pub read_edge_rows : Value → Value
read_edge_rows raw =
    array_or raw (array_or (get (codes "edges") raw) (array_or (get (codes "links") raw) undefined))

abbrev params_or_undefined : Fields → Value
params_or_undefined end = undefined
params_or_undefined (field k v fs) = obj (field k v fs)

unfoldable pub list_params : ListTasksInput → Option Text → Value
list_params input room = params_or_undefined (
    optional (codes "room") (text_value (usable_room room)) (
      optional (codes "state") (state_value input.state)
        (optional (codes "assignee") (text_value input.assignee) end)))

-- A fault of `task.graph` is tolerated.
abbrev pub graph_reply : Reply → Value
graph_reply (resolved raw) = raw
graph_reply (rejected err) = undefined

abbrev pub with_edges : List TaskNode → Reply → ToolResult ListTasksResult
with_edges tasks reply =
    ok_result
      (record {
        tasks = tasks;
        edges = some (merge_edges (derive_edges tasks) (read_edge_rows (graph_reply reply)));
      })
      empty_audit_ref

abbrev pub list_reply : View → Env → Value → Reply → History → ToolResult ListTasksResult × History
list_reply view env params (rejected err) h = (fault_to_result err empty_audit_ref, h)
list_reply list_view env params (resolved raw) h = (
  ok_result (record { tasks = map project_task_node (read_task_rows raw); edges = none })
      empty_audit_ref,
  h,
)
list_reply graph_view env params (resolved raw) h =
    let (reply, h') = call env (codes "task.graph") params h in
    (with_edges (map project_task_node (read_task_rows raw)) reply, h')

unfoldable pub mx_list_tasks :
    ListTasksInput → Deps → History → ToolResult ListTasksResult × History
mx_list_tasks input deps h =
    let params = list_params input deps.room in
    let (reply, h') = call deps.env (codes "task.list") params h in
    list_reply (get_or input.view graph_view) deps.env params reply h'
