-- ===== src/Tasks/Node.antt =====
-- The projection of one task record of packages/registry/src/handlers/task-projection.ts.
use mx_loom.Common.{Option, none, some, List, [], ◌∷◌, get_or, ◌or_else◌, if◌then◌else◌}
use mx_loom.Text.{Text, codes, eq_text}
use mx_loom.Text.Token.{normalise_token}
use mx_loom.Json.{Value, arr, obj, end, get, as_record, read_string, read_string_array, coalesce}
use mx_loom.Table.{Slot, own, inherited, missing, Table, read}
use mx_loom.Errors.{known, internal}
use mx_loom.Envelope.{ToolResult, ok_result, errored_result}
use mx_loom.Invocation.{extract_audit_ref}
use mx_loom.Invocation.State.{state_token}
use mx_loom.Invocation.Failure.{failure_result, failure_code, has_error_signal}

pub data TaskState : Type 0 where
  proposed pending assigned executing succeeded failed unknown : TaskState

-- A state at run time: one of the set, or the property of `Object.prototype` that the lookup found.
pub data StateValue : Type 0 where
  state : TaskState → StateValue
  foreign_state : StateValue

abbrev pub task_state_map : Table TaskState
task_state_map =
    ("proposed", proposed)
    ∷ ("new", proposed)
    ∷ ("created", proposed)
    ∷ ("draft", proposed)
    ∷ ("pending", pending)
    ∷ ("queued", pending)
    ∷ ("waiting", pending)
    ∷ ("blocked", pending)
    ∷ ("ready", pending)
    ∷ ("assigned", assigned)
    ∷ ("claimed", assigned)
    ∷ ("accepted", assigned)
    ∷ ("scheduled", assigned)
    ∷ ("executing", executing)
    ∷ ("running", executing)
    ∷ ("in_progress", executing)
    ∷ ("inprogress", executing)
    ∷ ("active", executing)
    ∷ ("started", executing)
    ∷ ("in_flight", executing)
    ∷ ("inflight", executing)
    ∷ ("succeeded", succeeded)
    ∷ ("success", succeeded)
    ∷ ("done", succeeded)
    ∷ ("complete", succeeded)
    ∷ ("completed", succeeded)
    ∷ ("finished", succeeded)
    ∷ ("resolved", succeeded)
    ∷ ("ok", succeeded)
    ∷ ("failed", failed)
    ∷ ("failure", failed)
    ∷ ("error", failed)
    ∷ ("errored", failed)
    ∷ ("faulted", failed)
    ∷ ("cancelled", failed)
    ∷ ("canceled", failed)
    ∷ ("aborted", failed)
    ∷ []

abbrev state_of_slot : Slot TaskState → StateValue
state_of_slot (own s) = state s
state_of_slot inherited = foreign_state
state_of_slot missing = state unknown

abbrev state_of_token : Option Text → StateValue
state_of_token none = state unknown
state_of_token (some raw) = state_of_slot (read task_state_map (normalise_token raw))

unfoldable pub map_task_state : Value → StateValue
map_task_state v = state_of_token (read_string v)

pub data ActionKind : Type 0 where
  tool exec : ActionKind

pub record TaskAction : Type 0 where
  pub kind : ActionKind
  pub tool_name : Option Text
  pub args : Option Value
  pub command : Option Text
  pub command_args : Option (List Text)
  pub cwd : Option Text

pub record TaskNode : Type 0 where
  pub task_id : Text
  pub title : Text
  pub state_value : StateValue
  pub assignee : Option Text
  pub depends_on : List Text
  pub blocks : List Text
  pub action : Option TaskAction
  pub created_at : Option Text
  pub updated_at : Option Text

abbrev kind_of : Option Text → Option ActionKind
kind_of none = none
kind_of (some k) =
    if eq_text k (codes "tool")
    then some tool
    else if eq_text k (codes "exec")
    then some exec
    else none

abbrev exec_args : ActionKind → Value → Option (List Text)
exec_args exec (arr vs) = some (read_string_array (arr vs))
exec_args k v = none

-- `command_args` where that is an array, else the `args` array of an exec action.
abbrev project_command_args : ActionKind → Value → Value → Option (List Text)
project_command_args k (arr vs) args = some (read_string_array (arr vs))
project_command_args k v args = exec_args k args

abbrev action_of_kind : Value → Option ActionKind → Option TaskAction
action_of_kind a none = none
action_of_kind a (some k) = some (record {
  kind = k;
  tool_name = read_string (get (codes "tool") a);
  args = as_record (get (codes "args") a);
  command = read_string (get (codes "command") a);
  command_args = project_command_args k (get (codes "command_args") a) (get (codes "args") a);
  cwd = read_string (get (codes "cwd") a);
})

abbrev project_record : Option Value → Option TaskAction
project_record none = none
project_record (some a) = action_of_kind a (kind_of (read_string (get (codes "kind") a)))

unfoldable pub project_action : Value → Option TaskAction
project_action raw = project_record (as_record raw)

-- The record itself, or the one under `task`.
unfoldable pub task_record : Value → Value
task_record raw = get_or (as_record (get (codes "task") raw)) (get_or (as_record raw) (obj end))

unfoldable pub read_task_id : Value → Text
read_task_id r =
    get_or (read_string (get (codes "task_id") r) or_else read_string (get (codes "id") r)) []

unfoldable pub project_task_node : Value → TaskNode
project_task_node raw =
    let r = task_record raw in
    record {
      task_id = read_task_id r;
      title = get_or (read_string (get (codes "title") r)) [];
      state_value = map_task_state (
          coalesce (get (codes "state") r)
            (coalesce (get (codes "status") r) (get (codes "phase") r)));
      assignee =
          read_string (get (codes "assignee") r)
          or_else read_string (get (codes "assigned_to") r)
          or_else read_string (get (codes "assign") r);
      depends_on = read_string_array (get (codes "depends_on") r);
      blocks = read_string_array (get (codes "blocks") r);
      action = project_action (get (codes "action") r);
      created_at = read_string (get (codes "created_at") r);
      updated_at = read_string (get (codes "updated_at") r);
    }

abbrev pub unrecognised_task_message : Text
unrecognised_task_message = codes "unrecognised task response"

abbrev task_response : Option Value → ToolResult TaskNode
task_response none =
    errored_result (known internal) (some unrecognised_task_message) (extract_audit_ref none)
task_response (some o) =
    let ref = extract_audit_ref (some o) in
    if has_error_signal o
    then failure_result (failure_code o (state_token o)) ref
    else ok_result (project_task_node o) ref

unfoldable pub task_node_response_to_result : Value → ToolResult TaskNode
task_node_response_to_result raw = task_response (as_record raw)
