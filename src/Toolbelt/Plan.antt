-- ===== src/Toolbelt/Plan.antt =====
-- packages/toolbelt/src/plan-snapshot.ts: the durable plan of a room, read back after a restart.
pub mod Laws
pub mod Cursor
pub mod Ready
use mx_loom.Common.{
  Bool, true, false, not, ◌&&◌, ◌||◌, Option, none, some, List, [], ◌∷◌, ◌++◌, map, any, get_or,
  ◌or_else◌, if◌then◌else◌,
}
use mx_loom.Text.{Text, codes, eq_text, is_empty}
use mx_loom.Text.Token.{normalise_token}
use mx_loom.Json.{
  Value, undefined, num, str, obj, field, end, get, as_record, as_array, read_string,
  read_string_array, coalesce,
}
use mx_loom.Json.Number.{WireNumber, is_finite, lt_number}
use mx_loom.Table.{Slot, own, inherited, missing, Table, read}
use mx_loom.Tasks.Node.{
  TaskState, proposed, pending, assigned, executing, succeeded, failed, unknown, StateValue, state,
  foreign_state, task_record, read_task_id,
}
use mx_loom.Tasks.Edges.{TaskEdge, edges_of, derive_from, no_edges}
use mx_loom.Toolbelt.Transport.{
  TransportErrorCode, protocol, Thrown, Outcome, resolved, rejected, code_or, Sent, Peer, call,
}

pub record TaskCursor : Type 0 where
  pub state_rev : Option WireNumber
  pub token : Option Text

pub record ResumedTask : Type 0 where
  pub task_id : Text
  pub state_value : StateValue
  pub assignee : Option Text
  pub depends_on : List Text
  pub blocks : List Text

pub record PlanReconciliation : Type 0 where
  pub done : List Text
  pub in_flight : List Text
  pub ready : List Text
  pub blocked : List Text

pub record PlanSnapshot : Type 0 where
  pub room : Text
  pub tasks : List ResumedTask
  pub edges : List TaskEdge
  pub reconciliation : PlanReconciliation
  pub cursor : TaskCursor
  pub fault : Option TransportErrorCode

abbrev pub task_state_map : Table TaskState
task_state_map =
    ("proposed", proposed)
    ∷ ("new", proposed)
    ∷ ("created", proposed)
    ∷ ("draft", proposed)
    ∷ ("pending", pending)
    ∷ ("queued", pending)
    ∷ ("waiting", pending)
    ∷ ("blocked", pending)
    ∷ ("ready", pending)
    ∷ ("assigned", assigned)
    ∷ ("claimed", assigned)
    ∷ ("accepted", assigned)
    ∷ ("scheduled", assigned)
    ∷ ("executing", executing)
    ∷ ("running", executing)
    ∷ ("in_progress", executing)
    ∷ ("inprogress", executing)
    ∷ ("active", executing)
    ∷ ("started", executing)
    ∷ ("in_flight", executing)
    ∷ ("inflight", executing)
    ∷ ("succeeded", succeeded)
    ∷ ("success", succeeded)
    ∷ ("done", succeeded)
    ∷ ("complete", succeeded)
    ∷ ("completed", succeeded)
    ∷ ("finished", succeeded)
    ∷ ("resolved", succeeded)
    ∷ ("ok", succeeded)
    ∷ ("failed", failed)
    ∷ ("failure", failed)
    ∷ ("error", failed)
    ∷ ("errored", failed)
    ∷ ("faulted", failed)
    ∷ ("cancelled", failed)
    ∷ ("canceled", failed)
    ∷ ("aborted", failed)
    ∷ []

abbrev state_of_slot : Slot TaskState → StateValue
state_of_slot (own s) = state s
state_of_slot inherited = foreign_state
state_of_slot missing = state unknown

abbrev state_of_token : Option Text → StateValue
state_of_token none = state unknown
state_of_token (some raw) = state_of_slot (read task_state_map (normalise_token raw))

unfoldable pub map_resumed_task_state : Value → StateValue
map_resumed_task_state v = state_of_token (read_string v)

unfoldable pub project_resumed_task : Value → ResumedTask
project_resumed_task raw =
    let r = task_record raw in
    record {
      task_id = read_task_id r;
      state_value = map_resumed_task_state (
          coalesce (get (codes "state") r)
            (coalesce (get (codes "status") r) (get (codes "phase") r)));
      assignee =
          read_string (get (codes "assignee") r)
          or_else read_string (get (codes "assigned_to") r)
          or_else read_string (get (codes "assign") r);
      depends_on = read_string_array (get (codes "depends_on") r);
      blocks = read_string_array (get (codes "blocks") r);
    }

-- `typeof v === 'number' && Number.isFinite(v)`.
unfoldable pub read_finite : Value → Option WireNumber
read_finite (num n) = if is_finite n then some n else none
read_finite v = none

-- A raw that is no record has no field, so its three reads find nothing.
unfoldable pub read_task_rev : Value → Option WireNumber
read_task_rev raw =
    let r = task_record raw in
    read_finite (get (codes "state_rev") r)
    or_else read_finite (get (codes "rev") r)
    or_else read_finite (get (codes "version") r)

unfoldable pub read_task_rows : Value → List Value
read_task_rows raw =
    get_or
      (as_array raw
        or_else as_array (get (codes "tasks") raw)
        or_else as_array (get (codes "nodes") raw)
        or_else as_array (get (codes "items") raw))
      []

-- `if (rev !== undefined && (max === undefined || rev > max)) max = rev`.
unfoldable pub raise : Option WireNumber → Option WireNumber → Option WireNumber
raise max none = max
raise none (some rev) = some rev
raise (some max) (some rev) = if lt_number max rev then some rev else some max

unfoldable pub max_rev : Option WireNumber → List Value → Option WireNumber
unfolding raise
max_rev max [] = max
max_rev max (row ∷ rows) = max_rev (raise max (read_task_rev row)) rows

abbrev pub no_cursor : TaskCursor
no_cursor = record { state_rev = none; token = none }

-- A previous cursor that is `undefined` has no fields.
unfoldable pub advance_cursor : Option TaskCursor → List Value → TaskCursor
advance_cursor prev rows =
    let c = get_or prev no_cursor in
    record { state_rev = max_rev c.state_rev rows; token = c.token }

abbrev pub task_edges : ResumedTask → List TaskEdge
task_edges task = edges_of task.task_id task.depends_on task.blocks

-- The key of an edge joins its parts by a space.
unfoldable pub derive_edges : List ResumedTask → List TaskEdge
derive_edges tasks = (derive_from b' ' no_edges (map task_edges tasks)).out

unfoldable pub is_terminal_state : StateValue → Bool
is_terminal_state (state succeeded) = true
is_terminal_state (state failed) = true
is_terminal_state s = false

unfoldable pub is_in_flight_state : StateValue → Bool
is_in_flight_state (state executing) = true
is_in_flight_state (state assigned) = true
is_in_flight_state s = false

unfoldable pub is_succeeded : StateValue → Bool
is_succeeded (state succeeded) = true
is_succeeded s = false

-- The set `succeeded`.
unfoldable pub succeeded_ids : List ResumedTask → List Text
succeeded_ids [] = []
succeeded_ids (t ∷ ts) =
    if is_succeeded t.state_value && not (is_empty t.task_id)
    then t.task_id ∷ succeeded_ids ts
    else succeeded_ids ts

abbrev pub has : Text → List Text → Bool
has id ids = any (eq_text id) ids

abbrev pub every : List Text → List Text → Bool
every [] ids = true
every (dep ∷ deps) ids = has dep ids && every deps ids

-- One round of the second loop.
unfoldable pub place : List Text → PlanReconciliation → ResumedTask → PlanReconciliation
place ids r t =
    if is_terminal_state t.state_value
    then record r { done = r.done ++ (t.task_id ∷ []) }
    else if is_in_flight_state t.state_value
    then record r { in_flight = r.in_flight ++ (t.task_id ∷ []) }
    else if every t.depends_on ids
    then record r { ready = r.ready ++ (t.task_id ∷ []) }
    else record r { blocked = r.blocked ++ (t.task_id ∷ []) }

unfoldable pub place_all : List Text → PlanReconciliation → List ResumedTask → PlanReconciliation
place_all ids r [] = r
place_all ids r (t ∷ ts) = place_all ids (place ids r t) ts

abbrev pub nothing_placed : PlanReconciliation
nothing_placed = record { done = []; in_flight = []; ready = []; blocked = [] }

unfoldable pub reconcile : List ResumedTask → PlanReconciliation
reconcile tasks = place_all (succeeded_ids tasks) nothing_placed tasks

unfoldable pub build_plan_snapshot : Text → List Value → Option TaskCursor → PlanSnapshot
build_plan_snapshot room rows prev =
    let tasks = map project_resumed_task rows in
    record {
      room = room;
      tasks = tasks;
      edges = derive_edges tasks;
      reconciliation = reconcile tasks;
      cursor = advance_cursor prev rows;
      fault = none;
    }

unfoldable pub fault_snapshot : Text → Option TaskCursor → TransportErrorCode → PlanSnapshot
fault_snapshot room prev code = record {
  room = room;
  tasks = [];
  edges = [];
  reconciliation = nothing_placed;
  cursor = get_or prev no_cursor;
  fault = some code;
}

-- `room !== '' ? { room } : undefined`.
abbrev pub room_params : Text → Value
room_params room = if is_empty room then undefined else obj (field (codes "room") (str room) end)

unfoldable pub snapshot_of : Text → Option TaskCursor → Outcome Value → PlanSnapshot
snapshot_of room prev (resolved response) = build_plan_snapshot room (read_task_rows response) prev
snapshot_of room prev (rejected err) = fault_snapshot room prev (code_or protocol err)

unfoldable pub reconstruct_plan :
    Peer → Text → Option TaskCursor → List Sent → PlanSnapshot × List Sent
reconstruct_plan peer room prev sent =
    let (reply, sent') = call peer (codes "task.list") (room_params room) sent in
    (snapshot_of room prev reply, sent')
