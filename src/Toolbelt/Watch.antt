-- ===== src/Toolbelt/Watch.antt =====
-- packages/toolbelt/src/task-watch.ts: a subscription to the changes of the tasks of a room. What
-- happens to a watcher is an event, and one event is handled at a time.
pub mod News
pub mod Rows
pub mod Queue
pub mod Again
use mx_loom.Common.{
  ℕ, Bool, true, false, not, ◌&&◌, ◌||◌, Option, none, some, List, [], ◌∷◌, ◌++◌, get_or, ◌or_else◌,
  is_some, if◌then◌else◌,
}
use mx_loom.Text.{Text, codes, eq_text, is_empty}
use mx_loom.Json.{Value, undefined, num, str, obj, Fields, end, field}
use mx_loom.Json.Number.{WireNumber, lt_number, is_finite}
use mx_loom.Tasks.Node.{StateValue, state, foreign_state}
use mx_loom.Tasks.Action.{optional, text_value}
use mx_loom.Tasks.Handlers.{task_state_name}
use mx_loom.Toolbelt.Transport.{TransportErrorCode, protocol, Outcome, resolved, rejected, code_or}
use mx_loom.Toolbelt.Plan.{
  TaskCursor, ResumedTask, project_resumed_task, read_task_rev, read_task_rows, advance_cursor,
}
use mx_loom.Toolbelt.Descriptor.{cursor_value}

-- How the runtime prints a number, and the function that a foreign state is.
pub record Printer : Type 0 where
  pub number_text : WireNumber → Text
  pub foreign_text : Text

pub record TaskDelta : Type 0 where
  pub task : ResumedTask
  pub cursor : TaskCursor

-- What a settled call answers: none is pending, the watch method, or `task.list`. `#inFlight` is
-- true exactly where a call is pending.
pub data Phase : Type 0 where
  idle awaiting_watch awaiting_list : Phase

-- `seen` is a map, the latest entry of a key first; a consumer that is parked in `next()` is a number.
pub record Watcher : Type 0 where
  pub room : Option Text
  pub watch_method : Option Text
  pub initial_rev : Option WireNumber
  pub seen : List (Text × Text)
  pub buffer : List TaskDelta
  pub waiters : List ℕ
  pub cursor : TaskCursor
  pub stopped : Bool
  pub phase : Phase

pub data WatchEvent : Type 0 where
  ticked : WatchEvent
  settled : Outcome Value → WatchEvent
  asked : ℕ → WatchEvent
  halted : WatchEvent

pub data Effect : Type 0 where
  called : Text → Value → Effect
  reported : TransportErrorCode → Effect
  delivered : ℕ → TaskDelta → Effect
  ended : ℕ → Effect

unfoldable pub state_text : Printer → StateValue → Text
state_text printer (state s) = task_state_name s
state_text printer foreign_state = printer.foreign_text

abbrev rev_text : Printer → Option WireNumber → Text
rev_text printer none = []
rev_text printer (some rev) = printer.number_text rev

unfoldable pub task_signature : Printer → ResumedTask → Option WireNumber → Text
unfolding state_text
task_signature printer task rev =
    rev_text printer rev
    ++ (0 ∷ (state_text printer task.state_value ++ (0 ∷ get_or task.assignee [])))

-- `seen.get(id)`.
unfoldable pub lookup : Text → List (Text × Text) → Option Text
lookup id [] = none
lookup id (entry ∷ seen) = if eq_text id entry.0 then some entry.1 else lookup id seen

abbrev pub is_signature : Option Text → Text → Bool
is_signature none s = false
is_signature (some old) s = eq_text old s

-- A known revision at or below the initial one.
abbrev pub predates : Option WireNumber → Option WireNumber → Bool
predates (some rev) (some initial) = not (lt_number initial rev)
predates rev initial = false

abbrev pub emit_to : List ℕ → Watcher → TaskDelta → Watcher × List Effect
emit_to [] w delta = (record w { buffer = w.buffer ++ (delta ∷ []) }, [])
emit_to (consumer ∷ waiters) w delta =
    (record w { waiters = waiters }, delivered consumer delta ∷ [])

unfoldable pub emit : Watcher → TaskDelta → Watcher × List Effect
emit w delta = emit_to w.waiters w delta

-- One round of the loop over the rows; `cursor` is the cursor after the batch.
unfoldable pub poll_row : Printer → TaskCursor → Watcher → Value → Watcher × List Effect
unfolding emit
poll_row printer cursor w row =
    let task = project_resumed_task row in
    let rev = read_task_rev row in
    let signature = task_signature printer task rev in
    let last = lookup task.task_id w.seen in
    let w' = record w { seen = (task.task_id, signature) ∷ w.seen } in
    if is_empty task.task_id || is_signature last signature
    then (w, [])
    else if not (is_some last) && predates rev w.initial_rev
    then (w', [])
    else emit w' (record { task = task; cursor = cursor })

unfoldable pub poll_rows : Printer → TaskCursor → Watcher → List Value → Watcher × List Effect
poll_rows printer cursor w [] = (w, [])
poll_rows printer cursor w (row ∷ rows) =
    let (w1, effects) = poll_row printer cursor w row in
    let (w2, later) = poll_rows printer cursor w1 rows in (w2, effects ++ later)

-- `#poll` after the rows have been fetched.
unfoldable pub absorb : Printer → Watcher → List Value → Watcher × List Effect
absorb printer w rows =
    if w.stopped
    then (w, [])
    else let next = advance_cursor (some w.cursor) rows in
      let (w', effects) = poll_rows printer next w rows in (record w' { cursor = next }, effects)

-- The `finally` of a tick.
abbrev pub at_rest : Watcher × List Effect → Watcher × List Effect
at_rest (w, effects) = (record w { phase = idle }, effects)

abbrev room_fields : Option Text → Fields → Fields
room_fields room rest = optional (codes "room") (text_value room) rest

abbrev pub list_params : Option Text → Value
list_params none = undefined
list_params (some room) = obj (room_fields (some room) end)

-- The cursor goes along where it says anything.
unfoldable pub watch_params : Watcher → Value
unfolding cursor_value
watch_params w =
    if is_some w.cursor.state_rev || is_some w.cursor.token
    then obj (room_fields w.room (optional (codes "cursor") (cursor_value (some w.cursor)) end))
    else list_params w.room

abbrev pub list_call : Watcher → Effect
list_call w = called (codes "task.list") (list_params w.room)

abbrev pub fetch : Option Text → Watcher → Watcher × List Effect
fetch none w = (record w { phase = awaiting_list }, list_call w ∷ [])
fetch (some method) w = (record w { phase = awaiting_watch }, called method (watch_params w) ∷ [])

unfoldable pub on_tick : Watcher → Phase → Watcher × List Effect
unfolding watch_params
on_tick w idle = if w.stopped then (w, []) else fetch w.watch_method w
on_tick w phase = (w, [])

-- The pending call settles.
unfoldable pub on_settled : Printer → Watcher → Phase → Outcome Value → Watcher × List Effect
on_settled printer w idle outcome = (w, [])
on_settled printer w phase (resolved v) = at_rest (absorb printer w (read_task_rows v))
on_settled printer w awaiting_watch (rejected err) =
    (record w { phase = awaiting_list }, reported (code_or protocol err) ∷ list_call w ∷ [])
on_settled printer w awaiting_list (rejected err) =
    (record w { phase = idle }, reported (code_or protocol err) ∷ [])

unfoldable pub next : Watcher → ℕ → List TaskDelta → Watcher × List Effect
next w consumer (delta ∷ buffer) = (record w { buffer = buffer }, delivered consumer delta ∷ [])
next w consumer [] =
    if w.stopped
    then (w, ended consumer ∷ [])
    else (record w { waiters = w.waiters ++ (consumer ∷ []) }, [])

abbrev pub end_all : List ℕ → List Effect
end_all [] = []
end_all (consumer ∷ waiters) = ended consumer ∷ end_all waiters

unfoldable pub stop : Watcher → Watcher × List Effect
stop w =
    if w.stopped then (w, []) else (record w { stopped = true; waiters = [] }, end_all w.waiters)

unfoldable pub step : Printer → Watcher → WatchEvent → Watcher × List Effect
unfolding on_tick on_settled next stop absorb
step printer w ticked = on_tick w w.phase
step printer w (settled outcome) = on_settled printer w w.phase outcome
step printer w (asked consumer) = next w consumer w.buffer
step printer w halted = stop w

unfoldable pub run : Printer → Watcher → List WatchEvent → Watcher × List Effect
run printer w [] = (w, [])
run printer w (event ∷ events) =
    let (w1, effects) = step printer w event in
    let (w2, later) = run printer w1 events in (w2, effects ++ later)

abbrev no_cursor : TaskCursor
no_cursor = record { state_rev = none; token = none }

-- The constructor: nothing is polled before the first tick.
unfoldable pub watch_tasks : Option Text → Option Text → Option TaskCursor → Watcher
watch_tasks room method cursor = record {
  room = room;
  watch_method = method;
  initial_rev = (get_or cursor no_cursor).state_rev;
  seen = [];
  buffer = [];
  waiters = [];
  cursor = get_or cursor no_cursor;
  stopped = false;
  phase = idle;
}
