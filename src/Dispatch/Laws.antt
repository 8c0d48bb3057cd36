-- ===== src/Dispatch/Laws.antt =====
-- What a dispatch sends is what was authored, to the assignee, under a key of the task.
use mx_loom.Common.{
  if_found, ℕ, ◌<◌, ◌≡◌, ◌≢◌, ◌⊎◌, arith, refl, sym, ap, Bool, true, false, Option, none, some,
  List, [], ◌∷◌, get_or, if◌then◌else◌, Bool-cases, inl, inr, subst,
}
use mx_loom.Text.{Text, eq_text, eq_text_sound, is_empty}
use mx_loom.Json.{Value}
use mx_loom.Envelope.{ToolResult}
use mx_loom.Daemon.{History, Deps}
use mx_loom.Daemon.Traces.{Progress}
use mx_loom.AwaitResult.{normalise_wait_ms}
use mx_loom.Delegate.{DelegateDeps, mx_delegate_tool}
use mx_loom.Delegate.Laws.{DelegatesIn, mx_delegate_tool-DelegatesIn}
use mx_loom.RunCommand.{mx_run_command}
use mx_loom.RunCommand.Laws.{RunsIn, mx_run_command-RunsIn}
use mx_loom.Tasks.Action.{ActionDispatch, to_tool, to_exec, invalid, action_to_dispatch}
use mx_loom.Tasks.Handlers.{ListTasksResult, mx_list_tasks, usable_room}
use mx_loom.Tasks.Node.{StateValue, state, succeeded, failed, TaskAction, TaskNode}
use mx_loom.Dispatch.Starts.{StartsUpTo, delegation_count, command_count, list-starts}
use mx_loom.Dispatch.{
  DispatchTaskInput, no_dispatch_room, not_dispatched, is_ok, tasks_of, find_task, is_over, Routed,
  refused, by_tool, by_command, dispatch_key, route_to, route_action, route_node, route_listed,
  send, list_input, dispatch_in, mx_dispatch_task,
}

abbrev pub Planned : TaskNode → List TaskNode → Type 0
Planned t [] = true ≡ false
Planned t (u ∷ us) = (t ≡ u) ⊎ Planned t us

abbrev Live : StateValue → Type 0
Live v = (v ≢ state succeeded) × (v ≢ state failed)

is_over_lem : (v : StateValue) → is_over v ≡ false → Live v
is_over_lem v e = (
  λ p. absurd (over_not (is_over v) e (ap is_over p)),
  λ p. absurd (over_not (is_over v) e (ap is_over p)),
)
  where
    over_not : (b : Bool) → b ≡ false → b ≡ true → ⊥
    over_not b e f = cc

-- A task of the plan that is not over, with an action that maps to the dispatch, on its assignee.
abbrev pub Authored : Text → Text → ActionDispatch → List TaskNode → Type 0
Authored id agent d tasks =
    (node : TaskNode) × (action : TaskAction) × Planned node tasks
    × (node.task_id ≡ id)
    × (node.state_value ≢ state succeeded)
    × (node.state_value ≢ state failed)
    × (node.assignee ≡ some agent)
    × (node.action ≡ some action)
    × (action_to_dispatch action ≡ d)

-- What is sent was authored, and its key is the input's or the task's.
abbrev pub RoutedFrom : DispatchTaskInput → List TaskNode → Routed → Type 0
RoutedFrom input tasks (refused r) = Unit
RoutedFrom input tasks (by_tool i) =
    Authored input.task_id i.agent (to_tool i.tool i.args) tasks
    × (i.idempotency_key ≡ some (dispatch_key input))
    × (i.wait_ms ≡ input.wait_ms)
RoutedFrom input tasks (by_command i) =
    Authored input.task_id i.agent (to_exec i.command (get_or i.args []) i.cwd) tasks
    × (i.idempotency_key ≡ some (dispatch_key input))
    × (i.wait_ms ≡ input.wait_ms)

module _ (input : DispatchTaskInput) (tasks : List TaskNode) where
  module _ (node : TaskNode) (action : TaskAction) (planned : Planned node tasks)
      (named : node.task_id ≡ input.task_id) (live : Live node.state_value)
      (has_action : node.action ≡ some action) where
    route_to-RoutedFrom :
        (target : Option Text) (d : ActionDispatch)
        → node.assignee ≡ target
        → action_to_dispatch action ≡ d
        → RoutedFrom input tasks (route_to input target d)
    route_to-RoutedFrom target (invalid why) t e = tt
    route_to-RoutedFrom none (to_tool name args) t e = tt
    route_to-RoutedFrom none (to_exec command args cwd) t e = tt
    route_to-RoutedFrom (some []) (to_tool name args) t e = tt
    route_to-RoutedFrom (some []) (to_exec command args cwd) t e = tt
    route_to-RoutedFrom (some (c ∷ s)) (to_tool name args) t e =
        ((node, action, planned, named, live.0, live.1, t, has_action, e), refl, refl)
    route_to-RoutedFrom (some (c ∷ s)) (to_exec command args cwd) t e =
        ((node, action, planned, named, live.0, live.1, t, has_action, e), refl, refl)

  route_action-RoutedFrom :
      (node : TaskNode) (action : Option TaskAction)
      → Planned node tasks
      → node.task_id ≡ input.task_id
      → Live node.state_value
      → node.action ≡ action
      → RoutedFrom input tasks (route_action input node.assignee action)
  route_action-RoutedFrom node none p n l h = tt
  route_action-RoutedFrom node (some a) p n l h =
      route_to-RoutedFrom node a p n l h node.assignee (action_to_dispatch a) refl refl

  find_task-Planned :
      (ts : List TaskNode) (node : TaskNode)
      → find_task input.task_id ts ≡ some node
      → Planned node ts × (node.task_id ≡ input.task_id)
  unfolding find_task
  find_task-Planned [] node e = absurd cc
  find_task-Planned (t ∷ ts) node e =
      elim (if_found (eq_text t.task_id input.task_id) (find_task input.task_id ts) t node e) [
        | inl (m, p) ↦ (
          inl (sym p),
          subst (λ x. x.task_id ≡ input.task_id) p (eq_text_sound t.task_id input.task_id m),
        )
        | inr q ↦ let (p, n) = find_task-Planned ts node q in (inr p, n)
      ]

  route_node-RoutedFrom :
      (found : Option TaskNode)
      → find_task input.task_id tasks ≡ found
      → RoutedFrom input tasks (route_node input found)
  unfolding route_node
  route_node-RoutedFrom none e = tt
  route_node-RoutedFrom (some node) e =
      let (p, n) = find_task-Planned tasks node e in
      elim (Bool-cases (is_over node.state_value)) [
        | inl o ↦ rw o tt
        | inr l ↦
            rw l
              (route_action-RoutedFrom node node.action p n (is_over_lem node.state_value l) refl)
      ]

-- What a dispatch routes to a handler is the authored action of a task of the plan that has the given
-- id and is not over, for the agent that it is assigned to, under the input's key or the one that
-- depends on the task alone, with the input's wait.
pub route_listed-RoutedFrom :
    (input : DispatchTaskInput) (listed : ToolResult ListTasksResult)
    → RoutedFrom input (tasks_of listed.result) (route_listed input listed)
unfolding route_listed
route_listed-RoutedFrom input listed = elim (Bool-cases (is_ok listed.status)) [
  | inl o ↦ rw o (
      route_node-RoutedFrom input (tasks_of listed.result)
        (find_task input.task_id (tasks_of listed.result)) refl)
  | inr o ↦ rw o tt
]

-- A refusal sends nothing more; otherwise the run is that of the handler, on the routed input.
abbrev pub Routes :
    ℕ → Routed → DelegateDeps → History → Option (ToolResult Value × History) → Type 0
Routes fuel (refused r) d h run = run ≡ some (r, h)
Routes fuel (by_tool i) d h run =
    (run ≡ mx_delegate_tool fuel i d h) × DelegatesIn (usable_room d.deps.room) i d h run
Routes fuel (by_command i) d h run =
    (run ≡ mx_run_command fuel i d.deps h) × RunsIn (usable_room d.deps.room) i d.deps h run

abbrev pub AfterId :
    Bool
    → ℕ
    → DispatchTaskInput
    → DelegateDeps
    → History
    → Option (ToolResult Value × History)
    → Type 0
AfterId true fuel input d h run = run ≡ some (not_dispatched, h)
AfterId false fuel input d h run =
    let (listed, h') = mx_list_tasks list_input d.deps h in
    Routes fuel (route_listed input listed) d h' run

abbrev pub DispatchesIn :
    Option Text
    → ℕ
    → DispatchTaskInput
    → DelegateDeps
    → History
    → Option (ToolResult Value × History)
    → Type 0
DispatchesIn none fuel input d h run = run ≡ some (no_dispatch_room, h)
DispatchesIn (some room) fuel input d h run = AfterId (is_empty input.task_id) fuel input d h run

module _ (input : DispatchTaskInput) (d : DelegateDeps) (fuel : ℕ) (progress : Progress d.deps.env)
    (enough : normalise_wait_ms input.wait_ms < fuel) where
  send-Routes :
      (tasks : List TaskNode) (r : Routed) (h : History)
      → RoutedFrom input tasks r
      → Routes fuel r d h (send fuel r d h)
  send-Routes tasks (refused r) h from = refl
  send-Routes tasks (by_tool i) h (_, _, w) = (
    refl,
    mx_delegate_tool-DelegatesIn i d fuel h progress
        (subst (λ x. normalise_wait_ms x < fuel) (sym w) enough),
  )
  send-Routes tasks (by_command i) h (_, _, w) = (
    refl,
    mx_run_command-RunsIn i d.deps fuel h progress
        (subst (λ x. normalise_wait_ms x < fuel) (sym w) enough),
  )

  dispatch_in-DispatchesIn :
      (room : Option Text) (h : History)
      → DispatchesIn room fuel input d h (dispatch_in room fuel input d h)
  dispatch_in-DispatchesIn none h = refl
  dispatch_in-DispatchesIn (some room) h = after (is_empty input.task_id)
    where
      listed : ToolResult ListTasksResult
      listed = (mx_list_tasks list_input d.deps h).0

      after :
          (b : Bool)
          → AfterId b fuel input d h (
              if b
              then some (not_dispatched, h)
              else send fuel (route_listed input listed) d (mx_list_tasks list_input d.deps h).1)
      after true = refl
      after false =
          send-Routes (tasks_of listed.result) (route_listed input listed)
            (mx_list_tasks list_input d.deps h).1 (route_listed-RoutedFrom input listed)

-- What is started after the tasks were read is started at all.
read-starts :
    (deps : Deps) (h : History) (run : Option (ToolResult Value × History))
    → StartsUpTo 1 (mx_list_tasks list_input deps h).1 run
    → StartsUpTo 1 h run
read-starts deps h none s = s
read-starts deps h (some (r, h')) s = omega (arith, s, list-starts deps h)

module _ (fuel : ℕ) (input : DispatchTaskInput) (d : DelegateDeps) (h : History)
    (run : Option (ToolResult Value × History)) where
  route_count :
      (r : Routed) (before : History) → Routes fuel r d before run → StartsUpTo 1 before run
  route_count (refused r) before e = subst (StartsUpTo 1 before) (sym e) (omega arith)
  route_count (by_tool i) before (_, s) =
      delegation_count before run (usable_room d.deps.room) i d s
  route_count (by_command i) before (_, s) =
      command_count before run (usable_room d.deps.room) i d.deps s

  dispatch_count : (room : Option Text) → DispatchesIn room fuel input d h run → StartsUpTo 1 h run
  dispatch_count none e = subst (StartsUpTo 1 h) (sym e) (omega arith)
  dispatch_count (some room) s = after (is_empty input.task_id) s
    where
      after : (b : Bool) → AfterId b fuel input d h run → StartsUpTo 1 h run
      after true e = subst (StartsUpTo 1 h) (sym e) (omega arith)
      after false e = read-starts d.deps h run (
          route_count (route_listed input (mx_list_tasks list_input d.deps h).0)
            (mx_list_tasks list_input d.deps h).1 e)

-- Where the clock goes forward, a dispatch with more rounds than its `wait_ms` returns, and it starts
-- one invocation at most: no more than one `call.start` or `exec.start` is sent. With no room or no id
-- nothing is sent; otherwise the tasks are read first, and then either nothing more is sent, or the
-- result and all that is sent are those of the handler of the tool, or of the command, on the routed
-- input.
pub mx_dispatch_task-DispatchesIn :
    (input : DispatchTaskInput) (d : DelegateDeps) (fuel : ℕ) (h : History)
    → Progress d.deps.env
    → normalise_wait_ms input.wait_ms < fuel
    → StartsUpTo 1 h (mx_dispatch_task fuel input d h)
      × DispatchesIn (usable_room d.deps.room) fuel input d h (mx_dispatch_task fuel input d h)
unfolding mx_dispatch_task
mx_dispatch_task-DispatchesIn input d fuel h progress enough =
    let s = dispatch_in-DispatchesIn input d fuel progress enough (usable_room d.deps.room) h in
    (dispatch_count fuel input d h _ (usable_room d.deps.room) s, s)
