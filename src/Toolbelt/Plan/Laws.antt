-- ===== src/Toolbelt/Plan/Laws.antt =====
-- The edges of the plan, the agreement with the registry's task states, and the reading of a plan.
use mx_loom.Common.{ℕ, ◌≡◌, refl, true, false, Option, none, List, [], ◌∷◌, ◌++◌, map, All, arith}
use mx_loom.Text.{Text, codes, eq_text, eq_text_refl, is_empty}
use mathlib.Core.List.{append_assoc}
use mx_loom.Json.{Value}
use mx_loom.Tasks.Node
use mx_loom.Tasks.Node.{TaskNode, StateValue}
use mx_loom.Tasks.Edges.{
  TaskEdge, edge_key, derive_from, push_all, push_edge, add_edge, dependency_edge,
}
use mx_loom.Tasks.Edges.Laws.{named_edges, distinct, keys, derived-keys}
use mx_loom.Tasks.Edges.Exact.{
  Without, StartsWithout, edges_of-StartsWithout, has_edge, derived-exact, space-SeparatesKinds,
}
use mx_loom.Toolbelt.Transport.{Outcome, resolved, rejected, Sent, Peer, code_or, protocol}
use mx_loom.Toolbelt.Plan.{
  TaskCursor, PlanSnapshot, advance_cursor, ResumedTask, map_resumed_task_state, task_edges,
  derive_edges, room_params, snapshot_of, reconstruct_plan, read_task_rows, fault_snapshot,
  build_plan_snapshot, project_resumed_task,
}

-- A task state reads the same here and in the registry.
pub map_resumed_task_state_agrees : (v : Value) → map_resumed_task_state v ≡ Node.map_task_state v
unfolding map_resumed_task_state Node.map_task_state
map_resumed_task_state_agrees v = refl

rounds-StartsWithout :
    (sep : ℕ) (tasks : List ResumedTask)
    → All (λ t. Without sep t.task_id) tasks
    → All (All (StartsWithout sep)) (map task_edges tasks)
rounds-StartsWithout sep [] h = tt
rounds-StartsWithout sep (t ∷ ts) (p, ps) =
    (edges_of-StartsWithout sep t.task_id t.depends_on t.blocks p, rounds-StartsWithout sep ts ps)

-- Where no task id holds a space, an edge that starts at an id without one is in the plan exactly if
-- a task names it with two ends; and no key occurs twice.
pub plan_edges-exact :
    (tasks : List ResumedTask)
    → All (λ t. Without b' ' t.task_id) tasks
    → (e : TaskEdge) → StartsWithout b' ' e
    → (has_edge e (derive_edges tasks) ≡ has_edge e (named_edges (map task_edges tasks)))
      × (distinct (keys b' ' (derive_edges tasks)) ≡ true)
unfolding derive_edges
plan_edges-exact tasks clean e p = (
  derived-exact b' ' space-SeparatesKinds (map task_edges tasks) e
      (rounds-StartsWithout b' ' tasks clean) p,
  (derived-keys b' ' (map task_edges tasks)).1,
)

append-not_empty : (s : Text) (x : ℕ) (t : Text) → is_empty (s ++ (x ∷ t)) ≡ false
append-not_empty [] x t = refl
append-not_empty (c ∷ s) x t = refl

spaced_keys :
    (a b c : Text)
    → eq_text
        (edge_key b' ' (dependency_edge (a ++ (b' ' ∷ b)) c))
        (edge_key b' ' (dependency_edge a (b ++ (b' ' ∷ c))))
      ≡ true
unfolding edge_key
spaced_keys a b c = rw append_assoc (eq_text_refl _)

-- A task `a` that depends on `b c`, and a task `a b` that depends on `c`: their keys are one, and
-- the second edge is missing from the plan.
pub spaced_edge-dropped :
    (s : StateValue) (who : Option Text) (a b c : Text)
    → is_empty a ≡ false
    → derive_edges (
        record {
          task_id = a;
          state_value = s;
          assignee = who;
          depends_on = (b ++ (b' ' ∷ c)) ∷ [];
          blocks = [];
        }
        ∷ record {
          task_id = a ++ (b' ' ∷ b);
          state_value = s;
          assignee = who;
          depends_on = c ∷ [];
          blocks = [];
        }
        ∷ [])
      ≡ dependency_edge a (b ++ (b' ' ∷ c)) ∷ []
unfolding derive_edges derive_from push_all push_edge add_edge
spaced_edge-dropped s who a b c named =
    ground (arith, append-not_empty b b' ' c, append-not_empty a b' ' b, spaced_keys a b c)

-- What a plan is, by how the call of `task.list` settled.
abbrev pub ReadFrom : Text → Option TaskCursor → Outcome Value → PlanSnapshot → Type 0
ReadFrom room prev (rejected err) plan = plan ≡ fault_snapshot room prev (code_or protocol err)
ReadFrom room prev (resolved v) plan =
    (plan.fault ≡ none)
    × (plan.tasks ≡ map project_resumed_task (read_task_rows v))
    × (plan.cursor ≡ advance_cursor prev (read_task_rows v))

snapshot_of-ReadFrom :
    (room : Text) (prev : Option TaskCursor) (out : Outcome Value)
    → ReadFrom room prev out (snapshot_of room prev out)
unfolding snapshot_of build_plan_snapshot
snapshot_of-ReadFrom room prev (rejected err) = refl
snapshot_of-ReadFrom room prev (resolved v) = (refl, refl, refl)

-- Reading the plan makes one `task.list` call and cannot fail: a rejection gives an empty plan that
-- keeps the cursor and carries the code of the fault, and a reply gives a plan with no fault whose
-- tasks are the projected rows, and whose cursor is advanced by them.
pub reconstruct_plan-total :
    (peer : Peer) (room : Text) (prev : Option TaskCursor) (sent : List Sent)
    → ((reconstruct_plan peer room prev sent).1
        ≡ record { method = codes "task.list"; params = room_params room } ∷ sent)
      × ReadFrom room prev
          (peer sent (codes "task.list") (room_params room))
          (reconstruct_plan peer room prev sent).0
unfolding reconstruct_plan
reconstruct_plan-total peer room prev sent =
    (refl, snapshot_of-ReadFrom room prev (peer sent (codes "task.list") (room_params room)))
