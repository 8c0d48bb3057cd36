-- ===== src/Tests/Plans.antt =====
-- Plans read back from task records.
use mx_loom.Common.{◌≡◌, refl, ◌⊎◌, true, false, none, some, List, [], ◌∷◌, ◌++◌, map, All}
use mathlib.Core.List.{Perm}
use mx_loom.Text.{codes, eq_text}
use mx_loom.Json.{Value, num, str, obj, field, end, get, as_record}
use mx_loom.Json.Number.{plus, is_finite, lt_number}
use mx_loom.Tasks.Node.{TaskNode, pending, succeeded, state, task_record}
use mx_loom.Tasks.Edges
use mx_loom.Tasks.Edges.{TaskEdge, dependency_edge}
use mx_loom.Tasks.Edges.Laws.{named_edges, keys, distinct}
use mx_loom.Tasks.Edges.Exact.{has_edge, registry_edges-exact}
use mx_loom.Tasks.Action.{to_exec}
use mx_loom.Tasks.Action
use mx_loom.Tasks.Action.RoundTrip.{redispatch, action_round_trip}
use mx_loom.Toolbelt.Transport.{timeout, transport_error, rejected, Peer}
use mx_loom.Toolbelt.Plan.{
  ResumedTask, TaskCursor, reconcile, succeeded_ids, place, place_all, is_terminal_state,
  is_in_flight_state, is_succeeded, nothing_placed, advance_cursor, max_rev, raise, read_task_rev,
  read_finite,
}
use mx_loom.Toolbelt.Plan.Cursor.{exceeds, Below, SeenIn, advance_cursor-max}
use mx_loom.Toolbelt.Plan.Ready.{sorted_by, satisfied, reconcile-sorted}

abbrev built : ResumedTask
built = record {
  task_id = codes "t1";
  state_value = state succeeded;
  assignee = none;
  depends_on = [];
  blocks = [];
}

abbrev tested : ResumedTask
tested = record {
  task_id = codes "t2";
  state_value = state pending;
  assignee = none;
  depends_on = codes "t1" ∷ [];
  blocks = [];
}

abbrev shipped : ResumedTask
shipped = record {
  task_id = codes "t3";
  state_value = state pending;
  assignee = none;
  depends_on = codes "t2" ∷ [];
  blocks = [];
}

abbrev plan : List ResumedTask
plan = built ∷ tested ∷ shipped ∷ []

plan_sorted : reconcile plan ≡ record {
  done = codes "t1" ∷ [];
  in_flight = [];
  ready = codes "t2" ∷ [];
  blocked = codes "t3" ∷ [];
}
unfolding reconcile place_all place succeeded_ids is_terminal_state is_in_flight_state is_succeeded
    eq_text codes
plan_sorted = refl

reconcile-sorted_example :
    (reconcile plan ≡ sorted_by (satisfied plan) nothing_placed plan)
    × Perm
        ((reconcile plan).done
          ++ ((reconcile plan).in_flight ++ ((reconcile plan).ready ++ (reconcile plan).blocked)))
        (map (λ (t : ResumedTask). t.task_id) plan)
reconcile-sorted_example = reconcile-sorted plan

-- { task_id: "t1", state_rev: 5 units }
abbrev row : Value
row =
    obj (field (codes "task_id") (str (codes "t1")) (field (codes "state_rev") (num (plus 5)) end))

abbrev seen_three : TaskCursor
seen_three = record { state_rev = some (plus 3); token = some (codes "c") }

advanced : (advance_cursor (some seen_three) (row ∷ [])).state_rev ≡ some (plus 5)
unfolding advance_cursor max_rev raise read_task_rev read_finite is_finite lt_number task_record
    as_record get codes eq_text
advanced = refl

advance_cursor-max_example :
    (exceeds (some (plus 3)) (advance_cursor (some seen_three) (row ∷ [])).state_rev ≡ false)
    × All (Below (advance_cursor (some seen_three) (row ∷ [])).state_rev) (row ∷ [])
    × (((advance_cursor (some seen_three) (row ∷ [])).state_rev ≡ some (plus 3))
        ⊎ SeenIn (advance_cursor (some seen_three) (row ∷ [])).state_rev (row ∷ []))
    × ((advance_cursor (some seen_three) (row ∷ [])).token ≡ some (codes "c"))
    × (advance_cursor (some (advance_cursor (some seen_three) (row ∷ []))) (row ∷ [])
        ≡ advance_cursor (some seen_three) (row ∷ []))
advance_cursor-max_example = advance_cursor-max seen_three (row ∷ [])

abbrev silent : Peer
silent sent method params = rejected (transport_error timeout)

abbrev node : TaskNode
node = record {
  task_id = codes "a b";
  title = [];
  state_value = state pending;
  assignee = none;
  depends_on = codes "c" ∷ [];
  blocks = [];
  action = none;
  created_at = none;
  updated_at = none;
}

registry_edges-exact_example :
    (has_edge (dependency_edge (codes "a b") (codes "c")) (Edges.derive_edges (node ∷ []))
      ≡ has_edge
          (dependency_edge (codes "a b") (codes "c"))
          (named_edges (map Edges.node_edges (node ∷ []))))
    × (distinct (keys 0 (Edges.derive_edges (node ∷ []))) ≡ true)
unfolding codes
registry_edges-exact_example =
    registry_edges-exact (node ∷ []) ((refl, (refl, (refl, tt))), tt)
      (dependency_edge (codes "a b") (codes "c")) (refl, (refl, (refl, tt)))

action_round_trip_example :
    redispatch (
      Action.dispatch_to_create_action_param
        (to_exec (codes "ls") (codes "-l" ∷ []) (some (codes "/tmp"))))
    ≡ some (to_exec (codes "ls") (codes "-l" ∷ []) (some (codes "/tmp")))
unfolding codes
action_round_trip_example =
    action_round_trip (to_exec (codes "ls") (codes "-l" ∷ []) (some (codes "/tmp"))) tt
