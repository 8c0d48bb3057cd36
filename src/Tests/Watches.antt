-- ===== src/Tests/Watches.antt =====
-- Runs of packages/toolbelt/src/task-watch.ts and heartbeat.ts at single inputs, and the theorems applied.
use mx_loom.Common.{suc, ◌≤◌, ◌≡◌, refl, true, false, none, some, List, [], ◌∷◌, ◌++◌, map}
use mx_loom.Text.{Text, codes, eq_text}
use mx_loom.Json.{
  Value, num, str, arr, cons, nil, obj, field, end, get, as_record, as_array, read_string,
}
use mx_loom.Json.Number.{natural, is_finite}
use mx_loom.Tasks.Node.{task_record, read_task_id}
use mx_loom.Toolbelt.Transport.{timeout, transport_error, resolved, rejected}
use mx_loom.Toolbelt.Plan.{project_resumed_task, read_task_rows, read_task_rev, read_finite}
use mx_loom.Toolbelt.Heartbeat
use mx_loom.Toolbelt.Heartbeat.{fired, tick_settled, start_heartbeat}
use mx_loom.Toolbelt.Heartbeat.Laws.{starts, settles, no_overlap_no_echo}
use mx_loom.Toolbelt.Watch.{
  Printer, WatchEvent, ticked, settled, asked, halted, next, on_tick, step, run, watch_tasks,
  absorb, poll_rows, poll_row, lookup,
}
use mx_loom.Toolbelt.Watch.News.{Tidy, deliveries, all_news}
use mx_loom.Toolbelt.Watch.Queue.{watcher-InOrder}
use mx_loom.Toolbelt.Watch.Again.{once_each, same_rows_silent}

abbrev one_printer : Printer
one_printer = record { number_text = λ n. codes "4"; foreign_text = codes "function" }

abbrev task_row : Text → Text → Value
task_row id s = obj (
    field (codes "task_id") (str id)
      (field (codes "state") (str s) (field (codes "state_rev") (num (natural 4)) end)))

abbrev two_rows : List Value
two_rows = task_row (codes "t1") (codes "running") ∷ task_row (codes "t2") (codes "done") ∷ []

abbrev listed : Value
listed = arr (
    cons (task_row (codes "t1") (codes "running"))
      (cons (task_row (codes "t2") (codes "done")) nil))

-- A consumer waits, a poll fails, the next one brings two tasks, and the watcher is stopped.
abbrev watched : List WatchEvent
watched =
    asked 1
    ∷ ticked
    ∷ settled (rejected (transport_error timeout))
    ∷ ticked
    ∷ settled (resolved listed)
    ∷ asked 2
    ∷ halted
    ∷ []

abbrev parked : List WatchEvent
parked = asked 1 ∷ ticked ∷ []

parked_runs :
    (run one_printer (watch_tasks (some (codes "!plan")) none none) parked).0.stopped ≡ false
unfolding run step next on_tick watch_tasks
parked_runs = refl

rows_once : once_each two_rows ≡ true
unfolding project_resumed_task task_record get eq_text codes as_record read_task_id read_string
rows_once = refl

watcher-InOrder_example :
    Tidy (run one_printer (watch_tasks (some (codes "!plan")) none none) watched).0
    × (deliveries (run one_printer (watch_tasks (some (codes "!plan")) none none) watched).1
          ++ (run one_printer (watch_tasks (some (codes "!plan")) none none) watched).0.buffer
        ≡ all_news one_printer (watch_tasks (some (codes "!plan")) none none) watched)
watcher-InOrder_example = watcher-InOrder one_printer (some (codes "!plan")) none none watched

same_rows_silent_example :
    absorb one_printer
      (absorb one_printer
        (run one_printer (watch_tasks (some (codes "!plan")) none none) parked).0
        two_rows).0
      two_rows
    ≡ (
      (absorb one_printer
          (run one_printer (watch_tasks (some (codes "!plan")) none none) parked).0
          two_rows).0,
      [],
    )
same_rows_silent_example =
    same_rows_silent one_printer (some (codes "!plan")) none none parked two_rows parked_runs
      rows_once

-- Both deltas reach a consumer.
watched_delivers :
    map
      (λ d. d.task.task_id)
      (deliveries (run one_printer (watch_tasks (some (codes "!plan")) none none) watched).1)
    ≡ codes "t1" ∷ codes "t2" ∷ []
unfolding run step next on_tick watch_tasks poll_rows read_task_rows as_array poll_row
    project_resumed_task read_task_id read_string get task_record as_record eq_text codes lookup
    read_task_rev read_finite is_finite
watched_delivers = refl

no_overlap_no_echo_example :
    (starts (Heartbeat.run start_heartbeat (fired ∷ fired ∷ [])).1
      ≤ suc (settles (fired ∷ fired ∷ [])))
    × ((Heartbeat.run start_heartbeat
          ((fired ∷ fired ∷ []) ++ (Heartbeat.halted ∷ tick_settled (resolved tt) ∷ []))).1
        ≡ (Heartbeat.run start_heartbeat (fired ∷ fired ∷ [])).1)
no_overlap_no_echo_example =
    no_overlap_no_echo (fired ∷ fired ∷ []) (tick_settled (resolved tt) ∷ [])
