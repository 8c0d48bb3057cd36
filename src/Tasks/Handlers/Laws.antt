-- ===== src/Tasks/Handlers/Laws.antt =====
-- What the task handlers send, and what they return.
use mx_loom.Common.{◌≡◌, refl, ◌∙◌, true, false, Option, none, some, List, ◌∷◌, map, get_or}
use mx_loom.Text.{Text, codes, eq_text}
use mx_loom.Json.{Value, str, Fields, get, get_field}
use mx_loom.Envelope.{ToolResult, ok_result}
use mx_loom.Fault.{empty_audit_ref}
use mx_loom.Daemon.{resolved, called, History, Deps, Env}
use mx_loom.Tasks.Node.{TaskNode, project_task_node}
use mx_loom.Tasks.Edges.{TaskEdge, derive_edges, merge_edges, node_edges}
use mx_loom.Tasks.Edges.Laws.{keys, distinct, derived-keys}
use mx_loom.Tasks.Edges.Merge.{Adds, merge_edges-keeps}
use mx_loom.Tasks.Action.{optional, text_value}
use mx_loom.Tasks.Handlers.{
  CreateTaskInput, UpdateTaskInput, usable_room, send_task, key_or_new, no_room_result,
  create_params, update_params, mx_create_task, mx_update_task, graph_view, ListTasksInput,
  read_task_rows, list_params, graph_reply, read_edge_rows, mx_list_tasks, texts_value, state_value,
  action_value, task_reply,
}

get_behind :
    (key k : Text) (v : Option Value) (fs : Fields)
    → eq_text k key ≡ false
    → get_field key (optional k v fs) ≡ get_field key fs
unfolding get_field
get_behind key k none fs h = refl
get_behind key k (some v) fs h = rw h

create_params-room :
    (input : CreateTaskInput) (room key : Text)
    → get (codes "room") (create_params input room key) ≡ str room
unfolding create_params get eq_text codes
create_params-room input room key = refl

create_params-key :
    (input : CreateTaskInput) (room key : Text)
    → get (codes "idempotency_key") (create_params input room key) ≡ str key
unfolding create_params get eq_text codes
create_params-key input room key =
    get_behind _ _ (texts_value input.depends_on) _ refl
    ∙ get_behind _ _ (texts_value input.blocks) _ refl
    ∙ get_behind _ _ (text_value input.assign) _ refl
    ∙ get_behind _ _ (state_value input.state) _ refl
    ∙ get_behind _ _ (action_value input.action) _ refl

update_params-room :
    (input : UpdateTaskInput) (room key : Text)
    → get (codes "room") (update_params input room key) ≡ str room
unfolding update_params get eq_text codes
update_params-room input room key = refl

update_params-key :
    (input : UpdateTaskInput) (room key : Text)
    → get (codes "idempotency_key") (update_params input room key) ≡ str key
unfolding update_params get eq_text codes
update_params-key input room key =
    get_behind _ _ (state_value input.state) _ refl
    ∙ get_behind _ _ (text_value input.assign) _ refl
    ∙ get_behind _ _ (texts_value input.depends_on) _ refl
    ∙ get_behind _ _ (texts_value input.blocks) _ refl

-- By the room that there is to send in.
abbrev pub SendsIn :
    Option Text
    → Env
    → Text
    → Option Text
    → (Text → Text → Value)
    → ToolResult TaskNode × History
    → History
    → Type 0
SendsIn none env method key params run h = run ≡ (no_room_result, h)
SendsIn (some room) env method key params run h =
    let (k, h') = key_or_new env key h in
    (run.1 ≡ called method (params room k) ∷ h')
    × (run.0 ≡ task_reply (env.answer h' method (params room k)))
    × (get (codes "room") (params room k) ≡ str room)
    × (get (codes "idempotency_key") (params room k) ≡ str k)

-- Both mutations, by the room.
sent_in :
    (room : Option Text) (env : Env) (method : Text) (key : Option Text)
    (params : Text → Text → Value) (h : History)
    → ((r k : Text) → get (codes "room") (params r k) ≡ str r)
    → ((r k : Text) → get (codes "idempotency_key") (params r k) ≡ str k)
    → SendsIn room env method key params
        (elim room [ none ↦ (no_room_result, h) | some r ↦ send_task env method key (params r) h ])
        h
sent_in none env method key params h p q = refl
sent_in (some r) env method key params h p q = (refl, refl, p r _, q r _)

-- One call of `method`, behind the making of the key where the input has none, with the session's
-- room and the key.
abbrev pub SendsOne :
    Deps
    → Text
    → Option Text
    → (Text → Text → Value)
    → ToolResult TaskNode × History
    → History
    → Type 0
SendsOne deps method key params run h =
    SendsIn (usable_room deps.room) deps.env method key params run h

-- A task is created, and updated, by exactly one call, whose room is the session's and whose key is
-- the input's, or else one made for it, and the envelope is that of the reply; with no room nothing
-- is sent and no key is made.
pub mutations-SendsOne :
    (deps : Deps) (h : History) (create : CreateTaskInput) (update : UpdateTaskInput)
    → SendsOne deps
        (codes "task.create")
        create.idempotency_key
        (create_params create)
        (mx_create_task create deps h)
        h
      × SendsOne deps
          (codes "task.update")
          update.idempotency_key
          (update_params update)
          (mx_update_task update deps h)
          h
unfolding mx_create_task mx_update_task
mutations-SendsOne deps h create update = (
  sent_in (usable_room deps.room) deps.env (codes "task.create") create.idempotency_key
      (create_params create) h (create_params-room create) (create_params-key create),
  sent_in (usable_room deps.room) deps.env (codes "task.update") update.idempotency_key
      (update_params update) h (update_params-room update) (update_params-key update),
)

-- Where `task.list` answers, the graph view is a success whatever `task.graph` answers or throws:
-- the tasks are the projected rows, and the edges are those derived from them with more behind, no
-- key twice. The two calls have the same parameters.
pub mx_list_tasks-tolerant :
    (input : ListTasksInput) (deps : Deps) (h : History) (raw : Value)
    → get_or input.view graph_view ≡ graph_view
    → deps.env.answer h (codes "task.list") (list_params input deps.room) ≡ resolved raw
    → (edges : List TaskEdge) × ((mx_list_tasks input deps h).0
        ≡ ok_result
            (record { tasks = map project_task_node (read_task_rows raw); edges = some edges })
            empty_audit_ref)
      × Adds (derive_edges (map project_task_node (read_task_rows raw))) edges
      × (distinct (keys 0 edges) ≡ true)
      × ((mx_list_tasks input deps h).1
          ≡ called (codes "task.graph") (list_params input deps.room)
            ∷ called (codes "task.list") (list_params input deps.room)
            ∷ h)
unfolding derive_edges mx_list_tasks ok_result
mx_list_tasks-tolerant input deps h raw is_graph listed =
    let tasks = map project_task_node (read_task_rows raw) in
    let params = list_params input deps.room in
    let reply =
      deps.env.answer (called (codes "task.list") params ∷ h) (codes "task.graph") params in
    let kept =
      merge_edges-keeps (derive_edges tasks) (read_edge_rows (graph_reply reply))
        (derived-keys 0 (map node_edges tasks)).1 in
    (
      merge_edges (derive_edges tasks) (read_edge_rows (graph_reply reply)),
      rw (is_graph, listed),
      kept.0,
      kept.1,
      rw (is_graph, listed),
    )
