-- ===== src/Discovery/Workspace/Laws.antt =====
-- What a status shows of the daemon's replies.
use mx_loom.Common.{
  ◌≡◌, Bool, false, if◌then◌else◌, refl, sym, ap, ◌∙◌, true, map, Option, none, some, List, [], ◌∷◌,
  get_or, ◌or_else◌,
}
use mx_loom.Text.{codes, eq_text}
use mx_loom.Json.{
  Value, undefined, null, bool, num, str, arr, obj, field, end, get, get_field, as_record,
}
use mx_loom.Envelope.{ok, ToolResult, ok_result, denied_result, errored_result}
use mx_loom.Invocation.Failure.{failure_result, is_denial_code, message_of}
use mx_loom.Fault.{empty_audit_ref, fault_code, fault_to_result}
use mx_loom.Daemon.{Reply, resolved, rejected, called, History, Env, Deps}
use mx_loom.Tasks.Handlers.{usable_room}
use mx_loom.Discovery.{
  FindAgentsInput, list_entries, cheap_matches, entries_in, find_reply, mx_find_agents,
}
use mx_loom.Errors.{CodeValue}
use mx_loom.Discovery.Rows.{AgentListRow, AgentSummary, project_agent_summary}
use mx_loom.Discovery.Workspace.{
  ProjectContext, project_workspace_meta, read_project_fields, from_rows, derive_project,
  WorkspaceStatusResult, status_params, status_reply, mx_workspace_status,
}

-- The places that a project may be told in, by preference.
abbrev pub told_in : Value → List AgentListRow → List Value
told_in status rows =
    get (codes "project") status
    ∷ get (codes "workspace") status
    ∷ map (λ (e : AgentListRow). get (codes "workspace") e.agent) rows

abbrev pub first_told : List Value → Option ProjectContext
first_told [] = none
first_told (v ∷ vs) = read_project_fields v or_else first_told vs

abbrev summary : AgentListRow → AgentSummary
summary e = project_agent_summary e.agent e.liveness

abbrev pub anyone : FindAgentsInput
anyone = record { capability = none; tool = none; liveness = none }

abbrev pub reported : Option WorkspaceStatusResult → List WorkspaceStatusResult
reported none = []
reported (some s) = s ∷ []

-- What a status may show of the reply to `workspace.status`.
abbrev pub shown : Value → Value
shown raw = obj (
    field (codes "room_id") (get (codes "room_id") raw) (
      field (codes "name") (get (codes "name") raw) (
        field (codes "canonical_alias") (get (codes "canonical_alias") raw) (
          field (codes "encrypted") (get (codes "encrypted") raw) (
            field (codes "project") (get (codes "project") raw)
              (field (codes "workspace") (get (codes "workspace") raw) end))))))

or_else_assoc :
    (a b c : Option ProjectContext) → ((a or_else b) or_else c) ≡ (a or_else (b or_else c))
or_else_assoc none b c = refl
or_else_assoc (some a) b c = refl

rows-told :
    (rows : List AgentListRow)
    → from_rows rows ≡ first_told (map (λ (e : AgentListRow). get (codes "workspace") e.agent) rows)
rows-told [] = refl
rows-told (e ∷ rows) =
    ap (λ o. read_project_fields (get (codes "workspace") e.agent) or_else o) (rows-told rows)

derive_project-first :
    (status : Value) (rows : List AgentListRow)
    → derive_project status rows ≡ first_told (told_in status rows)
unfolding derive_project read_project_fields as_record get
derive_project-first (obj fs) rows =
    or_else_assoc (read_project_fields (get (codes "project") (obj fs)))
      (read_project_fields (get (codes "workspace") (obj fs))) (from_rows rows)
    ∙ ap
        (λ o.
          read_project_fields (get (codes "project") (obj fs))
          or_else (read_project_fields (get (codes "workspace") (obj fs)) or_else o))
        (rows-told rows)
derive_project-first undefined rows = rows-told rows
derive_project-first null rows = rows-told rows
derive_project-first (bool b) rows = rows-told rows
derive_project-first (num n) rows = rows-told rows
derive_project-first (str s) rows = rows-told rows
derive_project-first (arr xs) rows = rows-told rows

meta-shown : (raw : Value) → project_workspace_meta raw ≡ project_workspace_meta (shown raw)
unfolding project_workspace_meta as_record get get_field eq_text codes
meta-shown (obj fs) = refl
meta-shown undefined = refl
meta-shown null = refl
meta-shown (bool b) = refl
meta-shown (num n) = refl
meta-shown (str s) = refl
meta-shown (arr xs) = refl

told-shown : (raw : Value) (rows : List AgentListRow) → told_in raw rows ≡ told_in (shown raw) rows
unfolding get get_field eq_text codes
told-shown raw rows = refl

project-shown :
    (raw : Value) (rows : List AgentListRow)
    → derive_project raw rows ≡ derive_project (shown raw) rows
project-shown raw rows =
    derive_project-first raw rows
    ∙ ap first_told (told-shown raw rows)
    ∙ sym (derive_project-first (shown raw) rows)

anyone-all : (es : List AgentListRow) → cheap_matches anyone es ≡ es
unfolding cheap_matches
anyone-all [] = refl
anyone-all (e ∷ es) = ap (λ rest. e ∷ rest) (anyone-all es)

failure-empty :
    {A : Type 0} (code : CodeValue) → (failure_result {A = A} code empty_audit_ref).result ≡ none
unfolding failure_result denied_result errored_result
failure-empty {A} code = by_denial (is_denial_code code)
  where
    by_denial :
        (b : Bool)
        → (if b
            then denied_result {A = A} code (message_of code) empty_audit_ref
            else errored_result code (message_of code) empty_audit_ref).result
          ≡ none
    by_denial true = refl
    by_denial false = refl

-- A search that asks for nothing in particular finds every row that can be read.
rows-found :
    (env : Env) (listed : Reply) (h : History)
    → map summary (entries_in listed) ≡ get_or (find_reply env anyone listed h).0.result []
unfolding ok_result fault_to_result
rows-found env (resolved raw) h = ap (map summary) (sym (anyone-all (list_entries raw)))
rows-found env (rejected err) h =
    ap (λ o. get_or o []) (sym (failure-empty {A = List AgentSummary} (fault_code err)))

-- By the reply to `workspace.status`.
abbrev pub Reports : Env → Reply → History → ToolResult WorkspaceStatusResult × History → Type 0
Reports env (rejected err) h r = (r.0 ≡ fault_to_result err empty_audit_ref) × (r.1 ≡ h)
Reports env (resolved raw) h r =
    (r.0.status ≡ ok)
    × (map (λ (s : WorkspaceStatusResult). s.agents) (reported r.0.result)
        ≡ get_or (mx_find_agents anyone env h).0.result [] ∷ [])
    × (map (λ (s : WorkspaceStatusResult). s.project) (reported r.0.result)
        ≡ first_told (told_in raw (entries_in (env.answer h (codes "agent.list") undefined))) ∷ [])
    × (r ≡ status_reply env (resolved (shown raw)) h)
    × (r.1 ≡ called (codes "agent.list") undefined ∷ h)

status_reply-Reports :
    (env : Env) (reply : Reply) (h : History) → Reports env reply h (status_reply env reply h)
unfolding status_reply ok_result mx_find_agents
status_reply-Reports env (rejected err) h = (refl, refl)
status_reply-Reports env (resolved raw) h =
    let listed = env.answer h (codes "agent.list") undefined in
    let rows = entries_in listed in
    let h' = called (codes "agent.list") undefined ∷ h in
    (
      refl,
      ap (λ found. found ∷ []) (rows-found env listed h'),
      ap (λ p. p ∷ []) (derive_project-first raw rows),
      λ i. (
        ok_result
            (record {
              workspace = meta-shown raw i;
              agents = map summary rows;
              project = project-shown raw rows i;
            })
            empty_audit_ref,
        h',
      ),
      refl,
    )

-- A status makes one request, for the session's room if that is a text with characters, and if that
-- is rejected, its fault is the result. Otherwise it makes one more, for the agents, and is `ok` with
-- the agents that a search without filters finds there, none if that faults, and with the first
-- project that the reply's `project`, its `workspace` or a row of the list tells. The reply could be
-- replaced by the six fields `room_id`, `name`, `canonical_alias`, `encrypted`, `project` and
-- `workspace` of it: nothing else in it, the members of the room included, has an influence.
pub mx_workspace_status-Reports :
    (deps : Deps) (h : History)
    → Reports deps.env
        (deps.env.answer h (codes "workspace.status") (status_params (usable_room deps.room)))
        (called (codes "workspace.status") (status_params (usable_room deps.room)) ∷ h)
        (mx_workspace_status deps h)
unfolding mx_workspace_status
mx_workspace_status-Reports deps h = status_reply-Reports deps.env _ _
