-- ===== src/Discovery/Rows.antt =====
-- packages/registry/src/handlers/agent-projection.ts: the rows of `agent.list` and what is copied of
-- an agent's record.
use mx_loom.Common.{any, map, Option, none, some, List, [], ◌∷◌, ◌++◌, get_or, if◌then◌else◌}
use mx_loom.Text.{Text, codes, eq_text}
use mx_loom.Json.{
  Value, num, str, arr, obj, Fields, field, end, get, as_record, read_string, read_string_array,
  elements,
}
use mx_loom.Json.Number.{WireNumber, is_finite}
use mx_loom.Delegate.Tools.{PublishedTool, project_tools}
use mx_loom.Toolbelt.Session.Params.{AgentLiveness, read_liveness, WorkspaceContext}

unfoldable pub read_number : Value → Option WireNumber
read_number (num n) = if is_finite n then some n else none
read_number v = none

-- The agent's record is an object.
pub record AgentListRow : Type 0 where
  pub agent : Value
  pub liveness : Value

-- A row that is itself a record of an agent.
abbrev pub bare_row : Value → Option Text → Option AgentListRow
bare_row r none = none
bare_row r (some id) = some (record { agent = r; liveness = get (codes "liveness") r })

abbrev pub row_of : Value → Option Value → Option AgentListRow
row_of r (some agent) = some (record { agent = agent; liveness = get (codes "liveness") r })
row_of r none = bare_row r (read_string (get (codes "agent_id") r))

unfoldable pub read_list_row : Value → Option AgentListRow
read_list_row (obj fs) = row_of (obj fs) (as_record (get (codes "agent") (obj fs)))
read_list_row v = none

abbrev pub name_list : Option Text → List Text
name_list none = []
name_list (some name) = name ∷ []

abbrev pub tool_name : Value → List Text
tool_name (str s) = s ∷ []
tool_name v = name_list (read_string (get (codes "name") v))

abbrev pub tool_names : List Value → List Text
tool_names [] = []
tool_names (v ∷ vs) = tool_name v ++ tool_names vs

abbrev pub some_names : List Text → Option (List Text)
some_names [] = none
some_names (n ∷ ns) = some (n ∷ ns)

-- An array without a name says nothing.
unfoldable pub read_tool_names : Value → Option (List Text)
read_tool_names (arr xs) = some_names (tool_names (elements xs))
read_tool_names v = none

pub record AgentSummary : Type 0 where
  pub agent_id : Text
  pub kind : Option Text
  pub capabilities : List Text
  pub liveness : AgentLiveness

unfoldable pub project_agent_summary : Value → Value → AgentSummary
project_agent_summary agent liveness = record {
  agent_id = get_or (read_string (get (codes "agent_id") agent)) [];
  kind = read_string (get (codes "kind") agent);
  capabilities = read_string_array (get (codes "capabilities") agent);
  liveness = read_liveness liveness;
}

pub record AgentLoad : Type 0 where
  pub running_invocations : Option WireNumber
  pub max_invocations : Option WireNumber

pub record AgentDetail : Type 0 where
  pub agent_id : Text
  pub kind : Option Text
  pub status : Option Text
  pub capabilities : List Text
  pub liveness : AgentLiveness
  pub workspace : Option WorkspaceContext
  pub load : Option AgentLoad
  pub last_seen_ts : Option WireNumber

abbrev pub workspace_of : Option Text → Option Text → Option Text → Option WorkspaceContext
workspace_of none none none = none
workspace_of cwd project commit =
    some (record { cwd = cwd; project_id = project; git_commit = commit })

unfoldable pub project_workspace : Value → Option WorkspaceContext
project_workspace w =
    workspace_of (read_string (get (codes "cwd") w)) (read_string (get (codes "project_id") w))
      (read_string (get (codes "git_commit") w))

abbrev pub load_of : Option WireNumber → Option WireNumber → Option AgentLoad
load_of none none = none
load_of running limit = some (record { running_invocations = running; max_invocations = limit })

unfoldable pub project_load : Value → Option AgentLoad
project_load l =
    load_of (read_number (get (codes "running_invocations") l))
      (read_number (get (codes "max_invocations") l))

unfoldable pub project_agent_detail : Value → Value → AgentDetail
project_agent_detail agent liveness = record {
  agent_id = get_or (read_string (get (codes "agent_id") agent)) [];
  kind = read_string (get (codes "kind") agent);
  status = read_string (get (codes "status") agent);
  capabilities = read_string_array (get (codes "capabilities") agent);
  liveness = read_liveness liveness;
  workspace = project_workspace (get (codes "workspace") agent);
  load = project_load (get (codes "load") agent);
  last_seen_ts = read_number (get (codes "last_seen_ts") agent);
}

-- `new Set(…)`, in the order of the first occurrences.
abbrev pub distinct : List Text → List Text → List Text
distinct seen [] = []
distinct seen (s ∷ ss) =
    let new = s ∷ distinct (s ∷ seen) ss in
    let rest = distinct seen ss in if any (eq_text s) seen then rest else new

abbrev pub names_published : Value → List Text
names_published r = distinct [] (
    map (λ (t : PublishedTool). t.name) (project_tools (get (codes "schemas") r))
    ++ get_or (read_tool_names (get (codes "tools") r)) [])

unfoldable pub published_tool_names : Value → List Text
published_tool_names (obj fs) = names_published (obj fs)
published_tool_names v = []

-- `{ ...a, ...b }`: a key of the second record takes its place in the first.
abbrev pub set_field : Text → Value → Fields → Fields
set_field key v end = field key v end
set_field key v (field k u fs) =
    let rest = set_field key v fs in if eq_text k key then field k v fs else field k u rest

abbrev pub spread_fields : Fields → Fields → Fields
spread_fields fs end = fs
spread_fields fs (field k v gs) = spread_fields (set_field k v fs) gs

unfoldable pub spread : Value → Value → Value
spread (obj fs) (obj gs) = obj (spread_fields fs gs)
spread v w = v
