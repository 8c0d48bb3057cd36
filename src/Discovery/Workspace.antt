-- ===== src/Discovery/Workspace.antt =====
-- packages/registry/src/handlers/workspace-status.ts, and workspace-projection.ts: the room, the
-- agents and the project of the workspace.
pub mod Laws
use mx_loom.Common.{Bool, map, Option, none, some, List, [], ◌∷◌, get_or, ◌or_else◌}
use mx_loom.Text.{Text, codes}
use mx_loom.Json.{Value, undefined, bool, str, obj, field, end, get, as_record, read_string}
use mx_loom.Envelope.{ToolResult, ok_result}
use mx_loom.Fault.{empty_audit_ref, fault_to_result}
use mx_loom.Daemon.{Reply, resolved, rejected, History, Deps, Env, call}
use mx_loom.Tasks.Handlers.{usable_room}
use mx_loom.Discovery.{entries_in}
use mx_loom.Discovery.Rows.{AgentListRow, AgentSummary, project_agent_summary}

pub record WorkspaceMeta : Type 0 where
  pub room_id : Option Text
  pub name : Option Text
  pub canonical_alias : Option Text
  pub encrypted : Option Bool

pub record ProjectContext : Type 0 where
  pub project_id : Option Text
  pub cwd : Option Text
  pub git_commit : Option Text

unfoldable pub read_boolean : Value → Option Bool
read_boolean (bool b) = some b
read_boolean _ = none

unfoldable pub project_workspace_meta : Value → WorkspaceMeta
project_workspace_meta raw =
    let w = get_or (as_record raw) (obj end) in
    record {
      room_id = read_string (get (codes "room_id") w);
      name = read_string (get (codes "name") w);
      canonical_alias = read_string (get (codes "canonical_alias") w);
      encrypted = read_boolean (get (codes "encrypted") w);
    }

abbrev pub some_fields : Option Text → Option Text → Option Text → Option ProjectContext
some_fields none none none = none
some_fields project_id cwd git_commit =
    some (record { project_id = project_id; cwd = cwd; git_commit = git_commit })

abbrev pub fields_of : Option Value → Option ProjectContext
fields_of none = none
fields_of (some w) =
    some_fields (read_string (get (codes "project_id") w)) (read_string (get (codes "cwd") w))
      (read_string (get (codes "git_commit") w))

unfoldable pub read_project_fields : Value → Option ProjectContext
read_project_fields x = fields_of (as_record x)

abbrev pub from_rows : List AgentListRow → Option ProjectContext
from_rows [] = none
from_rows (row ∷ rows) =
    read_project_fields (get (codes "workspace") row.agent) or_else from_rows rows

abbrev pub from_status : Option Value → Option ProjectContext
from_status none = none
from_status (some s) =
    read_project_fields (get (codes "project") s)
    or_else read_project_fields (get (codes "workspace") s)

unfoldable pub derive_project : Value → List AgentListRow → Option ProjectContext
derive_project status rows = from_status (as_record status) or_else from_rows rows

pub record WorkspaceStatusResult : Type 0 where
  pub workspace : WorkspaceMeta
  pub agents : List AgentSummary
  pub project : Option ProjectContext

abbrev pub status_params : Option Text → Value
status_params none = undefined
status_params (some room) = obj (field (codes "room") (str room) end)

-- A fault of `agent.list` is tolerated.
unfoldable pub status_reply : Env → Reply → History → ToolResult WorkspaceStatusResult × History
status_reply env (rejected err) h = (fault_to_result err empty_audit_ref, h)
status_reply env (resolved status) h =
    let (listed, h') = call env (codes "agent.list") undefined h in
    let rows = entries_in listed in
    (
      ok_result
          (record {
            workspace = project_workspace_meta status;
            agents = map (λ (e : AgentListRow). project_agent_summary e.agent e.liveness) rows;
            project = derive_project status rows;
          })
          empty_audit_ref,
      h',
    )

unfoldable pub mx_workspace_status : Deps → History → ToolResult WorkspaceStatusResult × History
unfolding status_reply
mx_workspace_status deps h =
    let (reply, h') =
      call deps.env (codes "workspace.status") (status_params (usable_room deps.room)) h in
    status_reply deps.env reply h'
