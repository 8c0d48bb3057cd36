-- ===== src/Discovery.antt =====
-- packages/registry/src/handlers/find-agents.ts and describe-agent.ts: who is in the workspace, and
-- what one agent publishes.
pub mod Rows
pub mod Laws
pub mod Workspace
use mx_loom.Common.{
  Bool, true, false, ◌&&◌, any, map, Option, none, some, List, [], ◌∷◌, ◌++◌, get_or, if◌then◌else◌,
}
use mx_loom.Text.{Text, codes, eq_text}
use mx_loom.Json.{
  Value, undefined, str, arr, obj, Fields, field, end, get, as_record, read_string,
  read_string_array, elements,
}
use mx_loom.Errors.{known, not_found}
use mx_loom.Envelope.{ToolResult, ok_result}
use mx_loom.Invocation.Failure.{failure_result}
use mx_loom.Fault.{empty_audit_ref, fault_to_result}
use mx_loom.Daemon.{Reply, resolved, rejected, History, Env, call}
use mx_loom.Delegate.{tools_params}
use mx_loom.Delegate.Tools.{PublishedTool, published_tools}
use mx_loom.Toolbelt.Session.Params.{
  AgentLiveness, live_active, live_stale, live_offline, read_liveness,
}
use Rows.{
  AgentListRow, AgentSummary, AgentDetail, read_list_row, read_tool_names, published_tool_names,
  project_agent_summary, project_agent_detail, spread,
}

pub record FindAgentsInput : Type 0 where
  pub capability : Option Text
  pub tool : Option Text
  pub liveness : Option AgentLiveness

abbrev pub listed_row : Option AgentListRow → List AgentListRow
listed_row none = []
listed_row (some row) = row ∷ []

abbrev pub read_rows : List Value → List AgentListRow
read_rows [] = []
read_rows (v ∷ vs) = listed_row (read_list_row v) ++ read_rows vs

-- A list that is none has no rows.
unfoldable pub list_entries : Value → List AgentListRow
list_entries (arr xs) = read_rows (elements xs)
list_entries v = []

abbrev pub same_liveness : AgentLiveness → AgentLiveness → Bool
same_liveness live_active live_active = true
same_liveness live_stale live_stale = true
same_liveness live_offline live_offline = true
same_liveness _ _ = false

abbrev pub matches_liveness : AgentListRow → Option AgentLiveness → Bool
matches_liveness e none = true
matches_liveness e (some want) = same_liveness (read_liveness e.liveness) want

abbrev pub matches_capability : AgentListRow → Option Text → Bool
matches_capability e none = true
matches_capability e (some want) =
    any (λ c. eq_text c want) (read_string_array (get (codes "capabilities") e.agent))

unfoldable pub cheap_matches : FindAgentsInput → List AgentListRow → List AgentListRow
cheap_matches input [] = []
cheap_matches input (e ∷ es) =
    let rest = cheap_matches input es in
    if matches_liveness e input.liveness && matches_capability e input.capability
    then e ∷ rest
    else rest

-- A fault is no match.
abbrev pub names_in : Reply → List Text
names_in (resolved raw) = published_tool_names raw
names_in (rejected err) = []

abbrev pub resolve_tool_names : Env → Option Text → History → List Text × History
resolve_tool_names env none h = ([], h)
resolve_tool_names env (some id) h =
    let (reply, h') = call env (codes "agent.tools") (tools_params id) h in (names_in reply, h')

abbrev pub names_of : Env → AgentListRow → Option (List Text) → History → List Text × History
names_of env e (some names) h = (names, h)
names_of env e none h = resolve_tool_names env (read_string (get (codes "agent_id") e.agent)) h

unfoldable pub filter_by_tool :
    Env → Text → List AgentListRow → History → List AgentListRow × History
filter_by_tool env tool [] h = ([], h)
filter_by_tool env tool (e ∷ es) h =
    let (names, h') = names_of env e (read_tool_names (get (codes "tools") e.agent)) h in
    let (rest, h'') = filter_by_tool env tool es h' in
    ((if any (λ n. eq_text n tool) names then e ∷ rest else rest), h'')

abbrev pub filtered : Env → Option Text → List AgentListRow → History → List AgentListRow × History
filtered env none es h = (es, h)
filtered env (some tool) es h = filter_by_tool env tool es h

abbrev pub find_reply :
    Env → FindAgentsInput → Reply → History → ToolResult (List AgentSummary) × History
find_reply env input (rejected err) h = (fault_to_result err empty_audit_ref, h)
find_reply env input (resolved raw) h =
    let (es, h') = filtered env input.tool (cheap_matches input (list_entries raw)) h in
    (
      ok_result (map (λ (e : AgentListRow). project_agent_summary e.agent e.liveness) es)
          empty_audit_ref,
      h',
    )

unfoldable pub mx_find_agents :
    FindAgentsInput → Env → History → ToolResult (List AgentSummary) × History
mx_find_agents input env h =
    let (reply, h') = call env (codes "agent.list") undefined h in find_reply env input reply h'

pub record DescribeAgentResult : Type 0 where
  pub agent : AgentDetail
  pub tools : List PublishedTool

abbrev pub is_agent : Text → Option Text → Bool
is_agent id none = false
is_agent id (some s) = eq_text s id

unfoldable pub find_list_entry : Text → List AgentListRow → Option AgentListRow
find_list_entry id [] = none
find_list_entry id (e ∷ es) =
    let rest = find_list_entry id es in
    if is_agent id (read_string (get (codes "agent_id") e.agent)) then some e else rest

-- A fault of `agent.list` is tolerated.
abbrev pub entries_in : Reply → List AgentListRow
entries_in (resolved raw) = list_entries raw
entries_in (rejected err) = []

abbrev pub described_agent :
    Value → Option AgentListRow → Option Text → ToolResult DescribeAgentResult
described_agent raw none none = failure_result (known not_found) empty_audit_ref
described_agent raw none (some id) =
    ok_result (record { agent = project_agent_detail raw undefined; tools = published_tools raw })
      empty_audit_ref
described_agent raw (some e) id =
    ok_result
      (record {
        agent = project_agent_detail (spread (get_or (as_record raw) (obj end)) e.agent) e.liveness;
        tools = published_tools raw;
      })
      empty_audit_ref

abbrev pub describe_reply : Env → Text → Reply → History → ToolResult DescribeAgentResult × History
describe_reply env id (rejected err) h = (fault_to_result err empty_audit_ref, h)
describe_reply env id (resolved raw) h =
    let (listed, h') = call env (codes "agent.list") undefined h in
    (
      described_agent raw (find_list_entry id (entries_in listed))
          (read_string (get (codes "agent_id") raw)),
      h',
    )

unfoldable pub mx_describe_agent : Text → Env → History → ToolResult DescribeAgentResult × History
mx_describe_agent id env h =
    let (reply, h') = call env (codes "agent.tools") (tools_params id) h in
    describe_reply env id reply h'
