-- ===== src/Discovery/Laws.antt =====
-- What discovery finds, and what it asks for.
use mx_loom.Common.{
  ◌≡◌, refl, sym, ◌∙◌, Bool, true, false, ◌&&◌, any, map, Option, none, some, List, [], ◌∷◌, get_or,
  if◌then◌else◌, and_split, and_intro,
}
use mx_loom.Text.{Text, codes, eq_text}
use mx_loom.Json.{Value, undefined, get, read_string, read_string_array}
use mx_loom.Errors.{known, not_found}
use mx_loom.Envelope.{ok, ToolResult, ok_result}
use mx_loom.Invocation.Failure.{failure_result}
use mx_loom.Fault.{empty_audit_ref, fault_to_result}
use mx_loom.Daemon.{Reply, resolved, rejected, Event, called, History, Env}
use mx_loom.Daemon.Traces.{Extends, Extends-refl, Extends-cons, Extends-trans}
use mx_loom.Delegate.{tools_params}
use mx_loom.Delegate.Tools.{published_tools}
use mx_loom.Toolbelt.Session.Params.{AgentLiveness, live_offline, read_liveness}
use mx_loom.Discovery.{
  FindAgentsInput, list_entries, same_liveness, matches_liveness, matches_capability, cheap_matches,
  names_of, resolve_tool_names, filter_by_tool, filtered, find_reply, mx_find_agents,
  DescribeAgentResult, find_list_entry, entries_in, described_agent, describe_reply,
  mx_describe_agent,
}
use mx_loom.Discovery.Rows.{
  project_agent_detail, AgentListRow, AgentSummary, read_tool_names, project_agent_summary,
}

-- What the input asks for, looked up in what is returned.
abbrev pub live_as : Option AgentLiveness → AgentLiveness → Bool
live_as none l = true
live_as (some want) l = same_liveness l want

abbrev pub capable_of : Option Text → List Text → Bool
capable_of none cs = true
capable_of (some want) cs = any (λ c. eq_text c want) cs

abbrev pub wanted : FindAgentsInput → AgentSummary → Bool
wanted input a = live_as input.liveness a.liveness && capable_of input.capability a.capabilities

abbrev pub all_wanted : FindAgentsInput → List AgentSummary → Bool
all_wanted input [] = true
all_wanted input (a ∷ rest) = wanted input a && all_wanted input rest

abbrev pub AsksTools : Event → Type 0
AsksTools (called method params) = method ≡ codes "agent.tools"
AsksTools _ = true ≡ false

abbrev summary : AgentListRow → AgentSummary
summary e = project_agent_summary e.agent e.liveness

row_wanted :
    (input : FindAgentsInput) (e : AgentListRow)
    → (matches_liveness e input.liveness && matches_capability e input.capability)
      ≡ wanted input (summary e)
unfolding project_agent_summary
row_wanted input e = by_filters input.liveness input.capability
  where
    by_filters :
        (l : Option AgentLiveness) (c : Option Text)
        → (matches_liveness e l && matches_capability e c) ≡ (
            live_as l (read_liveness e.liveness)
            && capable_of c (read_string_array (get (codes "capabilities") e.agent)))
    by_filters none none = refl
    by_filters none (some c) = refl
    by_filters (some l) none = refl
    by_filters (some l) (some c) = refl

kept-wanted :
    (input : FindAgentsInput) (b : Bool) (e : AgentListRow) (es : List AgentListRow)
    → (b ≡ true → wanted input (summary e) ≡ true)
    → all_wanted input (map summary es) ≡ true
    → all_wanted input (map summary (if b then e ∷ es else es)) ≡ true
kept-wanted input true e es p q = and_intro (p refl) q
kept-wanted input false e es p q = q

cheap-wanted :
    (input : FindAgentsInput) (es : List AgentListRow)
    → all_wanted input (map summary (cheap_matches input es)) ≡ true
unfolding cheap_matches
cheap-wanted input [] = refl
cheap-wanted input (e ∷ es) =
    kept-wanted input (matches_liveness e input.liveness && matches_capability e input.capability) e
      (cheap_matches input es) (λ m. sym (row_wanted input e) ∙ m) (cheap-wanted input es)

module _ (env : Env) where
  names-Extends :
      (e : AgentListRow) (names : Option (List Text)) (h : History)
      → Extends AsksTools h (names_of env e names h).1
  names-Extends e (some names) h = Extends-refl h
  names-Extends e none h = asked (read_string (get (codes "agent_id") e.agent))
    where
      asked : (id : Option Text) → Extends AsksTools h (resolve_tool_names env id h).1
      asked none = Extends-refl h
      asked (some id) =
          Extends-cons (called (codes "agent.tools") (tools_params id)) refl (Extends-refl h)

  filter-wanted :
      (input : FindAgentsInput) (tool : Text) (es : List AgentListRow) (h : History)
      → all_wanted input (map summary es) ≡ true
      → (all_wanted input (map summary (filter_by_tool env tool es h).0) ≡ true)
        × Extends AsksTools h (filter_by_tool env tool es h).1
  unfolding filter_by_tool
  filter-wanted input tool [] h p = (refl, Extends-refl h)
  filter-wanted input tool (e ∷ es) h p =
      let r = names_of env e (read_tool_names (get (codes "tools") e.agent)) h in
      let (w, ws) = and_split (wanted input (summary e)) (all_wanted input (map summary es)) p in
      let (q, x) = filter-wanted input tool es r.1 ws in
      (
        kept-wanted input (any (λ n. eq_text n tool) r.0) e (filter_by_tool env tool es r.1).0
            (λ _. w) q,
        Extends-trans (names-Extends e (read_tool_names (get (codes "tools") e.agent)) h) x,
      )

  filtered-wanted :
      (input : FindAgentsInput) (tool : Option Text) (es : List AgentListRow) (h : History)
      → all_wanted input (map summary es) ≡ true
      → (all_wanted input (map summary (filtered env tool es h).0) ≡ true)
        × Extends AsksTools h (filtered env tool es h).1
  filtered-wanted input none es h p = (p, Extends-refl h)
  filtered-wanted input (some tool) es h p = filter-wanted input tool es h p

-- By the reply to `agent.list`.
abbrev pub Finds :
    FindAgentsInput → Reply → History → ToolResult (List AgentSummary) × History → Type 0
Finds input (rejected err) h r = (r.0 ≡ fault_to_result err empty_audit_ref) × (r.1 ≡ h)
Finds input (resolved raw) h r =
    (r.0.status ≡ ok) × (all_wanted input (get_or r.0.result []) ≡ true) × Extends AsksTools h r.1

find_reply-Finds :
    (env : Env) (input : FindAgentsInput) (reply : Reply) (h : History)
    → Finds input reply h (find_reply env input reply h)
unfolding ok_result
find_reply-Finds env input (rejected err) h = (refl, refl)
find_reply-Finds env input (resolved raw) h =
    let es = cheap_matches input (list_entries raw) in
    let (p, x) =
      filtered-wanted env input input.tool es h (cheap-wanted input (list_entries raw)) in
    (refl, p, x)

-- A search lists the agents in one call. If that is rejected, the result is its fault; otherwise it is
-- `ok`, each agent in it has the liveness and the capability that were asked for, where any were, and
-- all that is sent besides are requests for the tools of an agent, whose faults do not show.
pub mx_find_agents-Finds :
    (input : FindAgentsInput) (env : Env) (h : History)
    → Finds input
        (env.answer h (codes "agent.list") undefined)
        (called (codes "agent.list") undefined ∷ h)
        (mx_find_agents input env h)
unfolding mx_find_agents
mx_find_agents-Finds input env h = find_reply-Finds env input _ _

abbrev pub listed : Option DescribeAgentResult → List DescribeAgentResult
listed none = []
listed (some d) = d ∷ []

-- By the reply to `agent.tools`, and whether the list has the agent.
abbrev pub DescribedAs :
    Value → Option AgentListRow → Option Text → ToolResult DescribeAgentResult → Type 0
DescribedAs raw none none r = r ≡ failure_result (known not_found) empty_audit_ref
DescribedAs raw none (some id) r =
    (r.status ≡ ok)
    × (map (λ (d : DescribeAgentResult). d.tools) (listed r.result) ≡ published_tools raw ∷ [])
    × (map (λ (d : DescribeAgentResult). d.agent.liveness) (listed r.result) ≡ live_offline ∷ [])
DescribedAs raw (some e) id r =
    (r.status ≡ ok)
    × (map (λ (d : DescribeAgentResult). d.tools) (listed r.result) ≡ published_tools raw ∷ [])
    × (map (λ (d : DescribeAgentResult). d.agent.liveness) (listed r.result)
        ≡ read_liveness e.liveness ∷ [])

abbrev pub Describes :
    Text → Env → Reply → History → ToolResult DescribeAgentResult × History → Type 0
Describes id env (rejected err) h r = (r.0 ≡ fault_to_result err empty_audit_ref) × (r.1 ≡ h)
Describes id env (resolved raw) h r =
    DescribedAs raw (find_list_entry id (entries_in (env.answer h (codes "agent.list") undefined)))
      (read_string (get (codes "agent_id") raw)) r.0
    × (r.1 ≡ called (codes "agent.list") undefined ∷ h)

described-DescribedAs :
    (raw : Value) (e : Option AgentListRow) (id : Option Text)
    → DescribedAs raw e id (described_agent raw e id)
unfolding ok_result project_agent_detail read_liveness
described-DescribedAs raw none none = refl
described-DescribedAs raw none (some id) = (refl, refl, refl)
described-DescribedAs raw (some e) id = (refl, refl, refl)

describe_reply-Describes :
    (id : Text) (env : Env) (reply : Reply) (h : History)
    → Describes id env reply h (describe_reply env id reply h)
describe_reply-Describes id env (rejected err) h = (refl, refl)
describe_reply-Describes id env (resolved raw) h = (described-DescribedAs raw _ _, refl)

-- A description asks for the tools of the agent, and if that is rejected, its fault is the result.
-- Otherwise it lists the agents, tolerating a fault, and is `not_found` if neither reply knows the
-- agent; else it has the tools that are published and the liveness of the list's row, or `offline`
-- without one.
pub mx_describe_agent-Describes :
    (id : Text) (env : Env) (h : History)
    → Describes id env
        (env.answer h (codes "agent.tools") (tools_params id))
        (called (codes "agent.tools") (tools_params id) ∷ h)
        (mx_describe_agent id env h)
unfolding mx_describe_agent
mx_describe_agent-Describes id env h = describe_reply-Describes id env _ _
