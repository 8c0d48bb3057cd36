-- ===== src/Toolbelt/Session/Params.antt =====
-- packages/toolbelt/src/correlation.ts, and of session.ts what a session sends and reads: the
-- parameters of the registration, its reply, the liveness and the descriptor.
use mx_loom.Common.{ℕ, Bool, false, Option, none, some, List, [], ◌∷◌, if◌then◌else◌}
use mx_loom.Text.{Text, codes, eq_text, is_empty}
use mx_loom.Json.{
  Value, undefined, null, num, str, arr, obj, Items, nil, cons, Fields, field, end, get, has_own,
  elements,
}
use mx_loom.Json.Number.{WireNumber}
use mx_loom.Tasks.Action.{optional, text_value}
use mx_loom.Tasks.Handlers.{texts_value}
use mx_loom.Toolbelt.Plan.{TaskCursor}
use mx_loom.Toolbelt.Descriptor.{SessionDescriptor, assert_session_descriptor, descriptor_value}

unfoldable pub correlation_param_key : Text
unfolding codes
correlation_param_key = codes "correlation_id"

-- `{ ...fields, [key]: v }`, for a key that is not among them.
abbrev pub with_field : Fields → Text → Value → Fields
with_field end key v = field key v end
with_field (field k u fs) key v = field k u (with_field fs key v)

-- `withCorrelationParam`.
unfoldable pub with_correlation_param : Value → Text → Value
with_correlation_param undefined id = obj (field correlation_param_key (str id) end)
with_correlation_param null id = obj (field correlation_param_key (str id) end)
with_correlation_param (obj fs) id =
    if has_own correlation_param_key fs
    then obj fs
    else obj (with_field fs correlation_param_key (str id))
with_correlation_param params id = params

pub record WorkspaceContext : Type 0 where
  pub cwd : Option Text
  pub project_id : Option Text
  pub git_commit : Option Text

-- The client is given or built, and `heartbeat` is false only where the option is. The scheduler and
-- the sink of the debug lines are left out.
pub record MxSessionOptions : Type 0 where
  pub injected_client : Bool
  pub owns_client : Option Bool
  pub room : Option Text
  pub kind : Option Text
  pub capabilities : Option (List Text)
  pub tools : Option (List Value)
  pub workspace : Option WorkspaceContext
  pub max_invocations : Option WireNumber
  pub correlation_id : Option Text
  pub correlation_param_methods : Option (List Text)
  pub heartbeat_interval_ms : Option ℕ
  pub heartbeat : Bool
  pub heartbeat_method : Option Text
  pub deregister_method : Option Text

abbrev pub items : List Value → Items
items [] = nil
items (v ∷ vs) = cons v (items vs)

abbrev pub values_value : Option (List Value) → Option Value
values_value none = none
values_value (some vs) = some (arr (items vs))

abbrev pub number_value : Option WireNumber → Option Value
number_value none = none
number_value (some n) = some (num n)

abbrev pub workspace_fields : Option WorkspaceContext → Fields → Fields
workspace_fields none fs = fs
workspace_fields (some w) fs = optional (codes "cwd") (text_value w.cwd) (
    optional (codes "project_id") (text_value w.project_id)
      (optional (codes "git_commit") (text_value w.git_commit) fs))

abbrev pub register_fields : MxSessionOptions → Fields
register_fields o = optional (codes "room") (text_value o.room) (
    optional (codes "kind") (text_value o.kind) (
      optional (codes "capabilities") (texts_value o.capabilities) (
        optional (codes "tools") (values_value o.tools) (
          workspace_fields o.workspace
            (optional (codes "max_invocations") (number_value o.max_invocations) end)))))

unfoldable pub build_register_params : MxSessionOptions → Value
build_register_params o = obj (register_fields o)

-- An agent's record, with the id that makes it usable.
pub record AgentState : Type 0 where
  pub agent_id : Text
  pub fields : Fields

abbrev pub agent_with : Value → Fields → Option AgentState
agent_with (str s) fs = if is_empty s then none else some (record { agent_id = s; fields = fs })
agent_with id fs = none

-- `none` is the throw of `TransportError('protocol')`.
unfoldable pub parse_agent_state : Value → Option AgentState
parse_agent_state (obj fs) = agent_with (get (codes "agent_id") (obj fs)) fs
parse_agent_state v = none

pub data AgentLiveness : Type 0 where
  live_active live_stale live_offline : AgentLiveness

unfoldable pub read_liveness : Value → AgentLiveness
read_liveness (str s) =
    if eq_text s (codes "active")
    then live_active
    else if eq_text s (codes "stale")
    then live_stale
    else live_offline
read_liveness v = live_offline

-- `agent.agent_id !== agentId`, turned around.
abbrev pub is_id : Text → Value → Bool
is_id id (str s) = eq_text s id
is_id id v = false

-- The first row of the agent decides; a row that is no object has no agent.
unfoldable pub liveness_in : List Value → Text → AgentLiveness
unfolding read_liveness
liveness_in [] id = live_offline
liveness_in (row ∷ rows) id =
    let rest = liveness_in rows id in
    if is_id id (get (codes "agent_id") (get (codes "agent") row))
    then read_liveness (get (codes "liveness") row)
    else rest

unfoldable pub liveness_for : Value → Text → AgentLiveness
unfolding liveness_in
liveness_for (arr rows) id = liveness_in (elements rows) id
liveness_for v id = live_offline

-- `typeof kind === 'string' && kind !== ''`.
unfoldable pub nonempty_kind : Value → Option Text
nonempty_kind (str s) = if is_empty s then none else some s
nonempty_kind v = none

-- What `describe` gives: it throws without an agent, without a room, or where the validator does.
pub data Described : Type 0 where
  not_registered no_room refused_descriptor : Described
  described : SessionDescriptor → Described

abbrev pub described_as : Option SessionDescriptor → Described
described_as none = refused_descriptor
described_as (some d) = described d

-- The record that goes through the validator.
unfoldable pub candidate : AgentState → Text → Text → Option TaskCursor → SessionDescriptor
candidate agent room correlation cursor = record {
  agent_id = agent.agent_id;
  room = room;
  correlation_id = correlation;
  kind = nonempty_kind (get (codes "kind") (obj agent.fields));
  cursor = cursor;
}

unfoldable pub describe : Option AgentState → Option Text → Text → Option TaskCursor → Described
unfolding candidate
describe none room correlation cursor = not_registered
describe (some agent) none correlation cursor = no_room
describe (some agent) (some room) correlation cursor =
    if is_empty room
    then no_room
    else described_as
        (assert_session_descriptor (descriptor_value (candidate agent room correlation cursor)))
