-- ===== src/Tests/Lives.antt =====
-- Runs of packages/toolbelt/src/session.ts and resume.ts at single inputs, and the theorems applied.
use mx_loom.Common.{bit, ◌≡◌, refl, true, false, none, some, List, [], ◌∷◌, ◌++◌}
use mx_loom.Text.{Text, codes, eq_text}
use mx_loom.Json.{Value, null, str, obj, nil, arr, field, end, get, get_field}
use mx_loom.Json.Number.{natural}
use mx_loom.Toolbelt.Transport.{timeout, transport_error, rejected, resolved, Peer}
use mx_loom.Toolbelt.Guards.{no_credential, is_credential_key, is_credential_value}
use mx_loom.Toolbelt.Descriptor.{
  SessionDescriptor, assert_session_descriptor, descriptor_value, is_version, read_nonempty_string,
  read_kind, read_cursor,
}
use mx_loom.Toolbelt.Session.Params.{
  MxSessionOptions, AgentState, describe, candidate, described, parse_agent_state, nonempty_kind,
}
use mx_loom.Toolbelt.Session.Steps.{
  active, closed, MxSession, SessionEvent, register_settled, tick_due, tick_over, close_called,
  deregister_settled, client_ended, config_of, open_session, step, run, live_session,
}
use mx_loom.Toolbelt.Session.Frugal.{ticks, count, ends_client}
use mx_loom.Toolbelt.Session.Closing.{close_silences}
use mx_loom.Toolbelt.Session.Ending.{close_ends}
use mx_loom.Toolbelt.Session.Failed.{asks, succeeds, failed_session_dead}
use mx_loom.Toolbelt.Session.Correlation.{all_stamped, lifecycle_correlated}
use mx_loom.Toolbelt.Session.Resume.{Beat, due, over, ResumeOptions, resume_options}
use mx_loom.Toolbelt.Session.Survives.{restart_keeps}

abbrev options : MxSessionOptions
options = record {
  injected_client = false;
  owns_client = none;
  room = some (codes "!plan");
  kind = some (codes "coder");
  capabilities = some [];
  tools = none;
  workspace = some (record { cwd = some (codes "/w"); project_id = none; git_commit = none });
  max_invocations = some (natural 2);
  correlation_id = none;
  correlation_param_methods = some (codes "agent.register" ∷ []);
  heartbeat_interval_ms = none;
  heartbeat = true;
  heartbeat_method = none;
  deregister_method = some (codes "agent.leave");
}

abbrev fresh : Text
fresh = codes "corr_1"

abbrev agent_reply : Value
agent_reply = obj (
    field (codes "agent_id") (str (codes "agent-1"))
      (field (codes "kind") (str (codes "coder")) end))

abbrev opening_events : List SessionEvent
opening_events = register_settled (resolved agent_reply) ∷ tick_due ∷ []

abbrev opened_session : MxSession
opened_session = (live_session options fresh opening_events).0

abbrev whole_life : List SessionEvent
whole_life =
    opening_events
    ++ (close_called
        ∷ tick_due
        ∷ close_called
        ∷ deregister_settled (rejected (transport_error timeout))
        ∷ client_ended (resolved tt)
        ∷ [])

is_opened : opened_session.state ≡ active
unfolding live_session open_session run step parse_agent_state get get_field eq_text codes config_of
is_opened = refl

close_silences_example : count ticks (run opened_session (close_called ∷ tick_due ∷ [])).1 ≡ 0
close_silences_example = close_silences options fresh opening_events (tick_due ∷ []) is_opened

close_ends_example :
    (run opened_session (
      close_called
      ∷ tick_over (resolved tt)
      ∷ deregister_settled (rejected (transport_error timeout))
      ∷ close_called
      ∷ client_ended (resolved tt)
      ∷ [])).0.state
    ≡ closed
close_ends_example =
    close_ends opened_session (rejected (transport_error timeout)) (tick_over (resolved tt) ∷ [])
      (close_called ∷ []) [] is_opened refl refl refl

failed_session_dead_example :
    let (s, effects) =
      live_session options fresh
        (register_settled (resolved null) ∷ tick_due ∷ close_called ∷ []) in
    (count asks effects ≡ 1)
    × (s.heartbeat ≡ none)
    × (count succeeds effects ≡ 0)
    × (count ends_client effects ≡ bit (config_of options fresh).owns_client)
unfolding parse_agent_state
failed_session_dead_example =
    failed_session_dead options fresh (resolved null) (tick_due ∷ close_called ∷ []) refl

lifecycle_correlated_example :
    all_stamped (config_of options fresh) (live_session options fresh whole_life).1 ≡ true
lifecycle_correlated_example = lifecycle_correlated options fresh whole_life

abbrev agent : AgentState
agent = record {
  agent_id = codes "agent-1";
  fields =
      field (codes "agent_id") (str (codes "agent-1"))
        (field (codes "kind") (str (codes "coder")) end);
}

abbrev left_behind : SessionDescriptor
left_behind = record {
  agent_id = codes "agent-1";
  room = codes "!plan";
  correlation_id = codes "corr_1";
  kind = some (codes "coder");
  cursor = none;
}

abbrev restart_options : ResumeOptions
restart_options = record {
  injected_client = false;
  owns_client = none;
  kind = none;
  capabilities = none;
  tools = none;
  workspace = none;
  max_invocations = some (natural 2);
  heartbeat_interval_ms = none;
  heartbeat = true;
}

is_described :
    describe (some agent) opened_session.config.room opened_session.config.correlation_id none
    ≡ described left_behind
unfolding live_session open_session run step config_of describe candidate nonempty_kind
    assert_session_descriptor get get_field eq_text codes no_credential is_credential_key
    is_credential_value is_version read_nonempty_string read_kind read_cursor descriptor_value
    parse_agent_state
is_described = refl

restart_keeps_example :
    let c = config_of (resume_options restart_options left_behind) fresh in
    (assert_session_descriptor (descriptor_value left_behind) ≡ some left_behind)
    × (c.room ≡ opened_session.config.room)
    × (c.correlation_id ≡ opened_session.config.correlation_id)
    × (left_behind.agent_id ≡ agent.agent_id)
    × (left_behind.kind ≡ nonempty_kind (get (codes "kind") (obj agent.fields)))
    × (left_behind.cursor ≡ none)
restart_keeps_example =
    restart_keeps opened_session agent none left_behind restart_options fresh is_described

abbrev daemon : Peer
daemon [] method params = resolved agent_reply
daemon sent method params = resolved (obj (field (codes "tasks") (arr nil) end))

-- Two ticks, the first of which is answered.
abbrev beats : List Beat
beats = due ∷ over (resolved tt) ∷ due ∷ []
