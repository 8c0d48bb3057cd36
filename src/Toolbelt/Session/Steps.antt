-- ===== src/Toolbelt/Session/Steps.antt =====
-- packages/toolbelt/src/session.ts: the life of a session. What happens to it is an event, and one
-- event is handled at a time.
use mx_loom.Common.{
  ℕ, Bool, not, any, Option, none, some, List, [], ◌∷◌, ◌++◌, if◌then◌else◌, get_or,
}
use mx_loom.Text.{Text, codes, eq_text}
use mx_loom.Json.{Value, str, arr, obj, nil, field, end}
use mx_loom.Toolbelt.Transport.{protocol, Thrown, transport_error, Outcome, resolved, rejected}
use mx_loom.Toolbelt.Heartbeat.{
  Heartbeat, HeartbeatEvent, fired, tick_settled, halted, HeartbeatEffect, tick_started,
  notified_ok, notified_code, start_heartbeat,
}
use mx_loom.Toolbelt.Heartbeat
use mx_loom.Toolbelt.Session.Params.{
  MxSessionOptions, AgentState, with_correlation_param, build_register_params, parse_agent_state,
}

pub data SessionState : Type 0 where
  opening active closing closed : SessionState

-- What the session's own code waits for: nothing, or the settling of the registration, of the end of
-- the client after a failed one, of the deregistration, or of the end of the client in `close`.
pub data Awaits : Type 0 where
  idle registration : Awaits
  dropping : Thrown → Awaits
  deregistration client_end : Awaits

pub record SessionConfig : Type 0 where
  pub owns_client : Bool
  pub correlation_id : Text
  pub correlation_param_methods : List Text
  pub register_params : Value
  pub heartbeat_enabled : Bool
  pub heartbeat_interval_ms : ℕ
  pub heartbeat_method : Text
  pub deregister_method : Option Text
  pub room : Option Text

-- A heartbeat that was stopped stays here, with its flag set; the code forgets its handle.
pub record MxSession : Type 0 where
  pub config : SessionConfig
  pub state : SessionState
  pub agent : Option AgentState
  pub heartbeat : Option Heartbeat
  pub awaits : Awaits

-- Which code asked.
pub data Asker : Type 0 where
  by_start by_owner by_tick by_close : Asker

-- A call of the client, with its timeout; the end of the client; and what the promises of
-- `openSession` and `close` settle as.
pub data SessionEffect : Type 0 where
  asked : Asker → Text → Value → Option ℕ → SessionEffect
  client_ending opened : SessionEffect
  open_failed : Thrown → SessionEffect
  close_resolved close_rejected : SessionEffect

pub data SessionEvent : Type 0 where
  register_settled : Outcome Value → SessionEvent
  tick_due : SessionEvent
  tick_over : Outcome Unit → SessionEvent
  owner_called : Text → Value → Option ℕ → SessionEvent
  liveness_asked : Option ℕ → SessionEvent
  close_called : SessionEvent
  deregister_settled : Outcome Unit → SessionEvent
  client_ended : Outcome Unit → SessionEvent

unfoldable pub register_method : Text
unfolding codes
register_method = codes "agent.register"

unfoldable pub list_method : Text
unfolding codes
list_method = codes "agent.list"

-- `newCorrelationId()` is the text `fresh`.
unfoldable pub config_of : MxSessionOptions → Text → SessionConfig
config_of o fresh = record {
  owns_client = get_or o.owns_client (not o.injected_client);
  correlation_id = get_or o.correlation_id fresh;
  correlation_param_methods = get_or o.correlation_param_methods [];
  register_params = build_register_params o;
  heartbeat_enabled = o.heartbeat;
  heartbeat_interval_ms = get_or o.heartbeat_interval_ms 15000;
  heartbeat_method = get_or o.heartbeat_method register_method;
  deregister_method = o.deregister_method;
  room = o.room;
}

abbrev pub stamp : SessionConfig → Text → Value → Value
stamp c method params =
    if any (eq_text method) c.correlation_param_methods
    then with_correlation_param params c.correlation_id
    else params

-- `call`.
abbrev pub session_call : SessionConfig → Asker → Text → Value → Option ℕ → SessionEffect
session_call c asker method params timeout = asked asker method (stamp c method params) timeout

unfoldable pub open_session : MxSessionOptions → Text → MxSession × List SessionEffect
open_session o fresh = (
  record {
    config = config_of o fresh;
    state = opening;
    agent = none;
    heartbeat = none;
    awaits = registration;
  },
  session_call (config_of o fresh) by_start register_method (config_of o fresh).register_params none
      ∷ [],
)

-- The `catch` of `openSession`.
abbrev pub abandon : Thrown → MxSession → MxSession × List SessionEffect
abandon err s =
    if s.config.owns_client
    then (record s { awaits = dropping err }, client_ending ∷ [])
    else (record s { awaits = idle }, open_failed err ∷ [])

abbrev pub accept_agent : Option AgentState → MxSession → MxSession × List SessionEffect
accept_agent none s = abandon (transport_error protocol) s
accept_agent (some agent) s = (
  record s {
    state = active;
    agent = some agent;
    heartbeat = if s.config.heartbeat_enabled then some start_heartbeat else none;
    awaits = idle;
  },
  opened ∷ [],
)

abbrev pub on_registered : Awaits → Outcome Value → MxSession → MxSession × List SessionEffect
on_registered registration (resolved v) s = accept_agent (parse_agent_state v) s
on_registered registration (rejected err) s = abandon err s
on_registered awaits outcome s = (s, [])

abbrev pub agent_id_params : AgentState → Value
agent_id_params agent = obj (field (codes "agent_id") (str agent.agent_id) end)

-- `#heartbeatTick`.
abbrev pub tick_call : SessionConfig → Option AgentState → List SessionEffect
tick_call c none = []
tick_call c (some agent) =
    session_call c by_tick c.heartbeat_method
      (if eq_text c.heartbeat_method register_method
        then c.register_params
        else agent_id_params agent)
      (some c.heartbeat_interval_ms)
    ∷ []

abbrev pub tick_calls :
    SessionConfig → Option AgentState → List HeartbeatEffect → List SessionEffect
tick_calls c agent [] = []
tick_calls c agent (tick_started ∷ effects) = tick_call c agent ++ tick_calls c agent effects
tick_calls c agent (notified_ok ∷ effects) = tick_calls c agent effects
tick_calls c agent (notified_code code ∷ effects) = tick_calls c agent effects

abbrev pub on_beat : Option Heartbeat → HeartbeatEvent → MxSession → MxSession × List SessionEffect
on_beat none event s = (s, [])
on_beat (some h) event s =
    let (h', effects) = Heartbeat.step h event in
    (record s { heartbeat = some h' }, tick_calls s.config s.agent effects)

abbrev pub stop_heartbeat : Option Heartbeat → Option Heartbeat
stop_heartbeat none = none
stop_heartbeat (some h) = some (Heartbeat.step h halted).0

-- The end of `close`, from its `if (this.#ownsClient)`.
abbrev pub end_client : MxSession → MxSession × List SessionEffect
end_client s =
    if s.config.owns_client
    then (record s { awaits = client_end }, client_ending ∷ [])
    else (record s { state = closed; awaits = idle }, close_resolved ∷ [])

abbrev pub deregister : Option Text → Option AgentState → MxSession → MxSession × List SessionEffect
deregister (some method) (some agent) s = (
  record s { awaits = deregistration },
  session_call s.config by_close method (agent_id_params agent) none ∷ [],
)
deregister method agent s = end_client s

-- `close`, which a caller has no handle for before the session is open.
unfoldable pub close : SessionState → MxSession → MxSession × List SessionEffect
close opening s = (s, [])
close active s =
    deregister s.config.deregister_method s.agent
      (record s { state = closing; heartbeat = stop_heartbeat s.heartbeat })
close state s = (s, close_resolved ∷ [])

abbrev pub on_deregistered : Awaits → MxSession → MxSession × List SessionEffect
on_deregistered deregistration s = end_client s
on_deregistered awaits s = (s, [])

-- After a failed registration the rejection of the client's end is ignored.
abbrev pub on_client_ended : Awaits → Outcome Unit → MxSession → MxSession × List SessionEffect
on_client_ended (dropping err) outcome s = (record s { awaits = idle }, open_failed err ∷ [])
on_client_ended client_end (resolved _) s =
    (record s { state = closed; awaits = idle }, close_resolved ∷ [])
on_client_ended client_end (rejected err) s = (record s { awaits = idle }, close_rejected ∷ [])
on_client_ended awaits outcome s = (s, [])

-- A call of the owner, who has the handle once the session is open.
abbrev pub owner_call :
    SessionState → Text → Value → Option ℕ → MxSession → MxSession × List SessionEffect
owner_call opening method params timeout s = (s, [])
owner_call state method params timeout s =
    (s, session_call s.config by_owner method params timeout ∷ [])

abbrev pub list_params : Option Text → Value
list_params none = obj (field (codes "capabilities") (arr nil) end)
list_params (some room) =
    obj (field (codes "capabilities") (arr nil) (field (codes "room") (str room) end))

unfoldable pub step : MxSession → SessionEvent → MxSession × List SessionEffect
unfolding close
step s (register_settled outcome) = on_registered s.awaits outcome s
step s tick_due = on_beat s.heartbeat fired s
step s (tick_over outcome) = on_beat s.heartbeat (tick_settled outcome) s
step s (owner_called method params timeout) = owner_call s.state method params timeout s
step s (liveness_asked timeout) =
    owner_call s.state list_method (list_params s.config.room) timeout s
step s close_called = close s.state s
step s (deregister_settled outcome) = on_deregistered s.awaits s
step s (client_ended outcome) = on_client_ended s.awaits outcome s

unfoldable pub run : MxSession → List SessionEvent → MxSession × List SessionEffect
run s [] = (s, [])
run s (event ∷ events) =
    let (s1, effects) = step s event in let (s2, later) = run s1 events in (s2, effects ++ later)

-- A session from its first line on.
unfoldable pub live_session :
    MxSessionOptions → Text → List SessionEvent → MxSession × List SessionEffect
live_session o fresh events =
    let (s, effects) = open_session o fresh in
    let (s', later) = run s events in (s', effects ++ later)
