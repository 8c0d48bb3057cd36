-- ===== src/Toolbelt/Session/Resume.antt =====
-- packages/toolbelt/src/resume.ts: a session from the descriptor that an earlier one left.
use mx_loom.Common.{ℕ, Bool, Option, none, some, List, [], ◌∷◌, map, ◌or_else◌}
use mx_loom.Text.{Text, eq_text}
use mx_loom.Json.{Value}
use mx_loom.Json.Number.{WireNumber}
use mx_loom.Toolbelt.Transport.{
  protocol, Thrown, transport_error, Outcome, resolved, rejected, Sent, Peer,
}
use mx_loom.Toolbelt.Plan.{PlanSnapshot, reconstruct_plan}
use mx_loom.Toolbelt.Descriptor.{SessionDescriptor, assert_session_descriptor}
use mx_loom.Toolbelt.Session.Params.{MxSessionOptions, WorkspaceContext, AgentState}
use mx_loom.Toolbelt.Session.Steps.{
  SessionConfig, MxSession, SessionEffect, asked, SessionEvent, register_settled, tick_due,
  tick_over, register_method, stamp, open_session, step, run,
}

pub record ResumeOptions : Type 0 where
  pub injected_client : Bool
  pub owns_client : Option Bool
  pub kind : Option Text
  pub capabilities : Option (List Text)
  pub tools : Option (List Value)
  pub workspace : Option WorkspaceContext
  pub max_invocations : Option WireNumber
  pub heartbeat_interval_ms : Option ℕ
  pub heartbeat : Bool

-- The options of the new session: what the descriptor keeps, and the runtime's own settings.
unfoldable pub resume_options : ResumeOptions → SessionDescriptor → MxSessionOptions
resume_options o d = record {
  injected_client = o.injected_client;
  owns_client = o.owns_client;
  room = some d.room;
  kind = o.kind or_else d.kind;
  capabilities = o.capabilities;
  tools = o.tools;
  workspace = o.workspace;
  max_invocations = o.max_invocations;
  correlation_id = some d.correlation_id;
  correlation_param_methods = none;
  heartbeat_interval_ms = o.heartbeat_interval_ms;
  heartbeat = o.heartbeat;
  heartbeat_method = none;
  deregister_method = none;
}

-- What the promise of `resumeSession` settles as: the rejection of a bad descriptor, that of
-- `openSession`, or the session with its plan and whether the agent is the same.
pub data Resumption : Type 0 where
  bad_descriptor : Resumption
  not_opened : Thrown → Resumption
  resumed_as : MxSession → PlanSnapshot → Bool → Resumption

abbrev pub thrown_by : Outcome Value → Thrown
thrown_by (resolved v) = transport_error protocol
thrown_by (rejected err) = err

-- The peer as `session.call` reaches it.
abbrev pub through : SessionConfig → Peer → Peer
through c peer sent method params = peer sent method (stamp c method params)

-- What may reach the heartbeat, which the opening started, while the tasks are read: nobody else has
-- the session yet.
pub data Beat : Type 0 where
  due : Beat
  over : Outcome Unit → Beat

abbrev pub event_of : Beat → SessionEvent
event_of due = tick_due
event_of (over outcome) = tick_over outcome

-- The calls among the effects, sent after those before, the latest first.
unfoldable pub log : List SessionEffect → List Sent → List Sent
log [] sent = sent
log (asked asker method params timeout ∷ effects) sent =
    log effects (record { method = method; params = params } ∷ sent)
log (_ ∷ effects) sent = log effects sent

-- From the settled registration on.
abbrev pub continue_with :
    Peer
    → SessionDescriptor
    → Outcome Value
    → List Beat
    → MxSession
    → Option AgentState
    → List Sent
    → Resumption × List Sent
continue_with peer d reply beats s none sent = (not_opened (thrown_by reply), sent)
continue_with peer d reply beats s (some agent) sent =
    let (plan, sent') = reconstruct_plan (through s.config peer) d.room d.cursor sent in
    let (s', effects) = run s (map event_of beats) in
    (resumed_as s' plan (eq_text agent.agent_id d.agent_id), log effects sent')

abbrev pub resume_from :
    Peer
    → Text
    → ResumeOptions
    → List Beat
    → Option SessionDescriptor
    → List Sent
    → Resumption × List Sent
resume_from peer fresh o beats none sent = (bad_descriptor, sent)
resume_from peer fresh o beats (some d) sent =
    let (s, asks) = open_session (resume_options o d) fresh in
    let reply =
      peer sent register_method (stamp s.config register_method s.config.register_params) in
    let (s', effects) = step s (register_settled reply) in
    continue_with peer d reply beats s' s'.agent (log effects (log asks sent))

-- The calls go to a peer that answers by all that was sent before.
unfoldable pub resume_session :
    Peer → Text → ResumeOptions → List Beat → Value → List Sent → Resumption × List Sent
resume_session peer fresh o beats v sent =
    resume_from peer fresh o beats (assert_session_descriptor v) sent
