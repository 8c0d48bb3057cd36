-- ===== src/Toolbelt/Session/Survives.antt =====
-- What a session keeps over a restart, and what a resumption asks of the daemon.
use mx_loom.Common.{
  ℕ, ◌≤◌, length, ◌≡◌, sym, ap, ◌∙◌, Bool, true, false, Option, none, some, List, ◌∷◌,
  if◌then◌else◌, subst,
}
use mx_loom.Text.{Text, codes, eq_text, is_empty}
use mx_loom.Json.{Value, obj, get}
use mx_loom.Toolbelt.Transport.{Outcome, Sent, Peer}
use mx_loom.Toolbelt.Plan.{TaskCursor, snapshot_of, room_params}
use mx_loom.Toolbelt.Descriptor.{SessionDescriptor, assert_session_descriptor, descriptor_value}
use mx_loom.Toolbelt.Descriptor.Laws.{is_clean, assert_session_descriptor-descriptor_value}
use mx_loom.Toolbelt.Session.Params.{
  AgentState, Described, no_room, described, described_as, candidate, describe,
  build_register_params, nonempty_kind,
}
use mx_loom.Toolbelt.Session.Steps.{
  SessionEffect, active, MxSession, config_of, register_method, open_session,
}
use mx_loom.Toolbelt.Session.Beats.{again}
use mx_loom.Toolbelt.Session.Failed.{accepted}
use mx_loom.Toolbelt.Session.Resume.{
  ResumeOptions, resume_options, Resumption, bad_descriptor, not_opened, resumed_as, thrown_by,
  Beat, log, continue_with,
}

described_as-some :
    (o : Option SessionDescriptor) (d : SessionDescriptor)
    → described_as o ≡ described d
    → o ≡ some d
described_as-some none d e = absurd cc
described_as-some (some x) d e = cc

clean_or_not :
    (b : Bool) (found d : SessionDescriptor) → (if b then some found else none) ≡ some d → found ≡ d
clean_or_not true found d e = cc
clean_or_not false found d e = absurd cc

with_room :
    (b : Bool) (x : Described) (d : SessionDescriptor)
    → (if b then no_room else x) ≡ described d
    → x ≡ described d
with_room true x d e = absurd cc
with_room false x d e = e

-- The checked candidate is the descriptor.
described_found :
    (found d : SessionDescriptor)
    → described_as (assert_session_descriptor (descriptor_value found)) ≡ described d
    → (found ≡ d) × (assert_session_descriptor (descriptor_value d) ≡ some d)
described_found found d e =
    let given = described_as-some (assert_session_descriptor (descriptor_value found)) d e in
    let same =
      clean_or_not (is_clean found) found d
        (sym (assert_session_descriptor-descriptor_value found) ∙ given) in
    (same, subst (λ x. assert_session_descriptor (descriptor_value x) ≡ some d) same given)

-- A descriptor that a session of this agent, room and correlation id gave keeps them.
abbrev Keeps :
    Option AgentState → Option Text → Text → Option TaskCursor → SessionDescriptor → Type 0
Keeps none room correlation cursor d = true ≡ false
Keeps (some agent) room correlation cursor d =
    (assert_session_descriptor (descriptor_value d) ≡ some d)
    × (some d.room ≡ room)
    × (d.correlation_id ≡ correlation)
    × (d.agent_id ≡ agent.agent_id)
    × (d.kind ≡ nonempty_kind (get (codes "kind") (obj agent.fields)))
    × (d.cursor ≡ cursor)

described-Keeps :
    (a : Option AgentState) (room : Option Text) (correlation : Text) (cursor : Option TaskCursor)
    (d : SessionDescriptor)
    → describe a room correlation cursor ≡ described d
    → Keeps a room correlation cursor d
unfolding describe candidate
described-Keeps none room correlation cursor d e = absurd cc
described-Keeps (some agent) none correlation cursor d e = absurd cc
described-Keeps (some agent) (some room) correlation cursor d e =
    let found = candidate agent room correlation cursor in
    let (same, again) = described_found found d (
      with_room (is_empty room) (described_as (assert_session_descriptor (descriptor_value found)))
        d e) in
    (
      again,
      ap (λ x. some x.room) (sym same),
      ap (λ x. x.correlation_id) (sym same),
      ap (λ x. x.agent_id) (sym same),
      ap (λ x. x.kind) (sym same),
      ap (λ x. x.cursor) (sym same),
    )

-- A descriptor that a session describes itself by is accepted as it is, and a session that is resumed
-- from it has the same room and the same correlation id; the descriptor has the agent's id and kind,
-- the latter if it is a text that is not empty, and the cursor that was given.
pub restart_keeps :
    (s : MxSession) (agent : AgentState) (cursor : Option TaskCursor) (d : SessionDescriptor)
    (o : ResumeOptions) (fresh : Text)
    → describe (some agent) s.config.room s.config.correlation_id cursor ≡ described d
    → let c = config_of (resume_options o d) fresh in
      (assert_session_descriptor (descriptor_value d) ≡ some d)
      × (c.room ≡ s.config.room)
      × (c.correlation_id ≡ s.config.correlation_id)
      × (d.agent_id ≡ agent.agent_id)
      × (d.kind ≡ nonempty_kind (get (codes "kind") (obj agent.fields)))
      × (d.cursor ≡ cursor)
unfolding config_of resume_options
restart_keeps s agent cursor d o fresh e =
    described-Keeps (some agent) s.config.room s.config.correlation_id cursor d e

abbrev pub registered : Text → Value → Sent
registered method params = record { method = method; params = params }

-- The session that an accepted registration gives, and its plan.
abbrev pub Resumed : Peer → SessionDescriptor → AgentState → List Sent → Resumption → Type 0
Resumed peer d agent sent (resumed_as s plan same) =
    (s.state ≡ active)
    × (s.agent ≡ some agent)
    × (s.config.room ≡ some d.room)
    × (s.config.correlation_id ≡ d.correlation_id)
    × (plan ≡ snapshot_of d.room d.cursor (peer sent (codes "task.list") (room_params d.room)))
    × (same ≡ eq_text agent.agent_id d.agent_id)
Resumed peer d agent sent _ = true ≡ false

-- What follows the settled registration, by the agent in it; the registration may be repeated up to
-- a number of times.
abbrev pub Continues :
    Peer
    → SessionDescriptor
    → Sent
    → ℕ
    → Outcome Value
    → Option AgentState
    → List Sent
    → Resumption × List Sent
    → Type 0
Continues peer d registration bound reply none sent r =
    (r.0 ≡ not_opened (thrown_by reply)) × (r.1 ≡ sent)
Continues peer d registration bound reply (some agent) sent r =
    Resumed peer d agent sent r.0
    × (k : ℕ) × (k ≤ bound)
    × (r.1 ≡ again k registration (registered (codes "task.list") (room_params d.room) ∷ sent))

-- The most ticks that the beats can make.
abbrev pub most_ticks : ResumeOptions → List Beat → ℕ
most_ticks o beats = if o.heartbeat then length beats else 0

abbrev pub Resumes :
    Peer
    → ResumeOptions
    → List Beat
    → Option SessionDescriptor
    → List Sent
    → Resumption × List Sent
    → Type 0
Resumes peer o beats none sent r = (r.0 ≡ bad_descriptor) × (r.1 ≡ sent)
Resumes peer o beats (some d) sent r =
    let params = build_register_params (resume_options o d) in
    let reply = peer sent register_method params in
    Continues peer d (registered register_method params) (most_ticks o beats) reply (accepted reply)
      (registered register_method params ∷ sent) r

module _ (peer : Peer) (fresh : Text) (o : ResumeOptions) (beats : List Beat)
    (d : SessionDescriptor) (sent : List Sent) where
  abbrev first : MxSession
  first = (open_session (resume_options o d) fresh).0

  abbrev call : Sent
  call = registered register_method (build_register_params (resume_options o d))

  abbrev continued : Outcome Value → MxSession × List SessionEffect → Resumption × List Sent
  continued reply r = continue_with peer d reply beats r.0 r.0.agent (log r.1 sent)
