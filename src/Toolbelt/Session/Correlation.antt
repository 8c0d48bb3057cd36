-- ===== src/Toolbelt/Session/Correlation.antt =====
-- The correlation id on the calls that a session makes by itself.
use mx_loom.Common.{
  ◌≡◌, refl, sym, arith, Bool, true, false, ◌&&◌, Option, none, some, List, [], ◌∷◌, ◌++◌, subst,
  and_split, and_intro, not, ◌||◌, any, if◌then◌else◌, Bool-cases, inl, inr,
}
use mx_loom.Text.{Text, codes, eq_text, eq_text_refl}
use mx_loom.Json.{
  Value, undefined, null, bool, num, str, arr, obj, Fields, field, end, get, get_field, has_own,
}
use mx_loom.Tasks.Handlers.{texts_value}
use mx_loom.Tasks.Action.{optional, text_value}
use mx_loom.Toolbelt.Transport.{protocol, Thrown, transport_error, resolved, rejected}
use mx_loom.Toolbelt.Heartbeat
use mx_loom.Toolbelt.Heartbeat.{
  Heartbeat, HeartbeatEvent, fired, tick_settled, HeartbeatEffect, tick_started, notified_ok,
  notified_code,
}
use mx_loom.Toolbelt.Session.Params.{
  with_field, with_correlation_param, correlation_param_key, is_id, WorkspaceContext,
  workspace_fields, build_register_params, values_value, number_value, MxSessionOptions, AgentState,
  parse_agent_state,
}
use mx_loom.Toolbelt.Session.Steps.{
  agent_id_params, SessionState, opening, active, closing, closed, Awaits, idle, registration,
  dropping, deregistration, client_end, SessionConfig, MxSession, by_owner, SessionEffect, asked,
  SessionEvent, register_settled, tick_due, tick_over, owner_called, liveness_asked, close_called,
  deregister_settled, client_ended, config_of, open_session, abandon, accept_agent, tick_calls,
  on_beat, end_client, deregister, close, stop_heartbeat, step, run, live_session, register_method,
}
use mx_loom.Toolbelt.Session.Frugal.{coherent, made, step-Frugal}

abbrev carries : Text → Value → Bool
carries id params = is_id id (get correlation_param_key params)

-- What the session asks by itself carries its id, where the method accepts it.
abbrev pub stamped : SessionConfig → SessionEffect → Bool
stamped c (asked by_owner method params timeout) = true
stamped c (asked asker method params timeout) =
    not (any (eq_text method) c.correlation_param_methods) || carries c.correlation_id params
stamped c _ = true

abbrev pub all_stamped : SessionConfig → List SessionEffect → Bool
all_stamped c [] = true
all_stamped c (e ∷ es) = stamped c e && all_stamped c es

abbrev unmarked : Value → Bool
unmarked (obj fs) = not (has_own correlation_param_key fs)
unmarked v = false

all_stamped-append :
    (c : SessionConfig) (es fs : List SessionEffect)
    → all_stamped c es ≡ true
    → all_stamped c fs ≡ true
    → all_stamped c (es ++ fs) ≡ true
all_stamped-append c [] fs p q = q
all_stamped-append c (e ∷ es) fs p q =
    let (p1, p2) = and_split (stamped c e) (all_stamped c es) p in
    and_intro p1 (all_stamped-append c es fs p2 q)

get-with_field :
    (fs : Fields) (key : Text) (v : Value)
    → has_own key fs ≡ false
    → get_field key (with_field fs key v) ≡ v
unfolding has_own get_field
get-with_field end key v h = rw (eq_text_refl key) refl
get-with_field (field k u fs) key v h = elim (Bool-cases (eq_text k key)) [
  | inl e ↦ absurd (grind arith)
  | inr e ↦ rw (e, get-with_field fs key v (grind arith))
]

unmarked-carries :
    (id : Text) (params : Value)
    → unmarked params ≡ true
    → carries id (with_correlation_param params id) ≡ true
unfolding with_correlation_param get
unmarked-carries id (obj fs) h =
    let e : has_own correlation_param_key fs ≡ false = grind arith in
    rw (e, get-with_field fs correlation_param_key (str id) e, eq_text_refl id)
unmarked-carries id undefined h = absurd cc
unmarked-carries id null h = absurd cc
unmarked-carries id (bool b) h = absurd cc
unmarked-carries id (num n) h = absurd cc
unmarked-carries id (str s) h = absurd cc
unmarked-carries id (arr xs) h = absurd cc

has_own-optional :
    (key k : Text) (v : Option Value) (fs : Fields)
    → eq_text k key ≡ false
    → has_own key fs ≡ false
    → has_own key (optional k v fs) ≡ false
unfolding has_own
has_own-optional key k none fs e h = h
has_own-optional key k (some v) fs e h = rw (e, h) refl

abbrev LacksKey : Fields → Type 0
LacksKey fs = has_own correlation_param_key fs ≡ false

workspace-LacksKey :
    (w : Option WorkspaceContext) (fs : Fields) → LacksKey fs → LacksKey (workspace_fields w fs)
unfolding correlation_param_key eq_text codes
workspace-LacksKey none fs h = h
workspace-LacksKey (some w) fs h = has_own-optional _ _ (text_value w.cwd) _ refl (
    has_own-optional _ _ (text_value w.project_id) _ refl
      (has_own-optional _ _ (text_value w.git_commit) _ refl h))

register-unmarked : (o : MxSessionOptions) → unmarked (build_register_params o) ≡ true
unfolding build_register_params correlation_param_key eq_text codes has_own
register-unmarked o =
    rw
      (has_own-optional _ _ (text_value o.room) _ refl (
        has_own-optional _ _ (text_value o.kind) _ refl (
          has_own-optional _ _ (texts_value o.capabilities) _ refl (
            has_own-optional _ _ (values_value o.tools) _ refl (
              workspace-LacksKey o.workspace _
                (has_own-optional _ _ (number_value o.max_invocations) end refl refl))))))
      refl

agent-unmarked : (agent : AgentState) → unmarked (agent_id_params agent) ≡ true
unfolding correlation_param_key eq_text codes has_own
agent-unmarked agent = refl

module _ (c : SessionConfig) (marked : unmarked c.register_params ≡ true) where
  call-stamped :
      (method : Text) (params : Value)
      → unmarked params ≡ true
      → (not (any (eq_text method) c.correlation_param_methods)
          || carries c.correlation_id (
              if any (eq_text method) c.correlation_param_methods
              then with_correlation_param params c.correlation_id
              else params))
        ≡ true
  call-stamped method params h =
      elim (Bool-cases (any (eq_text method) c.correlation_param_methods)) [
        | inl e ↦ rw (e, unmarked-carries c.correlation_id params h)
        | inr e ↦ rw e refl
      ]

  tick-unmarked :
      (b : Bool) (agent : AgentState)
      → unmarked (if b then c.register_params else agent_id_params agent) ≡ true
  tick-unmarked true agent = marked
  tick-unmarked false agent = agent-unmarked agent

  ticks-stamped :
      (a : Option AgentState) (es : List HeartbeatEffect) → all_stamped c (tick_calls c a es) ≡ true
  ticks-stamped a [] = refl
  ticks-stamped none (tick_started ∷ es) = ticks-stamped none es
  ticks-stamped (some agent) (tick_started ∷ es) =
      and_intro
        (call-stamped c.heartbeat_method _
          (tick-unmarked (eq_text c.heartbeat_method register_method) agent))
        (ticks-stamped (some agent) es)
  ticks-stamped a (notified_ok ∷ es) = ticks-stamped a es
  ticks-stamped a (notified_code k ∷ es) = ticks-stamped a es

  module _ (st : SessionState) (a : Option AgentState) (h : Option Heartbeat) (w : Awaits) where
    abandon-stamped : (err : Thrown) → all_stamped c (abandon err (made c st a h w)).1 ≡ true
    abandon-stamped err = elim (Bool-cases c.owns_client) [ inl e ↦ rw e refl | inr e ↦ rw e refl ]

    end_client-stamped : all_stamped c (end_client (made c st a h w)).1 ≡ true
    end_client-stamped = elim (Bool-cases c.owns_client) [ inl e ↦ rw e refl | inr e ↦ rw e refl ]

    accept-stamped :
        (found : Option AgentState) → all_stamped c (accept_agent found (made c st a h w)).1 ≡ true
    accept-stamped none = abandon-stamped (transport_error protocol)
    accept-stamped (some agent) = refl

    deregister-stamped :
        (m : Option Text) (found : Option AgentState)
        → all_stamped c (deregister m found (made c st a h w)).1 ≡ true
    deregister-stamped (some m) (some agent) =
        and_intro (call-stamped m (agent_id_params agent) (agent-unmarked agent)) refl
    deregister-stamped none found = end_client-stamped
    deregister-stamped (some m) none = end_client-stamped

    on_beat-stamped :
        (b : Option Heartbeat) (event : HeartbeatEvent)
        → all_stamped c (on_beat b event (made c st a h w)).1 ≡ true
    on_beat-stamped none event = refl
    on_beat-stamped (some b) event = ticks-stamped a (Heartbeat.step b event).1

  step-stamped :
      (st : SessionState) (a : Option AgentState) (h : Option Heartbeat) (w : Awaits)
      (event : SessionEvent)
      → all_stamped c (step (made c st a h w) event).1 ≡ true
  unfolding step close
  step-stamped st a h registration (register_settled (resolved v)) =
      accept-stamped st a h registration (parse_agent_state v)
  step-stamped st a h registration (register_settled (rejected err)) =
      abandon-stamped st a h registration err
  step-stamped st a h idle (register_settled o) = refl
  step-stamped st a h (dropping err) (register_settled o) = refl
  step-stamped st a h deregistration (register_settled o) = refl
  step-stamped st a h client_end (register_settled o) = refl
  step-stamped st a h w tick_due = on_beat-stamped st a h w h fired
  step-stamped st a h w (tick_over o) = on_beat-stamped st a h w h (tick_settled o)
  step-stamped opening a h w (owner_called m v t) = refl
  step-stamped active a h w (owner_called m v t) = refl
  step-stamped closing a h w (owner_called m v t) = refl
  step-stamped closed a h w (owner_called m v t) = refl
  step-stamped opening a h w (liveness_asked t) = refl
  step-stamped active a h w (liveness_asked t) = refl
  step-stamped closing a h w (liveness_asked t) = refl
  step-stamped closed a h w (liveness_asked t) = refl
  step-stamped opening a h w close_called = refl
  step-stamped active a h w close_called =
      deregister-stamped closing a (stop_heartbeat h) w c.deregister_method a
  step-stamped closing a h w close_called = refl
  step-stamped closed a h w close_called = refl
  step-stamped st a h deregistration (deregister_settled o) =
      end_client-stamped st a h deregistration
  step-stamped st a h idle (deregister_settled o) = refl
  step-stamped st a h registration (deregister_settled o) = refl
  step-stamped st a h (dropping err) (deregister_settled o) = refl
  step-stamped st a h client_end (deregister_settled o) = refl
  step-stamped st a h client_end (client_ended (resolved _)) = refl
  step-stamped st a h client_end (client_ended (rejected err)) = refl
  step-stamped st a h (dropping err) (client_ended o) = refl
  step-stamped st a h idle (client_ended o) = refl
  step-stamped st a h registration (client_ended o) = refl
  step-stamped st a h deregistration (client_ended o) = refl

run-stamped :
    (s : MxSession) (events : List SessionEvent)
    → unmarked s.config.register_params ≡ true
    → coherent s.state s.awaits ≡ true
    → all_stamped s.config (run s events).1 ≡ true
unfolding run
run-stamped s [] h coh = refl
run-stamped s (event ∷ events) h coh =
    let r = step s event in
    let later = (run r.0 events).1 in
    let (coh', _, _, _, _, kept) =
      step-Frugal s.config s.agent s.heartbeat s.state s.awaits event coh in
    let rest =
      run-stamped r.0 events (subst (λ k. unmarked k.register_params ≡ true) (sym kept) h) coh' in
    all_stamped-append s.config r.1 later
      (step-stamped s.config h s.state s.agent s.heartbeat s.awaits event)
      (subst (λ k. all_stamped k later ≡ true) kept rest)

-- Every call that a session makes by itself, to register, at a tick of its heartbeat and to
-- deregister, carries the session's one correlation id, if its method is among those that accept it.
pub lifecycle_correlated :
    (o : MxSessionOptions) (fresh : Text) (events : List SessionEvent)
    → all_stamped (config_of o fresh) (live_session o fresh events).1 ≡ true
unfolding live_session open_session config_of
lifecycle_correlated o fresh events =
    let c = config_of o fresh in
    and_intro
      (call-stamped c (register-unmarked o) register_method (build_register_params o)
        (register-unmarked o))
      (run-stamped (open_session o fresh).0 events (register-unmarked o) refl)
