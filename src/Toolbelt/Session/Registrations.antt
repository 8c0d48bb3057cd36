-- ===== src/Toolbelt/Session/Registrations.antt =====
-- The registrations that a session sends by itself: the one of its start, and those of its ticks.
use mx_loom.Common.{
  ℕ, ◌+◌, ◌≡◌, refl, arith, Bool, true, false, Option, none, some, List, [], ◌∷◌, ◌++◌, Bool-cases,
  inl, inr, subst,
}
use mx_loom.Text.{Text, eq_text, eq_text_refl}
use mx_loom.Toolbelt.Transport.{protocol, Thrown, transport_error, resolved, rejected}
use mx_loom.Toolbelt.Heartbeat
use mx_loom.Toolbelt.Heartbeat.{
  Heartbeat, HeartbeatEvent, fired, tick_settled, HeartbeatEffect, tick_started, notified_ok,
  notified_code,
}
use mx_loom.Toolbelt.Session.Params.{MxSessionOptions, AgentState, parse_agent_state}
use mx_loom.Toolbelt.Session.Steps.{
  SessionState, opening, active, closing, closed, Awaits, idle, registration, dropping,
  deregistration, client_end, SessionConfig, MxSession, by_start, by_tick, SessionEffect, asked,
  SessionEvent, register_settled, tick_due, tick_over, owner_called, liveness_asked, close_called,
  deregister_settled, client_ended, abandon, accept_agent, tick_calls, on_beat, end_client,
  deregister, close, stop_heartbeat, step, run, register_method, config_of, session_call,
  open_session, live_session,
}
use mx_loom.Toolbelt.Session.Frugal.{
  ticks, count, count-append, registers, spend, coherent, made, step-Frugal,
}

-- `agent.register`, sent by the start or by a tick.
abbrev pub sends_register : SessionEffect → Bool
sends_register (asked by_start method params timeout) = eq_text method register_method
sends_register (asked by_tick method params timeout) = eq_text method register_method
sends_register _ = false

-- Whether the ticks register again, as they do by default.
abbrev pub registers_again : SessionConfig → Bool
registers_again c = eq_text c.heartbeat_method register_method

abbrev pub Tallied : SessionConfig → List SessionEffect → Type 0
Tallied c es =
    count sends_register es ≡ count registers es + spend (registers_again c) (count ticks es)

spend-add : (b : Bool) (m n : ℕ) → spend b (m + n) ≡ spend b m + spend b n
spend-add true m n = omega arith
spend-add false m n = omega arith

spend-zero : (b : Bool) → spend b 0 ≡ 0
spend-zero true = refl
spend-zero false = refl

Tallied-append :
    (c : SessionConfig) (es fs : List SessionEffect)
    → Tallied c es
    → Tallied c fs
    → Tallied c (es ++ fs)
Tallied-append c es fs p q =
    let b = registers_again c in
    let both : spend b (count ticks (es ++ fs))
        ≡ spend b (count ticks es) + spend b (count ticks fs) =
      rw count-append (spend-add b (count ticks es) (count ticks fs)) in
    omega (arith, p, q, both, count-append sends_register es fs, count-append registers es fs)

module _ (c : SessionConfig) where
  silent : 0 ≡ 0 + spend (registers_again c) 0
  silent = omega (arith, spend-zero (registers_again c))

  ticks-Tallied :
      (a : Option AgentState) (es : List HeartbeatEffect) → Tallied c (tick_calls c a es)
  ticks-Tallied a [] = silent
  ticks-Tallied none (tick_started ∷ es) = ticks-Tallied none es
  ticks-Tallied (some agent) (tick_started ∷ es) =
      let later = ticks-Tallied (some agent) es in
      elim (Bool-cases (registers_again c)) [
        | inl e ↦ grind (arith, later)
        | inr e ↦ grind (arith, later)
      ]
  ticks-Tallied a (notified_ok ∷ es) = ticks-Tallied a es
  ticks-Tallied a (notified_code k ∷ es) = ticks-Tallied a es

  module _ (st : SessionState) (a : Option AgentState) (h : Option Heartbeat) (w : Awaits) where
    abandon-Tallied : (err : Thrown) → Tallied c (abandon err (made c st a h w)).1
    abandon-Tallied err = elim (Bool-cases c.owns_client) [
      | inl e ↦ rw e silent
      | inr e ↦ rw e silent
    ]

    end_client-Tallied : Tallied c (end_client (made c st a h w)).1
    end_client-Tallied = elim (Bool-cases c.owns_client) [
      | inl e ↦ rw e silent
      | inr e ↦ rw e silent
    ]

    accept-Tallied :
        (found : Option AgentState) → Tallied c (accept_agent found (made c st a h w)).1
    accept-Tallied none = abandon-Tallied (transport_error protocol)
    accept-Tallied (some agent) = silent

    deregister-Tallied :
        (m : Option Text) (found : Option AgentState)
        → Tallied c (deregister m found (made c st a h w)).1
    deregister-Tallied (some m) (some agent) = silent
    deregister-Tallied none found = end_client-Tallied
    deregister-Tallied (some m) none = end_client-Tallied

    on_beat-Tallied :
        (b : Option Heartbeat) (event : HeartbeatEvent)
        → Tallied c (on_beat b event (made c st a h w)).1
    on_beat-Tallied none event = silent
    on_beat-Tallied (some b) event = ticks-Tallied a (Heartbeat.step b event).1

  step-Tallied :
      (st : SessionState) (a : Option AgentState) (h : Option Heartbeat) (w : Awaits)
      (event : SessionEvent)
      → Tallied c (step (made c st a h w) event).1
  unfolding step close
  step-Tallied st a h registration (register_settled (resolved v)) =
      accept-Tallied st a h registration (parse_agent_state v)
  step-Tallied st a h registration (register_settled (rejected err)) =
      abandon-Tallied st a h registration err
  step-Tallied st a h idle (register_settled o) = silent
  step-Tallied st a h (dropping err) (register_settled o) = silent
  step-Tallied st a h deregistration (register_settled o) = silent
  step-Tallied st a h client_end (register_settled o) = silent
  step-Tallied st a h w tick_due = on_beat-Tallied st a h w h fired
  step-Tallied st a h w (tick_over o) = on_beat-Tallied st a h w h (tick_settled o)
  step-Tallied opening a h w (owner_called m v t) = silent
  step-Tallied active a h w (owner_called m v t) = silent
  step-Tallied closing a h w (owner_called m v t) = silent
  step-Tallied closed a h w (owner_called m v t) = silent
  step-Tallied opening a h w (liveness_asked t) = silent
  step-Tallied active a h w (liveness_asked t) = silent
  step-Tallied closing a h w (liveness_asked t) = silent
  step-Tallied closed a h w (liveness_asked t) = silent
  step-Tallied opening a h w close_called = silent
  step-Tallied active a h w close_called =
      deregister-Tallied closing a (stop_heartbeat h) w c.deregister_method a
  step-Tallied closing a h w close_called = silent
  step-Tallied closed a h w close_called = silent
  step-Tallied st a h deregistration (deregister_settled o) =
      end_client-Tallied st a h deregistration
  step-Tallied st a h idle (deregister_settled o) = silent
  step-Tallied st a h registration (deregister_settled o) = silent
  step-Tallied st a h (dropping err) (deregister_settled o) = silent
  step-Tallied st a h client_end (deregister_settled o) = silent
  step-Tallied st a h client_end (client_ended (resolved _)) = silent
  step-Tallied st a h client_end (client_ended (rejected err)) = silent
  step-Tallied st a h (dropping err) (client_ended o) = silent
  step-Tallied st a h idle (client_ended o) = silent
  step-Tallied st a h registration (client_ended o) = silent
  step-Tallied st a h deregistration (client_ended o) = silent

run-Tallied :
    (s : MxSession) (events : List SessionEvent)
    → coherent s.state s.awaits ≡ true
    → Tallied s.config (run s events).1
unfolding run
run-Tallied s [] coh = silent s.config
run-Tallied s (event ∷ events) coh =
    let r = step s event in
    let later = (run r.0 events).1 in
    let (coh', _, _, _, _, kept) =
      step-Frugal s.config s.agent s.heartbeat s.state s.awaits event coh in
    Tallied-append s.config r.1 later
      (step-Tallied s.config s.state s.agent s.heartbeat s.awaits event)
      (subst (λ k. Tallied k later) kept (run-Tallied r.0 events coh'))

-- From the first line on.
pub live-Tallied :
    (o : MxSessionOptions) (fresh : Text) (events : List SessionEvent)
    → Tallied (config_of o fresh) (live_session o fresh events).1
unfolding live_session open_session
live-Tallied o fresh events =
    let c = config_of o fresh in
    let start = session_call c by_start register_method c.register_params none in
    let first : Tallied c (start ∷ []) =
      rw (eq_text_refl register_method) (omega (arith, spend-zero (registers_again c))) in
    Tallied-append c (start ∷ []) (run (open_session o fresh).0 events).1 first
      (run-Tallied (open_session o fresh).0 events refl)
