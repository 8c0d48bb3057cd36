-- ===== src/Toolbelt/Session/Failed.antt =====
-- A session whose registration failed.
use mx_loom.Common.{
  bit, ℕ, ◌≡◌, refl, arith, Bool, true, false, Option, none, some, List, [], ◌∷◌, Bool-cases, inl,
  inr,
}
use mx_loom.Text.{Text}
use mx_loom.Json.{Value}
use mx_loom.Toolbelt.Transport.{protocol, Thrown, transport_error, Outcome, resolved, rejected}
use mx_loom.Toolbelt.Heartbeat.{Heartbeat}
use mx_loom.Toolbelt.Session.Params.{MxSessionOptions, AgentState, parse_agent_state}
use mx_loom.Toolbelt.Session.Steps.{
  SessionState, opening, active, closing, closed, Awaits, idle, registration, dropping,
  deregistration, client_end, SessionConfig, MxSession, SessionEffect, asked, opened, SessionEvent,
  register_settled, tick_due, tick_over, owner_called, liveness_asked, close_called,
  deregister_settled, client_ended, config_of, open_session, abandon, close, step, run,
  live_session,
}
use mx_loom.Toolbelt.Session.Frugal.{count, count-append, made, ends_client}

abbrev pub asks : SessionEffect → Bool
asks (asked asker method params timeout) = true
asks _ = false

abbrev pub succeeds : SessionEffect → Bool
succeeds opened = true
succeeds _ = false

-- The agent that a settled registration gives.
abbrev pub accepted : Outcome Value → Option AgentState
accepted (resolved v) = parse_agent_state v
accepted (rejected err) = none

abbrev given_up : SessionState → Awaits → Option Heartbeat → Bool
given_up st w (some h) = false
given_up opening (dropping err) none = true
given_up opening idle none = true
given_up _ _ none = false

-- Nothing is left but the end of the client.
abbrev Dead : ℕ → MxSession × List SessionEffect → Type 0
Dead n r =
    (given_up r.0.state r.0.awaits r.0.heartbeat ≡ true)
    × (count asks r.1 ≡ 0)
    × (count ends_client r.1 ≡ n)
    × (count succeeds r.1 ≡ 0)

module _ (c : SessionConfig) (a : Option AgentState) where
  abandoned-Dead :
      (err : Thrown) → Dead (bit c.owns_client) (abandon err (made c opening a none registration))
  abandoned-Dead err = elim (Bool-cases c.owns_client) [
    | inl o ↦ rw o (refl, refl, refl, refl)
    | inr o ↦ rw o (refl, refl, refl, refl)
  ]

  failed-Dead :
      (o : Outcome Value)
      → accepted o ≡ none
      → Dead (bit c.owns_client) (step (made c opening a none registration) (register_settled o))
  unfolding step
  failed-Dead (rejected err) e = abandoned-Dead err
  failed-Dead (resolved v) e = rw e (abandoned-Dead (transport_error protocol))

  step-Dead :
      (st : SessionState) (w : Awaits) (h : Option Heartbeat) (event : SessionEvent)
      → given_up st w h ≡ true
      → Dead 0 (step (made c st a h w) event)
  unfolding step close
  step-Dead opening (dropping err) none (client_ended o) e = (refl, refl, refl, refl)
  step-Dead opening idle none (client_ended o) e = (refl, refl, refl, refl)
  step-Dead opening (dropping err) none (register_settled o) e = (refl, refl, refl, refl)
  step-Dead opening idle none (register_settled o) e = (refl, refl, refl, refl)
  step-Dead opening (dropping err) none (deregister_settled o) e = (refl, refl, refl, refl)
  step-Dead opening idle none (deregister_settled o) e = (refl, refl, refl, refl)
  step-Dead opening w none tick_due e = (e, refl, refl, refl)
  step-Dead opening w none (tick_over o) e = (e, refl, refl, refl)
  step-Dead opening w none (owner_called m v t) e = (e, refl, refl, refl)
  step-Dead opening w none (liveness_asked t) e = (e, refl, refl, refl)
  step-Dead opening w none close_called e = (e, refl, refl, refl)
  step-Dead st w (some h) event e = absurd cc
  step-Dead active w none event e = absurd cc
  step-Dead closing w none event e = absurd cc
  step-Dead closed w none event e = absurd cc
  step-Dead opening registration none event e = absurd cc
  step-Dead opening deregistration none event e = absurd cc
  step-Dead opening client_end none event e = absurd cc

run-Dead :
    (s : MxSession) (events : List SessionEvent)
    → given_up s.state s.awaits s.heartbeat ≡ true
    → Dead 0 (run s events)
unfolding run
run-Dead s [] e = (e, refl, refl, refl)
run-Dead s (event ∷ events) e =
    let r = step s event in
    let later = (run r.0 events).1 in
    let (e', p, q, o) = step-Dead s.config s.agent s.state s.awaits s.heartbeat event e in
    let (e2, p2, q2, o2) = run-Dead r.0 events e' in
    (
      e2,
      omega (arith, p, p2, count-append asks r.1 later),
      omega (arith, q, q2, count-append ends_client r.1 later),
      omega (arith, o, o2, count-append succeeds r.1 later),
    )

no_heartbeat :
    (st : SessionState) (w : Awaits) (h : Option Heartbeat) → given_up st w h ≡ true → h ≡ none
no_heartbeat st w none e = refl
no_heartbeat st w (some h) e = absurd cc

-- A registration that is rejected, or that gives no usable agent, leaves no session: whatever comes
-- then, no call follows the registration, no heartbeat runs, `openSession` does not resolve, and the
-- client is ended once if the session owns it and never if not.
pub failed_session_dead :
    (o : MxSessionOptions) (fresh : Text) (outcome : Outcome Value) (events : List SessionEvent)
    → accepted outcome ≡ none
    → let (s, effects) = live_session o fresh (register_settled outcome ∷ events) in
      (count asks effects ≡ 1)
      × (s.heartbeat ≡ none)
      × (count succeeds effects ≡ 0)
      × (count ends_client effects ≡ bit (config_of o fresh).owns_client)
unfolding live_session open_session run
failed_session_dead o fresh outcome events h =
    let s = (open_session o fresh).0 in
    let r = step s (register_settled outcome) in
    let later = (run r.0 events).1 in
    let (e, p, q, t) = failed-Dead (config_of o fresh) none outcome h in
    let (e2, p2, q2, t2) = run-Dead r.0 events e in
    (
      omega (arith, p, p2, count-append asks r.1 later),
      no_heartbeat _ _ _ e2,
      omega (arith, t, t2, count-append succeeds r.1 later),
      omega (arith, q, q2, count-append ends_client r.1 later),
    )
