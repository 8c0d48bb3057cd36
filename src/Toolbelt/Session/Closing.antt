-- ===== src/Toolbelt/Session/Closing.antt =====
-- The close of a session: what it stops, and that it ends.
use mx_loom.Common.{
  ◌≡◌, refl, arith, Bool, true, false, Option, none, some, List, [], ◌∷◌, Bool-cases, inl, inr,
}
use mx_loom.Text.{Text}
use mx_loom.Toolbelt.Transport.{resolved, rejected}
use mx_loom.Toolbelt.Heartbeat
use mx_loom.Toolbelt.Heartbeat.{
  Heartbeat, HeartbeatEvent, fired, tick_settled, HeartbeatEffect, tick_started, notified_ok,
  notified_code,
}
use mx_loom.Toolbelt.Session.Params.{MxSessionOptions, AgentState}
use mx_loom.Toolbelt.Session.Steps.{
  SessionState, opening, active, closing, closed, Awaits, idle, registration, dropping,
  deregistration, client_end, SessionConfig, MxSession, SessionEffect, SessionEvent,
  register_settled, tick_due, tick_over, owner_called, liveness_asked, close_called,
  deregister_settled, client_ended, open_session, on_beat, end_client, deregister, close,
  stop_heartbeat, step, run, live_session,
}
use mx_loom.Toolbelt.Heartbeat.Laws.{stopped_step}
use mx_loom.Toolbelt.Session.Frugal.{ticks, count, count-append, coherent, made, step-Frugal}
use mx_loom.Toolbelt.Session.Once.{run-Frugal}

abbrev hushed : Option Heartbeat → Bool
hushed none = true
hushed (some h) = h.stopped

abbrev left : SessionState → Bool
left closing = true
left closed = true
left _ = false

abbrev Silent : MxSession × List SessionEffect → Type 0
Silent r = (left r.0.state ≡ true) × (hushed r.0.heartbeat ≡ true) × (count ticks r.1 ≡ 0)

module _ (c : SessionConfig) (a : Option AgentState) where
  on_beat-Silent :
      (st : SessionState) (w : Awaits) (h : Option Heartbeat) (event : HeartbeatEvent)
      → left st ≡ true
      → hushed h ≡ true
      → Silent (on_beat h event (made c st a h w))
  on_beat-Silent st w none event l e = (l, refl, refl)
  on_beat-Silent st w (some h) event l e = beat h.stopped h.in_flight e
    where
      beat :
          (s f : Bool)
          → s ≡ true
          → Silent (
              on_beat (some (record { stopped = s; in_flight = f })) event (made c st a (some h) w))
      beat true f e = let (p, q) = stopped_step f event in (l, p, rw q refl)
      beat false f e = absurd cc

  deregistered-Silent :
      (h : Option Heartbeat) (w : Awaits)
      → hushed h ≡ true
      → Silent (end_client (made c closing a h w))
  deregistered-Silent h w e = elim (Bool-cases c.owns_client) [
    | inl o ↦ rw o (refl, e, refl)
    | inr o ↦ rw o (refl, e, refl)
  ]

  step-Silent :
      (st : SessionState) (w : Awaits) (h : Option Heartbeat) (event : SessionEvent)
      → left st ≡ true
      → coherent st w ≡ true
      → hushed h ≡ true
      → Silent (step (made c st a h w) event)
  unfolding step close
  step-Silent opening w h event l coh e = absurd cc
  step-Silent active w h event l coh e = absurd cc
  step-Silent st w h tick_due l coh e = on_beat-Silent st w h fired l e
  step-Silent st w h (tick_over o) l coh e = on_beat-Silent st w h (tick_settled o) l e
  step-Silent closing registration h event l coh e = absurd cc
  step-Silent closing (dropping err) h event l coh e = absurd cc
  step-Silent closed registration h event l coh e = absurd cc
  step-Silent closed (dropping err) h event l coh e = absurd cc
  step-Silent closed deregistration h event l coh e = absurd cc
  step-Silent closed client_end h event l coh e = absurd cc
  step-Silent closing deregistration h (deregister_settled o) l coh e =
      deregistered-Silent h deregistration e
  step-Silent closing client_end h (client_ended (resolved _)) l coh e = (refl, e, refl)
  step-Silent closing client_end h (client_ended (rejected err)) l coh e = (refl, e, refl)
  step-Silent closing deregistration h (client_ended o) l coh e = (refl, e, refl)
  step-Silent closing idle h (client_ended o) l coh e = (refl, e, refl)
  step-Silent closed idle h (client_ended o) l coh e = (refl, e, refl)
  step-Silent closing client_end h (deregister_settled o) l coh e = (refl, e, refl)
  step-Silent closing idle h (deregister_settled o) l coh e = (refl, e, refl)
  step-Silent closed idle h (deregister_settled o) l coh e = (refl, e, refl)
  step-Silent closing deregistration h (register_settled o) l coh e = (refl, e, refl)
  step-Silent closing client_end h (register_settled o) l coh e = (refl, e, refl)
  step-Silent closing idle h (register_settled o) l coh e = (refl, e, refl)
  step-Silent closed idle h (register_settled o) l coh e = (refl, e, refl)
  step-Silent closing w h (owner_called m v t) l coh e = (refl, e, refl)
  step-Silent closed w h (owner_called m v t) l coh e = (refl, e, refl)
  step-Silent closing w h (liveness_asked t) l coh e = (refl, e, refl)
  step-Silent closed w h (liveness_asked t) l coh e = (refl, e, refl)
  step-Silent closing w h close_called l coh e = (refl, e, refl)
  step-Silent closed w h close_called l coh e = (refl, e, refl)

run-Silent :
    (s : MxSession) (events : List SessionEvent)
    → left s.state ≡ true
    → coherent s.state s.awaits ≡ true
    → hushed s.heartbeat ≡ true
    → count ticks (run s events).1 ≡ 0
unfolding run
run-Silent s [] l coh e = refl
run-Silent s (event ∷ events) l coh e =
    let r = step s event in
    let (l', e', p) = step-Silent s.config s.agent s.state s.awaits s.heartbeat event l coh e in
    let coh' = (step-Frugal s.config s.agent s.heartbeat s.state s.awaits event coh).0 in
    omega (arith, p, run-Silent r.0 events l' coh' e', count-append ticks r.1 (run r.0 events).1)

stop-hushed : (h : Option Heartbeat) → hushed (stop_heartbeat h) ≡ true
unfolding Heartbeat.step
stop-hushed none = refl
stop-hushed (some h) = refl

-- The first step of a close.
closing-Silent :
    (c : SessionConfig) (a : Option AgentState) (h : Option Heartbeat) (w : Awaits)
    → Silent (step (made c active a h w) close_called)
unfolding step close
closing-Silent c a h w = first c.deregister_method a
  where
    first :
        (m : Option Text) (found : Option AgentState)
        → Silent (deregister m found (made c closing a (stop_heartbeat h) w))
    first (some m) (some agent) = (refl, stop-hushed h, refl)
    first none found = deregistered-Silent c a (stop_heartbeat h) w (stop-hushed h)
    first (some m) none = deregistered-Silent c a (stop_heartbeat h) w (stop-hushed h)

close_from_active :
    (c : SessionConfig) (a : Option AgentState) (h : Option Heartbeat) (w : Awaits)
    (st : SessionState) (events : List SessionEvent)
    → st ≡ active
    → coherent st w ≡ true
    → count ticks (run (made c st a h w) (close_called ∷ events)).1 ≡ 0
unfolding run
close_from_active c a h w active events e coh =
    let s = made c active a h w in
    let r = step s close_called in
    let (l, k, p) = closing-Silent c a h w in
    let coh' = (step-Frugal c a h active w close_called coh).0 in
    omega (arith, p, run-Silent r.0 events l coh' k, count-append ticks r.1 (run r.0 events).1)
close_from_active c a h w opening events e coh = absurd cc
close_from_active c a h w closing events e coh = absurd cc
close_from_active c a h w closed events e coh = absurd cc

pub live-coherent :
    (o : MxSessionOptions) (fresh : Text) (events : List SessionEvent)
    → coherent (live_session o fresh events).0.state (live_session o fresh events).0.awaits ≡ true
unfolding live_session open_session
live-coherent o fresh events = (run-Frugal (open_session o fresh).0 events refl).0

-- Once an active session is closed, no tick of its heartbeat calls the daemon any more, whatever comes.
pub close_silences :
    (o : MxSessionOptions) (fresh : Text) (before after : List SessionEvent)
    → (live_session o fresh before).0.state ≡ active
    → count ticks (run (live_session o fresh before).0 (close_called ∷ after)).1 ≡ 0
close_silences o fresh before after e =
    let s = (live_session o fresh before).0 in
    close_from_active s.config s.agent s.heartbeat s.awaits s.state after e
      (live-coherent o fresh before)
