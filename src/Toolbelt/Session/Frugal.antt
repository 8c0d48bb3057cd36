-- ===== src/Toolbelt/Session/Frugal.antt =====
-- What one event may use up of what a session does once.
use mx_loom.Common.{
  bit, ℕ, ◌+◌, ◌≤◌, ◌≡◌, refl, arith, Bool, true, false, Option, none, some, List, [], ◌∷◌, ◌++◌,
  Bool-cases, inl, inr,
}
use mx_loom.Text.{Text}
use mx_loom.Json.{Value}
use mx_loom.Toolbelt.Transport.{protocol, Thrown, transport_error, Outcome, resolved, rejected}
use mx_loom.Toolbelt.Heartbeat
use mx_loom.Toolbelt.Heartbeat.{
  Heartbeat, HeartbeatEvent, fired, tick_settled, HeartbeatEffect, tick_started, notified_ok,
  notified_code,
}
use mx_loom.Toolbelt.Session.Params.{AgentState, parse_agent_state}
use mx_loom.Toolbelt.Session.Steps.{
  SessionState, opening, active, closing, closed, Awaits, idle, registration, dropping,
  deregistration, client_end, SessionConfig, MxSession, by_start, by_tick, by_close, SessionEffect,
  asked, client_ending, opened, open_failed, SessionEvent, register_settled, tick_due, tick_over,
  owner_called, liveness_asked, close_called, deregister_settled, client_ended, abandon,
  accept_agent, on_registered, tick_calls, on_beat, end_client, deregister, close, on_deregistered,
  stop_heartbeat, on_client_ended, owner_call, list_method, list_params, step,
}

abbrev pub count : (SessionEffect → Bool) → List SessionEffect → ℕ
count p [] = 0
count p (e ∷ es) = bit (p e) + count p es

pub count-append :
    (p : SessionEffect → Bool) (es fs : List SessionEffect)
    → count p (es ++ fs) ≡ count p es + count p fs
count-append p [] fs = omega arith
count-append p (e ∷ es) fs = omega (arith, count-append p es fs)

abbrev pub ends_client : SessionEffect → Bool
ends_client client_ending = true
ends_client _ = false

abbrev pub deregisters : SessionEffect → Bool
deregisters (asked by_close method params timeout) = true
deregisters _ = false

abbrev pub registers : SessionEffect → Bool
registers (asked by_start method params timeout) = true
registers _ = false

abbrev pub ticks : SessionEffect → Bool
ticks (asked by_tick method params timeout) = true
ticks _ = false

abbrev pub opens : SessionEffect → Bool
opens opened = true
opens (open_failed err) = true
opens _ = false

-- The states that go with what is awaited.
abbrev pub coherent : SessionState → Awaits → Bool
coherent opening registration = true
coherent opening (dropping err) = true
coherent opening idle = true
coherent active idle = true
coherent closing deregistration = true
coherent closing client_end = true
coherent closing idle = true
coherent closed idle = true
coherent _ _ = false

-- How many ends of the client, deregistrations and settlings of `openSession` may be still to come.
abbrev pub end_credit : SessionState → Awaits → ℕ
end_credit opening registration = 1
end_credit active awaits = 1
end_credit closing deregistration = 1
end_credit _ _ = 0

abbrev pub close_credit : SessionState → ℕ
close_credit opening = 1
close_credit active = 1
close_credit _ = 0

abbrev pub open_credit : Awaits → ℕ
open_credit registration = 1
open_credit (dropping err) = 1
open_credit _ = 0

abbrev pub spend : Bool → ℕ → ℕ
spend true n = n
spend false n = 0

abbrev pub Frugal : MxSession → MxSession × List SessionEffect → Type 0
Frugal s r =
    (coherent r.0.state r.0.awaits ≡ true)
    × (count ends_client r.1 + spend s.config.owns_client (end_credit r.0.state r.0.awaits)
        ≤ spend s.config.owns_client (end_credit s.state s.awaits))
    × (count deregisters r.1 + close_credit r.0.state ≤ close_credit s.state)
    × (count opens r.1 + open_credit r.0.awaits ≤ open_credit s.awaits)
    × (count registers r.1 ≡ 0)
    × (r.0.config ≡ s.config)

abbrev pub made :
    SessionConfig → SessionState → Option AgentState → Option Heartbeat → Awaits → MxSession
made c st a h w = record { config = c; state = st; agent = a; heartbeat = h; awaits = w }

module _ (c : SessionConfig) (st : SessionState) (w : Awaits) (coh : coherent st w ≡ true) where
  pub unmoved-Frugal :
      (a : Option AgentState) (h : Option Heartbeat)
      → Frugal (made c st a h w) (made c st a h w, [])
  unmoved-Frugal a h = (coh, omega arith, omega arith, omega arith, omega arith, refl)

  ticks-Frugal :
      (a : Option AgentState) (h h' : Option Heartbeat) (es : List HeartbeatEffect)
      → Frugal (made c st a h w) (made c st a h' w, tick_calls c a es)
  ticks-Frugal a h h' [] = (coh, omega arith, omega arith, omega arith, omega arith, refl)
  ticks-Frugal none h h' (tick_started ∷ es) = ticks-Frugal none h h' es
  ticks-Frugal (some a) h h' (tick_started ∷ es) =
      let (_, p, q, r, t, _) = ticks-Frugal (some a) h h' es in
      (coh, omega (arith, p), omega (arith, q), omega (arith, r), omega (arith, t), refl)
  ticks-Frugal a h h' (notified_ok ∷ es) = ticks-Frugal a h h' es
  ticks-Frugal a h h' (notified_code k ∷ es) = ticks-Frugal a h h' es

  on_beat-Frugal :
      (a : Option AgentState) (h : Option Heartbeat) (event : HeartbeatEvent)
      → Frugal (made c st a h w) (on_beat h event (made c st a h w))
  on_beat-Frugal a none event = unmoved-Frugal a none
  on_beat-Frugal a (some h) event =
      ticks-Frugal a (some h) (some (Heartbeat.step h event).0) (Heartbeat.step h event).1

abandon-Frugal :
    (c : SessionConfig) (err : Thrown) (a : Option AgentState) (h : Option Heartbeat)
    → Frugal (made c opening a h registration) (abandon err (made c opening a h registration))
abandon-Frugal c err a h = elim (Bool-cases c.owns_client) [
  | inl e ↦ rw e (refl, omega arith, omega arith, omega arith, omega arith, refl)
  | inr e ↦ rw e (refl, omega arith, omega arith, omega arith, omega arith, refl)
]

module _ (c : SessionConfig) (a : Option AgentState) (h : Option Heartbeat) where
  accept_agent-Frugal :
      (found : Option AgentState)
      → Frugal
          (made c opening a h registration)
          (accept_agent found (made c opening a h registration))
  accept_agent-Frugal none = abandon-Frugal c (transport_error protocol) a h
  accept_agent-Frugal (some agent) =
      (refl, omega arith, omega arith, omega arith, omega arith, refl)

  on_registered-Frugal :
      (st : SessionState) (w : Awaits) (o : Outcome Value)
      → coherent st w ≡ true
      → Frugal (made c st a h w) (on_registered w o (made c st a h w))
  on_registered-Frugal opening registration (resolved v) coh =
      accept_agent-Frugal (parse_agent_state v)
  on_registered-Frugal opening registration (rejected err) coh = abandon-Frugal c err a h
  on_registered-Frugal active registration o coh = absurd cc
  on_registered-Frugal closing registration o coh = absurd cc
  on_registered-Frugal closed registration o coh = absurd cc
  on_registered-Frugal st idle o coh = unmoved-Frugal c st idle coh a h
  on_registered-Frugal st (dropping err) o coh = unmoved-Frugal c st (dropping err) coh a h
  on_registered-Frugal st deregistration o coh = unmoved-Frugal c st deregistration coh a h
  on_registered-Frugal st client_end o coh = unmoved-Frugal c st client_end coh a h

  -- The end of `close`, from the closing session on: the end of the client is still to come.
  end_client-Frugal :
      (w : Awaits)
      → end_credit closing w ≡ 1
      → Frugal (made c closing a h w) (end_client (made c closing a h w))
  end_client-Frugal w e = elim (Bool-cases c.owns_client) [
    | inl o ↦ rw o (refl, omega arith, omega arith, omega arith, omega arith, refl)
    | inr o ↦ rw o (refl, omega arith, omega arith, omega arith, omega arith, refl)
  ]

  owner_call-Frugal :
      (st : SessionState) (w : Awaits) (m : Text) (v : Value) (t : Option ℕ)
      → coherent st w ≡ true
      → Frugal (made c st a h w) (owner_call st m v t (made c st a h w))
  owner_call-Frugal opening w m v t coh = unmoved-Frugal c opening w coh a h
  owner_call-Frugal active w m v t coh =
      (coh, omega arith, omega arith, omega arith, omega arith, refl)
  owner_call-Frugal closing w m v t coh =
      (coh, omega arith, omega arith, omega arith, omega arith, refl)
  owner_call-Frugal closed w m v t coh =
      (coh, omega arith, omega arith, omega arith, omega arith, refl)

  on_deregistered-Frugal :
      (st : SessionState) (w : Awaits)
      → coherent st w ≡ true
      → Frugal (made c st a h w) (on_deregistered w (made c st a h w))
  on_deregistered-Frugal closing deregistration coh = end_client-Frugal deregistration refl
  on_deregistered-Frugal opening deregistration coh = absurd cc
  on_deregistered-Frugal active deregistration coh = absurd cc
  on_deregistered-Frugal closed deregistration coh = absurd cc
  on_deregistered-Frugal st idle coh = unmoved-Frugal c st idle coh a h
  on_deregistered-Frugal st registration coh = unmoved-Frugal c st registration coh a h
  on_deregistered-Frugal st (dropping err) coh = unmoved-Frugal c st (dropping err) coh a h
  on_deregistered-Frugal st client_end coh = unmoved-Frugal c st client_end coh a h

  on_client_ended-Frugal :
      (st : SessionState) (w : Awaits) (o : Outcome Unit)
      → coherent st w ≡ true
      → Frugal (made c st a h w) (on_client_ended w o (made c st a h w))
  on_client_ended-Frugal opening (dropping err) o coh =
      (refl, omega arith, omega arith, omega arith, omega arith, refl)
  on_client_ended-Frugal active (dropping err) o coh = absurd cc
  on_client_ended-Frugal closing (dropping err) o coh = absurd cc
  on_client_ended-Frugal closed (dropping err) o coh = absurd cc
  on_client_ended-Frugal closing client_end (resolved _) coh =
      (refl, omega arith, omega arith, omega arith, omega arith, refl)
  on_client_ended-Frugal closing client_end (rejected err) coh =
      (refl, omega arith, omega arith, omega arith, omega arith, refl)
  on_client_ended-Frugal opening client_end o coh = absurd cc
  on_client_ended-Frugal active client_end o coh = absurd cc
  on_client_ended-Frugal closed client_end o coh = absurd cc
  on_client_ended-Frugal st idle o coh = unmoved-Frugal c st idle coh a h
  on_client_ended-Frugal st registration o coh = unmoved-Frugal c st registration coh a h
  on_client_ended-Frugal st deregistration o coh = unmoved-Frugal c st deregistration coh a h

  leave-Frugal :
      (h' : Option Heartbeat)
      → Frugal (made c active a h idle) (end_client (made c closing a h' idle))
  leave-Frugal h' = elim (Bool-cases c.owns_client) [
    | inl o ↦ rw o (refl, omega arith, omega arith, omega arith, omega arith, refl)
    | inr o ↦ rw o (refl, omega arith, omega arith, omega arith, omega arith, refl)
  ]

  deregister-Frugal :
      (m : Option Text) (found : Option AgentState) (h' : Option Heartbeat)
      → Frugal (made c active a h idle) (deregister m found (made c closing a h' idle))
  deregister-Frugal (some m) (some agent) h' =
      (refl, omega arith, omega arith, omega arith, omega arith, refl)
  deregister-Frugal none found h' = leave-Frugal h'
  deregister-Frugal (some m) none h' = leave-Frugal h'

  close-Frugal :
      (st : SessionState) (w : Awaits)
      → coherent st w ≡ true
      → Frugal (made c st a h w) (close st (made c st a h w))
  unfolding close
  close-Frugal opening w coh = unmoved-Frugal c opening w coh a h
  close-Frugal active idle coh = deregister-Frugal c.deregister_method a (stop_heartbeat h)
  close-Frugal active registration coh = absurd cc
  close-Frugal active (dropping err) coh = absurd cc
  close-Frugal active deregistration coh = absurd cc
  close-Frugal active client_end coh = absurd cc
  close-Frugal closing w coh = (coh, omega arith, omega arith, omega arith, omega arith, refl)
  close-Frugal closed w coh = (coh, omega arith, omega arith, omega arith, omega arith, refl)

  pub step-Frugal :
      (st : SessionState) (w : Awaits) (event : SessionEvent)
      → coherent st w ≡ true
      → Frugal (made c st a h w) (step (made c st a h w) event)
  unfolding step
  step-Frugal st w (register_settled o) coh = on_registered-Frugal st w o coh
  step-Frugal st w tick_due coh = on_beat-Frugal c st w coh a h fired
  step-Frugal st w (tick_over o) coh = on_beat-Frugal c st w coh a h (tick_settled o)
  step-Frugal st w (owner_called m v t) coh = owner_call-Frugal st w m v t coh
  step-Frugal st w (liveness_asked t) coh =
      owner_call-Frugal st w list_method (list_params c.room) t coh
  step-Frugal st w close_called coh = close-Frugal st w coh
  step-Frugal st w (deregister_settled o) coh = on_deregistered-Frugal st w coh
  step-Frugal st w (client_ended o) coh = on_client_ended-Frugal st w o coh
