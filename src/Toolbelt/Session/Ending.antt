-- ===== src/Toolbelt/Session/Ending.antt =====
-- A close ends, whatever else happens meanwhile.
use mx_loom.Common.{
  ℕ, ◌≤◌, ◌≡◌, refl, arith, Bool, true, false, ◌&&◌, Option, none, some, List, [], ◌∷◌, ◌++◌, ◌∙◌,
  and_split, ap, Bool-cases, inl, inr,
}
use mx_loom.Text.{Text}
use mx_loom.Toolbelt.Transport.{Outcome, resolved, rejected}
use mx_loom.Toolbelt.Heartbeat.{Heartbeat, HeartbeatEvent, fired, tick_settled}
use mx_loom.Toolbelt.Session.Params.{AgentState}
use mx_loom.Toolbelt.Session.Steps.{
  SessionState, opening, active, closing, closed, Awaits, idle, registration, dropping,
  deregistration, client_end, SessionConfig, MxSession, SessionEffect, SessionEvent,
  register_settled, tick_due, tick_over, owner_called, liveness_asked, close_called,
  deregister_settled, client_ended, on_beat, end_client, deregister, close, stop_heartbeat, step,
  run,
}
use mx_loom.Toolbelt.Session.Frugal.{made}

-- How far a close is from its end; three outside of one.
abbrev rank : SessionState → Awaits → ℕ
rank closing deregistration = 2
rank closing client_end = 1
rank closed idle = 0
rank _ _ = 3

-- The end of the client does not fail.
abbrev pub ends_well : SessionEvent → Bool
ends_well (client_ended (rejected err)) = false
ends_well _ = true

abbrev pub all_end_well : List SessionEvent → Bool
all_end_well [] = true
all_end_well (event ∷ events) = ends_well event && all_end_well events

abbrev Nearer : ℕ → MxSession × List SessionEffect → Type 0
Nearer n r = rank r.0.state r.0.awaits ≤ n

module _ (c : SessionConfig) (a : Option AgentState) where
  on_beat-Nearer :
      (st : SessionState) (w : Awaits) (h : Option Heartbeat) (event : HeartbeatEvent)
      → Nearer (rank st w) (on_beat h event (made c st a h w))
  on_beat-Nearer st w none event = omega arith
  on_beat-Nearer st w (some h) event = omega arith

  end_client-Nearer :
      (h : Option Heartbeat) (w : Awaits) → Nearer 1 (end_client (made c closing a h w))
  end_client-Nearer h w = elim (Bool-cases c.owns_client) [
    | inl o ↦ rw o (omega arith)
    | inr o ↦ rw o (omega arith)
  ]

  step-Nearer :
      (st : SessionState) (w : Awaits) (h : Option Heartbeat) (event : SessionEvent)
      → rank st w ≤ 2
      → ends_well event ≡ true
      → Nearer (rank st w) (step (made c st a h w) event)
  unfolding step close
  step-Nearer st w h tick_due l e = on_beat-Nearer st w h fired
  step-Nearer st w h (tick_over o) l e = on_beat-Nearer st w h (tick_settled o)
  step-Nearer opening w h event l e = absurd (omega arith)
  step-Nearer active w h event l e = absurd (omega arith)
  step-Nearer closing registration h event l e = absurd (omega arith)
  step-Nearer closing (dropping err) h event l e = absurd (omega arith)
  step-Nearer closing idle h event l e = absurd (omega arith)
  step-Nearer closed registration h event l e = absurd (omega arith)
  step-Nearer closed (dropping err) h event l e = absurd (omega arith)
  step-Nearer closed deregistration h event l e = absurd (omega arith)
  step-Nearer closed client_end h event l e = absurd (omega arith)
  step-Nearer closing deregistration h (deregister_settled o) l e =
      omega (arith, end_client-Nearer h deregistration)
  step-Nearer closing client_end h (deregister_settled o) l e = omega arith
  step-Nearer closed idle h (deregister_settled o) l e = omega arith
  step-Nearer closing deregistration h (client_ended o) l e = omega arith
  step-Nearer closing client_end h (client_ended (resolved _)) l e = omega arith
  step-Nearer closing client_end h (client_ended (rejected err)) l e = absurd cc
  step-Nearer closed idle h (client_ended o) l e = omega arith
  step-Nearer closing deregistration h (register_settled o) l e = omega arith
  step-Nearer closing client_end h (register_settled o) l e = omega arith
  step-Nearer closed idle h (register_settled o) l e = omega arith
  step-Nearer closing w h (owner_called m v t) l e = omega arith
  step-Nearer closed w h (owner_called m v t) l e = omega arith
  step-Nearer closing w h (liveness_asked t) l e = omega arith
  step-Nearer closed w h (liveness_asked t) l e = omega arith
  step-Nearer closing w h close_called l e = omega arith
  step-Nearer closed w h close_called l e = omega arith

  deregistered-Nearer :
      (st : SessionState) (w : Awaits) (h : Option Heartbeat) (o : Outcome Unit)
      → rank st w ≤ 2
      → Nearer 1 (step (made c st a h w) (deregister_settled o))
  unfolding step
  deregistered-Nearer closing deregistration h o l = end_client-Nearer h deregistration
  deregistered-Nearer closing client_end h o l = omega arith
  deregistered-Nearer closed idle h o l = omega arith
  deregistered-Nearer opening w h o l = absurd (omega arith)
  deregistered-Nearer active w h o l = absurd (omega arith)
  deregistered-Nearer closing registration h o l = absurd (omega arith)
  deregistered-Nearer closing (dropping err) h o l = absurd (omega arith)
  deregistered-Nearer closing idle h o l = absurd (omega arith)
  deregistered-Nearer closed registration h o l = absurd (omega arith)
  deregistered-Nearer closed (dropping err) h o l = absurd (omega arith)
  deregistered-Nearer closed deregistration h o l = absurd (omega arith)
  deregistered-Nearer closed client_end h o l = absurd (omega arith)

  ended-Nearer :
      (st : SessionState) (w : Awaits) (h : Option Heartbeat)
      → rank st w ≤ 1
      → Nearer 0 (step (made c st a h w) (client_ended (resolved tt)))
  unfolding step
  ended-Nearer closing client_end h l = omega arith
  ended-Nearer closed idle h l = omega arith
  ended-Nearer opening w h l = absurd (omega arith)
  ended-Nearer active w h l = absurd (omega arith)
  ended-Nearer closing registration h l = absurd (omega arith)
  ended-Nearer closing (dropping err) h l = absurd (omega arith)
  ended-Nearer closing deregistration h l = absurd (omega arith)
  ended-Nearer closing idle h l = absurd (omega arith)
  ended-Nearer closed registration h l = absurd (omega arith)
  ended-Nearer closed (dropping err) h l = absurd (omega arith)
  ended-Nearer closed deregistration h l = absurd (omega arith)
  ended-Nearer closed client_end h l = absurd (omega arith)

  begun-Nearer :
      (st : SessionState) (h : Option Heartbeat) (w : Awaits)
      → st ≡ active
      → Nearer 2 (step (made c st a h w) close_called)
  unfolding step close
  begun-Nearer active h w e = first c.deregister_method a
    where
      first :
          (m : Option Text) (found : Option AgentState)
          → Nearer 2 (deregister m found (made c closing a (stop_heartbeat h) w))
      first (some m) (some agent) = omega arith
      first none found = omega (arith, end_client-Nearer (stop_heartbeat h) w)
      first (some m) none = omega (arith, end_client-Nearer (stop_heartbeat h) w)
  begun-Nearer opening h w e = absurd cc
  begun-Nearer closing h w e = absurd cc
  begun-Nearer closed h w e = absurd cc

rank_closed : (st : SessionState) (w : Awaits) → rank st w ≤ 0 → st ≡ closed
rank_closed closed w l = refl
rank_closed opening w l = absurd (omega arith)
rank_closed active w l = absurd (omega arith)
rank_closed closing idle l = absurd (omega arith)
rank_closed closing registration l = absurd (omega arith)
rank_closed closing (dropping err) l = absurd (omega arith)
rank_closed closing deregistration l = absurd (omega arith)
rank_closed closing client_end l = absurd (omega arith)

run-Nearer :
    (s : MxSession) (events : List SessionEvent)
    → rank s.state s.awaits ≤ 2
    → all_end_well events ≡ true
    → Nearer (rank s.state s.awaits) (run s events)
unfolding run
run-Nearer s [] l e = omega arith
run-Nearer s (event ∷ events) l e =
    let (e1, e2) = and_split (ends_well event) (all_end_well events) e in
    let p = step-Nearer s.config s.agent s.state s.awaits s.heartbeat event l e1 in
    omega (arith, p, run-Nearer (step s event).0 events (omega (arith, p, l)) e2)

run-append_state :
    (s : MxSession) (es fs : List SessionEvent) → (run s (es ++ fs)).0 ≡ (run (run s es).0 fs).0
unfolding run
run-append_state s [] fs = refl
run-append_state s (event ∷ es) fs = run-append_state (step s event).0 es fs

module _ (o : Outcome Unit) (e1 e2 e3 : List SessionEvent) (g1 : all_end_well e1 ≡ true)
    (g2 : all_end_well e2 ≡ true) (g3 : all_end_well e3 ≡ true) where
  last_part :
      (s : MxSession)
      → rank s.state s.awaits ≤ 1
      → (run s (e2 ++ (client_ended (resolved tt) ∷ e3))).0.state ≡ closed
  unfolding run
  last_part s l =
      let s2 = (run s e2).0 in
      let l2 = run-Nearer s e2 (omega (arith, l)) g2 in
      let s3 = (step s2 (client_ended (resolved tt))).0 in
      let l3 =
        ended-Nearer s2.config s2.agent s2.state s2.awaits s2.heartbeat (omega (arith, l2, l)) in
      let l4 = run-Nearer s3 e3 (omega (arith, l3)) g3 in
      ap (λ s. s.state) (run-append_state s e2 (client_ended (resolved tt) ∷ e3))
      ∙ rank_closed (run s3 e3).0.state (run s3 e3).0.awaits (omega (arith, l3, l4))

  middle_part :
      (s : MxSession)
      → rank s.state s.awaits ≤ 2
      → (run s (e1 ++ (deregister_settled o ∷ e2 ++ (client_ended (resolved tt) ∷ e3)))).0.state
        ≡ closed
  unfolding run
  middle_part s l =
      let s1 = (run s e1).0 in
      let l1 = run-Nearer s e1 l g1 in
      let l2 =
        deregistered-Nearer s1.config s1.agent s1.state s1.awaits s1.heartbeat o
          (omega (arith, l1, l)) in
      ap (λ s. s.state)
        (run-append_state s e1 (deregister_settled o ∷ e2 ++ (client_ended (resolved tt) ∷ e3)))
      ∙ last_part (step s1 (deregister_settled o)).0 l2

-- An active session that is closed ends as closed, once the deregistration has settled in any way and
-- then the client has ended, with any events before, between and after, as long as no end of the
-- client fails; an event that nothing waits for changes nothing.
pub close_ends :
    (s : MxSession) (o : Outcome Unit) (e1 e2 e3 : List SessionEvent)
    → s.state ≡ active
    → all_end_well e1 ≡ true
    → all_end_well e2 ≡ true
    → all_end_well e3 ≡ true
    → (run s (
        close_called ∷ e1
        ++ (deregister_settled o ∷ e2 ++ (client_ended (resolved tt) ∷ e3)))).0.state
      ≡ closed
unfolding run
close_ends s o e1 e2 e3 h g1 g2 g3 =
    middle_part o e1 e2 e3 g1 g2 g3 (step s close_called).0
      (begun-Nearer s.config s.agent s.state s.heartbeat s.awaits h)
