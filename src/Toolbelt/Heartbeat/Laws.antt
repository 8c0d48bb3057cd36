-- ===== src/Toolbelt/Heartbeat/Laws.antt =====
-- No tick overlaps another, and nothing comes after a stop.
use mx_loom.Common.{
  ℕ, suc, ◌+◌, ◌≤◌, ◌≡◌, refl, arith, Bool, true, false, List, [], ◌∷◌, ◌++◌, ap, ◌∙◌, sym,
}
use mathlib.Core.List.{append_assoc, append-nil}
use mx_loom.Toolbelt.Transport.{resolved, rejected}
use mx_loom.Toolbelt.Heartbeat.{
  Heartbeat, HeartbeatEvent, fired, tick_settled, halted, HeartbeatEffect, tick_started,
  notified_ok, notified_code, step, run, start_heartbeat,
}

-- The ticks that were started, and the events in which one settled.
abbrev pub starts : List HeartbeatEffect → ℕ
starts [] = 0
starts (tick_started ∷ effects) = suc (starts effects)
starts (notified_ok ∷ effects) = starts effects
starts (notified_code c ∷ effects) = starts effects

abbrev pub settles : List HeartbeatEvent → ℕ
settles [] = 0
settles (tick_settled o ∷ events) = suc (settles events)
settles (fired ∷ events) = settles events
settles (halted ∷ events) = settles events

abbrev pending : Bool → ℕ
pending true = 1
pending false = 0

pending_le : (b : Bool) → pending b ≤ 1
pending_le true = omega arith
pending_le false = omega arith

starts-append : (es fs : List HeartbeatEffect) → starts (es ++ fs) ≡ starts es + starts fs
starts-append [] fs = omega arith
starts-append (tick_started ∷ es) fs = omega (arith, starts-append es fs)
starts-append (notified_ok ∷ es) fs = starts-append es fs
starts-append (notified_code c ∷ es) fs = starts-append es fs

abbrev pub built : Bool → Bool → Heartbeat
built s f = record { stopped = s; in_flight = f }

-- A step, by the two flags.
step_bound :
    (s f : Bool) (event : HeartbeatEvent)
    → starts (step (built s f) event).1 + pending f
      ≤ settles (event ∷ []) + pending (step (built s f) event).0.in_flight
unfolding step
step_bound true f fired = omega arith
step_bound false true fired = omega arith
step_bound false false fired = omega arith
step_bound true true (tick_settled o) = omega arith
step_bound false true (tick_settled (resolved o)) = omega arith
step_bound false true (tick_settled (rejected o)) = omega arith
step_bound true false (tick_settled o) = omega arith
step_bound false false (tick_settled o) = omega arith
step_bound s f halted = omega arith

settles_first :
    (event : HeartbeatEvent) (events : List HeartbeatEvent)
    → settles (event ∷ events) ≡ settles (event ∷ []) + settles events
settles_first fired events = omega arith
settles_first (tick_settled o) events = omega arith
settles_first halted events = omega arith

run_bound :
    (h : Heartbeat) (events : List HeartbeatEvent)
    → starts (run h events).1 + pending h.in_flight
      ≤ settles events + pending (run h events).0.in_flight
unfolding run
run_bound h [] = omega arith
run_bound h (event ∷ events) = omega (
  arith,
  starts-append (step h event).1 (run (step h event).0 events).1,
  settles_first event events,
  step_bound h.stopped h.in_flight event,
  run_bound (step h event).0 events,
)

pub stopped_step :
    (f : Bool) (event : HeartbeatEvent)
    → ((step (built true f) event).0.stopped ≡ true) × ((step (built true f) event).1 ≡ [])
unfolding step
stopped_step f fired = (refl, refl)
stopped_step true (tick_settled o) = (refl, refl)
stopped_step false (tick_settled o) = (refl, refl)
stopped_step f halted = (refl, refl)

-- Nothing comes from a stopped heartbeat.
stopped_run :
    (f s : Bool) (events : List HeartbeatEvent) → s ≡ true → (run (built s f) events).1 ≡ []
unfolding run
stopped_run f s [] e = refl
stopped_run f true (event ∷ events) e =
    let (again, silent) = stopped_step f event in
    rw (
      silent,
      stopped_run (step (built true f) event).0.in_flight (step (built true f) event).0.stopped
          events again,
    )
stopped_run f false (event ∷ events) e = absurd cc

run-append :
    (h : Heartbeat) (before after : List HeartbeatEvent)
    → (run h (before ++ after)).1 ≡ (run h before).1 ++ (run (run h before).0 after).1
unfolding run
run-append h [] after = refl
run-append h (event ∷ before) after =
    ap (λ l. (step h event).1 ++ l) (run-append (step h event).0 before after)
    ∙ sym (append_assoc (step h event).1 (run (step h event).0 before).1 _)

halted_silent : (h : Heartbeat) (after : List HeartbeatEvent) → (run h (halted ∷ after)).1 ≡ []
unfolding run step
halted_silent h after = stopped_run h.in_flight true after refl

-- Whatever happens to a heartbeat: at most one tick more has been started than have settled, and from
-- a stop on, no tick is started and nothing is notified.
pub no_overlap_no_echo :
    (before after : List HeartbeatEvent)
    → (starts (run start_heartbeat before).1 ≤ suc (settles before))
      × ((run start_heartbeat (before ++ (halted ∷ after))).1 ≡ (run start_heartbeat before).1)
no_overlap_no_echo before after = (
  omega (
    arith,
    run_bound start_heartbeat before,
    pending_le (run start_heartbeat before).0.in_flight,
  ),
  run-append start_heartbeat before (halted ∷ after)
      ∙ ap (λ l. (run start_heartbeat before).1 ++ l)
          (halted_silent (run start_heartbeat before).0 after)
      ∙ append-nil (run start_heartbeat before).1,
)
