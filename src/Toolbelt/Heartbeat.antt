-- ===== src/Toolbelt/Heartbeat.antt =====
-- packages/toolbelt/src/heartbeat.ts: a tick every interval, never two at once. What happens to a
-- heartbeat is an event, and one event is handled at a time.
pub mod Laws
use mx_loom.Common.{
  ℕ, Bool, true, false, ◌||◌, Option, none, some, List, [], ◌∷◌, ◌++◌, if◌then◌else◌,
}
use mx_loom.Toolbelt.Transport.{
  TransportErrorCode, Thrown, transport_error, other_error, Outcome, resolved, rejected,
}

pub record Heartbeat : Type 0 where
  pub stopped : Bool
  pub in_flight : Bool

-- The code of a failed tick; `none` is `internal`.
abbrev pub code_of : Thrown → Option TransportErrorCode
code_of (transport_error c) = some c
code_of other_error = none

-- The schedule fires, the pending tick settles, and the owner stops the heartbeat.
pub data HeartbeatEvent : Type 0 where
  fired : HeartbeatEvent
  tick_settled : Outcome Unit → HeartbeatEvent
  halted : HeartbeatEvent

pub data HeartbeatEffect : Type 0 where
  tick_started : HeartbeatEffect
  notified_ok : HeartbeatEffect
  notified_code : Option TransportErrorCode → HeartbeatEffect

abbrev pub notice : Outcome Unit → HeartbeatEffect
notice (resolved _) = notified_ok
notice (rejected err) = notified_code (code_of err)

unfoldable pub fire : Heartbeat → Heartbeat × List HeartbeatEffect
fire h =
    if h.stopped || h.in_flight then (h, []) else (record h { in_flight = true }, tick_started ∷ [])

-- A tick settles only where one is pending.
unfoldable pub settle : Heartbeat → Outcome Unit → Heartbeat × List HeartbeatEffect
settle h outcome =
    if h.in_flight
    then (record h { in_flight = false }, (if h.stopped then [] else notice outcome ∷ []))
    else (h, [])

unfoldable pub step : Heartbeat → HeartbeatEvent → Heartbeat × List HeartbeatEffect
unfolding fire settle
step h fired = fire h
step h (tick_settled outcome) = settle h outcome
step h halted = (record h { stopped = true }, [])

unfoldable pub run : Heartbeat → List HeartbeatEvent → Heartbeat × List HeartbeatEffect
run h [] = (h, [])
run h (event ∷ events) =
    let (h1, effects) = step h event in let (h2, later) = run h1 events in (h2, effects ++ later)

abbrev pub start_heartbeat : Heartbeat
start_heartbeat = record { stopped = false; in_flight = false }
