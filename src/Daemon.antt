-- ===== src/Daemon.antt =====
-- The injected seams of packages/registry/src/handlers/deps.ts: the daemon call, the clock, the
-- sleep and the key generator. They are code outside the repository or of the runtime, so each is
-- a function of everything that happened before, and a handler is a function of that history.
pub mod Traces
use mx_loom.Common.{ℕ, Option, List, ◌∷◌}
use mx_loom.Text.{Text}
use mx_loom.Json.{Value}

-- A promise that settles.
pub data Reply : Type 0 where
  resolved : Value → Reply
  rejected : Value → Reply

pub data Event : Type 0 where
  called : Text → Value → Event
  slept : ℕ → Event
  clock_read : Event
  key_made : Event

-- What happened, the latest first.
abbrev pub History : Type 0
History = List Event

pub record Env : Type 0 where
  pub answer : History → Text → Value → Reply
  pub clock : History → ℕ
  pub fresh_key : History → Text

-- A JavaScript number, as far as the handlers look at one; fractions are not modelled.
pub data Number : Type 0 where
  whole : ℕ → Number
  below_zero : Number
  not_finite : Number

-- `deps.daemon.call(method, params)`.
abbrev pub call : Env → Text → Value → History → Reply × History
call env method params h = (env.answer h method params, called method params ∷ h)

-- The session's room and the poll interval, where the binding gives them.
pub record Deps : Type 0 where
  pub env : Env
  pub room : Option Text
  pub poll_interval_ms : Option Number
