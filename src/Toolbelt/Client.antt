-- ===== src/Toolbelt/Client.antt =====
-- packages/toolbelt/src/client.ts: one client over two transports, with failover and retry between
-- the outbound guard and the inbound redaction.
pub mod Laws
use mx_loom.Common.{ℕ, suc, Bool, true, false, Option, none, some, List, [], ◌∷◌, if◌then◌else◌}
use mx_loom.Text.{Text}
use mx_loom.Json.{Value}
use mx_loom.Toolbelt.Transport.{
  not_running, invalid_args, Thrown, transport_error, Outcome, resolved, rejected,
}
use mx_loom.Toolbelt.Guards.{no_credential, redact_secrets}
use mx_loom.Toolbelt.Retry.{RetryPolicy, attempted, Log, with_retry}

pub data Which : Type 0 where
  ipc cli : Which

pub data TransportPreference : Type 0 where
  auto only_ipc only_cli : TransportPreference

-- The options that the calls read, and the state; `retry` is `none` where it is `false`.
pub record MxClient : Type 0 where
  pub preference : TransportPreference
  pub retry : Option RetryPolicy
  pub active : Option Which
  pub has_ipc : Bool
  pub has_cli : Bool

abbrev pub Calls : Type 0
Calls = Log Which Value

-- The two transports, `Math.random` and `existsSync(socketPath)`, by all that happened before.
pub record World : Type 0 where
  pub answer : Which → Text → Value → Calls → Outcome Value
  pub random : Calls → ℕ
  pub socket_exists : Calls → Bool

-- A call's outcome, the client after it and all that happened; `none` is no outcome of the code.
abbrev pub Result : Type 0
Result = Option (Outcome Value × MxClient × Calls)

-- `#getIpc`, `#getCli`: the transport is built at its first use.
unfoldable pub construct : Which → MxClient → MxClient
construct ipc c = record c { has_ipc = true }
construct cli c = record c { has_cli = true }

-- `this.#active = which`, where the call did not throw.
abbrev pub note_active : Which → MxClient → Outcome Value × Calls → Outcome Value × MxClient × Calls
note_active which c (resolved v, log) = (resolved v, record c { active = some which }, log)
note_active which c (rejected err, log) = (rejected err, c, log)

abbrev pub settled : Which → MxClient → Option (Outcome Value × Calls) → Result
settled which c none = none
settled which c (some r) = some (note_active which c r)

-- `run`, or `withRetry(run, …)` on fuel that exceeds the attempts.
abbrev pub run_retried :
    Option RetryPolicy
    → Which
    → (Calls → Outcome Value)
    → (Calls → ℕ)
    → Calls
    → Option (Outcome Value × Calls)
run_retried none which run random log = some (run log, attempted which (run log) ∷ log)
run_retried (some policy) which run random log =
    with_retry (suc policy.max_attempts) (record { tag = which; run = run; random = random }) policy
      1 log

module _ (world : World) (method : Text) (params : Value) where
  unfoldable pub attempt : Which → MxClient → Calls → Result
  attempt which c log =
      settled which (construct which c)
        (run_retried c.retry which (world.answer which method params) world.random log)

  -- The `catch` that goes on only after `not_running`.
  abbrev pub on_not_running : Result → (MxClient → Calls → Result) → Result
  on_not_running (some (rejected (transport_error not_running), c, log)) next = next c log
  on_not_running r next = r

  -- The combined error has the same code as the CLI's.
  unfoldable pub select : MxClient → Calls → Result
  unfolding attempt
  select c log =
      if world.socket_exists log
      then on_not_running (attempt ipc c log) (λ c' log'. attempt cli c' log')
      else attempt cli c log

  abbrev pub after_sticky : Option Which → MxClient → Calls → Result
  after_sticky none c log = select c log
  after_sticky (some which) c log =
      on_not_running (attempt which c log) (λ c' log'. select (record c' { active = none }) log')

  unfoldable pub call_auto : MxClient → Calls → Result
  unfolding select
  call_auto c log = after_sticky c.active c log

  abbrev pub dispatch : TransportPreference → MxClient → Calls → Result
  dispatch auto c log = call_auto c log
  dispatch only_ipc c log = attempt ipc c log
  dispatch only_cli c log = attempt cli c log

  abbrev pub redacted : Result → Result
  redacted (some (resolved v, c, log)) = some (resolved (redact_secrets v), c, log)
  redacted r = r

  unfoldable pub mx_call : MxClient → Calls → Result
  unfolding call_auto
  mx_call c log =
      if no_credential params
      then redacted (dispatch c.preference c log)
      else some (rejected (transport_error invalid_args), c, log)

-- Whichever transports were built are closed; the client can be used again.
unfoldable pub close : MxClient → List Which × MxClient
close c = (
  (if c.has_ipc
      then ipc ∷ (if c.has_cli then cli ∷ [] else [])
      else if c.has_cli
      then cli ∷ []
      else []),
  record c { has_ipc = false; has_cli = false; active = none },
)
