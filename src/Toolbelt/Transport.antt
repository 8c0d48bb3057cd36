-- ===== src/Toolbelt/Transport.antt =====
-- packages/toolbelt/src/ipc/errors.ts and transport.ts: the closed set of transport codes, and what
-- a call of a transport settles as.
use mx_loom.Common.{List, ◌∷◌}
use mx_loom.Text.{Text}
use mx_loom.Json.{Value}

pub data TransportErrorCode : Type 0 where
  not_running connect_failed timeout closed frame protocol rpc invalid_args : TransportErrorCode

-- What a rejection carries: a `TransportError` with its code, or anything else. Messages and causes
-- are not modelled.
pub data Thrown : Type 0 where
  transport_error : TransportErrorCode → Thrown
  other_error : Thrown

pub data Outcome (A : Type 0) : Type 0 where
  resolved : A → Outcome A
  rejected : Thrown → Outcome A

-- `err instanceof TransportError ? err.code : d`.
abbrev pub code_or : TransportErrorCode → Thrown → TransportErrorCode
code_or d (transport_error c) = c
code_or d other_error = d

-- The calls that went out, the latest first, and a peer that answers as it likes: the reply is a
-- function of everything sent before.
pub record Sent : Type 0 where
  pub method : Text
  pub params : Value

abbrev pub Peer : Type 0
Peer = List Sent → Text → Value → Outcome Value

abbrev pub call : Peer → Text → Value → List Sent → Outcome Value × List Sent
call peer method params sent =
    (peer sent method params, record { method = method; params = params } ∷ sent)
