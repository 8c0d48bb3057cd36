-- ===== src/Invocation/State.antt =====
-- The state token of a reply, and the table that sorts the tokens.
use mx_loom.Common.{Option, none, some, [], ◌∷◌, ◌or_else◌}
use mx_loom.Text.{Text, codes}
use mx_loom.Text.Token.{normalise_token}
use mx_loom.Json.{Value, get, read_string}
use mx_loom.Table.{Slot, missing, Table, read}

pub data StateKind : Type 0 where
  running awaiting_approval ok fail cancelled : StateKind

abbrev pub invocation_state_kind : Table StateKind
invocation_state_kind =
    ("running", running)
    ∷ ("in_flight", running)
    ∷ ("inflight", running)
    ∷ ("executing", running)
    ∷ ("active", running)
    ∷ ("pending", running)
    ∷ ("queued", running)
    ∷ ("started", running)
    ∷ ("dispatched", running)
    ∷ ("awaiting_approval", awaiting_approval)
    ∷ ("awaiting", awaiting_approval)
    ∷ ("held", awaiting_approval)
    ∷ ("approval_pending", awaiting_approval)
    ∷ ("pending_approval", awaiting_approval)
    ∷ ("needs_approval", awaiting_approval)
    ∷ ("ok", ok)
    ∷ ("completed", ok)
    ∷ ("complete", ok)
    ∷ ("succeeded", ok)
    ∷ ("success", ok)
    ∷ ("done", ok)
    ∷ ("finished", ok)
    ∷ ("resolved", ok)
    ∷ ("denied", fail)
    ∷ ("denied_by_policy", fail)
    ∷ ("policy_denied", fail)
    ∷ ("rejected", fail)
    ∷ ("approval_denied", fail)
    ∷ ("approval_rejected", fail)
    ∷ ("approval_expired", fail)
    ∷ ("approval_timeout", fail)
    ∷ ("untrusted", fail)
    ∷ ("untrusted_key", fail)
    ∷ ("failed", fail)
    ∷ ("error", fail)
    ∷ ("errored", fail)
    ∷ ("faulted", fail)
    ∷ ("not_found", fail)
    ∷ ("timeout", fail)
    ∷ ("timed_out", fail)
    ∷ ("offline", fail)
    ∷ ("target_offline", fail)
    ∷ ("agent_offline", fail)
    ∷ ("unreachable", fail)
    ∷ ("cancelled", cancelled)
    ∷ ("canceled", cancelled)
    ∷ ("aborted", cancelled)
    ∷ []

abbrev pub normalised : Option Text → Option Text
normalised none = none
normalised (some raw) = some (normalise_token raw)

unfoldable pub state_token : Value → Option Text
state_token o = normalised (
    read_string (get (codes "state") o)
    or_else read_string (get (codes "status") o)
    or_else read_string (get (codes "phase") o))

-- The kind that the switch is on: `undefined` where there is no token.
unfoldable pub kind_of_token : Option Text → Slot StateKind
kind_of_token none = missing
kind_of_token (some token) = read invocation_state_kind token
