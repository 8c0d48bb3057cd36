-- ===== src/Cancel.antt =====
-- packages/registry/src/handlers/cancel.ts: a signed request to cancel an invocation, and the
-- narrow reply that acknowledges it.
pub mod Laws
use Prim.Native.String.{String}
use mx_loom.Common.{
  Bool, true, false, any, Option, none, some, List, [], ◌∷◌, ◌or_else◌, if◌then◌else◌,
}
use mx_loom.Text.{Text, codes, eq_text}
use mx_loom.Text.Token.{normalise_token}
use mx_loom.Json.{Value, bool, str, obj, field, end, get, as_record, read_string}
use mx_loom.Errors.{known, internal}
use mx_loom.Envelope.{AuditRef, ToolResult, ok_result, errored_result}
use mx_loom.Invocation.{extract_audit_ref}
use mx_loom.Invocation.State.{normalised}
use mx_loom.Invocation.Failure.{failure_result, failure_code, has_error_signal}
use mx_loom.Fault.{empty_audit_ref, fault_to_result}
use mx_loom.Daemon.{Reply, resolved, rejected, History, call, Deps}

abbrev pub unrecognised_cancel_message : Text
unrecognised_cancel_message = codes "unrecognised cancel response"

abbrev pub nothing_to_cancel : List String
nothing_to_cancel =
    "already_complete" ∷ "already_completed" ∷ "already_done" ∷ "already_finished" ∷ "complete"
    ∷ "completed" ∷ "succeeded" ∷ "success" ∷ "done" ∷ "finished" ∷ "resolved" ∷ "noop" ∷ "no_op"
    ∷ "nothing_to_cancel" ∷ []

pub record CancelInput : Type 0 where
  pub handle : Text

pub record CancelResult : Type 0 where
  pub handle : Text
  pub cancelled : Bool
  pub state : Option Text

-- `NOTHING_TO_CANCEL.has(token)`.
unfoldable pub is_nothing_to_cancel : Text → Bool
is_nothing_to_cancel token = any (λ name. eq_text (codes name) token) nothing_to_cancel

abbrev cancelled_by_state : Option Text → Bool
cancelled_by_state none = true
cancelled_by_state (some s) = if is_nothing_to_cancel (normalise_token s) then false else true

abbrev cancelled_by_flag : Value → Bool → Bool
cancelled_by_flag (bool b) inferred = b
cancelled_by_flag v inferred = inferred

unfoldable pub read_cancelled : Value → Option Text → Bool
read_cancelled o state = cancelled_by_flag (get (codes "cancelled") o) (cancelled_by_state state)

abbrev pub state_of : Value → Option Text
state_of o = read_string (get (codes "state") o) or_else read_string (get (codes "status") o)

unfoldable pub state_token_of : Value → Option Text
state_token_of o = normalised (state_of o)

unfoldable pub cancel_ok : Text → Value → AuditRef → ToolResult CancelResult
cancel_ok handle o ref =
    ok_result
      (record { handle = handle; cancelled = read_cancelled o (state_of o); state = state_of o })
      ref

abbrev cancel_record : Text → Option Value → ToolResult CancelResult
cancel_record handle none =
    errored_result (known internal) (some unrecognised_cancel_message) (extract_audit_ref none)
cancel_record handle (some o) =
    let ref = extract_audit_ref (some o) in
    if has_error_signal o
    then failure_result (failure_code o (state_token_of o)) ref
    else cancel_ok handle o ref

unfoldable pub cancel_response_to_result : Value → Text → ToolResult CancelResult
cancel_response_to_result raw handle = cancel_record handle (as_record raw)

unfoldable pub cancel_reply : Text → Reply → ToolResult CancelResult
cancel_reply handle (resolved raw) = cancel_response_to_result raw handle
cancel_reply handle (rejected err) = fault_to_result err empty_audit_ref

abbrev pub cancel_params : Text → Value
cancel_params handle = obj (field (codes "invocation_id") (str handle) end)

unfoldable pub mx_cancel : CancelInput → Deps → History → ToolResult CancelResult × History
mx_cancel input deps h =
    let (reply, h') = call deps.env (codes "invocation.cancel") (cancel_params input.handle) h in
    (cancel_reply input.handle reply, h')
