-- ===== src/Invocation.antt =====
-- packages/registry/src/handlers/invocation.ts: a reply of `invocation.get`, `call.start` or
-- `exec.start` becomes the one envelope.
pub mod State
pub mod Failure
pub mod Rule
pub mod Conforms
pub mod Messages
pub mod Agree
use mx_loom.Common.{
  Bool, true, false, ◌||◌, Option, none, some, [], is_some, get_or, ◌or_else◌, if◌then◌else◌,
}
use mx_loom.Text.{Text, codes, eq_text, is_empty}
use mx_loom.Json.{Value, bool, str, obj, end, get, as_record, read_string}
use mx_loom.Table.{Slot, own, inherited, missing}
use mx_loom.Errors.{known, internal}
use mx_loom.Envelope.{
  ToolStatus, ok, running, awaiting_approval, denied, error, Risk, low, medium, high, ApprovalInfo,
  AuditRef, ToolResult, ok_result, running_result, awaiting_result, errored_result,
}
use State.{StateKind, state_token, kind_of_token}
use Failure.{failure_result, failure_code, has_error_signal}

unfoldable pub unrecognised_message : Text
unrecognised_message = codes "unrecognised invocation state"

unfoldable pub cancelled_message : Text
cancelled_message = codes "the invocation was cancelled"

-- `obj.audit_ref` where it is a record, else the record itself.
abbrev audit_source : Value → Value
audit_source o = get_or (as_record (get (codes "audit_ref") o)) o

unfoldable pub extract_audit_ref : Option Value → AuditRef
extract_audit_ref reply =
    let o = get_or reply (obj end) in
    let a = audit_source o in
    record {
      invocation_id =
          read_string (get (codes "invocation_id") a)
          or_else read_string (get (codes "invocation_id") o)
          or_else read_string (get (codes "id") o);
      request_id =
          read_string (get (codes "request_id") a) or_else read_string (get (codes "request_id") o);
      room = read_string (get (codes "room") a) or_else read_string (get (codes "room") o);
      event_id =
          read_string (get (codes "event_id") a) or_else read_string (get (codes "event_id") o);
    }

unfoldable pub handle_of : Value → AuditRef → Text
handle_of o ref =
    get_or
      (read_string (get (codes "handle") o)
        or_else ref.invocation_id
        or_else read_string (get (codes "id") o))
      []

unfoldable pub result_of : Value → Value
result_of o = get_or (as_record (get (codes "result") o)) (obj end)

-- Whatever is no level of the enum is read as the highest.
unfoldable pub read_risk : Value → Risk
read_risk (str s) =
    if eq_text s (codes "low") then low else if eq_text s (codes "medium") then medium else high
read_risk _ = high

unfoldable pub approval_of : Value → ApprovalInfo
approval_of o =
    let a = get_or (as_record (get (codes "approval") o)) o in
    record {
      request_id =
          get_or
            (read_string (get (codes "request_id") a)
              or_else read_string (get (codes "request_id") o))
            [];
      risk = read_risk (get (codes "risk") a);
      summary = get_or (read_string (get (codes "summary") a)) [];
      expires_at = get_or (read_string (get (codes "expires_at") a)) [];
    }

abbrev is_true : Value → Bool
is_true (bool true) = true
is_true _ = false

unfoldable pub has_success_signal : Value → Bool
has_success_signal o = is_true (get (codes "ok") o) || is_some (as_record (get (codes "result") o))

unfoldable pub is_terminal : ToolStatus → Bool
is_terminal ok = true
is_terminal denied = true
is_terminal error = true
is_terminal _ = false

unfoldable pub cancelled_result : AuditRef → ToolResult Value
cancelled_result ref = errored_result (known internal) (some cancelled_message) ref

unfoldable pub unrecognised_result : AuditRef → ToolResult Value
unrecognised_result ref = errored_result (known internal) (some unrecognised_message) ref

unfoldable pub invocation_default : Value → Option Text → AuditRef → ToolResult Value
invocation_default o token ref =
    if has_error_signal o
    then failure_result (failure_code o token) ref
    else unrecognised_result ref

unfoldable pub call_response_default : Value → Option Text → AuditRef → ToolResult Value
call_response_default o token ref =
    if has_error_signal o
    then failure_result (failure_code o token) ref
    else if has_success_signal o
    then ok_result (result_of o) ref
    else if is_empty (handle_of o ref)
    then unrecognised_result ref
    else running_result (handle_of o ref) ref

-- The switch of `invocationToResult`. A kind that is inherited is equal to no label.
unfoldable pub invocation_switch :
    Slot StateKind → Value → Option Text → AuditRef → ToolResult Value
invocation_switch (own StateKind.running) o token ref = running_result (handle_of o ref) ref
invocation_switch (own StateKind.awaiting_approval) o token ref =
    awaiting_result (handle_of o ref) (approval_of o) ref
invocation_switch (own StateKind.ok) o token ref = ok_result (result_of o) ref
invocation_switch (own StateKind.fail) o token ref = failure_result (failure_code o token) ref
invocation_switch (own StateKind.cancelled) o token ref = cancelled_result ref
invocation_switch inherited o token ref = invocation_default o token ref
invocation_switch missing o token ref = invocation_default o token ref

unfoldable pub invocation_of : Option Value → ToolResult Value
invocation_of none = unrecognised_result (extract_audit_ref none)
invocation_of (some o) =
    let token = state_token o in
    invocation_switch (kind_of_token token) o token (extract_audit_ref (some o))

unfoldable pub invocation_to_result : Value → ToolResult Value
invocation_to_result raw = invocation_of (as_record raw)

-- That of `callResponseToResult`.
unfoldable pub call_response_switch :
    Slot StateKind → Value → Option Text → AuditRef → ToolResult Value
call_response_switch (own StateKind.running) o token ref = running_result (handle_of o ref) ref
call_response_switch (own StateKind.awaiting_approval) o token ref =
    awaiting_result (handle_of o ref) (approval_of o) ref
call_response_switch (own StateKind.ok) o token ref = ok_result (result_of o) ref
call_response_switch (own StateKind.fail) o token ref = failure_result (failure_code o token) ref
call_response_switch (own StateKind.cancelled) o token ref = cancelled_result ref
call_response_switch inherited o token ref = call_response_default o token ref
call_response_switch missing o token ref = call_response_default o token ref

unfoldable pub call_response_of : Option Value → ToolResult Value
call_response_of none = unrecognised_result (extract_audit_ref none)
call_response_of (some o) =
    let token = state_token o in
    call_response_switch (kind_of_token token) o token (extract_audit_ref (some o))

unfoldable pub call_response_to_result : Value → ToolResult Value
call_response_to_result raw = call_response_of (as_record raw)

unfoldable pub classify_invocation : Value → ToolStatus
classify_invocation raw = (invocation_to_result raw).status
