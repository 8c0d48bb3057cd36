-- ===== src/Fault.antt =====
-- packages/registry/src/handlers/handler-fault.ts: a rejection of the daemon call becomes an
-- envelope.
pub mod Laws
use mx_loom.Common.{Bool, false, Option, none, some, get_or, if◌then◌else◌}
use mx_loom.Text.{Text, codes, eq_text}
use mx_loom.Json.{Value, get, read_string, coalesce}
use mx_loom.Errors.{ErrorCode, internal, map_transport_error, CodeValue, known, map_daemon_error}
use mx_loom.Envelope.{AuditRef, ToolResult}
use mx_loom.Invocation.Failure.{failure_result}

abbrev pub empty_audit_ref : AuditRef
empty_audit_ref = record { invocation_id = none; request_id = none; room = none; event_id = none }

unfoldable pub read_code : Value → Option Text
read_code err = read_string (get (codes "code") err)

-- A string that is no transport code makes the switch throw, which is caught.
unfoldable pub safe_map_transport : Option Text → ErrorCode
safe_map_transport none = internal
safe_map_transport (some code) = get_or (map_transport_error code) internal

abbrev pub is_rpc : Option Text → Bool
is_rpc none = false
is_rpc (some code) = eq_text code (codes "rpc")

unfoldable pub fault_code : Value → CodeValue
fault_code err =
    if is_rpc (read_code err)
    then map_daemon_error (coalesce (get (codes "cause") err) err)
    else known (safe_map_transport (read_code err))

unfoldable pub fault_to_result : {A : Type 0} → Value → AuditRef → ToolResult A
unfolding fault_code
fault_to_result err ref = failure_result (fault_code err) ref
