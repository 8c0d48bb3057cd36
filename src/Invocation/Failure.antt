-- ===== src/Invocation/Failure.antt =====
-- The error code of a failed reply, and the envelope that carries it.
pub mod Laws
use mx_loom.Common.{Bool, true, false, ◌||◌, Option, none, some, is_some, if◌then◌else◌}
use mx_loom.Text.{Text, codes}
use mx_loom.Json.{Value, bool, str, get, as_record}
use mx_loom.Errors.{
  ErrorCode, policy_denied, untrusted_key, approval_denied, approval_expired, timeout, not_found,
  invalid_args, target_offline, internal, includes, denial_codes, CodeValue, known, foreign,
  map_daemon_error,
}
use mx_loom.Envelope.{AuditRef, ToolResult, denied_result, errored_result}

unfoldable pub message_for_code : ErrorCode → Text
message_for_code policy_denied = codes "denied by the receiver policy"
message_for_code untrusted_key = codes "the signing key is not trusted by the receiver"
message_for_code approval_denied = codes "the operator denied the approval request"
message_for_code approval_expired = codes "the approval request expired before a decision"
message_for_code timeout = codes "the operation timed out"
message_for_code not_found = codes "no such invocation"
message_for_code invalid_args = codes "the request was rejected as invalid"
message_for_code target_offline = codes "the target agent is offline"
message_for_code internal = codes "the invocation failed"

-- `MESSAGE_FOR_CODE[code]`. A foreign code is the function `Object`, whose text is no key.
unfoldable pub message_of : CodeValue → Option Text
message_of (known c) = some (message_for_code c)
message_of foreign = none

unfoldable pub is_denial_code : CodeValue → Bool
is_denial_code (known c) = includes denial_codes c
is_denial_code foreign = false

unfoldable pub failure_result : {A : Type 0} → CodeValue → AuditRef → ToolResult A
failure_result code ref =
    if is_denial_code code
    then denied_result code (message_of code) ref
    else errored_result code (message_of code) ref

-- `code !== 'internal'` picks the first of the two.
abbrev unless_internal : CodeValue → CodeValue → CodeValue
unless_internal (known internal) d = d
unless_internal c d = c

abbrev code_of_token : Option Text → CodeValue
code_of_token none = known internal
code_of_token (some token) = unless_internal (map_daemon_error (str token)) (known internal)

unfoldable pub failure_code : Value → Option Text → CodeValue
failure_code o token = unless_internal (map_daemon_error o) (code_of_token token)

abbrev is_false : Value → Bool
is_false (bool false) = true
is_false _ = false

abbrev error_value : Value → Bool
error_value (str s) = true
error_value v = is_some (as_record v)

unfoldable pub has_error_signal : Value → Bool
has_error_signal o = is_false (get (codes "ok") o) || error_value (get (codes "error") o)
