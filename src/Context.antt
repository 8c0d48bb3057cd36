-- ===== src/Context.antt =====
-- packages/registry/src/handlers/context-response.ts, share-context.ts and get-context.ts: an
-- artifact is published to the room, and fetched from it.
pub mod Laws
use mx_loom.Common.{
  ◌%◌, ◌^◌, ◌==◌, Bool, true, false, Option, none, some, is_some, [], ◌∷◌, if◌then◌else◌,
}
use mx_loom.Text.{Text, codes}
use mx_loom.Table.{Slot, own, inherited, missing, Table, read}
use mx_loom.Json.{Value, num, str, obj, Fields, field, end, get, as_record, read_string}
use mx_loom.Json.Number.{WireNumber, plus, below, infinite}
use mx_loom.Errors.{known, internal, invalid_args}
use mx_loom.Envelope.{AuditRef, ToolResult, ok_result, errored_result}
use mx_loom.Invocation.{extract_audit_ref}
use mx_loom.Invocation.Failure.{failure_code, failure_result, has_error_signal}
use mx_loom.Fault.{empty_audit_ref, fault_to_result}
use mx_loom.Daemon.{Reply, resolved, rejected, History, Deps, Env, call}
use mx_loom.Tasks.Action.{optional, text_value}
use mx_loom.Tasks.Handlers.{usable_room}

abbrev pub unrecognised_context : AuditRef → ToolResult Value
unrecognised_context ref =
    errored_result (known internal) (some (codes "unrecognised context response")) ref

abbrev pub context_record : (Value → Value) → AuditRef → Option Value → ToolResult Value
context_record project ref none = unrecognised_context ref
context_record project ref (some o) =
    if has_error_signal o
    then failure_result (failure_code o none) ref
    else if is_some (read_string (get (codes "context_id") o))
    then ok_result (project o) ref
    else unrecognised_context ref

unfoldable pub context_response_to_result : Value → (Value → Value) → ToolResult Value
context_response_to_result raw project =
    context_record project (extract_audit_ref (as_record raw)) (as_record raw)

abbrev pub context_reply : (Value → Value) → Reply → ToolResult Value
context_reply project (resolved raw) = context_response_to_result raw project
context_reply project (rejected err) = fault_to_result err empty_audit_ref

-- A kind outside the type is looked up like any other text.
abbrev pub share_method_for_kind : Table Text
share_method_for_kind =
    ("file", codes "share.file") ∷ ("diff", codes "share.diff") ∷ ("env", codes "share.env") ∷ []

pub data Encoding : Type 0 where
  utf_8 base64 : Encoding

pub record ShareContextInput : Type 0 where
  pub kind : Text
  pub path : Option Text
  pub content : Option Text
  pub encoding : Option Encoding

abbrev pub encoding_value : Option Encoding → Option Value
encoding_value none = none
encoding_value (some utf_8) = some (str (codes "utf-8"))
encoding_value (some base64) = some (str (codes "base64"))

unfoldable pub share_params : ShareContextInput → Text → Value
share_params input room = obj (
    field (codes "room") (str room) (
      optional (codes "path") (text_value input.path) (
        optional (codes "content") (text_value input.content)
          (optional (codes "encoding") (encoding_value input.encoding) end))))

abbrev pub text_at : Text → Value → Option Value
text_at key payload = text_value (read_string (get key payload))

unfoldable pub project_share : Value → Value
project_share payload = obj (
    optional (codes "context_id") (text_at (codes "context_id") payload)
      (optional (codes "sha256") (text_at (codes "sha256") payload) end))

abbrev pub send_context :
    Env → Text → Value → (Value → Value) → History → ToolResult Value × History
send_context peer method params project h =
    let (reply, h') = call peer method params h in (context_reply project reply, h')

-- What a property of `Object.prototype` is to the daemon's seam, by its name: the source passes it
-- on in the place of the method.
module _ (property : Text → Text) where
  abbrev pub method_at : Slot Text → Text → Option Text
  method_at (own method) kind = some method
  method_at inherited kind = some (property kind)
  method_at missing kind = none

  abbrev pub share_by :
      ShareContextInput → Env → Text → Option Text → History → ToolResult Value × History
  share_by input peer room none h = (failure_result (known invalid_args) empty_audit_ref, h)
  share_by input peer room (some method) h =
      send_context peer method (share_params input room) project_share h

  abbrev pub share_in : ShareContextInput → Env → Option Text → History → ToolResult Value × History
  share_in input peer none h = (
    errored_result (known internal) (some (codes "no workspace room configured for share"))
        empty_audit_ref,
    h,
  )
  share_in input peer (some room) h =
      share_by input peer room (method_at (read share_method_for_kind input.kind) input.kind) h

  unfoldable pub mx_share_context : ShareContextInput → Deps → History → ToolResult Value × History
  mx_share_context input deps h = share_in input deps.env (usable_room deps.room) h

pub record GetContextInput : Type 0 where
  pub context_id : Text

abbrev pub non_negative_int : WireNumber → Option Value
non_negative_int (plus n) = if n % 2 ^ 1074 == 0 then some (num (plus n)) else none
non_negative_int (below n) = none
non_negative_int (infinite s) = none

unfoldable pub read_non_negative_int : Value → Option Value
read_non_negative_int (num n) = non_negative_int n
read_non_negative_int v = none

unfoldable pub project_get : Value → Value
project_get payload = obj (
    optional (codes "context_id") (text_at (codes "context_id") payload) (
      optional (codes "kind") (text_at (codes "kind") payload) (
        optional (codes "sha256") (text_at (codes "sha256") payload) (
          optional (codes "size_bytes") (read_non_negative_int (get (codes "size_bytes") payload)) (
            optional (codes "inline") (text_at (codes "inline") payload)
              (optional (codes "media_mxc") (text_at (codes "media_mxc") payload) end))))))

unfoldable pub get_params : Text → Text → Value
get_params id room = obj (field (codes "context_id") (str id) (field (codes "room") (str room) end))

abbrev pub get_in : GetContextInput → Env → Option Text → History → ToolResult Value × History
get_in input peer none h = (
  errored_result (known internal) (some (codes "no workspace room configured for get"))
      empty_audit_ref,
  h,
)
get_in input peer (some room) h =
    send_context peer (codes "share.get") (get_params input.context_id room) project_get h

unfoldable pub mx_get_context : GetContextInput → Deps → History → ToolResult Value × History
mx_get_context input deps h = get_in input deps.env (usable_room deps.room) h
