-- ===== src/Invocation/Agree.antt =====
-- The reply of `call.start` and a later `invocation.get` of the same shape.
use mx_loom.Common.{◌≡◌, refl, ◌⊎◌, inl, Option, none, some, arith}
use mx_loom.Text.{Text}
use mx_loom.Json.{Value, as_record}
use mx_loom.Table.{Slot, own, inherited, missing}
use mx_loom.Envelope.{ok, running, AuditRef, ToolResult, ok_result, running_result}
use mx_loom.Invocation.State.{StateKind}
use mx_loom.Invocation.{
  extract_audit_ref, unrecognised_result, invocation_default, call_response_default,
  invocation_switch, call_response_switch, invocation_of, call_response_of, invocation_to_result,
  call_response_to_result,
}

-- One of two envelopes is the other, or an unrecognised invocation where the other is a success or
-- a handle.
abbrev pub Agrees : ToolResult Value → ToolResult Value → AuditRef → Type 0
Agrees call get ref =
    (call ≡ get)
    ⊎ ((get ≡ unrecognised_result ref) × ((call.status ≡ ok) ⊎ (call.status ≡ running)))

defaults-Agrees :
    (o : Value) (token : Option Text) (ref : AuditRef)
    → Agrees (call_response_default o token ref) (invocation_default o token ref) ref
unfolding call_response_default invocation_default ok_result running_result
defaults-Agrees o token ref = ground arith

switch-Agrees :
    (kind : Slot StateKind) (o : Value) (token : Option Text) (ref : AuditRef)
    → Agrees (call_response_switch kind o token ref) (invocation_switch kind o token ref) ref
unfolding call_response_switch invocation_switch
switch-Agrees inherited o token ref = defaults-Agrees o token ref
switch-Agrees missing o token ref = defaults-Agrees o token ref
switch-Agrees (own StateKind.running) o token ref = inl refl
switch-Agrees (own StateKind.awaiting_approval) o token ref = inl refl
switch-Agrees (own StateKind.ok) o token ref = inl refl
switch-Agrees (own StateKind.fail) o token ref = inl refl
switch-Agrees (own StateKind.cancelled) o token ref = inl refl

reply-Agrees :
    (reply : Option Value)
    → Agrees (call_response_of reply) (invocation_of reply) (extract_audit_ref reply)
unfolding call_response_of invocation_of
reply-Agrees none = inl refl
reply-Agrees (some o) = switch-Agrees _ o _ _

-- Read as the reply of `call.start` or of `invocation.get`, a value becomes the same envelope, or
-- the latter is that of an unrecognised invocation where the former is a success or a handle: they
-- never disagree on a failure, an approval or a recognised state.
pub call_response-Agrees :
    (raw : Value)
    → Agrees
        (call_response_to_result raw)
        (invocation_to_result raw)
        (extract_audit_ref (as_record raw))
unfolding call_response_to_result invocation_to_result
call_response-Agrees raw = reply-Agrees (as_record raw)
