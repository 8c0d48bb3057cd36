-- ===== src/Invocation/Rule.antt =====
-- What the two normalisers of invocation.ts return, as a rule: a predicate that holds of each
-- envelope that an arm builds holds of the result.
use mx_loom.Common.{◌≡◌, refl, ◌⊎◌, inl, inr, none, some, if_both}
use mx_loom.Text.{Text}
use mx_loom.Json.{Value, obj, as_record}
use mx_loom.Table.{Slot, own, inherited, missing}
use mx_loom.Envelope.{
  ApprovalInfo, AuditRef, ToolResult, ok_result, running_result, awaiting_result,
}
use mx_loom.Invocation.State.{StateKind, state_token, kind_of_token}
use mx_loom.Invocation.Failure.{failure_result, failure_code, has_error_signal}
use mx_loom.Invocation.{
  result_of, has_success_signal, cancelled_result, unrecognised_result, invocation_default,
  call_response_default, invocation_switch, call_response_switch, invocation_of, call_response_of,
  invocation_to_result, call_response_to_result,
}

pub as_record-cases : (v : Value) → (as_record v ≡ none) ⊎ (as_record v ≡ some v)
unfolding as_record
as_record-cases (obj fs) = inr refl
as_record-cases v = inl refl

-- The arms, as a family over the reply.
pub record Arms (P : ToolResult Value → Type 0) (raw : Value) : Type 0 where
  pub failure : (ref : AuditRef) → P (failure_result (failure_code raw (state_token raw)) ref)
  pub unrecognised : (ref : AuditRef) → P (unrecognised_result ref)
  pub cancelled : (ref : AuditRef) → P (cancelled_result ref)
  pub success : (ref : AuditRef) → P (ok_result (result_of raw) ref)
  pub running : (handle : Text) (ref : AuditRef) → P (running_result handle ref)
  pub awaiting :
      (handle : Text) (a : ApprovalInfo) (ref : AuditRef) → P (awaiting_result handle a ref)

module _ (P : ToolResult Value → Type 0) (raw : Value) (arms : Arms P raw) where
  invocation_default-rule : (ref : AuditRef) → P (invocation_default raw (state_token raw) ref)
  unfolding invocation_default
  invocation_default-rule ref =
      if_both P (has_error_signal raw) _ _ (arms.failure ref) (arms.unrecognised ref)

  call_response_default-rule :
      (ref : AuditRef) → P (call_response_default raw (state_token raw) ref)
  unfolding call_response_default
  call_response_default-rule ref = if_both P (has_error_signal raw) _ _ (arms.failure ref) (
      if_both P (has_success_signal raw) _ _ (arms.success ref)
        (if_both P _ _ _ (arms.unrecognised ref) (arms.running _ ref)))

  invocation_switch-rule :
      (kind : Slot StateKind) (ref : AuditRef)
      → P (invocation_switch kind raw (state_token raw) ref)
  unfolding invocation_switch
  invocation_switch-rule (own StateKind.running) ref = arms.running _ ref
  invocation_switch-rule (own StateKind.awaiting_approval) ref = arms.awaiting _ _ ref
  invocation_switch-rule (own StateKind.ok) ref = arms.success ref
  invocation_switch-rule (own StateKind.fail) ref = arms.failure ref
  invocation_switch-rule (own StateKind.cancelled) ref = arms.cancelled ref
  invocation_switch-rule inherited ref = invocation_default-rule ref
  invocation_switch-rule missing ref = invocation_default-rule ref

  pub invocation-rule : P (invocation_to_result raw)
  unfolding invocation_to_result invocation_of
  invocation-rule = elim (as_record-cases raw) [
    | inl e ↦ rw e (arms.unrecognised _)
    | inr e ↦ rw e (invocation_switch-rule (kind_of_token (state_token raw)) _)
  ]

  call_response_switch-rule :
      (kind : Slot StateKind) (ref : AuditRef)
      → P (call_response_switch kind raw (state_token raw) ref)
  unfolding call_response_switch
  call_response_switch-rule (own StateKind.running) ref = arms.running _ ref
  call_response_switch-rule (own StateKind.awaiting_approval) ref = arms.awaiting _ _ ref
  call_response_switch-rule (own StateKind.ok) ref = arms.success ref
  call_response_switch-rule (own StateKind.fail) ref = arms.failure ref
  call_response_switch-rule (own StateKind.cancelled) ref = arms.cancelled ref
  call_response_switch-rule inherited ref = call_response_default-rule ref
  call_response_switch-rule missing ref = call_response_default-rule ref

  pub call_response-rule : P (call_response_to_result raw)
  unfolding call_response_to_result call_response_of
  call_response-rule = elim (as_record-cases raw) [
    | inl e ↦ rw e (arms.unrecognised _)
    | inr e ↦ rw e (call_response_switch-rule (kind_of_token (state_token raw)) _)
  ]
