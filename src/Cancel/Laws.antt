-- ===== src/Cancel/Laws.antt =====
-- What `mx_cancel` does and returns.
use mx_loom.Errors.{CodeValue}
use mx_loom.Text.Token.{normalise_token}
use mx_loom.Fault.{fault_to_result}
use mx_loom.Invocation.Failure.{is_denial_code, has_error_signal, failure_result}
use mx_loom.Common.{◌≡◌, refl, true, false, Option, none, some, ◌∷◌, if_both}
use mx_loom.Text.{eq_text, Text, codes}
use mx_loom.Json.{undefined, Value, get, as_record}
use mx_loom.Envelope.{AuditRef, denied_result, ok_result, errored_result, ToolResult}
use mx_loom.Invocation.{is_terminal}
use mx_loom.Daemon.{Reply, resolved, rejected, called, History, Deps}
use mx_loom.Cancel.{
  is_nothing_to_cancel, cancel_record, CancelInput, CancelResult, state_of, read_cancelled,
  cancel_ok, cancel_response_to_result, cancel_reply, cancel_params, mx_cancel,
}

failure_result-terminal :
    (c : CodeValue) (ref : AuditRef)
    → is_terminal (failure_result {A = CancelResult} c ref).status ≡ true
unfolding failure_result denied_result errored_result is_terminal
failure_result-terminal c ref =
    if_both (λ (t : ToolResult CancelResult). is_terminal t.status ≡ true) (is_denial_code c) _ _
      refl refl

cancel_record-terminal :
    (handle : Text) (o : Option Value) → is_terminal (cancel_record handle o).status ≡ true
unfolding is_terminal errored_result cancel_ok ok_result
cancel_record-terminal handle none = refl
cancel_record-terminal handle (some o) =
    if_both (λ (t : ToolResult CancelResult). is_terminal t.status ≡ true) (has_error_signal o) _ _
      (failure_result-terminal _ _) refl

cancel_reply-terminal :
    (handle : Text) (reply : Reply) → is_terminal (cancel_reply handle reply).status ≡ true
unfolding cancel_reply cancel_response_to_result fault_to_result
cancel_reply-terminal handle (resolved raw) = cancel_record-terminal handle (as_record raw)
cancel_reply-terminal handle (rejected err) = failure_result-terminal _ _

-- A cancel makes exactly one daemon call, with the handle alone, and its envelope is terminal
-- whatever the daemon answers.
mx_cancel-terminal :
    (input : CancelInput) (deps : Deps) (h : History)
    → (is_terminal (mx_cancel input deps h).0.status ≡ true)
      × ((mx_cancel input deps h).1
          ≡ called (codes "invocation.cancel") (cancel_params input.handle) ∷ h)
unfolding mx_cancel
mx_cancel-terminal input deps h = (cancel_reply-terminal input.handle _, refl)

-- A reply with no error signal and no flag whose state is spelled as a policy denial is reported as
-- a success that took effect.
pub denied_state-cancelled :
    (raw : Value) (o : Value) (handle s : Text)
    → as_record raw ≡ some o
    → has_error_signal o ≡ false
    → get (codes "cancelled") o ≡ undefined
    → state_of o ≡ some s
    → normalise_token s ≡ codes "policy_denied"
    → (cancel_response_to_result raw handle).result
      ≡ some (record { handle = handle; cancelled = true; state = some s })
unfolding cancel_response_to_result cancel_ok ok_result read_cancelled is_nothing_to_cancel eq_text
    codes
denied_state-cancelled raw o handle s is_o no_signal no_flag has_state spelled =
    rw (is_o, no_signal) (rw (has_state, no_flag, spelled))
