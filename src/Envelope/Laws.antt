-- ===== src/Envelope/Laws.antt =====
-- What `validateEnvelope` says of the values that the constructors of envelope.ts build.
use mx_loom.Common.{◌≡◌, refl, Bool, true, some, arith}
use mx_loom.Text.{Text}
use mx_loom.Errors.{ErrorCode, known, includes, denial_codes, fault_codes}
use mx_loom.Envelope.{
  ApprovalInfo, AuditRef, ok_result, running_result, awaiting_result, denied_result, errored_result,
  validate_envelope,
}

module _ {A : Type 0} (is_object : A → Bool) (ref : AuditRef) where
  pub validate-ok : (r : A) → validate_envelope is_object (ok_result r ref) ≡ is_object r
  unfolding validate_envelope ok_result
  validate-ok r = ground arith

  pub validate-running : (h : Text) → validate_envelope is_object (running_result h ref) ≡ true
  unfolding validate_envelope running_result
  validate-running h = refl

  pub validate-awaiting :
      (h : Text) (a : ApprovalInfo) → validate_envelope is_object (awaiting_result h a ref) ≡ true
  unfolding validate_envelope awaiting_result
  validate-awaiting h a = refl

  pub validate-denied :
      (c : ErrorCode) (m : Text)
      → validate_envelope is_object (denied_result (known c) (some m) ref) ≡ includes denial_codes c
  unfolding validate_envelope denied_result
  validate-denied c m = refl

  pub validate-errored :
      (c : ErrorCode) (m : Text)
      → validate_envelope is_object (errored_result (known c) (some m) ref) ≡ includes fault_codes c
  unfolding validate_envelope errored_result
  validate-errored c m = refl
