-- ===== src/Invocation/Failure/Laws.antt =====
-- When the envelope of a failure is one that the schema accepts.
use mx_loom.Common.{◌≡◌, refl, ◌⊎◌, inl, inr, Bool, true, false, Option, none, some}
use mx_loom.Text.{Text}
use mx_loom.Json.{Value, str}
use mx_loom.Errors.{
  untrusted_key, approval_denied, approval_expired, fault_codes, ErrorCode, policy_denied, includes,
  CodeValue, known, foreign, internal, map_daemon_error,
}
use mx_loom.Envelope.{error, AuditRef, denied_result, errored_result, validate_envelope}
use mx_loom.Invocation.Failure.{
  message_of, is_denial_code, failure_result, unless_internal, code_of_token, failure_code,
}

abbrev pub is_known : CodeValue → Bool
is_known (known c) = true
is_known foreign = false

-- The envelope of a failure is accepted for every code of the closed set: a denial code goes with
-- the status `denied` and a fault code with `error`. A value that is no code is not accepted.
pub failure_result-validate :
    {A : Type 0} (is_object : A → Bool) (code : CodeValue) (ref : AuditRef)
    → validate_envelope is_object (failure_result code ref) ≡ is_known code
unfolding failure_result is_denial_code message_of validate_envelope denied_result errored_result
    includes
failure_result-validate is_object (known policy_denied) ref = refl
failure_result-validate is_object (known c) ref = refl
failure_result-validate is_object foreign ref = refl

unless_internal-foreign :
    (c d : CodeValue) → unless_internal c d ≡ foreign → (c ≡ foreign) ⊎ (d ≡ foreign)
unless_internal-foreign (known internal) d h = inr h
unless_internal-foreign (known c) d h = cc
unless_internal-foreign foreign d h = inl refl

code_of_token-foreign :
    (token : Option Text)
    → code_of_token token ≡ foreign
    → (t : Text) × (token ≡ some t) × (map_daemon_error (str t) ≡ foreign)
code_of_token-foreign none h = cc
code_of_token-foreign (some t) h =
    elim (unless_internal-foreign (map_daemon_error (str t)) (known internal) h) [
      | inl e ↦ (t, refl, e)
      | inr e ↦ cc
    ]

-- A failure's code is foreign only where the payload's code is, or the state token read as a code.
pub failure_code-foreign :
    (o : Value) (token : Option Text)
    → failure_code o token ≡ foreign
    → (map_daemon_error o ≡ foreign)
      ⊎ ((t : Text) × (token ≡ some t) × (map_daemon_error (str t) ≡ foreign))
unfolding failure_code
failure_code-foreign o token h =
    elim (unless_internal-foreign (map_daemon_error o) (code_of_token token) h) [
      | inl e ↦ inl e
      | inr e ↦ inr (code_of_token-foreign token e)
    ]

-- A fault code goes with the status `error`.
pub failure_result-error :
    (A : Type 0) (c : ErrorCode) (ref : AuditRef)
    → includes fault_codes c ≡ true
    → (failure_result {A = A} (known c) ref).status ≡ error
unfolding failure_result is_denial_code denied_result errored_result includes
failure_result-error A policy_denied ref h = cc
failure_result-error A untrusted_key ref h = cc
failure_result-error A approval_denied ref h = cc
failure_result-error A approval_expired ref h = cc
failure_result-error A c ref h = refl
