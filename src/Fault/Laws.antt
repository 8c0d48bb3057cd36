-- ===== src/Fault/Laws.antt =====
-- What a rejection can become.
use mx_loom.Common.{◌≡◌, refl, inl, inr, Bool, true, false, Option, none, some, Option-cases}
use mx_loom.Text.{Text}
use mx_loom.Json.{Value}
use mx_loom.Errors.{includes, fault_codes, map_transport_error, known}
use mx_loom.Errors.Codes.{map_transport_error-fault}
use mx_loom.Envelope.{AuditRef, error, validate_envelope}
use mx_loom.Invocation.Failure.Laws.{failure_result-validate, failure_result-error}
use mx_loom.Fault.{read_code, safe_map_transport, is_rpc, fault_to_result}

safe_map_transport-fault :
    (code : Option Text) → includes fault_codes (safe_map_transport code) ≡ true
unfolding safe_map_transport
safe_map_transport-fault none = unfold includes in refl
safe_map_transport-fault (some code) = elim (Option-cases (map_transport_error code)) [
  | inl foreign_text ↦ rw foreign_text (unfold includes in refl)
  | inr (c, found) ↦ rw found (map_transport_error-fault code c found)
]

-- A rejection that is not the daemon's own JSON-RPC error becomes an envelope with status `error`
-- that the schema accepts, whatever the rejection: never a denial, and never a throw.
pub transport_fault-error :
    {A : Type 0} (is_object : A → Bool) (err : Value) (ref : AuditRef)
    → is_rpc (read_code err) ≡ false
    → (validate_envelope is_object (fault_to_result err ref) ≡ true)
      × ((fault_to_result {A = A} err ref).status ≡ error)
unfolding fault_to_result
transport_fault-error is_object err ref h = rw h (
  failure_result-validate is_object (known (safe_map_transport (read_code err))) ref,
  failure_result-error _ (safe_map_transport (read_code err)) ref
      (safe_map_transport-fault (read_code err)),
)
