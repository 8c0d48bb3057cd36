-- ===== src/Errors/Codes.antt =====
-- The closed set of codes and its two parts.
use mx_loom.Common.{◌≡◌, refl, subst, Bool, true, false, not, Option, none, some, if◌then◌else◌}
use mx_loom.Text.{Text}
use mx_loom.Errors.{
  ErrorCode, policy_denied, timeout, invalid_args, internal, error_codes, denial_codes, fault_codes,
  includes, map_transport_error,
}

-- The two sets of codes are the two parts of the closed set: each code is in the closed set, and
-- is a denial exactly when it is no fault.
pub codes_partition :
    (c : ErrorCode)
    → (includes error_codes c ≡ true) × (includes denial_codes c ≡ not (includes fault_codes c))
unfolding includes
codes_partition policy_denied = (refl, refl)
codes_partition c = (refl, refl)

-- One arm of a switch that returns a fault.
arm-fault :
    (b : Bool) (x c : ErrorCode) (rest : Option ErrorCode)
    → includes fault_codes x ≡ true
    → (rest ≡ some c → includes fault_codes c ≡ true)
    → (if b then some x else rest) ≡ some c
    → includes fault_codes c ≡ true
arm-fault true x c rest p q h =
    let same : x ≡ c = cc in subst (λ d. includes fault_codes d ≡ true) same p
arm-fault false x c rest p q h = q h

never_some : {c : ErrorCode} → none ≡ some c → includes fault_codes c ≡ true
never_some h = cc

-- A transport code is mapped to a fault, never to a denial.
pub map_transport_error-fault :
    (code : Text) (c : ErrorCode)
    → map_transport_error code ≡ some c
    → includes fault_codes c ≡ true
unfolding map_transport_error includes
map_transport_error-fault code c = arm-fault _ timeout c _ refl (
    arm-fault _ invalid_args c _ refl
      (arm-fault _ internal c _ refl (arm-fault _ internal c _ refl never_some)))
