-- ===== src/Errors.antt =====
-- packages/registry/src/errors.ts: the closed set of error codes, its two parts, and the maps from
-- a transport code and from a daemon error onto it.
pub mod Codes
pub mod Daemon
use Prim.Native.String.{String}
use mx_loom.Common.{
  Bool, true, false, Option, none, some, List, [], ◌∷◌, any, if◌then◌else◌, ◌or_else◌, ◌||◌,
}
use mx_loom.Text.{Text, codes, eq_text}
use mx_loom.Text.Token.{normalise_token}
use mx_loom.Json.{
  Value, undefined, null, bool, num, str, arr, obj, Fields, end, field, get, get_field, read_string,
  is_object,
}
use mx_loom.Table.{Slot, own, inherited, missing, Table, read}

pub data ErrorCode : Type 0 where
  policy_denied untrusted_key approval_denied approval_expired : ErrorCode
  timeout not_found invalid_args target_offline internal : ErrorCode

unfoldable pub code_name : ErrorCode → String
code_name policy_denied = "policy_denied"
code_name untrusted_key = "untrusted_key"
code_name approval_denied = "approval_denied"
code_name approval_expired = "approval_expired"
code_name timeout = "timeout"
code_name not_found = "not_found"
code_name invalid_args = "invalid_args"
code_name target_offline = "target_offline"
code_name internal = "internal"

-- A code is a string at run time, and is compared as one.
unfoldable pub eq_code : ErrorCode → ErrorCode → Bool
unfolding code_name codes eq_text
eq_code a b = eq_text (codes (code_name a)) (codes (code_name b))

abbrev pub error_codes : List ErrorCode
error_codes =
    policy_denied ∷ untrusted_key ∷ approval_denied ∷ approval_expired ∷ timeout ∷ not_found
    ∷ invalid_args ∷ target_offline ∷ internal ∷ []

abbrev pub denial_codes : List ErrorCode
denial_codes = policy_denied ∷ untrusted_key ∷ approval_denied ∷ approval_expired ∷ []

abbrev pub fault_codes : List ErrorCode
fault_codes = timeout ∷ not_found ∷ invalid_args ∷ target_offline ∷ internal ∷ []

-- `(CODES as readonly string[]).includes(code)`.
unfoldable pub includes : List ErrorCode → ErrorCode → Bool
unfolding eq_code
includes cs c = any (eq_code c) cs

unfoldable pub is_error_code : Value → Bool
unfolding code_name
is_error_code (str s) = any (λ c. eq_text (codes (code_name c)) s) error_codes
is_error_code _ = false

abbrev is : String → Text → Bool
is name code = eq_text (codes name) code

-- The switch of `mapTransportError`; `none` is the throw of `assertNever`.
unfoldable pub map_transport_error : Text → Option ErrorCode
map_transport_error code =
    if is "timeout" code
    then some timeout
    else if is "invalid_args" code
    then some invalid_args
    else if is "not_running" code
        || is "connect_failed" code
        || is "closed" code
        || is "frame" code
        || is "protocol" code
    then some internal
    else if is "rpc" code
    then some internal
    else none

abbrev pub daemon_code_to_error : Table ErrorCode
daemon_code_to_error =
    ("policy_denied", policy_denied)
    ∷ ("denied_by_policy", policy_denied)
    ∷ ("policy", policy_denied)
    ∷ ("untrusted_key", untrusted_key)
    ∷ ("untrusted", untrusted_key)
    ∷ ("trust_denied", untrusted_key)
    ∷ ("unknown_key", untrusted_key)
    ∷ ("approval_denied", approval_denied)
    ∷ ("approval_rejected", approval_denied)
    ∷ ("approval_expired", approval_expired)
    ∷ ("approval_timeout", approval_expired)
    ∷ ("timeout", timeout)
    ∷ ("not_found", not_found)
    ∷ ("unknown_agent", not_found)
    ∷ ("unknown_tool", not_found)
    ∷ ("no_such_invocation", not_found)
    ∷ ("unknown_context", not_found)
    ∷ ("no_such_context", not_found)
    ∷ ("context_not_found", not_found)
    ∷ ("invalid_args", invalid_args)
    ∷ ("invalid_arguments", invalid_args)
    ∷ ("invalid_params", invalid_args)
    ∷ ("target_offline", target_offline)
    ∷ ("agent_offline", target_offline)
    ∷ ("offline", target_offline)
    ∷ ("unreachable", target_offline)
    ∷ ("internal", internal)
    ∷ []

-- `obj.data` as a string, or its string `code`.
abbrev data_code : Value → Option Text
data_code (str s) = some s
data_code v = if is_object v then read_string (get (codes "code") v) else none

-- `at_error` is the code that `obj.error` holds: a string, or what its own fields say.
unfoldable mutual
  pub extract_daemon_code : Value → Option Text
  extract_daemon_code (str s) = some s
  extract_daemon_code (obj fs) =
      at_error fs
      or_else data_code (get_field (codes "data") fs)
      or_else read_string (get_field (codes "code") fs)
  extract_daemon_code _ = none

  pub at_error : Fields → Option Text
  at_error end = none
  at_error (field k v fs) = if eq_text k (codes "error") then extract_daemon_code v else at_error fs

-- What a map onto the closed set returns at run time: a code, or the property of
-- `Object.prototype` that its table lookup found.
pub data CodeValue : Type 0 where
  known : ErrorCode → CodeValue
  foreign : CodeValue

abbrev code_of_slot : Slot ErrorCode → CodeValue
code_of_slot (own c) = known c
code_of_slot inherited = foreign
code_of_slot missing = known internal

unfoldable pub code_of_text : Text → CodeValue
code_of_text raw = code_of_slot (read daemon_code_to_error (normalise_token raw))

abbrev code_of_extracted : Option Text → CodeValue
code_of_extracted none = known internal
code_of_extracted (some raw) = code_of_text raw

unfoldable pub map_daemon_error : Value → CodeValue
map_daemon_error v = code_of_extracted (extract_daemon_code v)
