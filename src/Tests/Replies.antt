-- ===== src/Tests/Replies.antt =====
-- Replies of the daemon through the normalisers of invocation.ts.
use mx_loom.Common.{◌≡◌, refl, inl, inr, ◌↔◌, some}
use mx_loom.Text.{Text, codes, eq_text}
use mx_loom.Text.Token.{normalise_token}
use mx_loom.Text.Token.Shape.{IsToken, normalise_token-IsToken}
use mx_loom.Json.{Value, str, obj, field, end, get, get_field, as_record, read_string, is_object}
use mx_loom.Table.{read, entry, is_prototype_name}
use mx_loom.Errors.{
  policy_denied, known, foreign, extract_daemon_code, code_of_text, map_daemon_error,
}
use mx_loom.Errors.Daemon.{map_daemon_error-foreign_iff}
use mx_loom.Invocation.State.{state_token}
use mx_loom.Invocation.Failure.{failure_code}
use mx_loom.Invocation.{extract_audit_ref, invocation_to_result, call_response_to_result}
use mx_loom.Invocation.Conforms.{Accepted, NamesConstructor, replies-Accepted}
use mx_loom.Invocation.Messages.{SaysFixed, messages_fixed}
use mx_loom.Invocation.Agree.{Agrees, call_response-Agrees}

-- { state: "Policy-Denied" }
abbrev refused : Value
refused = obj (field (codes "state") (str (codes "Policy-Denied")) end)

-- { error: "constructor" }
abbrev odd : Value
odd = obj (field (codes "error") (str (codes "constructor")) end)

token_of_spelling : normalise_token (codes "  Policy.DENIED--now!") ≡ codes "policy_denied_now"
unfolding normalise_token codes
token_of_spelling = refl

refused_state : state_token refused ≡ some (codes "policy_denied")
unfolding state_token normalise_token codes get read_string eq_text
refused_state = refl

refused_code : failure_code refused (state_token refused) ≡ known policy_denied
unfolding failure_code state_token map_daemon_error extract_daemon_code code_of_text read entry
    is_prototype_name normalise_token codes get read_string eq_text is_object
refused_code = refl

odd_code : map_daemon_error odd ≡ foreign
unfolding map_daemon_error extract_daemon_code code_of_text read entry is_prototype_name
    normalise_token codes eq_text get_field
odd_code = refl

refused_clean : ¬ NamesConstructor refused
unfolding extract_daemon_code state_token normalise_token codes get read_string eq_text is_object
refused_clean (inl (raw, found, named)) = cc
refused_clean (inr e) = cc

normalise_token-IsToken_example : IsToken (normalise_token (codes "In-Flight"))
normalise_token-IsToken_example = normalise_token-IsToken (codes "In-Flight")

map_daemon_error-foreign_iff_example : (map_daemon_error odd ≡ foreign) ↔ (
    (raw : Text) × (extract_daemon_code odd ≡ some raw)
    × (normalise_token raw ≡ codes "constructor"))
map_daemon_error-foreign_iff_example = map_daemon_error-foreign_iff odd

replies-Accepted_example :
    Accepted (invocation_to_result refused) × Accepted (call_response_to_result refused)
replies-Accepted_example = replies-Accepted refused refused_clean

messages_fixed_example :
    SaysFixed (invocation_to_result refused) × SaysFixed (call_response_to_result refused)
messages_fixed_example = messages_fixed refused

call_response-Agrees_example :
    Agrees
      (call_response_to_result refused)
      (invocation_to_result refused)
      (extract_audit_ref (as_record refused))
call_response-Agrees_example = call_response-Agrees refused
