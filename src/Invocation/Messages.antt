-- ===== src/Invocation/Messages.antt =====
-- What the envelopes of invocation.ts can say: no text of the daemon's payload, and no risk below
-- the one that the daemon states.
use mx_loom.Common.{if_both, refl, Option, none, ◌≡◌, ◌≢◌, ◌⊎◌, inl, inr, ◌↔◌, some, arith}
use mx_loom.Text.{Text, codes, eq_text_iff}
use mx_loom.Json.{Value, str}
use mx_loom.Errors.{CodeValue}
use mx_loom.Envelope.{
  low, medium, AuditRef, ToolError, ToolResult, ok_result, running_result, awaiting_result,
  denied_result, errored_result,
}
use mx_loom.Invocation.Rule.{Arms, invocation-rule, call_response-rule}
use mx_loom.Invocation.Failure.{is_denial_code, message_of, failure_result}
use mx_loom.Invocation.{
  unrecognised_message, cancelled_message, read_risk, cancelled_result, unrecognised_result,
  invocation_to_result, call_response_to_result,
}

-- The message is the one that the code has, or one of the two fixed phrases.
abbrev pub IsFixed : ToolError → Type 0
IsFixed e =
    (e.message ≡ message_of e.code)
    ⊎ (e.message ≡ some unrecognised_message)
    ⊎ (e.message ≡ some cancelled_message)

abbrev pub FixedError : Option ToolError → Type 0
FixedError none = Unit
FixedError (some e) = IsFixed e

abbrev pub SaysFixed : {A : Type 0} → ToolResult A → Type 0
SaysFixed t = FixedError t.error

pub failure_result-SaysFixed :
    (code : CodeValue) (ref : AuditRef) → SaysFixed (failure_result {A = Value} code ref)
unfolding failure_result denied_result errored_result
failure_result-SaysFixed code ref =
    if_both SaysFixed (is_denial_code code) _ _ (inl refl) (inl refl)

unrecognised-SaysFixed : (ref : AuditRef) → SaysFixed (unrecognised_result ref)
unfolding unrecognised_result errored_result
unrecognised-SaysFixed ref = inr (inl refl)

cancelled-SaysFixed : (ref : AuditRef) → SaysFixed (cancelled_result ref)
unfolding cancelled_result errored_result
cancelled-SaysFixed ref = inr (inr refl)

ok-SaysFixed : (r : Value) (ref : AuditRef) → SaysFixed (ok_result r ref)
unfolding ok_result
ok-SaysFixed r ref = tt

running-SaysFixed : (h : Text) (ref : AuditRef) → SaysFixed (running_result {A = Value} h ref)
unfolding running_result
running-SaysFixed s ref = tt

fixed-Arms : (raw : Value) → Arms SaysFixed raw
unfolding awaiting_result
fixed-Arms raw = record {
  failure = λ ref. failure_result-SaysFixed _ ref;
  unrecognised = unrecognised-SaysFixed;
  cancelled = cancelled-SaysFixed;
  success = λ ref. ok-SaysFixed _ ref;
  running = running-SaysFixed;
  awaiting = λ handle a ref. tt;
}

-- Whatever the daemon replies, an error message of the two normalisers is the fixed phrase of its
-- code, or one of the two phrases for an unrecognised and for a cancelled invocation.
pub messages_fixed :
    (raw : Value) → SaysFixed (invocation_to_result raw) × SaysFixed (call_response_to_result raw)
messages_fixed raw = (
  invocation-rule SaysFixed raw (fixed-Arms raw),
  call_response-rule SaysFixed raw (fixed-Arms raw),
)

low_ne_medium : codes "low" ≢ codes "medium"
unfolding codes
low_ne_medium e = cc

-- A risk is reported as low only if the daemon says `low`, and as medium only if it says `medium`:
-- all else is high.
pub read_risk_safe :
    (v : Value)
    → ((read_risk v ≡ low) ↔ (v ≡ str (codes "low")))
      × ((read_risk v ≡ medium) ↔ (v ≡ str (codes "medium")))
unfolding read_risk
read_risk_safe (str s) =
    ground (arith, eq_text_iff s (codes "low"), eq_text_iff s (codes "medium"), low_ne_medium)
read_risk_safe v = ((λ h. cc, λ h. cc), (λ h. cc, λ h. cc))
