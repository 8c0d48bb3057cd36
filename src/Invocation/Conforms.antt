-- ===== src/Invocation/Conforms.antt =====
-- Every envelope that the normalisers of invocation.ts build is one that the schema accepts, but
-- for the replies whose code is looked up as `constructor`.
use mx_loom.Common.{
  ◌≡◌, refl, sym, ap, subst, ◌∙◌, ◌⊎◌, inl, inr, Bool, true, false, Option, none, some, is_some,
  get_or,
}
use mx_loom.Text.{Text, codes}
use mx_loom.Json.{Value, str, obj, Fields, end, get, as_record}
use mx_loom.Table.{missing}
use mx_loom.Text.Token.{normalise_token}
use mx_loom.Errors.{CodeValue, known, foreign, includes, extract_daemon_code, map_daemon_error}
use mx_loom.Errors.Daemon.{code_of_text-foreign, map_daemon_error-foreign_iff}
use mx_loom.Text.Token.Shape.{normalise_token_canonical}
use mx_loom.Envelope.{ToolResult, validate_envelope}
use mx_loom.Envelope.Laws.{validate-ok, validate-running, validate-awaiting, validate-errored}
use mx_loom.Invocation.Rule.{Arms, invocation-rule, call_response-rule}
use mx_loom.Invocation.State.{normalised, state_token, kind_of_token}
use mx_loom.Invocation.Failure.{failure_code, has_error_signal}
use mx_loom.Invocation.Failure.Laws.{is_known, failure_result-validate, failure_code-foreign}
use mx_loom.Invocation.{
  result_of, cancelled_result, unrecognised_result, invocation_default, invocation_switch,
  invocation_of, invocation_to_result, call_response_to_result,
}

-- `type: 'object'` of the schema.
abbrev pub is_record : Value → Bool
is_record v = is_some (as_record v)

abbrev pub Accepted : ToolResult Value → Type 0
Accepted t = validate_envelope is_record t ≡ true

record_or_empty : (v : Value) → is_record (get_or (as_record v) (obj end)) ≡ true
unfolding as_record
record_or_empty (obj fs) = refl
record_or_empty _ = refl

-- The reply's own error code, or its state, is spelled so that it normalises to `constructor`.
abbrev pub NamesConstructor : Value → Type 0
NamesConstructor v =
    ((raw : Text) × (extract_daemon_code v ≡ some raw)
      × (normalise_token raw ≡ codes "constructor"))
    ⊎ (state_token v ≡ some (codes "constructor"))

normalised-normal : (o : Option Text) (t : Text) → normalised o ≡ some t → normalise_token t ≡ t
normalised-normal none t h = cc
normalised-normal (some raw) t h =
    let e : normalise_token raw ≡ t = cc in
    subst (λ u. normalise_token u ≡ u) e (normalise_token_canonical raw).1

state_token-normal : (v : Value) (t : Text) → state_token v ≡ some t → normalise_token t ≡ t
unfolding state_token
state_token-normal v t h = normalised-normal _ t h

foreign_token :
    (t : Text) → map_daemon_error (str t) ≡ foreign → normalise_token t ≡ codes "constructor"
unfolding map_daemon_error extract_daemon_code
foreign_token t h = code_of_text-foreign t h

known-or-foreign : (c : CodeValue) → (is_known c ≡ true) ⊎ (c ≡ foreign)
known-or-foreign (known c) = inl refl
known-or-foreign foreign = inr refl

failure_code-NamesConstructor :
    (v : Value) → failure_code v (state_token v) ≡ foreign → NamesConstructor v
failure_code-NamesConstructor v h = elim (failure_code-foreign v (state_token v) h) [
  | inl e ↦ inl ((map_daemon_error-foreign_iff v).0 e)
  | inr (t, found, e) ↦
      inr (found ∙ ap some (sym (state_token-normal v t found) ∙ foreign_token t e))
]

pub failure_code-known :
    (v : Value) → ¬ NamesConstructor v → is_known (failure_code v (state_token v)) ≡ true
failure_code-known v clean = elim (known-or-foreign (failure_code v (state_token v))) [
  | inl h ↦ h
  | inr h ↦ absurd (clean (failure_code-NamesConstructor v h))
]

module _ (raw : Value) (clean : ¬ NamesConstructor raw) where
  Accepted-Arms : Arms Accepted raw
  unfolding unrecognised_result cancelled_result result_of includes
  Accepted-Arms = record {
    failure = λ ref. rw failure_result-validate (failure_code-known raw clean);
    unrecognised = λ ref. validate-errored is_record ref _ _;
    cancelled = λ ref. validate-errored is_record ref _ _;
    success = λ ref. rw validate-ok (record_or_empty (get (codes "result") raw));
    running = λ handle ref. validate-running is_record ref handle;
    awaiting = λ handle a ref. validate-awaiting is_record ref handle a;
  }

-- The envelopes of an `invocation.get` reply and of a `call.start` or `exec.start` reply are
-- accepted by the envelope schema, whatever the reply, unless its own error code or its state
-- normalises to `constructor`.
pub replies-Accepted :
    (raw : Value)
    → ¬ NamesConstructor raw
    → Accepted (invocation_to_result raw) × Accepted (call_response_to_result raw)
replies-Accepted raw clean = (
  invocation-rule Accepted raw (Accepted-Arms raw clean),
  call_response-rule Accepted raw (Accepted-Arms raw clean),
)

-- A reply with an error signal and no known state, whose own error code normalises to
-- `constructor`, becomes an envelope that the schema refuses.
pub foreign_code-refused :
    (fs : Fields) (raw : Text)
    → extract_daemon_code (obj fs) ≡ some raw
    → normalise_token raw ≡ codes "constructor"
    → has_error_signal (obj fs) ≡ true
    → kind_of_token (state_token (obj fs)) ≡ missing
    → validate_envelope is_record (invocation_to_result (obj fs)) ≡ false
unfolding invocation_to_result invocation_of as_record invocation_switch invocation_default
    failure_code
foreign_code-refused fs raw found named signal unknown =
    let e = (map_daemon_error-foreign_iff (obj fs)).1 (raw, found, named) in
    rw (unknown, signal) (rw e (failure_result-validate is_record foreign _))
