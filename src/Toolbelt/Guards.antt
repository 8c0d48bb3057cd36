-- ===== src/Toolbelt/Guards.antt =====
-- packages/toolbelt/src/guards.ts: the guard on what goes out and the redaction of what comes in.
-- The two regular expressions are tests on the code units. An own key `__proto__`, which an
-- assignment to a fresh object would not keep, is outside the model.
pub mod Laws
use mx_loom.Common.{
  ℕ, zero, suc, ◌+◌, Bool, true, false, not, ◌&&◌, ◌||◌, Option, none, some, List, [], ◌∷◌, ◌==◌,
  leb, any, if◌then◌else◌,
}
use Prim.Native.String.{String}
use mx_loom.Text.{Text, codes}
use mx_loom.Json.{
  Value, undefined, null, bool, num, str, arr, obj, Items, nil, cons, Fields, end, field,
}

abbrev is_upper : ℕ → Bool
is_upper c = leb b'A' c && leb c b'Z'

abbrev is_lower : ℕ → Bool
is_lower c = leb b'a' c && leb c b'z'

abbrev is_digit : ℕ → Bool
is_digit c = leb b'0' c && leb c b'9'

-- The `i` flag: without `u`, only ASCII letters fold onto ASCII letters.
fold_case : Text → Text
fold_case [] = []
fold_case (c ∷ s) = (if is_upper c then c + 32 else c) ∷ fold_case s

unfoldable pub starts_with : Text → Text → Bool
starts_with [] s = true
starts_with (p ∷ ps) [] = false
starts_with (p ∷ ps) (c ∷ s) = p == c && starts_with ps s

unfoldable pub contains : Text → Text → Bool
unfolding starts_with
contains p [] = starts_with p []
contains p (c ∷ s) = starts_with p (c ∷ s) || contains p s

abbrev is_text : Text → Text → Bool
is_text [] [] = true
is_text (a ∷ s) (b ∷ t) = a == b && is_text s t
is_text s t = false

-- `[_-]token$` at some position.
ends_in_token : Text → Bool
unfolding codes
ends_in_token [] = false
ends_in_token (c ∷ s) = ((c == b'_' || c == b'-') && is_text s (codes "token")) || ends_in_token s

abbrev key_words : List String
key_words =
    "secret" ∷ "password" ∷ "passwd" ∷ "apikey" ∷ "api_key" ∷ "api-key" ∷ "signingkey"
    ∷ "signing_key" ∷ "signing-key" ∷ "privatekey" ∷ "private_key" ∷ "private-key" ∷ "matrix_"
    ∷ "mx_agent_" ∷ "ghtoken" ∷ "gh_token" ∷ "gh-token" ∷ []

-- `CREDENTIAL_KEY_RE.test(key)`.
unfoldable pub is_credential_key : Text → Bool
unfolding fold_case contains ends_in_token codes
is_credential_key key =
    let k = fold_case key in
    any (λ word. contains (codes word) k) key_words || is_text k (codes "token") || ends_in_token k

-- What follows a prefix, where the text starts with it.
after : Text → Text → Option Text
after [] s = some s
after (p ∷ ps) [] = none
after (p ∷ ps) (c ∷ s) = let rest = after ps s in if p == c then rest else none

-- At least `n` characters of a class at the start.
run_of : (ℕ → Bool) → ℕ → Text → Bool
run_of p zero s = true
run_of p (suc n) [] = false
run_of p (suc n) (c ∷ s) = p c && run_of p n s

abbrev is_word : ℕ → Bool
is_word c = is_upper c || is_lower c || is_digit c

abbrev is_upper_digit : ℕ → Bool
is_upper_digit c = is_digit c || is_upper c

-- `[A-Z ]*PRIVATE KEY-----`, at the start.
private_key_header : Text → Bool
unfolding starts_with codes
private_key_header [] = false
private_key_header (c ∷ s) =
    starts_with (codes "PRIVATE KEY-----") (c ∷ s)
    || ((is_upper c || c == b' ') && private_key_header s)

abbrev then_run : (ℕ → Bool) → ℕ → Option Text → Bool
then_run p n none = false
then_run p n (some s) = run_of p n s

abbrev then_header : Option Text → Bool
then_header none = false
then_header (some s) = private_key_header s

abbrev value_prefixes : List String
value_prefixes =
    "ghp_" ∷ "gho_" ∷ "ghs_" ∷ "ghr_" ∷ "ghu_" ∷ "github_pat_" ∷ "syt_" ∷ "xoxa-" ∷ "xoxb-"
    ∷ "xoxp-" ∷ "xoxr-" ∷ "xoxs-" ∷ "sk-ant-" ∷ []

-- `CREDENTIAL_VALUE_RE.test(value)`.
unfoldable pub is_credential_value : Text → Bool
unfolding starts_with after run_of private_key_header codes
is_credential_value s =
    any (λ p. starts_with (codes p) s) value_prefixes
    || then_run is_word 20 (after (codes "sk-") s)
    || then_run is_upper_digit 16 (after (codes "AKIA") s)
    || then_header (after (codes "-----BEGIN ") s)

-- Whether `assertNoCredentialShapedArgs` returns: it throws `invalid_args` at the first key or value
-- that looks like a credential.
unfoldable mutual
  pub no_credential : Value → Bool
  no_credential (str s) = not (is_credential_value s)
  no_credential (arr vs) = no_credential_items vs
  no_credential (obj fs) = no_credential_fields fs
  no_credential v = true

  pub no_credential_items : Items → Bool
  no_credential_items nil = true
  no_credential_items (cons v vs) = no_credential v && no_credential_items vs

  pub no_credential_fields : Fields → Bool
  no_credential_fields end = true
  no_credential_fields (field k v fs) =
      not (is_credential_key k) && no_credential v && no_credential_fields fs

unfoldable pub redaction_placeholder : Text
redaction_placeholder = codes "«redacted»"

-- Only the shape of a value counts, never its key.
unfoldable mutual
  pub redact_secrets : Value → Value
  redact_secrets (str s) = str (if is_credential_value s then redaction_placeholder else s)
  redact_secrets (arr vs) = arr (redact_items vs)
  redact_secrets (obj fs) = obj (redact_fields fs)
  redact_secrets v = v

  pub redact_items : Items → Items
  redact_items nil = nil
  redact_items (cons v vs) = cons (redact_secrets v) (redact_items vs)

  pub redact_fields : Fields → Fields
  redact_fields end = end
  redact_fields (field k v fs) = field k (redact_secrets v) (redact_fields fs)
