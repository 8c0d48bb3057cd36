-- ===== src/Toolbelt/Guards/Laws.antt =====
-- The redaction leaves no credential-shaped text, and nothing else changes.
use mx_loom.Common.{
  ◌↔◌, subst, ◌≡◌, refl, ap, Bool, true, false, not, ◌&&◌, arith, and_split, and_intro,
}
use mx_loom.Text.{codes}
use mx_loom.Json.{
  Value, undefined, null, bool, num, str, arr, obj, Items, nil, cons, Fields, end, field,
}
use mx_loom.Toolbelt.Guards.{
  is_credential_value, is_credential_key, no_credential, no_credential_items, no_credential_fields,
  redaction_placeholder, redact_secrets, redact_items, redact_fields,
}

-- No text in the value looks like a credential; keys are not looked at.
unfoldable mutual
  pub no_secret : Value → Bool
  no_secret (str s) = not (is_credential_value s)
  no_secret (arr vs) = no_secret_items vs
  no_secret (obj fs) = no_secret_fields fs
  no_secret v = true

  pub no_secret_items : Items → Bool
  no_secret_items nil = true
  no_secret_items (cons v vs) = no_secret v && no_secret_items vs

  pub no_secret_fields : Fields → Bool
  no_secret_fields end = true
  no_secret_fields (field k v fs) = no_secret v && no_secret_fields fs

placeholder_clean : is_credential_value redaction_placeholder ≡ false
unfolding is_credential_value redaction_placeholder codes
placeholder_clean = refl

mutual
  unfolding redact_secrets no_secret

  redacted : (v : Value) → no_secret (redact_secrets v) ≡ true
  redacted (str s) = ground (arith, placeholder_clean)
  redacted (arr vs) = redacted_items vs
  redacted (obj fs) = redacted_fields fs
  redacted undefined = refl
  redacted null = refl
  redacted (bool b) = refl
  redacted (num n) = refl

  redacted_items : (vs : Items) → no_secret_items (redact_items vs) ≡ true
  redacted_items nil = refl
  redacted_items (cons v vs) = ground (arith, redacted v, redacted_items vs)

  redacted_fields : (fs : Fields) → no_secret_fields (redact_fields fs) ≡ true
  redacted_fields end = refl
  redacted_fields (field k v fs) = ground (arith, redacted v, redacted_fields fs)

mutual
  unfolding redact_secrets no_secret

  untouched : (v : Value) → no_secret v ≡ true → redact_secrets v ≡ v
  untouched (str s) h = ground arith
  untouched (arr vs) h = ap arr (untouched_items vs h)
  untouched (obj fs) h = ap obj (untouched_fields fs h)
  untouched undefined h = refl
  untouched null h = refl
  untouched (bool b) h = refl
  untouched (num n) h = refl

  untouched_items : (vs : Items) → no_secret_items vs ≡ true → redact_items vs ≡ vs
  untouched_items nil h = refl
  untouched_items (cons v vs) h =
      let (p, q) = and_split (no_secret v) _ h in
      λ i. cons (untouched v p i) (untouched_items vs q i)

  untouched_fields : (fs : Fields) → no_secret_fields fs ≡ true → redact_fields fs ≡ fs
  untouched_fields end h = refl
  untouched_fields (field k v fs) h =
      let (p, q) = and_split (no_secret v) _ h in
      λ i. field k (untouched v p i) (untouched_fields fs q i)

mutual
  unfolding no_credential no_secret

  guarded : (v : Value) → no_credential v ≡ true → no_secret v ≡ true
  guarded (str s) h = h
  guarded (arr vs) h = guarded_items vs h
  guarded (obj fs) h = guarded_fields fs h
  guarded undefined h = refl
  guarded null h = refl
  guarded (bool b) h = refl
  guarded (num n) h = refl

  guarded_items : (vs : Items) → no_credential_items vs ≡ true → no_secret_items vs ≡ true
  guarded_items nil h = refl
  guarded_items (cons v vs) h =
      let (p, q) = and_split (no_credential v) _ h in and_intro (guarded v p) (guarded_items vs q)

  guarded_fields : (fs : Fields) → no_credential_fields fs ≡ true → no_secret_fields fs ≡ true
  guarded_fields end h = refl
  guarded_fields (field k v fs) h =
      let (p, q) = and_split (not (is_credential_key k) && no_credential v) _ h in
      and_intro (guarded v (and_split (not (is_credential_key k)) _ p).1) (guarded_fields fs q)

never_both : (a b : Bool) → (a ≡ true → b ≡ true) → (a && not b) ≡ false
never_both true b h = rw (h refl)
never_both false b h = refl

-- A redacted value has no credential-shaped text at any depth; a value is left as it is exactly if it
-- has none, so redacting twice is redacting once; and what the outbound guard lets pass has none.
pub redact_secrets-clean :
    (v : Value)
    → (no_secret (redact_secrets v) ≡ true)
      × ((redact_secrets v ≡ v) ↔ (no_secret v ≡ true))
      × (redact_secrets (redact_secrets v) ≡ redact_secrets v)
      × ((no_credential v && not (no_secret v)) ≡ false)
redact_secrets-clean v = (
  redacted v,
  (λ e. subst (λ u. no_secret u ≡ true) e (redacted v), untouched v),
  untouched (redact_secrets v) (redacted v),
  never_both (no_credential v) (no_secret v) (guarded v),
)
