-- ===== src/Errors/Daemon.antt =====
-- The map from a daemon error onto the closed set.
use mx_loom.Common.{◌≡◌, refl, ◌↔◌, some, arith, Option-cases, inl, inr}
use mx_loom.Text.{Text, codes, eq_text}
use mx_loom.Text.Token.{normalise_token}
use mx_loom.Json.{Value, Fields, end, field, get_field}
use mx_loom.Table.{entry, is_prototype_name, read, prototype_name_of_token}
use mx_loom.Errors.{
  ErrorCode, known, foreign, extract_daemon_code, at_error, code_of_text, map_daemon_error,
}

-- `at_error` reads the own key `error` and looks for a code there.
pub at_error-get_field :
    (fs : Fields) → at_error fs ≡ extract_daemon_code (get_field (codes "error") fs)
unfolding at_error extract_daemon_code get_field
at_error-get_field end = refl
at_error-get_field (field k v fs) = ground (arith, at_error-get_field fs)

pub code_of_text-foreign :
    (raw : Text) → code_of_text raw ≡ foreign → normalise_token raw ≡ codes "constructor"
unfolding code_of_text read
code_of_text-foreign raw h = prototype_name_of_token raw (ground arith)

code_of_text-constructor :
    (raw : Text) → normalise_token raw ≡ codes "constructor" → code_of_text raw ≡ foreign
unfolding code_of_text read is_prototype_name entry eq_text codes
code_of_text-constructor raw h = rw h

known_ne_foreign : {c : ErrorCode} → known c ≡ foreign → ⊥
known_ne_foreign h = cc

-- `mapDaemonError` returns something that is no code exactly where the fault's own code normalises
-- to `constructor`, which the table's lookup finds on `Object.prototype`; for every other fault it
-- returns a code of the closed set.
pub map_daemon_error-foreign_iff :
    (v : Value)
    → (map_daemon_error v ≡ foreign) ↔ (
        (raw : Text) × (extract_daemon_code v ≡ some raw)
        × (normalise_token raw ≡ codes "constructor"))
unfolding map_daemon_error
map_daemon_error-foreign_iff v = elim (Option-cases (extract_daemon_code v)) [
  | inl absent ↦ (λ h. absurd (known_ne_foreign (rw absent at h)), λ (raw, found, _). cc)
  | inr (raw, found) ↦ (
    λ h. (raw, found, code_of_text-foreign raw (rw found at h)),
    λ (raw', found', e). rw found' (code_of_text-constructor raw' e),
  )
]
