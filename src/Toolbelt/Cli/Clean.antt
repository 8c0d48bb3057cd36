-- ===== src/Toolbelt/Cli/Clean.antt =====
-- What reaches the child process: no denied variable, and nothing of the parameters on its arguments.
use mx_loom.Common.{
  ◌≡◌, refl, sym, ap, ◌∙◌, arith, Bool, true, false, not, ◌&&◌, ◌||◌, any, map, Option, none, some,
  List, [], ◌∷◌, ◌++◌, if◌then◌else◌, ◌or_else◌, Bool-cases, inl, inr,
}
use mx_loom.Text.{Text, codes, eq_text, eq_text_refl, eq_text_sound}
use mx_loom.Json.{Value}
use mx_loom.Toolbelt.Guards.{no_credential}
use mx_loom.Toolbelt.Descriptor.{JsonCodec}
use mx_loom.Toolbelt.Cli.Request.{
  base_env_allow, is_denied_env_key, EnvEntries, lookup_env, set_env, set_defined, copy_env,
  keep_allowed, safe_subprocess_env, split_dots, nonempty_parts, ArgvPlan, is_nullish, plan_of,
  method_to_argv, SpawnRequest, with_env, CliClient, spawn_request,
}

same_key : {A : Type 0} (f : Text → A) (k key : Text) → eq_text k key ≡ true → f k ≡ f key
same_key f k key e = ap f (eq_text_sound k key e)

not_both :
    (k' k key : Text) → eq_text k' k ≡ false → eq_text k' key ≡ true → eq_text k key ≡ true → ⊥
not_both k' k key e p q =
    let t : eq_text k' k ≡ true =
      same_key (λ x. eq_text x k) k' key p
      ∙ sym (same_key (λ x. eq_text x k) k key q)
      ∙ eq_text_refl k in
    cc

-- Two tests that do not both hold can be made in either order.
test_order :
    (a b : Bool) (x y z : Option Text)
    → (a ≡ true → b ≡ true → ⊥)
    → (if a then x else if b then y else z) ≡ (if b then y else if a then x else z)
test_order true true x y z h = absurd (h refl refl)
test_order true false x y z h = refl
test_order false b x y z h = refl

if_same : (b : Bool) (x : Option Text) → (if b then x else x) ≡ x
if_same true x = refl
if_same false x = refl

if_twice :
    (b : Bool) (x y z : Option Text) → (if b then x else z) ≡ (if b then x else if b then y else z)
if_twice true x y z = refl
if_twice false x y z = refl

lookup-set_env :
    (key k : Text) (v : Text) (es : EnvEntries)
    → lookup_env key (set_env k v es) ≡ (if eq_text k key then some v else lookup_env key es)
lookup-set_env key k v [] = refl
lookup-set_env key k v ((k', v') ∷ es) = elim (Bool-cases (eq_text k' k)) [
  | inl e ↦
      rw (e, same_key (λ x. eq_text x key) k' k e)
        (if_twice (eq_text k key) (some v) (some v') (lookup_env key es))
  | inr e ↦
      rw (e, lookup-set_env key k v es)
        (test_order (eq_text k' key) (eq_text k key) (some v') (some v) (lookup_env key es)
          (not_both k' k key e))
]

lookup-set_defined :
    (key k : Text) (v : Option Text) (es : EnvEntries)
    → lookup_env key (set_defined k v es)
      ≡ (if eq_text k key then v or_else lookup_env key es else lookup_env key es)
lookup-set_defined key k none es = sym (if_same (eq_text k key) (lookup_env key es))
lookup-set_defined key k (some v) es = lookup-set_env key k v es

abbrev pub holds : Text → List Text → Bool
holds key keys = any (λ k. eq_text k key) keys

or_else_twice : (a b : Option Text) → (a or_else (a or_else b)) ≡ (a or_else b)
or_else_twice none b = refl
or_else_twice (some x) b = refl

set_then_copied :
    (b c : Bool) (a a' l : Option Text)
    → (b ≡ true → a ≡ a')
    → (if c then a' or_else (if b then a or_else l else l) else (if b then a or_else l else l))
      ≡ (if b || c then a' or_else l else l)
set_then_copied true true a a' l h = rw (h refl) (or_else_twice a' l)
set_then_copied true false a a' l h = rw (h refl) refl
set_then_copied false c a a' l h = refl

lookup-copy_env :
    (source : Text → Option Text) (key : Text) (keys : List Text) (es : EnvEntries)
    → lookup_env key (copy_env source keys es)
      ≡ (if holds key keys then source key or_else lookup_env key es else lookup_env key es)
unfolding copy_env
lookup-copy_env source key [] es = refl
lookup-copy_env source key (k ∷ keys) es =
    rw
      (
        lookup-copy_env source key keys (set_defined k (source k) es),
        lookup-set_defined key k (source k) es,
      )
      (set_then_copied (eq_text k key) (holds key keys) (source k) (source key) (lookup_env key es)
        (same_key source k key))

kept_or_not :
    (b d d' h : Bool)
    → (b ≡ true → d ≡ d')
    → (if d then h && not d' else b || (h && not d')) ≡ ((b || h) && not d')
kept_or_not true true d' h e = rw (sym (e refl)) (grind arith)
kept_or_not true false d' h e = rw (sym (e refl)) refl
kept_or_not false true d' h e = refl
kept_or_not false false d' h e = refl

holds_if :
    (key k : Text) (d : Bool) (ks : List Text)
    → holds key (if d then ks else k ∷ ks)
      ≡ (if d then holds key ks else eq_text k key || holds key ks)
holds_if key k true ks = refl
holds_if key k false ks = refl

holds-keep_allowed :
    (upper : Text → Text) (key : Text) (keys : List Text)
    → holds key (keep_allowed upper keys) ≡ (holds key keys && not (is_denied_env_key upper key))
holds-keep_allowed upper key [] = refl
holds-keep_allowed upper key (k ∷ keys) =
    holds_if key k (is_denied_env_key upper k) (keep_allowed upper keys)
    ∙ rw (holds-keep_allowed upper key keys) (
        kept_or_not (eq_text k key) (is_denied_env_key upper k) (is_denied_env_key upper key)
          (holds key keys) (same_key (is_denied_env_key upper) k key))

or_else_none : (a : Option Text) → (a or_else none) ≡ a
or_else_none none = refl
or_else_none (some x) = refl

-- A variable of the child is the parent's, if its name is on the list and not denied; no other is set.
lookup-safe_subprocess_env :
    (upper : Text → Text) (source : Text → Option Text) (extra : List Text) (key : Text)
    → lookup_env key (safe_subprocess_env upper source extra) ≡ (
        if holds key (map codes base_env_allow ++ extra) && not (is_denied_env_key upper key)
        then source key
        else none)
unfolding safe_subprocess_env
lookup-safe_subprocess_env upper source extra key =
    let keys = map codes base_env_allow ++ extra in
    lookup-copy_env source key (keep_allowed upper keys) []
    ∙ rw (holds-keep_allowed upper key keys, or_else_none (source key)) refl

abbrev pub argv_of : Option ArgvPlan → List Text
argv_of none = []
argv_of (some plan) = plan.argv

plan_argv :
    (codec : JsonCodec) (parts : List Text) (v w : Value)
    → is_nullish v ≡ is_nullish w
    → argv_of (plan_of codec parts v) ≡ argv_of (plan_of codec parts w)
plan_argv codec [] v w e = refl
plan_argv codec (p ∷ ps) v w e = elim (Bool-cases (is_nullish w)) [
  | inl n ↦ rw (e, n) refl
  | inr n ↦ rw (e, n) refl
]

-- What is true of a child that is started.
abbrev pub CleanSpawn : CliClient → Text → Value → Value → Text → SpawnRequest → Type 0
CleanSpawn c method params others key request =
    (no_credential params ≡ true)
    × (lookup_env key request.env ≡ (
        if holds key (map codes base_env_allow ++ c.extra_env_allow)
          && not (is_denied_env_key c.upper key)
        then c.env key
        else none))
    × (request.plan.argv ≡ argv_of (method_to_argv c.codec method others))

started :
    (env : EnvEntries) (plan : Option ArgvPlan) (request : SpawnRequest)
    → with_env env plan ≡ some request
    → (request.env ≡ env) × (request.plan.argv ≡ argv_of plan)
started env none request e = absurd cc
started env (some plan) request e =
    let p : record { plan = plan; env = env } ≡ request = cc in
    (ap (λ r. r.env) (sym p), ap (λ r. r.plan.argv) (sym p))

guarded :
    (b : Bool) (r : Option SpawnRequest) (request : SpawnRequest)
    → (if b then r else none) ≡ some request
    → (b ≡ true) × (r ≡ some request)
guarded true r request e = (refl, e)
guarded false r request e = absurd cc

-- A child is started only where the parameters show no credential. Each variable of its environment is
-- the parent's and has a name that is on the list and is not denied; and its arguments are the same
-- for any other parameters of the method, as long as both or neither are missing.
pub spawn_request-CleanSpawn :
    (c : CliClient) (method : Text) (params others : Value) (key : Text) (request : SpawnRequest)
    → spawn_request c method params ≡ some request
    → is_nullish params ≡ is_nullish others
    → CleanSpawn c method params others key request
unfolding spawn_request method_to_argv
spawn_request-CleanSpawn c method params others key request e n =
    let env = safe_subprocess_env c.upper c.env c.extra_env_allow in
    let (clean, q) =
      guarded (no_credential params) (with_env env (method_to_argv c.codec method params)) request
        e in
    let (same_env, same_argv) = started env (method_to_argv c.codec method params) request q in
    (
      clean,
      ap (lookup_env key) same_env ∙ lookup-safe_subprocess_env c.upper c.env c.extra_env_allow key,
      same_argv ∙ plan_argv c.codec (nonempty_parts (split_dots method)) params others n,
    )
