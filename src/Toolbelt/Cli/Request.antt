-- ===== src/Toolbelt/Cli/Request.antt =====
-- packages/toolbelt/src/cli/method-map.ts and env.ts, and the part of `call` of client.ts in front of
-- the child process: its arguments, its input and its environment.
use Prim.Native.String.{String}
use mx_loom.Common.{
  Bool, true, false, ◌||◌, ◌==◌, any, map, Option, none, some, List, [], ◌∷◌, ◌++◌, if◌then◌else◌,
}
use mx_loom.Text.{Text, codes, eq_text, is_empty}
use mx_loom.Json.{Value, undefined, null}
use mx_loom.Toolbelt.Guards.{no_credential, starts_with}
use mx_loom.Toolbelt.Descriptor.{JsonCodec}

abbrev pub env_deny_prefixes : List String
env_deny_prefixes = "MATRIX_" ∷ "MX_AGENT_" ∷ []

abbrev pub env_deny_suffixes : List String
env_deny_suffixes = "_TOKEN" ∷ "_API_KEY" ∷ "_SECRET" ∷ "_ACCESS_KEY" ∷ []

abbrev pub env_deny_exact : List String
env_deny_exact = "GH_TOKEN" ∷ []

abbrev pub base_env_allow : List String
base_env_allow =
    "HOME" ∷ "PATH" ∷ "XDG_RUNTIME_DIR" ∷ "XDG_DATA_HOME" ∷ "TMPDIR" ∷ "LANG" ∷ "LC_ALL" ∷ "TERM"
    ∷ []

-- `s.endsWith(suffix)`.
unfoldable pub ends_with : Text → Text → Bool
ends_with suffix [] = eq_text [] suffix
ends_with suffix (c ∷ s) = eq_text (c ∷ s) suffix || ends_with suffix s

-- `upper` is `toUpperCase`, which the runtime provides.
unfoldable pub is_denied_env_key : (Text → Text) → Text → Bool
is_denied_env_key upper key =
    any (λ prefix. starts_with (codes prefix) key) env_deny_prefixes
    || any (λ exact. eq_text (upper key) (codes exact)) env_deny_exact
    || any (λ suffix. ends_with (codes suffix) (upper key)) env_deny_suffixes

abbrev pub EnvEntries : Type 0
EnvEntries = List (Text × Text)

abbrev pub lookup_env : Text → EnvEntries → Option Text
lookup_env key [] = none
lookup_env key ((k, v) ∷ es) =
    let rest = lookup_env key es in if eq_text k key then some v else rest

-- `env[key] = value`.
abbrev pub set_env : Text → Text → EnvEntries → EnvEntries
set_env key value [] = (key, value) ∷ []
set_env key value ((k, v) ∷ es) =
    let rest = set_env key value es in if eq_text k key then (k, value) ∷ es else (k, v) ∷ rest

abbrev pub set_defined : Text → Option Text → EnvEntries → EnvEntries
set_defined key none es = es
set_defined key (some value) es = set_env key value es

unfoldable pub copy_env : (Text → Option Text) → List Text → EnvEntries → EnvEntries
copy_env source [] es = es
copy_env source (key ∷ keys) es = copy_env source keys (set_defined key (source key) es)

abbrev pub keep_allowed : (Text → Text) → List Text → List Text
keep_allowed upper [] = []
keep_allowed upper (key ∷ keys) =
    let rest = keep_allowed upper keys in if is_denied_env_key upper key then rest else key ∷ rest

-- The source is the parent's environment, where `none` is `undefined`.
unfoldable pub safe_subprocess_env : (Text → Text) → (Text → Option Text) → List Text → EnvEntries
unfolding copy_env
safe_subprocess_env upper source extra_allow =
    copy_env source (keep_allowed upper (map codes base_env_allow ++ extra_allow)) []

-- Puts a character onto the first part.
abbrev pub onto_first : Text → List Text → List Text
onto_first s [] = s ∷ []
onto_first s (t ∷ ts) = (s ++ t) ∷ ts

-- `method.split('.')`.
unfoldable pub split_dots : Text → List Text
split_dots [] = [] ∷ []
split_dots (c ∷ s) =
    let rest = split_dots s in if c == b'.' then [] ∷ rest else onto_first (c ∷ []) rest

abbrev pub nonempty_parts : List Text → List Text
nonempty_parts [] = []
nonempty_parts (t ∷ ts) = let rest = nonempty_parts ts in if is_empty t then rest else t ∷ rest

pub record ArgvPlan : Type 0 where
  pub argv : List Text
  pub stdin : Option Text

abbrev pub is_nullish : Value → Bool
is_nullish undefined = true
is_nullish null = true
is_nullish v = false

abbrev pub plan_of : JsonCodec → List Text → Value → Option ArgvPlan
plan_of codec [] params = none
plan_of codec (part ∷ parts) params =
    let argv = part ∷ parts ++ (codes "--json" ∷ []) in
    if is_nullish params
    then some (record { argv = argv; stdin = none })
    else some (record {
      argv = argv ++ (codes "--input-json" ∷ codes "-" ∷ []);
      stdin = some (codec.stringify params);
    })

-- `none` is the throw of `TransportError('invalid_args')`.
unfoldable pub method_to_argv : JsonCodec → Text → Value → Option ArgvPlan
unfolding split_dots
method_to_argv codec method params = plan_of codec (nonempty_parts (split_dots method)) params

-- What the child process is started with.
pub record SpawnRequest : Type 0 where
  pub plan : ArgvPlan
  pub env : EnvEntries

abbrev pub with_env : EnvEntries → Option ArgvPlan → Option SpawnRequest
with_env env none = none
with_env env (some plan) = some (record { plan = plan; env = env })

-- The runtime's upper case and `JSON.stringify`, the parent's environment and the client's option.
pub record CliClient : Type 0 where
  pub upper : Text → Text
  pub codec : JsonCodec
  pub env : Text → Option Text
  pub extra_env_allow : List Text

-- `call` up to the child: `none` is a throw of `TransportError('invalid_args')`.
unfoldable pub spawn_request : CliClient → Text → Value → Option SpawnRequest
spawn_request c method params =
    if no_credential params
    then with_env (safe_subprocess_env c.upper c.env c.extra_env_allow)
        (method_to_argv c.codec method params)
    else none
