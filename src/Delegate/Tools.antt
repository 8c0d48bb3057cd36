-- ===== src/Delegate/Tools.antt =====
-- The tools that an agent publishes, projected as in projectTools of
-- packages/registry/src/handlers/agent-projection.ts, and the reference that
-- packages/registry/src/handlers/delegate-tool.ts looks one up by.
use mx_loom.Common.{
  ℕ, ◌++◌, Bool, true, false, ◌&&◌, Option, none, some, List, [], ◌∷◌, ◌==◌, if◌then◌else◌,
}
use mx_loom.Text.{Text, codes, eq_text}
use mx_loom.Json.{Value, arr, obj, get, as_record, read_string, elements, undefined}

pub record PublishedTool : Type 0 where
  pub name : Text
  pub version : Option Text
  pub description : Option Text
  pub input_schema : Option Value
  pub output_schema : Option Value

-- The entry of an object with a name that is a text.
abbrev pub tool_named : Option Text → Value → List PublishedTool
tool_named none r = []
tool_named (some name) r =
    record {
      name = name;
      version = read_string (get (codes "version") r);
      description = read_string (get (codes "description") r);
      input_schema = as_record (get (codes "input_schema") r);
      output_schema = as_record (get (codes "output_schema") r);
    }
    ∷ []

abbrev pub project_tool : Value → List PublishedTool
project_tool (obj fs) = tool_named (read_string (get (codes "name") (obj fs))) (obj fs)
project_tool v = []

abbrev pub project_each : List Value → List PublishedTool
project_each [] = []
project_each (v ∷ vs) = project_tool v ++ project_each vs

unfoldable pub project_tools : Value → List PublishedTool
project_tools (arr xs) = project_each (elements xs)
project_tools v = []

abbrev pub schemas_of : Option Value → Value
schemas_of none = undefined
schemas_of (some r) = get (codes "schemas") r

-- `projectTools(asRecord(toolsResp)?.schemas)`.
unfoldable pub published_tools : Value → List PublishedTool
published_tools raw = project_tools (schemas_of (as_record raw))

pub record ToolRef : Type 0 where
  pub name : Text
  pub version : Option Text

abbrev pub earlier_at : ℕ → Text → Option (Text × Text) → Option (Text × Text)
earlier_at c s (some (a, b)) = some (c ∷ a, b)
earlier_at c s none = if c == b'@' then some ([], s) else none

-- What stands in front of the last `@` and behind it.
unfoldable pub split_last_at : Text → Option (Text × Text)
split_last_at [] = none
split_last_at (c ∷ s) = earlier_at c s (split_last_at s)

-- An empty name or an empty version is none.
abbrev pub ref_of : Text → Option (Text × Text) → ToolRef
ref_of tool (some (c ∷ s, d ∷ t)) = record { name = c ∷ s; version = some (d ∷ t) }
ref_of tool _ = record { name = tool; version = none }

unfoldable pub parse_tool_ref : Text → ToolRef
unfolding split_last_at
parse_tool_ref tool = ref_of tool (split_last_at tool)

abbrev pub has_version : Option Text → Option Text → Bool
has_version none v = true
has_version (some w) none = false
has_version (some w) (some v) = eq_text v w

abbrev pub matches : ToolRef → PublishedTool → Bool
matches ref t = eq_text t.name ref.name && has_version ref.version t.version

unfoldable pub find_tool : ToolRef → List PublishedTool → Option PublishedTool
find_tool ref [] = none
find_tool ref (t ∷ ts) = let rest = find_tool ref ts in if matches ref t then some t else rest
