-- ===== src/Tasks/Action.antt =====
-- packages/registry/src/handlers/task-action.ts: an authored action and the dispatch it maps to.
pub mod RoundTrip
use mx_loom.Common.{Bool, true, false, Option, none, some, List, [], ◌∷◌, get_or, if◌then◌else◌}
use mx_loom.Text.{Text, codes}
use mx_loom.Json.{Value, Items, str, arr, obj, Fields, nil, cons, end, field}
use mx_loom.Tasks.Node.{ActionKind, tool, exec, TaskAction}

pub data ActionDispatch : Type 0 where
  to_tool : Text → Value → ActionDispatch
  to_exec : Text → List Text → Option Text → ActionDispatch
  invalid : Text → ActionDispatch

abbrev exec_dispatch : Option Text → TaskAction → ActionDispatch
exec_dispatch (some (c ∷ s)) a = to_exec (c ∷ s) (get_or a.command_args []) a.cwd
exec_dispatch command a = invalid (codes "exec action carries no command to run")

abbrev tool_dispatch : Option Text → TaskAction → ActionDispatch
tool_dispatch (some (c ∷ s)) a = to_tool (c ∷ s) (get_or a.args (obj end))
tool_dispatch name a = invalid (codes "tool action carries no tool to invoke")

abbrev dispatch_of_kind : ActionKind → TaskAction → ActionDispatch
dispatch_of_kind exec a = exec_dispatch a.command a
dispatch_of_kind tool a = tool_dispatch a.tool_name a

unfoldable pub action_to_dispatch : TaskAction → ActionDispatch
action_to_dispatch a = dispatch_of_kind a.kind a

unfoldable pub is_invalid_dispatch : ActionDispatch → Bool
is_invalid_dispatch (invalid why) = true
is_invalid_dispatch d = false

-- A list of texts as a JSON array.
unfoldable pub text_items : List Text → Items
text_items [] = nil
text_items (s ∷ ss) = cons (str s) (text_items ss)

unfoldable pub text_array : List Text → Value
unfolding text_items
text_array ss = arr (text_items ss)

-- A field that is there only where its value is.
abbrev pub optional : Text → Option Value → Fields → Fields
optional key none fs = fs
optional key (some v) fs = field key v fs

abbrev has_no_keys : Fields → Bool
has_no_keys end = true
has_no_keys (field k v fs) = false

-- `Object.keys(args).length > 0`.
abbrev nonempty_record : Value → Option Value
nonempty_record (obj fs) = if has_no_keys fs then none else some (obj fs)
nonempty_record v = none

abbrev nonempty_array : List Text → Option Value
nonempty_array [] = none
nonempty_array (s ∷ ss) = some (text_array (s ∷ ss))

abbrev pub text_value : Option Text → Option Value
text_value none = none
text_value (some s) = some (str s)

-- An invalid dispatch is never authored this way: it has no parameter.
unfoldable pub dispatch_to_create_action_param : ActionDispatch → Option Value
unfolding text_array
dispatch_to_create_action_param (to_tool name args) = some (
    obj (
      field (codes "kind") (str (codes "tool"))
        (field (codes "tool") (str name) (optional (codes "args") (nonempty_record args) end))))
dispatch_to_create_action_param (to_exec command args cwd) = some (
    obj (
      field (codes "kind") (str (codes "exec")) (
        field (codes "command") (str command) (
          optional (codes "args") (nonempty_array args)
            (optional (codes "cwd") (text_value cwd) end)))))
dispatch_to_create_action_param (invalid why) = none

unfoldable pub kind_name : ActionKind → Text
kind_name tool = codes "tool"
kind_name exec = codes "exec"

-- The `args` of an action that cannot be dispatched: `command_args` where there are any, which the
-- later spread puts over `args`, at the place of the first.
abbrev declared_args : TaskAction → Option Value
declared_args a = elim a.command_args [ some ss ↦ some (text_array ss) | none ↦ none ]

abbrev first_args : TaskAction → Option Value
first_args a = elim a.args [ some v ↦ some (get_or (declared_args a) v) | none ↦ none ]

abbrev later_args : TaskAction → Option Value
later_args a = elim a.args [ some v ↦ none | none ↦ declared_args a ]

unfoldable pub build_action_param : TaskAction → Value
unfolding action_to_dispatch dispatch_to_create_action_param kind_name text_array
build_action_param a = get_or (dispatch_to_create_action_param (action_to_dispatch a)) (
    obj (
      field (codes "kind") (str (kind_name a.kind)) (
        optional (codes "tool") (text_value a.tool_name) (
          optional (codes "args") (first_args a) (
            optional (codes "command") (text_value a.command) (
              optional (codes "args") (later_args a)
                (optional (codes "cwd") (text_value a.cwd) end)))))))
