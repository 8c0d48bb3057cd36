-- ===== src/Tasks/Action/RoundTrip.antt =====
-- An authored action, read back from the task record, dispatches as it was authored.
use mx_loom.Common.{◌≡◌, refl, ap, Option, none, some, List, [], ◌∷◌}
use mx_loom.Text.{Text, codes, eq_text}
use mx_loom.Json.{
  Value, obj, end, field, elements, texts, read_string_array, get, as_record, read_string,
}
use mx_loom.Tasks.Node.{project_action}
use mx_loom.Tasks.Action.{
  ActionDispatch, to_tool, to_exec, invalid, action_to_dispatch, text_items, text_array,
  dispatch_to_create_action_param,
}

texts-text_items : (ss : List Text) → texts (elements (text_items ss)) ≡ ss
unfolding texts elements text_items
texts-text_items [] = refl
texts-text_items (s ∷ ss) = ap (λ t. s ∷ t) (texts-text_items ss)

-- The dispatch of the action that a record's `action` block is read as.
abbrev pub redispatch : Option Value → Option ActionDispatch
redispatch none = none
redispatch (some block) = elim (project_action block) [
  | none ↦ none
  | some a ↦ some (action_to_dispatch a)
]

abbrev pub IsNamed : ActionDispatch → Type 0
IsNamed (to_tool [] args) = ⊥
IsNamed (to_tool (c ∷ s) (obj fs)) = Unit
IsNamed (to_tool (c ∷ s) args) = ⊥
IsNamed (to_exec [] args cwd) = ⊥
IsNamed (to_exec (c ∷ s) args cwd) = Unit
IsNamed (invalid why) = ⊥

-- A named dispatch that is authored into the plan, read back from the task record and mapped to a
-- dispatch again is the same: its tool with its arguments, or its command with its arguments and its
-- working directory.
pub action_round_trip :
    (d : ActionDispatch) → IsNamed d → redispatch (dispatch_to_create_action_param d) ≡ some d
unfolding project_action action_to_dispatch dispatch_to_create_action_param get as_record
    read_string read_string_array eq_text codes text_array
action_round_trip (to_tool (c ∷ s) (obj end)) h = refl
action_round_trip (to_tool (c ∷ s) (obj (field k v fs))) h = refl
action_round_trip (to_exec (c ∷ s) [] none) h = refl
action_round_trip (to_exec (c ∷ s) [] (some cwd)) h = refl
action_round_trip (to_exec (c ∷ s) (a ∷ rest) none) h =
    ap (λ t. some (to_exec (c ∷ s) (a ∷ t) none)) (texts-text_items rest)
action_round_trip (to_exec (c ∷ s) (a ∷ rest) (some cwd)) h =
    ap (λ t. some (to_exec (c ∷ s) (a ∷ t) (some cwd))) (texts-text_items rest)
action_round_trip (to_exec [] args cwd) h = absurd h
action_round_trip (to_tool [] args) h = absurd h
action_round_trip (to_tool (c ∷ s) args) h = absurd h
action_round_trip (invalid why) h = absurd h
