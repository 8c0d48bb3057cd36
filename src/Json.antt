-- ===== src/Json.antt =====
-- The JSON values that the daemon's replies and rejections are, and the small total readers of
-- packages/registry/src/handlers/invocation.ts and handlers/agent-projection.ts.
pub mod Number
use mx_loom.Common.{Bool, true, false, ◌||◌, Option, none, some, List, [], ◌∷◌, if◌then◌else◌}
use mx_loom.Text.{Text, eq_text}
use Number.{WireNumber}

-- `undefined` is what a missing key reads as. The keys of one object are distinct.
mutual
  pub data Value : Type 0 where
    undefined null : Value
    bool : Bool → Value
    num : WireNumber → Value
    str : Text → Value
    arr : Items → Value
    obj : Fields → Value

  pub data Items : Type 0 where
    nil : Items
    cons : Value → Items → Items

  pub data Fields : Type 0 where
    end : Fields
    field : Text → Value → Fields → Fields

-- The value of an own key, `undefined` where there is none.
unfoldable pub get_field : Text → Fields → Value
get_field key end = undefined
get_field key (field k v fs) = if eq_text k key then v else get_field key fs

-- `obj.key` at the fixed names that the code reads: an array has none of them.
unfoldable pub get : Text → Value → Value
unfolding get_field
get key (obj fs) = get_field key fs
get key _ = undefined

unfoldable pub elements : Items → List Value
elements nil = []
elements (cons v vs) = v ∷ elements vs

-- `key in obj`, for a key that `Object.prototype` does not have.
unfoldable pub has_own : Text → Fields → Bool
has_own key end = false
has_own key (field k v fs) = eq_text k key || has_own key fs

-- `Array.isArray(x)`, with the elements.
unfoldable pub as_array : Value → Option (List Value)
unfolding elements
as_array (arr xs) = some (elements xs)
as_array _ = none

-- An object that is no array; the reader's other results are "absent".
unfoldable pub as_record : Value → Option Value
as_record (obj fs) = some (obj fs)
as_record _ = none

unfoldable pub read_string : Value → Option Text
read_string (str s) = some s
read_string _ = none

-- `x ?? y` on values.
unfoldable pub coalesce : Value → Value → Value
coalesce undefined v = v
coalesce null v = v
coalesce u _ = u

-- `typeof x === 'object' && x !== null`: an array is one.
unfoldable pub is_object : Value → Bool
is_object (obj fs) = true
is_object (arr xs) = true
is_object _ = false

-- `typeof x === 'string'` on the elements: the texts of an array, and nothing of what is none.
unfoldable pub texts : List Value → List Text
texts [] = []
texts (str s ∷ vs) = s ∷ texts vs
texts (_ ∷ vs) = texts vs

unfoldable pub read_string_array : Value → List Text
unfolding elements texts
read_string_array (arr xs) = texts (elements xs)
read_string_array _ = []
