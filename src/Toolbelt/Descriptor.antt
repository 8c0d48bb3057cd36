-- ===== src/Toolbelt/Descriptor.antt =====
-- packages/toolbelt/src/session-descriptor.ts: the record that outlives a runtime, validated on
-- write and on read. Every throw of the file has the code `invalid_args`; it is `none` here.
pub mod Laws
pub mod Accepted
use mx_loom.Common.{
  ℕ, ◌*◌, ◌^◌, Bool, true, false, not, ◌&&◌, Option, none, some, ◌==◌, if◌then◌else◌,
}
use mx_loom.Text.{Text, codes, is_empty}
use mx_loom.Json.{Value, undefined, null, num, str, obj, Fields, field, end, get}
use mx_loom.Json.Number.{WireNumber, plus, natural, is_finite}
use mx_loom.Tasks.Action.{optional, text_value}
use mx_loom.Toolbelt.Guards.{no_credential}
use mx_loom.Toolbelt.Plan.{TaskCursor}

-- The field `v` of the record is always the version.
pub record SessionDescriptor : Type 0 where
  pub agent_id : Text
  pub room : Text
  pub correlation_id : Text
  pub kind : Option Text
  pub cursor : Option TaskCursor

abbrev pub session_descriptor_version : WireNumber
session_descriptor_version = natural 1

-- `v === SESSION_DESCRIPTOR_VERSION`.
unfoldable pub is_version : Value → Bool
is_version (num (plus n)) = n == 1 * 2 ^ 1074
is_version v = false

unfoldable pub read_nonempty_string : Value → Option Text
read_nonempty_string (str s) = if is_empty s then none else some s
read_nonempty_string v = none

-- A field that may be missing: the reader's outer `none` is the throw.
unfoldable pub read_kind : Value → Option (Option Text)
read_kind undefined = some none
read_kind (str s) = some (some s)
read_kind v = none

unfoldable pub read_state_rev : Value → Option (Option WireNumber)
read_state_rev undefined = some none
read_state_rev (num n) = if is_finite n then some (some n) else none
read_state_rev v = none

abbrev pub cursor_of :
    Option (Option WireNumber) → Option (Option Text) → Option (Option TaskCursor)
cursor_of (some rev) (some token) = some (some (record { state_rev = rev; token = token }))
cursor_of rev token = none

-- The token is read as `kind` is.
unfoldable pub read_cursor : Value → Option (Option TaskCursor)
unfolding read_state_rev read_kind
read_cursor undefined = some none
read_cursor null = some none
read_cursor (obj fs) =
    cursor_of (read_state_rev (get (codes "state_rev") (obj fs)))
      (read_kind (get (codes "token") (obj fs)))
read_cursor v = none

abbrev pub descriptor_of :
    Option Text
    → Option Text
    → Option Text
    → Option (Option Text)
    → Option (Option TaskCursor)
    → Option SessionDescriptor
descriptor_of (some agent_id) (some room) (some correlation_id) (some kind) (some cursor) =
    some (record {
      agent_id = agent_id;
      room = room;
      correlation_id = correlation_id;
      kind = kind;
      cursor = cursor;
    })
descriptor_of agent_id room correlation_id kind cursor = none

-- The guard runs on the whole input, before the version and the fields are looked at.
unfoldable pub assert_session_descriptor : Value → Option SessionDescriptor
unfolding is_version read_nonempty_string read_kind read_cursor
assert_session_descriptor (obj fs) =
    if no_credential (obj fs) && is_version (get (codes "v") (obj fs))
    then descriptor_of (read_nonempty_string (get (codes "agent_id") (obj fs)))
        (read_nonempty_string (get (codes "room") (obj fs)))
        (read_nonempty_string (get (codes "correlation_id") (obj fs)))
        (read_kind (get (codes "kind") (obj fs))) (read_cursor (get (codes "cursor") (obj fs)))
    else none
assert_session_descriptor v = none

abbrev pub rev_value : Option WireNumber → Option Value
rev_value none = none
rev_value (some n) = some (num n)

-- The object that a validated cursor, and a validated descriptor, is.
unfoldable pub cursor_value : Option TaskCursor → Option Value
cursor_value none = none
cursor_value (some c) = some (
    obj (
      optional (codes "state_rev") (rev_value c.state_rev)
        (optional (codes "token") (text_value c.token) end)))

unfoldable pub descriptor_value : SessionDescriptor → Value
unfolding cursor_value
descriptor_value d = obj (
    field (codes "v") (num session_descriptor_version) (
      field (codes "agent_id") (str d.agent_id) (
        field (codes "room") (str d.room) (
          field (codes "correlation_id") (str d.correlation_id) (
            optional (codes "kind") (text_value d.kind)
              (optional (codes "cursor") (cursor_value d.cursor) end))))))

-- `JSON.stringify` and `JSON.parse`, which throws where the text is no JSON.
pub record JsonCodec : Type 0 where
  pub stringify : Value → Text
  pub parse : Text → Option Value

abbrev pub written : JsonCodec → Option SessionDescriptor → Option Text
written codec none = none
written codec (some d) = some (codec.stringify (descriptor_value d))

abbrev pub validated : Option Value → Option SessionDescriptor
validated none = none
validated (some v) = assert_session_descriptor v

unfoldable pub serialize_session_descriptor : JsonCodec → Value → Option Text
serialize_session_descriptor codec v = written codec (assert_session_descriptor v)

unfoldable pub parse_session_descriptor : JsonCodec → Text → Option SessionDescriptor
parse_session_descriptor codec json = validated (codec.parse json)
