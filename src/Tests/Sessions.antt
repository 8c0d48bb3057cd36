-- ===== src/Tests/Sessions.antt =====
-- Runs of packages/toolbelt/src/session-descriptor.ts at single inputs, and the theorems applied.
use mx_loom.Common.{◌≡◌, refl, none, some, if◌then◌else◌}
use mx_loom.Text.{Text, codes, eq_text}
use mx_loom.Json.{Value, num, str, obj, field, end, get}
use mx_loom.Json.Number.{natural, is_finite}
use mx_loom.Toolbelt.Guards.{no_credential, is_credential_key, is_credential_value}
use mx_loom.Toolbelt.Descriptor.{
  SessionDescriptor, assert_session_descriptor, descriptor_value, JsonCodec,
  serialize_session_descriptor, parse_session_descriptor, is_version, read_nonempty_string,
  read_kind, read_state_rev, read_cursor,
}
use mx_loom.Toolbelt.Descriptor.Accepted.{descriptor_round_trip}

abbrev saved : SessionDescriptor
saved = record {
  agent_id = codes "agent-1";
  room = codes "!plan";
  correlation_id = codes "c-7";
  kind = some (codes "coder");
  cursor = some (record { state_rev = some (natural 4); token = none });
}

abbrev with_token : SessionDescriptor
with_token = record saved {
  cursor = some (record { state_rev = none; token = some (codes "next") });
}

-- What a host may hand over: the fields in another order, and one more.
abbrev handed : Value
handed = obj (
    field (codes "room") (str (codes "!plan")) (
      field (codes "note") (str (codes "kept by the host")) (
        field (codes "kind") (str (codes "coder")) (
          field (codes "cursor") (obj (field (codes "state_rev") (num (natural 4)) end)) (
            field (codes "v") (num (natural 1)) (
              field (codes "correlation_id") (str (codes "c-7"))
                (field (codes "agent_id") (str (codes "agent-1")) end)))))))

abbrev saved_text : Text
saved_text = codes "saved descriptor"

abbrev one_text_codec : JsonCodec
one_text_codec = record {
  stringify = λ v. saved_text;
  parse = λ t. if eq_text t saved_text then some (descriptor_value saved) else none;
}

handed_accepted : assert_session_descriptor handed ≡ some saved
unfolding assert_session_descriptor get eq_text codes no_credential is_credential_key
    is_credential_value is_version read_nonempty_string read_kind read_state_rev read_cursor
    is_finite
handed_accepted = refl

saved_read :
    one_text_codec.parse (one_text_codec.stringify (descriptor_value saved))
    ≡ some (descriptor_value saved)
unfolding eq_text codes
saved_read = refl

descriptor_round_trip_example :
    (serialize_session_descriptor one_text_codec handed ≡ some saved_text)
    × (parse_session_descriptor one_text_codec saved_text ≡ some saved)
descriptor_round_trip_example =
    descriptor_round_trip one_text_codec handed saved handed_accepted saved_read
