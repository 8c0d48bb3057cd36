-- ===== src/Toolbelt/Descriptor/Laws.antt =====
-- Which descriptors are accepted, and what is left of one that is written and read back.
use mx_loom.Common.{
  ◌≡◌, refl, arith, Bool, true, false, not, ◌&&◌, Option, none, some, if◌then◌else◌,
}
use mx_loom.Text.{Text, codes, eq_text, is_empty}
use mx_loom.Json.{get}
use mx_loom.Json.Number.{WireNumber, is_finite}
use mx_loom.Toolbelt.Guards.{is_credential_key, is_credential_value, no_credential}
use mx_loom.Toolbelt.Plan.{TaskCursor}
use mx_loom.Toolbelt.Descriptor.{
  SessionDescriptor, is_version, read_nonempty_string, read_kind, read_state_rev, read_cursor,
  descriptor_of, cursor_of, assert_session_descriptor, cursor_value, descriptor_value,
}

plain_keys :
    (is_credential_key (codes "v") ≡ false)
    × (is_credential_key (codes "agent_id") ≡ false)
    × (is_credential_key (codes "room") ≡ false)
    × (is_credential_key (codes "correlation_id") ≡ false)
    × (is_credential_key (codes "kind") ≡ false)
    × (is_credential_key (codes "cursor") ≡ false)
    × (is_credential_key (codes "state_rev") ≡ false)
    × (is_credential_key (codes "token") ≡ true)
unfolding is_credential_key codes
plain_keys = (refl, refl, refl, refl, refl, refl, refl, refl)

abbrev pub shows_no_secret : Option Text → Bool
shows_no_secret none = true
shows_no_secret (some s) = not (is_credential_value s)

abbrev pub has_no_token : Option TaskCursor → Bool
has_no_token none = true
has_no_token (some c) = elim c.token [ none ↦ true | some t ↦ false ]

abbrev pub has_finite_rev : Option TaskCursor → Bool
has_finite_rev none = true
has_finite_rev (some c) = elim c.state_rev [ none ↦ true | some n ↦ is_finite n ]

abbrev pub holds_no_secret : SessionDescriptor → Bool
holds_no_secret d =
    not (is_credential_value d.agent_id)
    && not (is_credential_value d.room)
    && not (is_credential_value d.correlation_id)
    && shows_no_secret d.kind
    && has_no_token d.cursor

-- The ids are not empty, the revision is finite, no text looks like a credential, and the cursor has
-- no token.
unfoldable pub is_clean : SessionDescriptor → Bool
is_clean d =
    holds_no_secret d
    && not (is_empty d.agent_id)
    && not (is_empty d.room)
    && not (is_empty d.correlation_id)
    && has_finite_rev d.cursor

abbrev built : Text → Text → Text → Option Text → Option TaskCursor → SessionDescriptor
built a r c k cur = record { agent_id = a; room = r; correlation_id = c; kind = k; cursor = cur }

abbrev built_cursor : Option WireNumber → Option Text → TaskCursor
built_cursor rev t = record { state_rev = rev; token = t }

guarded_parts :
    (a r c : Text) (k : Option Text) (rev : Option WireNumber) (t : Option Text)
    → (no_credential (descriptor_value (built a r c k none)) ≡ holds_no_secret (built a r c k none))
      × (no_credential (descriptor_value (built a r c k (some (built_cursor rev t))))
          ≡ holds_no_secret (built a r c k (some (built_cursor rev t))))
unfolding no_credential descriptor_value cursor_value
guarded_parts a r c none none none = ground (arith, plain_keys)
guarded_parts a r c none none (some t) = ground (arith, plain_keys)
guarded_parts a r c none (some rev) none = ground (arith, plain_keys)
guarded_parts a r c none (some rev) (some t) = ground (arith, plain_keys)
guarded_parts a r c (some k) none none = ground (arith, plain_keys)
guarded_parts a r c (some k) none (some t) = ground (arith, plain_keys)
guarded_parts a r c (some k) (some rev) none = ground (arith, plain_keys)
guarded_parts a r c (some k) (some rev) (some t) = ground (arith, plain_keys)

guarded_cursor :
    (a r c : Text) (k : Option Text) (cur : Option TaskCursor)
    → no_credential (descriptor_value (built a r c k cur)) ≡ holds_no_secret (built a r c k cur)
guarded_cursor a r c k none = (guarded_parts a r c k none none).0
guarded_cursor a r c k (some cur) = (guarded_parts a r c k cur.state_rev cur.token).1

-- What the guard says of the object of a descriptor.
pub no_credential-descriptor_value :
    (d : SessionDescriptor) → no_credential (descriptor_value d) ≡ holds_no_secret d
no_credential-descriptor_value d = guarded_cursor d.agent_id d.room d.correlation_id d.kind d.cursor

cursor_of_if :
    (fin : Bool) (n : WireNumber) (t : Option Text)
    → cursor_of (if fin then some (some n) else none) (some t)
      ≡ (if fin then some (some (built_cursor (some n) t)) else none)
cursor_of_if true n t = refl
cursor_of_if false n t = refl

judged :
    (a r c : Text) (k : Option Text) (cur : Option TaskCursor) (seen held ea er ec fin : Bool)
    → seen ≡ held
    → (if seen && true
        then descriptor_of
            (if ea then none else some a)
            (if er then none else some r)
            (if ec then none else some c)
            (some k)
            (if fin then some cur else none)
        else none)
      ≡ (if held && not ea && not er && not ec && fin then some (built a r c k cur) else none)
judged a r c k cur seen held true er ec fin h = ground arith
judged a r c k cur seen held false true ec fin h = ground arith
judged a r c k cur seen held false false true fin h = ground arith
judged a r c k cur seen held false false false true h = ground arith
judged a r c k cur seen held false false false false h = ground arith

accepted_parts :
    (a r c : Text) (k : Option Text) (rev : Option WireNumber) (t : Option Text)
    → (assert_session_descriptor (descriptor_value (built a r c k none))
        ≡ (if is_clean (built a r c k none) then some (built a r c k none) else none))
      × (assert_session_descriptor (descriptor_value (built a r c k (some (built_cursor rev t))))
          ≡ (if is_clean (built a r c k (some (built_cursor rev t)))
              then some (built a r c k (some (built_cursor rev t)))
              else none))
unfolding assert_session_descriptor descriptor_value cursor_value get eq_text codes is_clean
    read_cursor read_state_rev read_kind read_nonempty_string is_version
accepted_parts a r c none none none =
    let g = guarded_parts a r c none none none in
    (judged a r c none none _ _ _ _ _ true g.0, judged a r c none _ _ _ _ _ _ true g.1)
accepted_parts a r c none none (some x) =
    let g = guarded_parts a r c none none (some x) in
    (judged a r c none none _ _ _ _ _ true g.0, judged a r c none _ _ _ _ _ _ true g.1)
accepted_parts a r c none (some n) none =
    let g = guarded_parts a r c none (some n) none in
    (
      judged a r c none none _ _ _ _ _ true g.0,
      rw (cursor_of_if (is_finite n) n none, judged a r c none _ _ _ _ _ _ _ g.1),
    )
accepted_parts a r c none (some n) (some x) =
    let g = guarded_parts a r c none (some n) (some x) in
    (
      judged a r c none none _ _ _ _ _ true g.0,
      rw (cursor_of_if (is_finite n) n (some x), judged a r c none _ _ _ _ _ _ _ g.1),
    )
accepted_parts a r c (some s) none none =
    let g = guarded_parts a r c (some s) none none in
    (judged a r c (some s) none _ _ _ _ _ true g.0, judged a r c (some s) _ _ _ _ _ _ true g.1)
accepted_parts a r c (some s) none (some x) =
    let g = guarded_parts a r c (some s) none (some x) in
    (judged a r c (some s) none _ _ _ _ _ true g.0, judged a r c (some s) _ _ _ _ _ _ true g.1)
accepted_parts a r c (some s) (some n) none =
    let g = guarded_parts a r c (some s) (some n) none in
    (
      judged a r c (some s) none _ _ _ _ _ true g.0,
      rw (cursor_of_if (is_finite n) n none, judged a r c (some s) _ _ _ _ _ _ _ g.1),
    )
accepted_parts a r c (some s) (some n) (some x) =
    let g = guarded_parts a r c (some s) (some n) (some x) in
    (
      judged a r c (some s) none _ _ _ _ _ true g.0,
      rw (cursor_of_if (is_finite n) n (some x), judged a r c (some s) _ _ _ _ _ _ _ g.1),
    )

accepted :
    (a r c : Text) (k : Option Text) (cur : Option TaskCursor)
    → assert_session_descriptor (descriptor_value (built a r c k cur))
      ≡ (if is_clean (built a r c k cur) then some (built a r c k cur) else none)
accepted a r c k none = (accepted_parts a r c k none none).0
accepted a r c k (some cur) = (accepted_parts a r c k cur.state_rev cur.token).1

-- The object of a descriptor is accepted, as that descriptor, exactly if it is clean.
pub assert_session_descriptor-descriptor_value :
    (d : SessionDescriptor)
    → assert_session_descriptor (descriptor_value d) ≡ (if is_clean d then some d else none)
assert_session_descriptor-descriptor_value d =
    accepted d.agent_id d.room d.correlation_id d.kind d.cursor
