-- ===== src/Toolbelt/Descriptor/Accepted.antt =====
-- What passes the validation is clean, and survives being written and read back.
use mx_loom.Common.{
  ◌≡◌, refl, ap, ◌∙◌, arith, Bool, true, false, not, ◌&&◌, Option, [], ◌∷◌, subst, none, some,
  if◌then◌else◌, and_split, Bool-cases, if_both, inl, inr,
}
use mx_loom.Text.{Text, codes, eq_text, eq_text_sound, is_empty}
use mx_loom.Json.{Value, undefined, null, str, num, obj, Fields, field, end, get, get_field}
use mx_loom.Json.Number.{WireNumber, is_finite}
use mx_loom.Toolbelt.Guards.{
  is_credential_key, is_credential_value, no_credential, no_credential_fields,
}
use mx_loom.Toolbelt.Plan.{TaskCursor}
use mx_loom.Toolbelt.Descriptor.{
  SessionDescriptor, is_version, read_nonempty_string, read_kind, read_state_rev, read_cursor,
  descriptor_of, cursor_of, assert_session_descriptor, descriptor_value, JsonCodec,
  serialize_session_descriptor, parse_session_descriptor,
}
use mx_loom.Toolbelt.Descriptor.Laws.{
  shows_no_secret, has_no_token, has_finite_rev, holds_no_secret, is_clean,
  no_credential-descriptor_value, assert_session_descriptor-descriptor_value,
}

-- What the guard says of an object with one field more.
guarded_field :
    (k : Text) (v : Value) (fs : Fields)
    → no_credential_fields (field k v fs) ≡ true
    → (is_credential_key k ≡ false) × (no_credential v ≡ true) × (no_credential_fields fs ≡ true)
unfolding no_credential
guarded_field k v fs h =
    let (p, r) =
      and_split (not (is_credential_key k) && no_credential v) (no_credential_fields fs) h in
    let (c, q) = and_split (not (is_credential_key k)) (no_credential v) p in (ground arith, q, r)

get_field_clean :
    (k : Text) (fs : Fields)
    → no_credential_fields fs ≡ true
    → no_credential (get_field k fs) ≡ true
unfolding no_credential get_field
get_field_clean k end h = refl
get_field_clean k (field k' v fs) h =
    let (p, q, r) = guarded_field k' v fs h in
    if_both (λ w. no_credential w ≡ true) (eq_text k' k) v (get_field k fs) q
      (get_field_clean k fs r)

get_field_secret_key :
    (k : Text) (fs : Fields)
    → is_credential_key k ≡ true
    → no_credential_fields fs ≡ true
    → get_field k fs ≡ undefined
unfolding get_field
get_field_secret_key k end c h = refl
get_field_secret_key k (field k' v fs) c h =
    let (p, q, r) = guarded_field k' v fs h in
    elim (Bool-cases (eq_text k' k)) [
      | inl e ↦ let same = eq_text_sound k' k e in absurd cc
      | inr e ↦ rw (e, get_field_secret_key k fs c r)
    ]

some_inj : {A : Type 0} {a b : A} → some a ≡ some b → a ≡ b
some_inj h = cc

read_nonempty_string_clean :
    (v : Value) (s : Text)
    → no_credential v ≡ true
    → read_nonempty_string v ≡ some s
    → (is_credential_value s ≡ false) × (is_empty s ≡ false)
unfolding no_credential read_nonempty_string
read_nonempty_string_clean (str []) s h e = absurd cc
read_nonempty_string_clean (str (c ∷ t)) s h e =
    let same = some_inj e in
    (
      subst (λ u. is_credential_value u ≡ false) same (ground arith),
      subst (λ u. is_empty u ≡ false) same refl,
    )
read_nonempty_string_clean v s h e = absurd cc

read_kind_clean :
    (v : Value) (k : Option Text)
    → no_credential v ≡ true
    → read_kind v ≡ some k
    → shows_no_secret k ≡ true
unfolding no_credential read_kind
read_kind_clean undefined k h e = subst (λ u. shows_no_secret u ≡ true) (some_inj e) refl
read_kind_clean (str s) k h e = subst (λ u. shows_no_secret u ≡ true) (some_inj e) h
read_kind_clean v k h e = absurd cc

-- A cursor with no token whose revision is finite, where there is one.
abbrev CleanCursor : Option TaskCursor → Type 0
CleanCursor cur = (has_no_token cur ≡ true) × (has_finite_rev cur ≡ true)

cursor_of_clean_number :
    (fin : Bool) (n : WireNumber) (cur : Option TaskCursor)
    → is_finite n ≡ fin
    → cursor_of (if fin then some (some n) else none) (some none) ≡ some cur
    → CleanCursor cur
cursor_of_clean_number true n cur c e = subst CleanCursor (some_inj e) (refl, c)
cursor_of_clean_number false n cur c e = absurd cc

cursor_of_clean :
    (rev : Value) (cur : Option TaskCursor)
    → cursor_of (read_state_rev rev) (read_kind undefined) ≡ some cur
    → CleanCursor cur
unfolding read_state_rev read_kind
cursor_of_clean undefined cur e = subst CleanCursor (some_inj e) (refl, refl)
cursor_of_clean (num n) cur e = cursor_of_clean_number (is_finite n) n cur refl e
cursor_of_clean v cur e = absurd cc

token_key : is_credential_key (codes "token") ≡ true
unfolding is_credential_key codes
token_key = refl

read_cursor_clean :
    (v : Value) (cur : Option TaskCursor)
    → no_credential v ≡ true
    → read_cursor v ≡ some cur
    → CleanCursor cur
unfolding read_cursor no_credential get
read_cursor_clean undefined cur h e = subst CleanCursor (some_inj e) (refl, refl)
read_cursor_clean null cur h e = subst CleanCursor (some_inj e) (refl, refl)
read_cursor_clean (obj fs) cur h e = cursor_of_clean (get_field (codes "state_rev") fs) cur (
    subst
      (λ t. cursor_of (read_state_rev (get_field (codes "state_rev") fs)) (read_kind t) ≡ some cur)
      (get_field_secret_key (codes "token") fs token_key h) e)
read_cursor_clean v cur h e = absurd cc

descriptor_of-some :
    (a r c : Option Text) (k : Option (Option Text)) (cur : Option (Option TaskCursor))
    (d : SessionDescriptor)
    → descriptor_of a r c k cur ≡ some d
    → (a ≡ some d.agent_id)
      × (r ≡ some d.room)
      × (c ≡ some d.correlation_id)
      × (k ≡ some d.kind)
      × (cur ≡ some d.cursor)
descriptor_of-some (some a) (some r) (some c) (some k) (some cur) d e =
    let h = some_inj e in
    (
      ap (λ x. some x.agent_id) h,
      ap (λ x. some x.room) h,
      ap (λ x. some x.correlation_id) h,
      ap (λ x. some x.kind) h,
      ap (λ x. some x.cursor) h,
    )
descriptor_of-some none r c k cur d e = absurd cc
descriptor_of-some (some a) none c k cur d e = absurd cc
descriptor_of-some (some a) (some r) none k cur d e = absurd cc
descriptor_of-some (some a) (some r) (some c) none cur d e = absurd cc
descriptor_of-some (some a) (some r) (some c) (some k) none d e = absurd cc

if_some :
    {A : Type 0} (b : Bool) (o : Option A) (a : A)
    → (if b then o else none) ≡ some a
    → (b ≡ true) × (o ≡ some a)
if_some true o a e = (refl, e)
if_some false o a e = absurd cc

-- Whatever is accepted is a clean descriptor.
pub assert_session_descriptor_clean :
    (v : Value) (d : SessionDescriptor) → assert_session_descriptor v ≡ some d → is_clean d ≡ true
unfolding assert_session_descriptor no_credential is_clean get
assert_session_descriptor_clean (obj fs) d e =
    let (b, o) = if_some (no_credential (obj fs) && is_version (get_field (codes "v") fs)) _ d e in
    let (g, w) = and_split (no_credential (obj fs)) (is_version (get_field (codes "v") fs)) b in
    let (a, r, c, k, cur) = descriptor_of-some _ _ _ _ _ d o in
    let pa =
      read_nonempty_string_clean (get_field (codes "agent_id") fs) d.agent_id
        (get_field_clean (codes "agent_id") fs g) a in
    let pr =
      read_nonempty_string_clean (get_field (codes "room") fs) d.room
        (get_field_clean (codes "room") fs g) r in
    let pc =
      read_nonempty_string_clean (get_field (codes "correlation_id") fs) d.correlation_id
        (get_field_clean (codes "correlation_id") fs g) c in
    let pk =
      read_kind_clean (get_field (codes "kind") fs) d.kind (get_field_clean (codes "kind") fs g)
        k in
    let pcur =
      read_cursor_clean (get_field (codes "cursor") fs) d.cursor
        (get_field_clean (codes "cursor") fs g) cur in
    rw (pa.0, pa.1, pr.0, pr.1, pc.0, pc.1, pk, pcur.0, pcur.1)
assert_session_descriptor_clean v d e = absurd cc

clean-holds_no_secret : (d : SessionDescriptor) → is_clean d ≡ true → holds_no_secret d ≡ true
unfolding is_clean
clean-holds_no_secret d h =
    let (p, _) = and_split _ _ h in
    let (q, _) = and_split _ _ p in let (r, _) = and_split _ _ q in (and_split _ _ r).0

has_no_token_lem :
    (c : TaskCursor) (token : Text) → c.token ≡ some token → has_no_token (some c) ≡ false
has_no_token_lem c token f = rw f

unclean_token :
    (d : SessionDescriptor) (c : TaskCursor) (token : Text)
    → d.cursor ≡ some c
    → c.token ≡ some token
    → is_clean d ≡ false
unfolding is_clean
unclean_token d c token e f =
    let tok : has_no_token d.cursor ≡ false = rw (e, has_no_token_lem c token f) in
    ground (arith, tok)

-- A descriptor that is accepted, from any value, is clean, and its object, which has the named
-- fields alone and nothing that the guard refuses, is accepted as the same descriptor.
pub accepted_stays :
    (v : Value) (d : SessionDescriptor)
    → assert_session_descriptor v ≡ some d
    → (is_clean d ≡ true)
      × (no_credential (descriptor_value d) ≡ true)
      × (assert_session_descriptor (descriptor_value d) ≡ some d)
accepted_stays v d e =
    let clean = assert_session_descriptor_clean v d e in
    (
      clean,
      rw (no_credential-descriptor_value d, clean-holds_no_secret d clean),
      assert_session_descriptor-descriptor_value d ∙ rw clean,
    )

-- Whatever value is accepted is written, and what is written is read back as the descriptor that was
-- accepted, where the parser reads the text of the descriptor's object back.
pub descriptor_round_trip :
    (codec : JsonCodec) (v : Value) (d : SessionDescriptor)
    → assert_session_descriptor v ≡ some d
    → codec.parse (codec.stringify (descriptor_value d)) ≡ some (descriptor_value d)
    → (serialize_session_descriptor codec v ≡ some (codec.stringify (descriptor_value d)))
      × (parse_session_descriptor codec (codec.stringify (descriptor_value d)) ≡ some d)
unfolding serialize_session_descriptor parse_session_descriptor
descriptor_round_trip codec v d e back =
    let (clean, plain, again) = accepted_stays v d e in (rw e, rw (back, again))

-- A descriptor whose cursor has a token is never written: the guard takes the name of that field for
-- a credential.
pub cursor_token-refused :
    (codec : JsonCodec) (d : SessionDescriptor) (c : TaskCursor) (token : Text)
    → d.cursor ≡ some c
    → c.token ≡ some token
    → serialize_session_descriptor codec (descriptor_value d) ≡ none
unfolding serialize_session_descriptor
cursor_token-refused codec d c token e f =
    let unclean : is_clean d ≡ false = unclean_token d c token e f in
    rw (assert_session_descriptor-descriptor_value d, unclean)
