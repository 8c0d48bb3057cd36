-- ===== src/Context/Laws.antt =====
-- What publishing and fetching send, and what of the reply they pass on.
use mx_loom.Common.{
  ◌≡◌, refl, Bool, true, false, not, ◌&&◌, Option, none, some, ◌∷◌, is_some, if_both, if◌then◌else◌,
}
use mx_loom.Text.{Text, codes, eq_text}
use mx_loom.Json.{Value, obj, end, get, get_field, as_record, read_string}
use mx_loom.Table.{slot, read, entry, is_prototype_name}
use mx_loom.Errors.{CodeValue, known, invalid_args}
use mx_loom.Envelope.{error, AuditRef, ToolResult, ok_result, errored_result, denied_result}
use mx_loom.Invocation.{extract_audit_ref}
use mx_loom.Invocation.Failure.{failure_result, failure_code, is_denial_code, has_error_signal}
use mx_loom.Fault.{empty_audit_ref, fault_to_result}
use mx_loom.Daemon.{Reply, resolved, rejected, called, History, Deps, Env}
use mx_loom.Tasks.Action.{optional, text_value}
use mx_loom.Tasks.Handlers.{usable_room}
use mx_loom.Context.{
  unrecognised_context, context_record, context_response_to_result, context_reply,
  ShareContextInput, share_params, project_share, method_at, Encoding, utf_8, base64, share_by,
  share_in, mx_share_context, GetContextInput, project_get, get_params, get_in, mx_get_context,
}

-- A success: an object with no error signal and the text `context_id`.
abbrev pub recognised : Option Value → Bool
recognised none = false
recognised (some o) = not (has_error_signal o) && is_some (read_string (get (codes "context_id") o))

abbrev pub payload : (Value → Value) → Option Value → Option Value
payload project none = none
payload project (some o) = if recognised (some o) then some (project o) else none

-- By the reply.
abbrev pub Passes : (Value → Value) → Reply → ToolResult Value → Type 0
Passes project (rejected err) r = r ≡ fault_to_result err empty_audit_ref
Passes project (resolved raw) r =
    (r.result ≡ payload project (as_record raw)) × (r.audit_ref ≡ extract_audit_ref (as_record raw))

abbrev PassedOn : Option Value → AuditRef → ToolResult Value → Type 0
PassedOn v ref r = (r.result ≡ v) × (r.audit_ref ≡ ref)

failure-PassedOn : (code : CodeValue) (ref : AuditRef) → PassedOn none ref (failure_result code ref)
unfolding failure_result denied_result errored_result
failure-PassedOn code ref =
    if_both (PassedOn none ref) (is_denial_code code) _ _ (refl, refl) (refl, refl)

record-PassedOn :
    (project : Value → Value) (ref : AuditRef) (o : Option Value)
    → PassedOn (payload project o) ref (context_record project ref o)
unfolding ok_result errored_result
record-PassedOn project ref none = (refl, refl)
record-PassedOn project ref (some o) =
    by_signal (has_error_signal o) (is_some (read_string (get (codes "context_id") o)))
  where
    by_signal :
        (e c : Bool)
        → PassedOn (if not e && c then some (project o) else none) ref (
            if e
            then failure_result (failure_code o none) ref
            else (if c then ok_result (project o) ref else unrecognised_context ref))
    by_signal true c = failure-PassedOn (failure_code o none) ref
    by_signal false true = (refl, refl)
    by_signal false false = (refl, refl)

reply-Passes :
    (project : Value → Value) (reply : Reply) → Passes project reply (context_reply project reply)
unfolding context_response_to_result
reply-Passes project (rejected err) = refl
reply-Passes project (resolved raw) = record-PassedOn project _ (as_record raw)

-- What a request says under a name.
abbrev says : Text → Value → Option Text
says key params = read_string (get key params)

-- One call, whose reply is passed on.
abbrev pub SendsContext :
    Env → Text → Value → (Value → Value) → History → ToolResult Value × History → Type 0
SendsContext peer method params project h r =
    Passes project (peer.answer h method params) r.0 × (r.1 ≡ called method params ∷ h)

-- The room of the session, and the texts of the input as they are.
abbrev pub SharesText : ShareContextInput → Text → Value → Type 0
SharesText input room params =
    (says (codes "room") params ≡ some room)
    × (says (codes "path") params ≡ input.path)
    × (says (codes "content") params ≡ input.content)

abbrev pub NamesArtifact : Text → Text → Value → Type 0
NamesArtifact id room params =
    (says (codes "room") params ≡ some room) × (says (codes "context_id") params ≡ some id)

share_params-SharesText :
    (input : ShareContextInput) (room : Text) → SharesText input room (share_params input room)
unfolding share_params get get_field eq_text codes read_string
share_params-SharesText input room = by_texts input.path input.content input.encoding
  where
    by_texts :
        (path content : Option Text) (encoding : Option Encoding)
        → SharesText
            (record { kind = input.kind; path = path; content = content; encoding = encoding })
            room
            (share_params
              (record { kind = input.kind; path = path; content = content; encoding = encoding })
              room)
    by_texts none none none = (refl, refl, refl)
    by_texts none none (some utf_8) = (refl, refl, refl)
    by_texts none none (some base64) = (refl, refl, refl)
    by_texts none (some c) none = (refl, refl, refl)
    by_texts none (some c) (some utf_8) = (refl, refl, refl)
    by_texts none (some c) (some base64) = (refl, refl, refl)
    by_texts (some p) none none = (refl, refl, refl)
    by_texts (some p) none (some utf_8) = (refl, refl, refl)
    by_texts (some p) none (some base64) = (refl, refl, refl)
    by_texts (some p) (some c) e = (refl, refl, refl)

-- The two texts that a publisher is told are those of the reply.
abbrev pub Told : Value → Type 0
Told o =
    (read_string (get (codes "context_id") (project_share o))
      ≡ read_string (get (codes "context_id") o))
    × (read_string (get (codes "sha256") (project_share o)) ≡ read_string (get (codes "sha256") o))

abbrev told : Option Text → Option Text → Value
told c s =
    obj
      (optional (codes "context_id") (text_value c) (optional (codes "sha256") (text_value s) end))

project_share-Told : (o : Value) → Told o
unfolding project_share get get_field eq_text codes read_string
project_share-Told o =
    by_texts (read_string (get (codes "context_id") o)) (read_string (get (codes "sha256") o))
  where
    by_texts :
        (c s : Option Text)
        → (read_string (get (codes "context_id") (told c s)) ≡ c)
          × (read_string (get (codes "sha256") (told c s)) ≡ s)
    by_texts none none = (refl, refl)
    by_texts none (some s) = (refl, refl)
    by_texts (some c) none = (refl, refl)
    by_texts (some c) (some s) = (refl, refl)

-- The three kinds of the type.
abbrev pub method_of_kind : Text → Option Text
method_of_kind kind =
    if eq_text (codes "file") kind
    then some (codes "share.file")
    else if eq_text (codes "diff") kind
    then some (codes "share.diff")
    else if eq_text (codes "env") kind
    then some (codes "share.env")
    else none

-- By the method of the kind, and whether `Object.prototype` has a property of that name.
abbrev pub SharesBy :
    Option Text
    → Bool
    → (Text → Text)
    → ShareContextInput
    → Env
    → Text
    → History
    → ToolResult Value × History
    → Type 0
SharesBy (some method) b property input peer room h r =
    (params : Value) × SharesText input room params
    × SendsContext peer method params project_share h r
SharesBy none true property input peer room h r =
    (params : Value) × SharesText input room params
    × SendsContext peer (property input.kind) params project_share h r
SharesBy none false property input peer room h r =
    (r.0 ≡ failure_result (known invalid_args) empty_audit_ref) × (r.1 ≡ h)

abbrev pub SharesIn :
    Option Text
    → (Text → Text)
    → ShareContextInput
    → Env
    → History
    → ToolResult Value × History
    → Type 0
SharesIn none property input peer h r = (r.0.status ≡ error) × (r.0.result ≡ none) × (r.1 ≡ h)
SharesIn (some room) property input peer h r =
    SharesBy (method_of_kind input.kind) (is_prototype_name input.kind) property input peer room h r

abbrev pub GetsIn :
    Option Text → GetContextInput → Env → History → ToolResult Value × History → Type 0
GetsIn none input peer h r = (r.0.status ≡ error) × (r.0.result ≡ none) × (r.1 ≡ h)
GetsIn (some room) input peer h r =
    (params : Value) × NamesArtifact input.context_id room params
    × SendsContext peer (codes "share.get") params project_get h r

module _ (property : Text → Text) (input : ShareContextInput) (peer : Env) (h : History) where
  shared-SharesBy :
      (room : Text) (method : Option Text) (b : Bool)
      → SharesBy method b property input peer room h
          (share_by property input peer room (method_at property (slot method b) input.kind) h)
  shared-SharesBy room (some method) b = (
    share_params input room,
    share_params-SharesText input room,
    (reply-Passes project_share _, refl),
  )
  shared-SharesBy room none true = (
    share_params input room,
    share_params-SharesText input room,
    (reply-Passes project_share _, refl),
  )
  shared-SharesBy room none false = (refl, refl)

  share_in-SharesIn :
      (room : Option Text)
      → SharesIn room property input peer h (share_in property input peer room h)
  unfolding errored_result read entry
  share_in-SharesIn none = (refl, refl, refl)
  share_in-SharesIn (some room) =
      shared-SharesBy room (method_of_kind input.kind) (is_prototype_name input.kind)

get_in-GetsIn :
    (room : Option Text) (input : GetContextInput) (peer : Env) (h : History)
    → GetsIn room input peer h (get_in input peer room h)
unfolding errored_result get_params get get_field eq_text codes read_string
get_in-GetsIn none input peer h = (refl, refl, refl)
get_in-GetsIn (some room) input peer h =
    (get_params input.context_id room, (refl, refl), (reply-Passes project_get _, refl))

-- An artifact is published, and fetched, by one call whose parameters have the session's room, with
-- the path and the content, or the id, of the input as they are; a publication goes to the method of
-- its kind. Without a room nothing is sent, nor with a kind that is none of the three, unless
-- `Object.prototype` has a property of that name: then that is what is called. A rejection becomes its
-- fault. Of a reply exactly an object with no error signal and the text `context_id` gives a result,
-- the projected one, and the audit reference is always the reply's. A publisher is told the
-- `context_id` and `sha256` of the reply.
pub contexts-Pass :
    (property : Text → Text) (deps : Deps) (h : History) (share : ShareContextInput)
    (fetch : GetContextInput)
    → SharesIn
        (usable_room deps.room)
        property
        share
        deps.env
        h
        (mx_share_context property share deps h)
      × GetsIn (usable_room deps.room) fetch deps.env h (mx_get_context fetch deps h)
      × ((o : Value) → Told o)
unfolding mx_share_context mx_get_context
contexts-Pass property deps h share fetch = (
  share_in-SharesIn property share deps.env h (usable_room deps.room),
  get_in-GetsIn (usable_room deps.room) fetch deps.env h,
  project_share-Told,
)
