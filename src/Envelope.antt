-- ===== src/Envelope.antt =====
-- packages/registry/src/envelope.ts: the one shape that every tool returns, with its constructors,
-- and packages/registry/src/envelope-schema.ts: the check that `validateEnvelope` makes.
-- `deepFreeze` is the identity on values that nothing mutates.
pub mod Laws
use mx_loom.Common.{Bool, true, false, not, ◌&&◌, Option, none, some, is_some}
use mx_loom.Text.{Text}
use mx_loom.Errors.{ErrorCode, CodeValue, known, foreign, includes, denial_codes, fault_codes}

pub data ToolStatus : Type 0 where
  ok running awaiting_approval denied error : ToolStatus

pub data Risk : Type 0 where
  low medium high : Risk

-- `message` is `undefined` where a table of messages has none.
pub record ToolError : Type 0 where
  pub code : CodeValue
  pub message : Option Text

pub record ApprovalInfo : Type 0 where
  pub request_id : Text
  pub risk : Risk
  pub summary : Text
  pub expires_at : Text

pub record AuditRef : Type 0 where
  pub invocation_id : Option Text
  pub request_id : Option Text
  pub room : Option Text
  pub event_id : Option Text

-- `none` is `null`.
pub record ToolResult (A : Type 0) : Type 0 where
  pub status : ToolStatus
  pub result : Option A
  pub error : Option ToolError
  pub handle : Option Text
  pub approval : Option ApprovalInfo
  pub audit_ref : AuditRef

module _ {A : Type 0} where
  unfoldable pub ok_result : A → AuditRef → ToolResult A
  ok_result r ref = record {
    status = ok;
    result = some r;
    error = none;
    handle = none;
    approval = none;
    audit_ref = ref;
  }

  unfoldable pub running_result : Text → AuditRef → ToolResult A
  running_result h ref = record {
    status = running;
    result = none;
    error = none;
    handle = some h;
    approval = none;
    audit_ref = ref;
  }

  unfoldable pub awaiting_result : Text → ApprovalInfo → AuditRef → ToolResult A
  awaiting_result h a ref = record {
    status = awaiting_approval;
    result = none;
    error = none;
    handle = some h;
    approval = some a;
    audit_ref = ref;
  }

  unfoldable pub denied_result : CodeValue → Option Text → AuditRef → ToolResult A
  denied_result c m ref = record {
    status = denied;
    result = none;
    error = some (record { code = c; message = m });
    handle = none;
    approval = none;
    audit_ref = ref;
  }

  unfoldable pub errored_result : CodeValue → Option Text → AuditRef → ToolResult A
  errored_result c m ref = record {
    status = error;
    result = none;
    error = some (record { code = c; message = m });
    handle = none;
    approval = none;
    audit_ref = ref;
  }

abbrev is_none {ℓ} : {A : Type ℓ} → Option A → Bool
is_none o = not (is_some o)

-- The `error` property: null, or a code of the closed set with a message that is a string.
abbrev error_ok : Option ToolError → Bool
error_ok none = true
error_ok (some e) = (elim e.code [ known c ↦ true | foreign ↦ false ]) && is_some e.message

abbrev code_in : (ErrorCode → Bool) → Option ToolError → Bool
code_in p none = false
code_in p (some e) = elim e.code [ known c ↦ p c | foreign ↦ false ]

-- `type: 'object'` at the `result` property.
abbrev object_in : {A : Type 0} → (A → Bool) → Option A → Bool
object_in is_object none = false
object_in is_object (some r) = is_object r

module _ {A : Type 0} (is_object : A → Bool) where
  -- The branch of `allOf` for a status.
  abbrev branch_ok : ToolStatus → ToolResult A → Bool
  branch_ok ok t =
      object_in is_object t.result && is_none t.error && is_none t.handle && is_none t.approval
  branch_ok running t =
      is_none t.result && is_none t.error && is_some t.handle && is_none t.approval
  branch_ok awaiting_approval t =
      is_none t.result && is_none t.error && is_some t.handle && is_some t.approval
  branch_ok denied t =
      is_none t.result
      && is_none t.handle
      && is_none t.approval
      && code_in (includes denial_codes) t.error
  branch_ok error t =
      is_none t.result
      && is_none t.handle
      && is_none t.approval
      && code_in (includes fault_codes) t.error

  unfoldable pub validate_envelope : ToolResult A → Bool
  validate_envelope t = error_ok t.error && branch_ok t.status t
