-- ===== src/Merge.antt =====
-- The merge authority of internal/domain/merge_approval.go: one human approval, bound to exact
-- content and a fifteen-minute window.
pub mod Laws
use comis_dev_crew.Base.{
  ℕ, ◌+◌, Bool, true, false, not, ◌&&◌, ◌||◌, Option, none, some, String, is_empty, length, leb,
  ltb, ◌==◌, Time, is_zero, before, not_utc_time, is_ok, if◌then◌else◌,
}
use comis_dev_crew.Text.{Text, text_eq, contains_any}
use comis_dev_crew.Text.Utf8.{valid_utf8, is_trimmed}
use comis_dev_crew.Field.{
  validate_opaque_id, validate_authority_reference, validate_revision, sha256_hex_pattern,
}

-- 15 * time.Minute, in nanoseconds.
abbrev pub maximum_merge_approval_ttl : ℕ
maximum_merge_approval_ttl = 900_000_000_000

pub data MergeRefusalReason : Type 0 where
  no_approval approval_expired scope_mismatch head_changed operator_disabled : MergeRefusalReason

pub record MergeRefusal : Type 0 where
  pub reason : MergeRefusalReason
  pub detail : String

-- IsMergeRefusal, for an error of AuthorizeMerge.
unfoldable pub is_merge_refusal : Option MergeRefusal → MergeRefusalReason → Bool
is_merge_refusal none r = false
is_merge_refusal (some refusal) r = same_reason refusal.reason r
  where
    code : MergeRefusalReason → ℕ
    code MergeRefusalReason.no_approval = 0
    code MergeRefusalReason.approval_expired = 1
    code MergeRefusalReason.scope_mismatch = 2
    code MergeRefusalReason.head_changed = 3
    code MergeRefusalReason.operator_disabled = 4

    same_reason : MergeRefusalReason → MergeRefusalReason → Bool
    same_reason a b = code a == code b

pub record MergeApproval : Type 0 where
  pub task_handle : Text
  pub approval_id : Text
  pub managed_run_id : Text
  pub mcp_operation_id : Text
  pub resolving_principal : Text
  pub operation_fingerprint : Text
  pub approved_head : Text
  pub approved_at : Time
  pub expires_at : Time
  pub consumed_at : Time
  pub operator_enabled : Bool

pub record MergeAuthorization : Type 0 where
  pub observed_head : Text
  pub managed_run_id : Text
  pub mcp_operation_id : Text
  pub now : Time

abbrev principal_break : ℕ → Bool
principal_break c = c == 0 || c == 13 || c == 10

unfoldable pub valid_merge_principal : Text → Bool
valid_merge_principal value =
    not (is_empty value)
    && (leb (length value) 256
        && (valid_utf8 value && (is_trimmed value && not (contains_any principal_break value))))

-- The identities of the receipt are well formed.
unfoldable pub receipt_identified : MergeApproval → Bool
receipt_identified approval =
    is_ok (validate_opaque_id "taskHandle" approval.task_handle)
    && (is_ok (validate_authority_reference "approvalRequestId" approval.approval_id)
        && (is_ok (validate_authority_reference "managedRunId" approval.managed_run_id)
            && (is_ok (validate_opaque_id "mcpOperationId" approval.mcp_operation_id)
                && (valid_merge_principal approval.resolving_principal
                    && (sha256_hex_pattern approval.operation_fingerprint
                        && is_ok (validate_revision approval.approved_head))))))

-- Its times are present, in UTC, fifteen minutes apart, and it was consumed between them.
unfoldable pub receipt_timed : MergeApproval → Bool
receipt_timed approval =
    not (not_utc_time approval.approved_at)
    && (not (not_utc_time approval.expires_at)
        && (not (not_utc_time approval.consumed_at)
            && (approval.expires_at.instant
                  == approval.approved_at.instant + maximum_merge_approval_ttl
                && (not (before approval.consumed_at approval.approved_at)
                    && before approval.consumed_at approval.expires_at))))

abbrev refused : MergeRefusalReason → String → Option MergeRefusal
refused r d = some (record { reason = r; detail = d })

-- AuthorizeMerge; none is the nil error.
unfoldable pub authorize_merge : MergeApproval → MergeAuthorization → Option MergeRefusal
authorize_merge approval request =
    if not approval.operator_enabled
    then refused MergeRefusalReason.operator_disabled
        "merge_after_approval is disabled for this deployment"
    else if not (receipt_identified approval && receipt_timed approval)
    then refused MergeRefusalReason.no_approval
        "no complete authenticated approval receipt is recorded for this task"
    else if not_utc_time request.now
        || before request.now approval.approved_at
        || not (before request.now approval.expires_at)
    then refused MergeRefusalReason.approval_expired
        "the recorded approval is outside its current fifteen-minute window"
    else if not (text_eq request.managed_run_id approval.managed_run_id)
        || not (text_eq request.mcp_operation_id approval.mcp_operation_id)
    then refused MergeRefusalReason.scope_mismatch
        "the approval receipt belongs to a different managed operation"
    else if not (text_eq request.observed_head approval.approved_head)
    then refused MergeRefusalReason.head_changed
        "the head moved after approval; approval and evidence are both invalid"
    else none
