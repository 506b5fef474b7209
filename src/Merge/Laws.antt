-- ===== src/Merge/Laws.antt =====
-- Lemmas on AuthorizeMerge of internal/domain/merge_approval.go.
use comis_dev_crew.Base.{
  ◌+◌, ◌≤◌, ◌<◌, ◌≡◌, ◌≢◌, ◌↔◌, true, false, none, some, arith, not_utc_time, ap,
}
use comis_dev_crew.Text.{text_eq}
use comis_dev_crew.Text.Laws.{text_eq_iff, text_eq_refl, text_eq_sound}
use comis_dev_crew.Merge.{
  MergeApproval, MergeAuthorization, MergeRefusal, MergeRefusalReason, authorize_merge,
  receipt_identified, receipt_timed, maximum_merge_approval_ttl,
}

-- The observations of a merge meet the approval.
pub record IsAuthorized (approval : MergeApproval) (request : MergeAuthorization) : Type 0 where
  pub enabled : approval.operator_enabled ≡ true
  pub identified : receipt_identified approval ≡ true
  pub timed : receipt_timed approval ≡ true
  pub clock : not_utc_time request.now ≡ false
  pub not_early : approval.approved_at.instant ≤ request.now.instant
  pub not_late : request.now.instant < approval.approved_at.instant + maximum_merge_approval_ttl
  pub same_run : request.managed_run_id ≡ approval.managed_run_id
  pub same_operation : request.mcp_operation_id ≡ approval.mcp_operation_id
  pub same_head : request.observed_head ≡ approval.approved_head

timed_window :
    (approval : MergeApproval)
    → receipt_timed approval ≡ true
    → approval.expires_at.instant ≡ approval.approved_at.instant + maximum_merge_approval_ttl
unfolding receipt_timed
timed_window approval h = ground arith

module _ (approval : MergeApproval) (request : MergeAuthorization) where
  authorize_merge_sound : authorize_merge approval request ≡ none → IsAuthorized approval request
  unfolding authorize_merge
  authorize_merge_sound h = record {
    enabled = ground arith;
    identified = ground arith;
    timed = ground arith;
    clock = ground arith;
    not_early = ground arith;
    not_late = ground (arith, timed_window approval);
    same_run = text_eq_sound request.managed_run_id approval.managed_run_id (ground arith);
    same_operation =
        text_eq_sound request.mcp_operation_id approval.mcp_operation_id (ground arith);
    same_head = text_eq_sound request.observed_head approval.approved_head (ground arith);
  }

  authorize_merge_complete : IsAuthorized approval request → authorize_merge approval request ≡ none
  unfolding authorize_merge
  authorize_merge_complete a = ground (
    arith,
    timed_window approval a.timed,
    text_eq_refl approval.managed_run_id,
    text_eq_refl approval.mcp_operation_id,
    text_eq_refl approval.approved_head,
    a.same_run,
    a.same_operation,
    a.same_head,
    ap (λ t. text_eq t approval.managed_run_id) a.same_run,
    ap (λ t. text_eq t approval.mcp_operation_id) a.same_operation,
    ap (λ t. text_eq t approval.approved_head) a.same_head,
  )

  -- A merge is authorized exactly if the operator enabled merging, the receipt is complete, the
  -- clock stands in the fifteen minutes after the approval, and run, operation and head are those
  -- of the approval.
  pub authorize_merge_iff :
      (authorize_merge approval request ≡ none) ↔ IsAuthorized approval request
  authorize_merge_iff = (authorize_merge_sound, authorize_merge_complete)

  -- A refusal for a moved head is given only where everything but the head is in order.
  head_changed_last :
      (refusal : MergeRefusal)
      → authorize_merge approval request ≡ some refusal
      → refusal.reason ≡ MergeRefusalReason.head_changed
      → (request.observed_head ≢ approval.approved_head)
        × (authorize_merge approval (record request { observed_head = approval.approved_head })
            ≡ none)
  unfolding authorize_merge
  head_changed_last refusal h r = (
    λ same. ground (arith, text_eq_iff request.observed_head approval.approved_head),
    ground (arith, text_eq_refl approval.approved_head),
  )
