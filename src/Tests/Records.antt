-- ===== src/Tests/Records.antt =====
-- The lifecycle graph, landed proofs, merges, the backlog, the ledger and field text.
use comis_dev_crew.Base.{
  ◌≡◌, ◌↔◌, refl, ok, none, some, List, [], ◌∷◌, true, false, pos, In, All, ◌≤◌, length,
}
use comis_dev_crew.Text.{
  Text, text_eq, ascii, has_shape, is_lower, is_upper, is_digit, has_class, is_lower_hex, member,
  contains_any,
}
use comis_dev_crew.Text.Utf8.{is_blank, is_control, is_space, runes, valid_utf8, is_trimmed}
use comis_dev_crew.Field.{
  validate_opaque_id, opaque_id_pattern, validate_authority_reference, authority_pattern,
  validate_revision, revision_pattern, validate_bounded_safe_text, validate_repository_id,
  validate_command, command_pattern, validate_sha256, sha256_hex_pattern, validate_times,
}
use comis_dev_crew.Field.Safe.{IsPrintable, bounded_safe_text-IsPrintable}
use comis_dev_crew.Lifecycle.{TaskShape, TaskState, TaskTransition, next_task_state, valid_shape}
use comis_dev_crew.Lifecycle.Reach.{
  Run, Embeds, evidence_chain, delivered_through_evidence, cleanup_reachable,
}
use comis_dev_crew.Operation.{
  ErrorCode, OperationRecord, OperationStatus, validate_operation, valid_error_code, valid_status,
}
use comis_dev_crew.Landed.{LandedEvidence, MergedPullRequest, prove_landed}
use comis_dev_crew.Landed.Laws.{Proves, landed_route-Proves}
use comis_dev_crew.Merge.{
  MergeApproval, MergeAuthorization, MergeRefusal, MergeRefusalReason, authorize_merge,
  receipt_identified, receipt_timed, valid_merge_principal,
}
use comis_dev_crew.Merge.Laws.{IsAuthorized, authorize_merge_iff}
use comis_dev_crew.Backlog.{
  BacklogItem, BacklogPriority, BacklogReadiness, validate_backlog_item, dependency_loop,
  check_promotable, valid_priority, valid_readiness,
}
use comis_dev_crew.Backlog.Laws.{AreDependencies, valid_item_dependencies, check_promotable_iff}
use comis_dev_crew.Tests.Samples.{sample_base, sample_head, sample_digest, at_time}

abbrev whole_way : List TaskTransition
whole_way =
    TaskTransition.bind_acknowledged ∷ TaskTransition.launch_requested
    ∷ TaskTransition.worker_acknowledged ∷ TaskTransition.validation_started
    ∷ TaskTransition.validation_accepted ∷ TaskTransition.delivery_started
    ∷ TaskTransition.delivery_accepted ∷ []

delivery-Run : Run TaskState.prepared whole_way TaskState.delivered
unfolding next_task_state
delivery-Run = Run.step refl (
    Run.step refl
      (Run.step refl (Run.step refl (Run.step refl (Run.step refl (Run.step refl Run.stop))))))

delivered_through_evidence_example : Embeds evidence_chain whole_way
delivered_through_evidence_example =
    delivered_through_evidence delivery-Run
      (refl, (refl, (refl, (refl, (refl, (refl, (refl, tt)))))))

cleanup_reachable_example :
    (es : List TaskTransition) × Run TaskState.working es TaskState.cleaned × (length es ≤ 3)
cleanup_reachable_example = cleanup_reachable TaskState.working (λ e. cc)

abbrev merged_pull : MergedPullRequest
merged_pull = record {
  number = pos 7;
  merged = true;
  merge_commit_contains_head = false;
  head_revision_matches = true;
}

abbrev merged_evidence : LandedEvidence
merged_evidence = record {
  work_head = sample_head;
  forge_truth_available = true;
  reachable_from_remote_refs = [];
  recorded_pull_request = pos 0;
  merged_pull_request_by_head_branch = some merged_pull;
  default_branch_head = [];
  default_branch_up_to_date = false;
  default_branch_contains_head = false;
}

landed : (prove_landed merged_evidence).landed ≡ true
unfolding prove_landed validate_revision revision_pattern has_class is_lower_hex
landed = refl

landed_route-Proves_example :
    (revision_pattern sample_head ≡ true)
    × Proves merged_evidence (prove_landed merged_evidence).route
landed_route-Proves_example = landed_route-Proves merged_evidence landed

head_formed : revision_pattern sample_head ≡ true
unfolding revision_pattern has_class is_lower_hex
head_formed = refl

abbrev sample_approval : MergeApproval
sample_approval = record {
  task_handle = ascii "task-one";
  approval_id = ascii "approval-1";
  managed_run_id = ascii "run-1";
  mcp_operation_id = ascii "operation-1";
  resolving_principal = ascii "operator";
  operation_fingerprint = sample_digest;
  approved_head = sample_base;
  approved_at = at_time 1000;
  expires_at = at_time 900000001000;
  consumed_at = at_time 2000;
  operator_enabled = true;
}

abbrev moved_request : MergeAuthorization
moved_request = record {
  observed_head = sample_head;
  managed_run_id = ascii "run-1";
  mcp_operation_id = ascii "operation-1";
  now = at_time 3000;
}

abbrev moved_refusal : MergeRefusal
moved_refusal = record {
  reason = MergeRefusalReason.head_changed;
  detail = "the head moved after approval; approval and evidence are both invalid";
}

authorize_merge_iff_example :
    (authorize_merge sample_approval moved_request ≡ none)
    ↔ IsAuthorized sample_approval moved_request
authorize_merge_iff_example = authorize_merge_iff sample_approval moved_request

head_moved : authorize_merge sample_approval moved_request ≡ some moved_refusal
unfolding authorize_merge receipt_identified receipt_timed valid_merge_principal validate_opaque_id
    opaque_id_pattern validate_authority_reference authority_pattern validate_revision
    revision_pattern sha256_hex_pattern has_shape has_class is_lower is_upper is_digit is_lower_hex
    text_eq valid_utf8 runes is_trimmed is_space contains_any
head_moved = refl

abbrev sample_item : BacklogItem
sample_item = record {
  schema_version = pos 1;
  handle = ascii "item-one";
  repository_id = ascii "repo-one";
  shape = TaskShape.ship;
  requested_outcome = ascii "make it work";
  depends_on = ascii "item-two" ∷ ascii "item-three" ∷ [];
  priority = BacklogPriority.normal;
  readiness = BacklogReadiness.ready;
  source_conversation_ref = ascii "conversation-1";
  created_at = at_time 1;
  updated_at = at_time 2;
}

item_valid : validate_backlog_item sample_item ≡ ok tt
unfolding validate_backlog_item dependency_loop valid_priority valid_readiness valid_shape
    validate_repository_id validate_opaque_id opaque_id_pattern validate_authority_reference
    authority_pattern has_shape is_lower is_upper is_digit member text_eq valid_utf8 runes
item_valid = refl

valid_item_dependencies_example : AreDependencies sample_item.handle sample_item.depends_on
valid_item_dependencies_example = valid_item_dependencies sample_item item_valid

check_promotable_iff_example : (check_promotable sample_item (λ t. true) ≡ ok tt) ↔ (
    (validate_backlog_item sample_item ≡ ok tt)
    × (sample_item.readiness ≡ BacklogReadiness.ready)
    × ((t : Text) → In t sample_item.depends_on → true ≡ true))
check_promotable_iff_example = check_promotable_iff sample_item (λ t. true)

abbrev sample_operation : OperationRecord
sample_operation = record {
  schema_version = pos 1;
  id = ascii "operation-1";
  command = ascii "PrepareTask";
  subject_digest = sample_digest;
  status = OperationStatus.rejected;
  error_code = ErrorCode.conflict;
  result_ref = [];
  state_version = pos 1;
  created_at = at_time 1;
  updated_at = at_time 2;
}

operation_valid : validate_operation sample_operation ≡ ok tt
unfolding validate_operation valid_status valid_error_code validate_opaque_id opaque_id_pattern
    validate_command command_pattern validate_sha256 sha256_hex_pattern validate_times has_shape
    has_class is_lower is_upper is_digit is_lower_hex
operation_valid = refl

text_safe : validate_bounded_safe_text "title" (ascii "two parts") 16 ≡ ok tt
unfolding validate_bounded_safe_text is_blank is_control is_space runes valid_utf8
text_safe = refl

bounded_safe_text-IsPrintable_example :
    All IsPrintable (ascii "two parts")
    × (length (ascii "two parts") ≤ 16)
    × (valid_utf8 (ascii "two parts") ≡ true)
bounded_safe_text-IsPrintable_example =
    bounded_safe_text-IsPrintable "title" (ascii "two parts") 16 text_safe
