-- ===== src/Task/Validate.antt =====
-- Task.Validate of internal/domain/task.go, PinBriefRevision and RenderWorkerBrief of
-- internal/domain/brief.go.
pub mod Laws
use comis_dev_crew.Base.{
  ℕ, Bool, true, false, not, ◌&&◌, ◌||◌, List, [], ◌∷◌, Result, ok, err, ◌>>◌, ◌>>=◌, refuse,
  require, when, is_empty, is_number, not_positive, is_negative, ℤ, xor, is_ok,
}
use comis_dev_crew.Text.{Text, text_eq}
use comis_dev_crew.Platform.{Platform}
use comis_dev_crew.Field.{
  ValidationError, invalid, Checked, validate_opaque_id, validate_authority_reference,
  validate_attachment_target_name, validate_revision, validate_sha256, validate_times,
}
use comis_dev_crew.Lifecycle.{
  valid_state, valid_shape, valid_mode, valid_for_shape, allows_unbound_preparation,
}
use comis_dev_crew.Task.{Task}
use comis_dev_crew.Task.Brief.{
  WorkerBrief, validate_contract_text_list, validate_brief_inputs, brief_revision_digest,
  render_brief_content,
}

-- `task.ManagedRunID != ""`
abbrev pub has_run : Task → Bool
has_run task = not (is_empty task.managed_run_id)

abbrev pub has_lease : Task → Bool
has_lease task = not (is_empty task.workspace_lease_id)

abbrev has_attachment_id : Task → Bool
has_attachment_id task = not (is_empty task.execution_attachment_id)

abbrev has_attachment_target : Task → Bool
has_attachment_target task = not (is_empty task.attachment_target_name)

-- The identities: the handle, the reviewed profiles and the owning service.
unfoldable pub validate_identity : Task → Checked
validate_identity task = do
  require (is_number task.schema_version 1) (invalid "schemaVersion" "must equal 1")
  validate_opaque_id "handle" task.handle
  validate_opaque_id "repositoryId" task.repository_id
  validate_opaque_id "validationProfile" task.validation_profile
  validate_opaque_id "workerProfileId" task.worker_profile_id
  validate_authority_reference "serviceInstanceId" task.service_instance_id

-- The host binding and the attachment: each pair is there as a whole or not at all.
unfoldable pub validate_host_binding : Task → Checked
validate_host_binding task = do
  refuse (xor (has_run task) (has_lease task))
      (invalid "binding" "managed run and workspace lease must be present together")
  when (has_run task) do
    validate_authority_reference "managedRunId" task.managed_run_id
    validate_authority_reference "workspaceLeaseId" task.workspace_lease_id
  refuse (xor (has_attachment_id task) (has_attachment_target task))
      (invalid "executionAttachment" "attachment identity and target must be present together")
  when (has_attachment_id task) do
    validate_authority_reference "executionAttachmentId" task.execution_attachment_id
    validate_attachment_target_name task.attachment_target_name

unfoldable pub validate_lifecycle : Task → Checked
validate_lifecycle task = do
  require (valid_state task.state) (invalid "state" "must be a known E0 task state")
  refuse (not (allows_unbound_preparation task.state) && not (has_run task))
      (invalid "binding" "active and terminal task states require exact host binding")
  require (valid_shape task.shape) (invalid "shape" "must be ship or scout")

-- The pinned brief: the fields that it renders, and the digest of the rendering.
unfoldable pub validate_pinned_brief : Platform → Task → Checked
validate_pinned_brief platform task = do
  validate_revision task.base_revision
  refuse (not_positive task.brief_revision) (invalid "briefRevision" "must be positive")
  validate_contract_text_list "acceptanceCriteria" task.acceptance_criteria true
  validate_contract_text_list "constraints" task.constraints false
  validate_sha256 "briefRevisionHash" task.brief_revision_hash
  want ← brief_revision_digest platform task
  require (text_eq task.brief_revision_hash want)
      (invalid "briefRevisionHash" "does not pin the canonical worker brief")

unfoldable pub validate_delivery : Task → Checked
validate_delivery task = do
  require (valid_mode task.delivery_mode) (invalid "deliveryMode" "must be an E0 delivery mode")
  require (valid_for_shape task.delivery_mode task.shape)
      (invalid "deliveryMode" "ship tasks deliver changes; scout tasks deliver a report")

unfoldable pub validate_counters : Task → Checked
validate_counters task = do
  refuse (is_negative task.report_cursor) (invalid "reportCursor" "must not be negative")
  refuse (not_positive task.state_version) (invalid "stateVersion" "must be positive")
  validate_times task.created_at task.updated_at

-- Task.Validate: its checks in their order, in groups.
unfoldable pub validate_task : Platform → Task → Checked
validate_task platform task = do
  validate_identity task
  validate_host_binding task
  validate_lifecycle task
  validate_pinned_brief platform task
  validate_delivery task
  validate_counters task

-- PinBriefRevision. On an error the source returns the task as it came, beside the error.
unfoldable pub pin_brief_revision : Platform → Task → Result ValidationError Task
pin_brief_revision platform task = do
  let pinned = record task { brief_revision_hash = [] }
  validate_brief_inputs pinned
  digest ← brief_revision_digest platform pinned
  let bound = record pinned { brief_revision_hash = digest }
  validate_task platform bound
  ok bound

-- RenderWorkerBrief
unfoldable pub render_worker_brief : Platform → Task → Result ValidationError WorkerBrief
render_worker_brief platform task = do
  validate_task platform task
  content ← render_brief_content platform task
  ok (record {
    revision = task.brief_revision;
    revision_hash = task.brief_revision_hash;
    content = content;
  })
