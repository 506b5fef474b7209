-- ===== src/Cleanup/Coordinator.antt =====
-- CleanupCoordinator of internal/application/cleanup.go and internal/application/discard.go: the
-- release-before-remove sequence over the store and the ports.
pub mod Triples
pub mod Calls
pub mod Sound
pub mod Passes
use comis_dev_crew.Base.{
  ℕ, zero, suc, ◌/◌, ◌*◌, Bool, true, false, not, ◌&&◌, ◌||◌, List, [], ◌∷◌, Option, none, some,
  String, Result, ok, err, ℤ, pos, Time, if◌then◌else◌, is_empty, is_ok, ◌==◌,
}
use comis_dev_crew.Text.{Text, text_eq, ascii}
use comis_dev_crew.Field.{validate_opaque_id, validate_task_handle}
use comis_dev_crew.Landed.{LandedEvidence, MergedPullRequest, LandedProof, prove_landed}
use comis_dev_crew.Cleanup.{
  CleanupError, CleanupStage, TaskCleanupRecord, TaskCleanupMutation, WorkspaceSnapshot,
  WorkspaceSnapshotRequest, PullRequestDeliveryVerification, PullRequestDeliveryTruth,
  ManagedRunReleaseRequest, ManagedRunReleaseReceipt, ManagedRunReleaseDisposition,
  DeliveredWorkspaceRemoval, TaskCleanupCompletion, CleanupTaskCommand, DiscardTaskCommand,
  valid_snapshot, is_clean, no_truth, receipt_matches, has_no_run,
}
use comis_dev_crew.Cleanup.Failures.{
  cleanup_verification_failure, cleanup_commit_failure, cleanup_dependency_failure,
  cleanup_dirty_workspace_failure, mutation_commit_failure, mutation_validation_failure,
  discard_unacknowledged_failure,
}
use comis_dev_crew.Cleanup.Tables.{Database}
use comis_dev_crew.Cleanup.Database.{Stored}
use comis_dev_crew.Cleanup.Write.{StoreContext}
use comis_dev_crew.Cleanup.Proof.{snapshot_of_record, truth_matches}
use comis_dev_crew.Cleanup.Store.{record_task_cleanup_host_release, authorize_task_cleanup_removal}
use comis_dev_crew.Cleanup.Begin.{settle, begin_task_cleanup}
use comis_dev_crew.Cleanup.Discard.{begin_task_discard}
use comis_dev_crew.Cleanup.Complete.{MutationResult, complete_task_cleanup}
use comis_dev_crew.Cleanup.Ports.{
  LandedEvidenceRequest, LandedEvidenceTruth, Port, CleanupPorts, Event, World, Action, ◌>>=◌, ◌>>◌,
  pure, raise, raise_if, reporting, call, note, store,
}
use comis_dev_crew.Cleanup.Verify.{verify_current_safety}

-- What one pass of the loop of runRemovalStages ends in.
pub data Pass : Type 0 where
  again : TaskCleanupRecord → Pass
  finished : MutationResult → Pass

abbrev first_bytes : ℕ → Text → Text
first_bytes zero t = []
first_bytes (suc n) [] = []
first_bytes (suc n) (c ∷ cs) = c ∷ first_bytes n cs

abbrev then_text : Text → Text → Text
then_text [] t = t
then_text (c ∷ cs) t = c ∷ then_text cs t

-- `time.UnixMilli(observed.UnixMilli()).UTC()`
unfoldable pub in_milliseconds : Time → Time
in_milliseconds observed = record { instant = observed.instant / 1000000 * 1000000; utc = true }

unfoldable pub removal_of : TaskCleanupRecord → DeliveredWorkspaceRemoval
removal_of row = record {
  preparation_operation_id = row.preparation_operation_id;
  task_handle = row.task_handle;
  repository_id = row.repository_id;
  worktree_path = row.snapshot.worktree_path;
  branch = row.snapshot.branch;
  head_revision = row.snapshot.head_revision;
}

unfoldable pub removal_failure : TaskCleanupRecord → CleanupError → CleanupError
removal_failure row e =
    cleanup_dependency_failure
      (if row.discard
        then "discarded workspace removal failed"
        else "delivered workspace removal failed")
      "inspect the operation-bound worktree and Git repository before retrying"

module _ {E : Type 0} (context : StoreContext) (ports : CleanupPorts E) where
  unfoldable pub cleanup_release_operation_id : Text → Text → Text
  cleanup_release_operation_id operation task =
      then_text (ascii "release-")
        (first_bytes 32 (context.platform.sha256_hex (then_text operation (0 ∷ task))))

  unfoldable pub read_clock : Action E Time
  read_clock w =
      let (time, after) = ports.clock w.environment in (ok time, record w { environment = after })

  -- `case CleanupPrepared`
  unfoldable pub release_host : TaskCleanupRecord → Action E ManagedRunReleaseReceipt
  unfolding receipt_matches
  release_host row =
      reporting
        (λ _.
          cleanup_dependency_failure "managed run release failed"
            "inspect the exact managed run and workspace lease in Comis before retrying")
        (call ports.release_managed_run (λ receipt log. Event.run_released receipt ∷ log)
          (record {
            operation_id = row.release_operation_id;
            managed_run_id = row.managed_run_id;
            workspace_lease_id = row.workspace_lease_id;
            disposition = ManagedRunReleaseDisposition.reap_safe;
            released_at = row.released_at;
          }))
      >>= λ receipt.
          raise_if (not (receipt_matches row receipt))
            (CleanupError.plain "cleanup task: host release acknowledgement differs")
          >> pure receipt

  unfoldable pub pass_prepared : TaskCleanupRecord → Action E Pass
  unfolding verify_current_safety release_host read_clock
  pass_prepared row = do
    proof ← reporting cleanup_verification_failure (verify_current_safety context ports row)
    receipt ← release_host row
    at ← read_clock
    next ← reporting mutation_commit_failure (
        store (λ db. settle db (
          record_task_cleanup_host_release context db (record {
            operation_id = row.operation_id;
            subject_digest = row.subject_digest;
            snapshot = proof.0;
            truth = proof.1;
            receipt = receipt;
            at = at;
          }))))
    pure (Pass.again next)

  unfoldable pub release_attachment : TaskCleanupRecord → Action E (Unit {0})
  release_attachment row =
      reporting
        (λ _.
          cleanup_dependency_failure "runtime attachment release failed"
            "inspect the exact task runtime attachment before retrying cleanup")
        (call ports.release_runtime_attachment
          (λ _ log. Event.attachment_released row.task_handle ∷ log) row.task_handle)

  -- `case CleanupManagedRunAbsent, CleanupHostReleased` behind its guard
  unfoldable pub pass_released : TaskCleanupRecord → Action E Pass
  unfolding verify_current_safety release_attachment read_clock
  pass_released row = do
    release_attachment row
    proof ← reporting cleanup_verification_failure (verify_current_safety context ports row)
    at ← read_clock
    next ← reporting mutation_commit_failure (
        store (λ db. settle db (
          authorize_task_cleanup_removal context db (record {
            operation_id = row.operation_id;
            subject_digest = row.subject_digest;
            snapshot = proof.0;
            truth = proof.1;
            at = at;
          }))))
    pure (Pass.again next)

  unfoldable pub remove_workspace : TaskCleanupRecord → Action E (Unit {0})
  unfolding removal_of
  remove_workspace row = do
    note (Event.removing row.discard (removal_of row))
    reporting (removal_failure row) (
        call
          (if row.discard
            then ports.remove_discarded_workspace
            else ports.remove_delivered_workspace)
          (λ _ log. Event.removed (removal_of row) ∷ log) (removal_of row))

  unfoldable pub complete : CleanupTaskCommand → Text → TaskCleanupRecord → Action E Pass
  unfolding read_clock
  complete command digest row = do
    at ← read_clock
    result ← store (λ db. complete_task_cleanup context db (record {
      operation_id = row.operation_id;
      subject_digest = row.subject_digest;
      request_operation_id = command.operation_id;
      request_subject_digest = digest;
      at = at;
    }))
    pure (Pass.finished result)

  -- `switch record.Stage`
  unfoldable pub pass_stage :
      CleanupTaskCommand → Text → TaskCleanupRecord → CleanupStage → Action E Pass
  unfolding pass_prepared pass_released remove_workspace complete
  pass_stage command digest row CleanupStage.prepared = pass_prepared row
  pass_stage command digest row CleanupStage.managed_run_absent =
      raise_if (not (has_no_run row))
        (CleanupError.plain "cleanup task: absent managed-run authority is contradictory")
      >> pass_released row
  pass_stage command digest row CleanupStage.host_released = pass_released row
  pass_stage command digest row CleanupStage.removal_authorized =
      remove_workspace row >> complete command digest row
  pass_stage command digest row CleanupStage.completed = complete command digest row
  pass_stage command digest row (CleanupStage.other t) =
      raise (CleanupError.plain "cleanup task: durable stage is invalid")

  unfoldable pub pass_once : CleanupTaskCommand → Text → TaskCleanupRecord → Action E Pass
  unfolding pass_stage
  pass_once command digest row =
      raise_if (not (text_eq row.task_handle command.task_handle))
        (CleanupError.plain "cleanup task: durable operation identity differs")
      >> pass_stage command digest row row.stage

  -- The loop: none where the fuel runs out.
  unfoldable pub next_pass :
      (TaskCleanupRecord → Action E (Option MutationResult))
      → Pass
      → Action E (Option MutationResult)
  next_pass go (Pass.again row) = go row
  next_pass go (Pass.finished result) = pure (some result)

  unfoldable pub run_removal_stages :
      ℕ → CleanupTaskCommand → Text → TaskCleanupRecord → Action E (Option MutationResult)
  unfolding next_pass pass_once
  run_removal_stages zero command digest row = pure none
  run_removal_stages (suc fuel) command digest row =
      pass_once command digest row >>= next_pass (run_removal_stages fuel command digest)
