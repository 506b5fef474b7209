-- ===== src/Cleanup/Commands.antt =====
-- The commands of CleanupCoordinator: CleanupTask of internal/application/cleanup.go and
-- DiscardTask
-- of internal/application/discard.go. The loop gets three passes; a record goes through at most
-- three stages.
pub mod Sound
pub mod Total
use comis_dev_crew.Base.{
  ℕ, zero, suc, ◌/◌, ◌*◌, Bool, true, false, not, ◌&&◌, ◌||◌, List, [], ◌∷◌, Option, none, some,
  String, Result, ok, err, ℤ, pos, Time, if◌then◌else◌, is_empty, is_ok, ◌==◌,
}
use comis_dev_crew.Text.{Text, text_eq, ascii}
use comis_dev_crew.Field.{validate_opaque_id, validate_task_handle}
use comis_dev_crew.Landed.{LandedEvidence, MergedPullRequest, LandedProof, prove_landed}
use comis_dev_crew.Cleanup.{
  CleanupError, CleanupStage, TaskCleanupRecord, TaskCleanupMutation, WorkspaceSnapshot,
  WorkspaceSnapshotRequest, PullRequestDeliveryVerification, PullRequestDeliveryTruth,
  ManagedRunReleaseRequest, ManagedRunReleaseReceipt, ManagedRunReleaseDisposition,
  DeliveredWorkspaceRemoval, TaskCleanupCompletion, CleanupTaskCommand, DiscardTaskCommand,
  valid_snapshot, is_clean, no_truth, receipt_matches, has_no_run,
}
use comis_dev_crew.Cleanup.Failures.{
  cleanup_verification_failure, cleanup_commit_failure, cleanup_dependency_failure,
  cleanup_dirty_workspace_failure, mutation_commit_failure, mutation_validation_failure,
  discard_unacknowledged_failure,
}
use comis_dev_crew.Cleanup.Tables.{Database}
use comis_dev_crew.Cleanup.Database.{Stored}
use comis_dev_crew.Cleanup.Write.{StoreContext}
use comis_dev_crew.Cleanup.Proof.{snapshot_of_record, truth_matches}
use comis_dev_crew.Cleanup.Store.{record_task_cleanup_host_release, authorize_task_cleanup_removal}
use comis_dev_crew.Cleanup.Begin.{settle, begin_task_cleanup}
use comis_dev_crew.Cleanup.Discard.{begin_task_discard}
use comis_dev_crew.Cleanup.Complete.{MutationResult, complete_task_cleanup}
use comis_dev_crew.Cleanup.Ports.{
  CleanupPorts, World, Action, ◌>>=◌, ◌>>◌, pure, raise, raise_if, reporting, store,
}
use comis_dev_crew.Cleanup.Coordinator.{
  cleanup_release_operation_id, read_clock, in_milliseconds, run_removal_stages,
}

-- Three passes: prepared, then released, then authorized.
abbrev pub stage_passes : ℕ
stage_passes = 3

module _ {E : Type 0} (context : StoreContext) (ports : CleanupPorts E) where
  -- digestMutationSubject
  unfoldable pub digest_subject : Option Text → CleanupError → Action E Text
  digest_subject none e = raise e
  digest_subject (some encoded) e = pure (context.platform.sha256_hex encoded)

  unfoldable pub begin_mutation : Text → Text → Text → Time → TaskCleanupMutation
  unfolding in_milliseconds cleanup_release_operation_id
  begin_mutation operation task digest observed = record {
    operation_id = operation;
    subject_digest = digest;
    task_handle = task;
    release_operation_id = cleanup_release_operation_id context ports operation task;
    released_at = in_milliseconds observed;
    at = in_milliseconds observed;
  }

  unfoldable pub cleanup_task : CleanupTaskCommand → Action E (Option MutationResult)
  unfolding digest_subject begin_mutation run_removal_stages read_clock
  cleanup_task command = do
    raise_if
        (not (is_ok (validate_opaque_id "operationId" command.operation_id))
          || not (is_ok (validate_task_handle command.task_handle)))
        (mutation_validation_failure "cleanup command identity is invalid")
    digest ←
        digest_subject (ports.encode_cleanup command)
          (mutation_validation_failure "cleanup subject cannot be encoded")
    observed ← read_clock context ports
    row ← reporting cleanup_commit_failure (
        store (λ db.
          begin_task_cleanup context db
            (begin_mutation command.operation_id command.task_handle digest observed)))
    run_removal_stages context ports stage_passes command digest row

  unfoldable pub discard_task : DiscardTaskCommand → Action E (Option MutationResult)
  unfolding digest_subject begin_mutation run_removal_stages read_clock
  discard_task command = do
    raise_if
        (not (is_ok (validate_opaque_id "operationId" command.operation_id))
          || not (is_ok (validate_task_handle command.task_handle)))
        (mutation_validation_failure "discard command identity is invalid")
    raise_if (not command.acknowledged) discard_unacknowledged_failure
    digest ←
        digest_subject (ports.encode_discard command)
          (mutation_validation_failure "discard subject cannot be encoded")
    observed ← read_clock context ports
    row ← reporting cleanup_commit_failure (
        store (λ db.
          begin_task_discard context db
            (begin_mutation command.operation_id command.task_handle digest observed)))
    run_removal_stages context ports stage_passes
        (record { operation_id = command.operation_id; task_handle = command.task_handle }) digest
        row
