-- ===== src/Cleanup/Verify.antt =====
-- The proof that a workspace is still what its cleanup record says: verifyCurrentSafety of
-- internal/application/cleanup.go and internal/application/landed_evidence.go.
use comis_dev_crew.Base.{Bool, not, ◌||◌, ◌∷◌, Option, none, some, pos, if◌then◌else◌, is_empty}
use comis_dev_crew.Text.{text_eq}
use comis_dev_crew.Landed.{LandedEvidence, prove_landed}
use comis_dev_crew.Cleanup.{
  CleanupError, TaskCleanupRecord, WorkspaceSnapshot, PullRequestDeliveryTruth, valid_snapshot,
  is_clean, no_truth,
}
use comis_dev_crew.Cleanup.Failures.{cleanup_dependency_failure, cleanup_dirty_workspace_failure}
use comis_dev_crew.Cleanup.Write.{StoreContext}
use comis_dev_crew.Cleanup.Proof.{snapshot_of_record, truth_matches}
use comis_dev_crew.Cleanup.Ports.{
  LandedEvidenceRequest, LandedEvidenceTruth, Port, CleanupPorts, Event, Action, ◌>>=◌, ◌>>◌, pure,
  raise, raise_if, reporting, call,
}

unfoldable pub landed_evidence : LandedEvidenceTruth → LandedEvidence
landed_evidence truth = record {
  work_head = truth.work_head;
  forge_truth_available = truth.available;
  reachable_from_remote_refs = truth.reachable_from_remote_refs;
  recorded_pull_request = pos 0;
  merged_pull_request_by_head_branch = truth.merged_pull_request;
  default_branch_head = truth.default_branch_head;
  default_branch_up_to_date = truth.default_branch_up_to_date;
  default_branch_contains_head = truth.default_branch_contains_head;
}

-- A failed forge read: stale truth passes as it is.
unfoldable pub forge_failure : CleanupError → CleanupError
forge_failure CleanupError.stale_forge_truth = CleanupError.stale_forge_truth
forge_failure _ =
    cleanup_dependency_failure "cleanup pull request verification failed"
      "inspect the recorded pull request, head, and required checks before retrying"

module _ (context : StoreContext) where
  -- `snapshot.Validate() != nil || …`
  unfoldable pub workspace_differs : TaskCleanupRecord → WorkspaceSnapshot → Bool
  workspace_differs row snapshot =
      not (valid_snapshot context.is_abs context.clean_path snapshot)
      || not (snapshot_of_record row snapshot)
      || not (row.discard || text_eq snapshot.head_revision row.head_revision)

module _ {E : Type 0} (context : StoreContext) (ports : CleanupPorts E) where
  -- acceptUndeliveredIfLanded with proveCleanupLanded: a read that fails proves nothing.
  unfoldable pub accept_landed :
      TaskCleanupRecord
      → WorkspaceSnapshot
      → Option (Port E LandedEvidenceRequest LandedEvidenceTruth)
      → Action E (Unit {0})
  unfolding landed_evidence
  accept_landed row snapshot none = raise (CleanupError.plain "the work is not provably landed")
  accept_landed row snapshot (some gather) =
      reporting (λ _. CleanupError.plain "the work is not provably landed")
        (call gather (λ _ log. log)
          (record {
            repository_id = row.repository_id;
            branch = snapshot.branch;
            head_revision = row.head_revision;
          }))
      >>= λ truth.
          raise_if (not (prove_landed (landed_evidence truth)).landed)
            (CleanupError.plain "the work is not provably landed")

  unfoldable pub accept_undelivered_if_landed :
      TaskCleanupRecord → WorkspaceSnapshot → Action E (Unit {0})
  unfolding accept_landed
  accept_undelivered_if_landed row snapshot =
      if not (is_empty row.report_artifact_hash)
      then pure tt
      else accept_landed row snapshot ports.gather_landed_evidence

  unfoldable pub verify_delivery :
      TaskCleanupRecord → WorkspaceSnapshot → Action E PullRequestDeliveryTruth
  unfolding forge_failure
  verify_delivery row snapshot =
      reporting forge_failure (
        call ports.verify_pull_request_delivery (λ truth log. Event.verified truth ∷ log)
          (record {
            repository_id = row.repository_id;
            pull_request_id = row.pull_request_id;
            branch = snapshot.branch;
            head_revision = row.head_revision;
            required_checks = row.required_forge_checks;
          }))
      >>= λ truth.
          raise_if (not (truth_matches row truth)) CleanupError.stale_forge_truth >> pure truth

  -- verifyCurrentSafety behind the inspection.
  unfoldable pub prove_delivery :
      TaskCleanupRecord → WorkspaceSnapshot → Action E PullRequestDeliveryTruth
  unfolding verify_delivery accept_undelivered_if_landed
  prove_delivery row snapshot =
      if row.discard
      then pure no_truth
      else if not (is_clean snapshot.cleanliness)
      then raise cleanup_dirty_workspace_failure
      else if is_empty row.pull_request_id
      then (accept_undelivered_if_landed row snapshot >> pure no_truth)
      else verify_delivery row snapshot

  unfoldable pub inspect : TaskCleanupRecord → Action E WorkspaceSnapshot
  unfolding workspace_differs
  inspect row =
      reporting
        (λ _.
          cleanup_dependency_failure "cleanup workspace inspection failed"
            "inspect the exact task worktree and configured repository before retrying")
        (call ports.inspect_workspace (λ snapshot log. Event.inspected snapshot ∷ log)
          (record {
            task_handle = row.task_handle;
            repository_id = row.repository_id;
            worktree_path = row.worktree_path;
          }))
      >>= λ snapshot.
          raise_if (workspace_differs context row snapshot) CleanupError.precondition
          >> pure snapshot

  unfoldable pub verify_current_safety :
      TaskCleanupRecord → Action E (WorkspaceSnapshot × PullRequestDeliveryTruth)
  unfolding inspect prove_delivery
  verify_current_safety row = do
    snapshot ← inspect row
    truth ← prove_delivery row snapshot
    pure (snapshot, truth)
