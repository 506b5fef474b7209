-- ===== src/Cleanup/Proof.antt =====
-- The comparison of a fresh workspace and delivery proof with the durable record:
-- validateCleanupProof and cleanupProofMatches of internal/store/sqlite/cleanup_safety.go. A nil
-- slice and an empty one are one list here.
pub mod Laws
use comis_dev_crew.Base.{
  Bool, true, false, not, ◌&&◌, ◌||◌, List, [], ◌∷◌, Result, ok, err, ◌>>◌, refuse, require,
  if◌then◌else◌, is_empty, is_ok,
}
use comis_dev_crew.Text.{Text, text_eq}
use comis_dev_crew.Evidence.{CheckConclusion}
use comis_dev_crew.Cleanup.{
  CleanupError, CleanupStage, TaskCleanupRecord, WorkspaceSnapshot, WorkspaceCleanliness,
  PullRequestDeliveryTruth, ForgeCheckTruth, is_clean, wanted_checks,
}
use comis_dev_crew.Cleanup.Database.{rolled_back, Stored}

abbrev same_conclusion : CheckConclusion → CheckConclusion → Bool
same_conclusion CheckConclusion.passed CheckConclusion.passed = true
same_conclusion CheckConclusion.failed CheckConclusion.failed = true
same_conclusion CheckConclusion.pending CheckConclusion.pending = true
same_conclusion CheckConclusion.unknown CheckConclusion.unknown = true
same_conclusion (CheckConclusion.other a) (CheckConclusion.other b) = text_eq a b
same_conclusion _ _ = false

abbrev same_cleanliness : WorkspaceCleanliness → WorkspaceCleanliness → Bool
same_cleanliness WorkspaceCleanliness.clean WorkspaceCleanliness.clean = true
same_cleanliness WorkspaceCleanliness.dirty WorkspaceCleanliness.dirty = true
same_cleanliness (WorkspaceCleanliness.other a) (WorkspaceCleanliness.other b) = text_eq a b
same_cleanliness _ _ = false

-- reflect.DeepEqual(truth.Checks, wantChecks)
unfoldable pub same_checks : List ForgeCheckTruth → List ForgeCheckTruth → Bool
same_checks [] [] = true
same_checks [] (b ∷ bs) = false
same_checks (a ∷ xs) [] = false
same_checks (a ∷ xs) (b ∷ bs) =
    text_eq a.name b.name && same_conclusion a.conclusion b.conclusion && same_checks xs bs

-- reflect.DeepEqual(truth, PullRequestDeliveryTruth{})
unfoldable pub is_no_truth : PullRequestDeliveryTruth → Bool
is_no_truth truth =
    is_empty truth.repository_id
    && is_empty truth.pull_request_id
    && is_empty truth.head_revision
    && is_empty truth.checks

unfoldable pub same_snapshot : WorkspaceSnapshot → WorkspaceSnapshot → Bool
same_snapshot a b =
    text_eq a.task_handle b.task_handle
    && text_eq a.repository_id b.repository_id
    && text_eq a.worktree_path b.worktree_path
    && text_eq a.branch b.branch
    && text_eq a.head_revision b.head_revision
    && same_cleanliness a.cleanliness b.cleanliness

-- The snapshot shows the worktree of the record.
unfoldable pub snapshot_of_record : TaskCleanupRecord → WorkspaceSnapshot → Bool
unfolding text_eq
snapshot_of_record row snapshot =
    text_eq snapshot.task_handle row.task_handle
    && text_eq snapshot.repository_id row.repository_id
    && text_eq snapshot.worktree_path row.worktree_path

-- The pull request is the recorded one, at the recorded head, and every required check has passed.
unfoldable pub truth_matches : TaskCleanupRecord → PullRequestDeliveryTruth → Bool
unfolding text_eq
truth_matches row truth =
    text_eq truth.repository_id row.repository_id
    && text_eq truth.pull_request_id row.pull_request_id
    && text_eq truth.head_revision row.head_revision
    && same_checks truth.checks (wanted_checks row.required_forge_checks)

-- validateCleanupProof behind the test of the workspace.
unfoldable pub validate_delivery_proof :
    TaskCleanupRecord → WorkspaceSnapshot → PullRequestDeliveryTruth → Stored (Unit {0})
unfolding truth_matches is_no_truth
validate_delivery_proof row snapshot truth =
    if row.discard
    then require
        (is_empty row.head_revision
          && is_empty row.evidence_digest
          && is_empty row.pull_request_id
          && is_empty row.report_artifact_hash
          && is_empty row.required_forge_checks
          && is_no_truth truth)
        (rolled_back CleanupError.precondition)
    else do
      require (text_eq snapshot.head_revision row.head_revision && is_clean snapshot.cleanliness)
          (rolled_back CleanupError.precondition)
      require
          (if is_empty row.pull_request_id
            then not (is_empty row.report_artifact_hash) && is_no_truth truth
            else truth_matches row truth)
          (rolled_back CleanupError.precondition)

unfoldable pub validate_cleanup_proof :
    TaskCleanupRecord → WorkspaceSnapshot → PullRequestDeliveryTruth → Stored (Unit {0})
unfolding snapshot_of_record validate_delivery_proof
validate_cleanup_proof row snapshot truth = do
  require (snapshot_of_record row snapshot) (rolled_back CleanupError.precondition)
  validate_delivery_proof row snapshot truth

unfoldable pub cleanup_proof_matches :
    TaskCleanupRecord → WorkspaceSnapshot → PullRequestDeliveryTruth → Bool
unfolding same_snapshot validate_cleanup_proof
cleanup_proof_matches row snapshot truth =
    same_snapshot row.snapshot snapshot && is_ok (validate_cleanup_proof row snapshot truth)

unfoldable pub same_stage : CleanupStage → CleanupStage → Bool
same_stage CleanupStage.prepared CleanupStage.prepared = true
same_stage CleanupStage.managed_run_absent CleanupStage.managed_run_absent = true
same_stage CleanupStage.host_released CleanupStage.host_released = true
same_stage CleanupStage.removal_authorized CleanupStage.removal_authorized = true
same_stage CleanupStage.completed CleanupStage.completed = true
same_stage (CleanupStage.other a) (CleanupStage.other b) = text_eq a b
same_stage _ _ = false

unfoldable pub cleanup_stage_allowed : CleanupStage → List CleanupStage → Bool
unfolding same_stage
cleanup_stage_allowed stage [] = false
cleanup_stage_allowed stage (candidate ∷ allowed) =
    same_stage stage candidate || cleanup_stage_allowed stage allowed
