-- ===== src/Cleanup.antt =====
-- Exact cleanup and discard of a task: the durable record, the requests and the answers of
-- internal/application/cleanup.go, the workspace snapshot of internal/application/intervention.go,
-- and the errors that these parts tell apart.
pub mod Failures
pub mod Tables
pub mod Rows
pub mod Database
pub mod Write
pub mod Safety
pub mod Origin
pub mod Proof
pub mod Store
pub mod Begin
pub mod Discard
pub mod Complete
pub mod Ports
pub mod Verify
pub mod Coordinator
pub mod Commands
pub mod History
pub mod Stages
use comis_dev_crew.Base.{
  Bool, true, false, not, ◌||◌, ◌&&◌, List, [], ◌∷◌, length, ltb, String, Time, Result, ok, err,
  is_ok, is_empty, any, ◌==◌, Option,
}
use comis_dev_crew.Text.{Text, text_eq, contains_any}
use comis_dev_crew.Field.{validate_task_handle, validate_authority_reference, validate_revision}
use comis_dev_crew.Evidence.{CheckConclusion}
use comis_dev_crew.Operation.{Failure}

-- The sentinel errors that errors.Is finds, a *domain.Failure, and any other error. The blockers
-- are the errors of type cleanupBlockerError.
pub data CleanupError : Type 0 where
  not_found conflict precondition invalid_input invalid_transition : CleanupError
  open_hold open_decision unattested_scout active_execution : CleanupError
  unknown_execution stale_forge_truth : CleanupError
  failure : Failure → CleanupError
  plain : String → CleanupError

-- `errors.Is(err, ErrPrecondition)`: the sentinel and every cleanup blocker.
unfoldable pub is_precondition : CleanupError → Bool
is_precondition CleanupError.precondition = true
is_precondition CleanupError.open_hold = true
is_precondition CleanupError.open_decision = true
is_precondition CleanupError.unattested_scout = true
is_precondition CleanupError.active_execution = true
is_precondition CleanupError.unknown_execution = true
is_precondition CleanupError.stale_forge_truth = true
is_precondition _ = false

pub data CleanupStage : Type 0 where
  prepared managed_run_absent host_released removal_authorized completed : CleanupStage
  other : Text → CleanupStage

pub data WorkspaceCleanliness : Type 0 where
  clean dirty : WorkspaceCleanliness
  other : Text → WorkspaceCleanliness

abbrev pub is_clean : WorkspaceCleanliness → Bool
is_clean WorkspaceCleanliness.clean = true
is_clean _ = false

abbrev pub known_cleanliness : WorkspaceCleanliness → Bool
known_cleanliness (WorkspaceCleanliness.other t) = false
known_cleanliness _ = true

pub record WorkspaceSnapshot : Type 0 where
  pub task_handle : Text
  pub repository_id : Text
  pub worktree_path : Text
  pub branch : Text
  pub head_revision : Text
  pub cleanliness : WorkspaceCleanliness

-- strings.ContainsAny(branch, "\x00\r\n\t ")
abbrev pub breaks_branch : Text → Bool
breaks_branch = contains_any (λ c. c == 0 || c == 13 || c == 10 || c == 9 || c == 32)

-- WorkspaceSnapshot.Validate, over filepath.IsAbs and filepath.Clean.
module _ (is_abs : Text → Bool) (clean_path : Text → Text) where
  unfoldable pub valid_snapshot : WorkspaceSnapshot → Bool
  valid_snapshot snapshot =
      is_ok (validate_task_handle snapshot.task_handle)
      && is_ok (validate_authority_reference "repositoryId" snapshot.repository_id)
      && is_ok (validate_revision snapshot.head_revision)
      && is_abs snapshot.worktree_path
      && text_eq (clean_path snapshot.worktree_path) snapshot.worktree_path
      && not (is_empty snapshot.branch)
      && not (ltb 255 (length snapshot.branch))
      && not (breaks_branch snapshot.branch)
      && known_cleanliness snapshot.cleanliness

abbrev pub no_snapshot : WorkspaceSnapshot
no_snapshot = record {
  task_handle = [];
  repository_id = [];
  worktree_path = [];
  branch = [];
  head_revision = [];
  cleanliness = WorkspaceCleanliness.other [];
}

pub record WorkspaceSnapshotRequest : Type 0 where
  pub task_handle : Text
  pub repository_id : Text
  pub worktree_path : Text

pub record ForgeCheckTruth : Type 0 where
  pub name : Text
  pub conclusion : CheckConclusion

pub record PullRequestDeliveryVerification : Type 0 where
  pub repository_id : Text
  pub pull_request_id : Text
  pub branch : Text
  pub head_revision : Text
  pub required_checks : List Text

pub record PullRequestDeliveryTruth : Type 0 where
  pub repository_id : Text
  pub pull_request_id : Text
  pub head_revision : Text
  pub checks : List ForgeCheckTruth

abbrev pub no_truth : PullRequestDeliveryTruth
no_truth = record { repository_id = []; pull_request_id = []; head_revision = []; checks = [] }

pub data ManagedRunReleaseDisposition : Type 0 where
  reap_safe : ManagedRunReleaseDisposition
  other : Text → ManagedRunReleaseDisposition

abbrev pub is_reap_safe : ManagedRunReleaseDisposition → Bool
is_reap_safe ManagedRunReleaseDisposition.reap_safe = true
is_reap_safe _ = false

pub data ManagedRunReleaseState : Type 0 where
  released : ManagedRunReleaseState
  other : Text → ManagedRunReleaseState

abbrev pub is_released : ManagedRunReleaseState → Bool
is_released ManagedRunReleaseState.released = true
is_released _ = false

pub record ManagedRunReleaseRequest : Type 0 where
  pub operation_id : Text
  pub managed_run_id : Text
  pub workspace_lease_id : Text
  pub disposition : ManagedRunReleaseDisposition
  pub released_at : Time

pub record ManagedRunReleaseReceipt : Type 0 where
  pub managed_run_id : Text
  pub workspace_lease_id : Text
  pub disposition : ManagedRunReleaseDisposition
  pub released_at : Time
  pub state : ManagedRunReleaseState

pub record DeliveredWorkspaceRemoval : Type 0 where
  pub preparation_operation_id : Text
  pub task_handle : Text
  pub repository_id : Text
  pub worktree_path : Text
  pub branch : Text
  pub head_revision : Text

pub record TaskCleanupRecord : Type 0 where
  pub operation_id : Text
  pub subject_digest : Text
  pub task_handle : Text
  pub preparation_operation_id : Text
  pub managed_run_id : Text
  pub workspace_lease_id : Text
  pub repository_id : Text
  pub worktree_path : Text
  pub head_revision : Text
  pub evidence_digest : Text
  pub pull_request_id : Text
  pub required_forge_checks : List Text
  pub report_artifact_hash : Text
  pub stage : CleanupStage
  pub release_operation_id : Text
  pub released_at : Time
  pub snapshot : WorkspaceSnapshot
  pub discard : Bool

-- TaskCleanupMutation and TaskDiscardMutation, which have the same fields.
pub record TaskCleanupMutation : Type 0 where
  pub operation_id : Text
  pub subject_digest : Text
  pub task_handle : Text
  pub release_operation_id : Text
  pub released_at : Time
  pub at : Time

pub record TaskCleanupCompletion : Type 0 where
  pub operation_id : Text
  pub subject_digest : Text
  pub request_operation_id : Text
  pub request_subject_digest : Text
  pub at : Time

pub record CleanupTaskCommand : Type 0 where
  pub operation_id : Text
  pub task_handle : Text

pub record DiscardTaskCommand : Type 0 where
  pub operation_id : Text
  pub task_handle : Text
  pub acknowledged : Bool

-- `ForgeCheckTruth{Name: name, Conclusion: domain.CheckPassed}` for each required check.
unfoldable pub wanted_checks : List Text → List ForgeCheckTruth
wanted_checks [] = []
wanted_checks (name ∷ names) =
    record { name = name; conclusion = CheckConclusion.passed } ∷ wanted_checks names

-- `receipt` is the acknowledgement that the record asks for.
unfoldable pub receipt_matches : TaskCleanupRecord → ManagedRunReleaseReceipt → Bool
unfolding text_eq
receipt_matches row receipt =
    text_eq receipt.managed_run_id row.managed_run_id
    && text_eq receipt.workspace_lease_id row.workspace_lease_id
    && is_reap_safe receipt.disposition
    && receipt.released_at.instant == row.released_at.instant
    && is_released receipt.state

-- `record.ManagedRunID == "" && record.WorkspaceLeaseID == ""`, with the discard flag.
unfoldable pub has_no_run : TaskCleanupRecord → Bool
has_no_run row = row.discard && is_empty row.managed_run_id && is_empty row.workspace_lease_id
