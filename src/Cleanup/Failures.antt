-- ===== src/Cleanup/Failures.antt =====
-- How cleanup reports its errors: the classification functions of internal/application/cleanup.go,
-- internal/application/discard.go and internal/application/mutations.go.
use comis_dev_crew.Base.{true, false, Result, ok, err, String}
use comis_dev_crew.Text.{ascii}
use comis_dev_crew.Field.{ValidationError}
use comis_dev_crew.Operation.{Failure, ErrorCode, new_failure}
use comis_dev_crew.Cleanup.{CleanupError}

-- A failure that NewFailure may refuse; then the fallback error.
unfoldable pub classified : Result ValidationError Failure → CleanupError → CleanupError
classified (ok f) fallback = CleanupError.failure f
classified (err e) fallback = fallback

unfoldable pub mutation_validation_failure : String → CleanupError
unfolding classified
mutation_validation_failure message =
    classified
      (new_failure ErrorCode.invalid_argument false (ascii message)
        (ascii "correct the bounded command fields"))
      (CleanupError.plain "mutation validation failed")

unfoldable pub mutation_replay_failure : CleanupError → CleanupError
unfolding classified
mutation_replay_failure CleanupError.conflict =
    classified
      (new_failure ErrorCode.conflict false
        (ascii "stable operation subject conflicts with its original request")
        (ascii "reuse the original command or choose a new operation identity"))
      (CleanupError.plain "mutation replay conflict")
mutation_replay_failure cause = cause

-- `errors.Is(cause, ErrNotFound)`, ErrPrecondition or domain.ErrInvalidTransition.
unfoldable pub task_refused : CleanupError
unfolding classified
task_refused =
    classified
      (new_failure ErrorCode.precondition false
        (ascii "task cannot accept the requested transition")
        (ascii "reconcile the exact durable task and run binding before retrying"))
      (CleanupError.plain "mutation commit failure classification failed")

unfoldable pub mutation_commit_failure : CleanupError → CleanupError
unfolding classified task_refused mutation_replay_failure
mutation_commit_failure CleanupError.conflict = mutation_replay_failure CleanupError.conflict
mutation_commit_failure CleanupError.invalid_input =
    classified
      (new_failure ErrorCode.invalid_argument false
        (ascii "mutation fields differ from durable task authority")
        (ascii "send the exact prepared workspace and bound run identities"))
      (CleanupError.plain "mutation commit failure classification failed")
mutation_commit_failure (CleanupError.failure f) = CleanupError.failure f
mutation_commit_failure (CleanupError.plain e) = CleanupError.plain e
mutation_commit_failure CleanupError.not_found = task_refused
mutation_commit_failure CleanupError.precondition = task_refused
mutation_commit_failure CleanupError.invalid_transition = task_refused
mutation_commit_failure CleanupError.open_hold = task_refused
mutation_commit_failure CleanupError.open_decision = task_refused
mutation_commit_failure CleanupError.unattested_scout = task_refused
mutation_commit_failure CleanupError.active_execution = task_refused
mutation_commit_failure CleanupError.unknown_execution = task_refused
mutation_commit_failure CleanupError.stale_forge_truth = task_refused

abbrev blocker : String → String → CleanupError
blocker message hint =
    classified (new_failure ErrorCode.precondition true (ascii message) (ascii hint))
      (CleanupError.plain "cleanup blocker failure classification failed")

unfoldable pub cleanup_commit_failure : CleanupError → CleanupError
unfolding classified mutation_commit_failure
cleanup_commit_failure CleanupError.open_hold =
    blocker "cleanup is blocked by an open task hold"
      "close the exact task cleanup hold, then retry cleanup"
cleanup_commit_failure CleanupError.open_decision =
    blocker "cleanup is blocked by an unresolved task decision"
      "resolve the exact open task decision, then retry cleanup"
cleanup_commit_failure CleanupError.unattested_scout =
    blocker "cleanup is blocked by a missing or unresolved scout decision inventory"
      "record the scout's decision inventory with an attestation that names its open decisions or states there are none, then retry cleanup"
cleanup_commit_failure CleanupError.active_execution =
    blocker "cleanup is blocked by active task execution"
      "wait for the exact task execution and validation processes to settle, then retry cleanup"
cleanup_commit_failure CleanupError.unknown_execution =
    blocker "cleanup requires settled task execution evidence"
      "reconcile the exact terminal, managed run, and workspace lease before retrying cleanup"
cleanup_commit_failure CleanupError.stale_forge_truth =
    blocker "cleanup requires current matching pull request truth"
      "refresh the exact pull request head and required checks, then retry cleanup"
cleanup_commit_failure cause = mutation_commit_failure cause

unfoldable pub cleanup_verification_failure : CleanupError → CleanupError
unfolding cleanup_commit_failure
cleanup_verification_failure (CleanupError.failure f) = CleanupError.failure f
cleanup_verification_failure cause = cleanup_commit_failure cause

unfoldable pub cleanup_dirty_workspace_failure : CleanupError
unfolding classified
cleanup_dirty_workspace_failure =
    classified
      (new_failure ErrorCode.precondition true (ascii "cleanup requires a clean task worktree")
        (ascii "remove uncommitted changes from the exact task worktree, then retry cleanup"))
      (CleanupError.plain "cleanup dirty workspace failure classification failed")

unfoldable pub cleanup_dependency_failure : String → String → CleanupError
unfolding classified
cleanup_dependency_failure message hint =
    classified (new_failure ErrorCode.unavailable true (ascii message) (ascii hint))
      (CleanupError.plain "cleanup dependency failure classification failed")

unfoldable pub discard_unacknowledged_failure : CleanupError
unfolding classified mutation_validation_failure
discard_unacknowledged_failure =
    classified
      (new_failure ErrorCode.precondition false
        (ascii "discarding removes work that was never delivered and cannot be undone")
        (ascii
          "re-run with the explicit acknowledgement once you have confirmed nothing in the worktree is needed"))
      (mutation_validation_failure "discard refusal cannot be encoded")
