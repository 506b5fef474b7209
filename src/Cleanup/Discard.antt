-- ===== src/Cleanup/Discard.antt =====
-- The entry gate of a discard: BeginTaskDiscard of internal/store/sqlite/discard.go.
use comis_dev_crew.Base.{
  Bool, true, false, not, ◌&&◌, ◌||◌, [], Option, none, some, Result, ok, ◌>>=◌, ◌>>◌, refuse,
  require, Time, before, if◌then◌else◌, is_empty, is_ok, length, ◌==◌,
}
use comis_dev_crew.Text.{text_eq, ascii}
use comis_dev_crew.Field.{validate_opaque_id, validate_task_handle}
use comis_dev_crew.Lifecycle.{TaskState, same_state}
use comis_dev_crew.Task.{Task}
use comis_dev_crew.Cleanup.{
  CleanupError, CleanupStage, TaskCleanupRecord, TaskCleanupMutation, no_snapshot,
}
use comis_dev_crew.Cleanup.Tables.{Database}
use comis_dev_crew.Cleanup.Database.{
  rolled_back, Stored, find_task_cleanup_record, find_task_cleanup_record_by_task, mutation_replay,
}
use comis_dev_crew.Cleanup.Write.{StoreContext, get_task}
use comis_dev_crew.Cleanup.Safety.{prove_nothing_is_still_running, cleanup_preparation}
use comis_dev_crew.Cleanup.Store.{precondition_failed, has_no_authority}
use comis_dev_crew.Cleanup.Begin.{settle, replay_record, caller_replay, hold_task}

abbrev pub has_whole_authority : Task → Bool
has_whole_authority task =
    not (is_empty task.managed_run_id)
    && not (is_empty task.workspace_lease_id)
    && not (is_empty task.execution_attachment_id)
    && not (is_empty task.attachment_target_name)

unfoldable pub valid_discard_mutation : TaskCleanupMutation → Bool
valid_discard_mutation mutation =
    is_ok (validate_opaque_id "operationId" mutation.operation_id)
    && is_ok (validate_task_handle mutation.task_handle)
    && length mutation.subject_digest == 64
    && mutation.at.utc

-- Only stopped work, with all of its host authority or none of it.
unfoldable pub discard_posture : Task → Time → Stored (Unit {0})
discard_posture task at = do
  require (same_state task.state TaskState.cancelled || same_state task.state TaskState.failed)
      precondition_failed
  refuse
      ((not (has_no_authority task) && not (has_whole_authority task)) || before at task.updated_at)
      precondition_failed

module _ (context : StoreContext) where
  unfoldable pub begin_new_discard :
      Database → TaskCleanupMutation → Stored (TaskCleanupRecord × Database)
  unfolding discard_posture hold_task
  begin_new_discard db mutation = do
    task ← get_task context db mutation.task_handle
    discard_posture task mutation.at
    prove_nothing_is_still_running db task false
    origin ← cleanup_preparation db task.handle
    hold_task context db task mutation.at (record {
      operation_id = mutation.operation_id;
      subject_digest = mutation.subject_digest;
      task_handle = task.handle;
      preparation_operation_id = origin.0;
      managed_run_id = task.managed_run_id;
      workspace_lease_id = task.workspace_lease_id;
      repository_id = task.repository_id;
      worktree_path = origin.1;
      head_revision = [];
      evidence_digest = [];
      pull_request_id = [];
      required_forge_checks = [];
      report_artifact_hash = [];
      stage =
          if has_no_authority task then CleanupStage.managed_run_absent else CleanupStage.prepared;
      release_operation_id = mutation.release_operation_id;
      released_at = mutation.released_at;
      snapshot = no_snapshot;
      discard = true;
    })

  unfoldable pub discard_after_replay :
      Database
      → TaskCleanupMutation
      → Bool
      → Option TaskCleanupRecord
      → Stored (TaskCleanupRecord × Database)
  unfolding begin_new_discard replay_record
  discard_after_replay db mutation replayed (some existing) = do
    require existing.discard precondition_failed
    ok (existing, db)
  discard_after_replay db mutation replayed none = do
    refuse replayed (rolled_back (CleanupError.plain "task discard replay record is unavailable"))
    begin_new_discard db mutation

  unfoldable pub discard_after_operation :
      Database
      → TaskCleanupMutation
      → Option TaskCleanupRecord
      → Stored (TaskCleanupRecord × Database)
  unfolding discard_after_replay caller_replay replay_record
  discard_after_operation db mutation (some existing) =
      replay_record
        (text_eq existing.subject_digest mutation.subject_digest
          && text_eq existing.task_handle mutation.task_handle)
        existing db
  discard_after_operation db mutation none = do
    replay ← mutation_replay db mutation.operation_id (ascii "DiscardTask") mutation.subject_digest
    replayed ← caller_replay mutation.task_handle replay
    discard_after_replay db mutation replayed
        (find_task_cleanup_record_by_task db mutation.task_handle)

  unfoldable pub begin_task_discard :
      Database → TaskCleanupMutation → Result CleanupError TaskCleanupRecord × Database
  unfolding discard_after_operation valid_discard_mutation settle
  begin_task_discard db mutation = settle db (
      require (valid_discard_mutation mutation) precondition_failed
      >> discard_after_operation db mutation (find_task_cleanup_record db mutation.operation_id))
