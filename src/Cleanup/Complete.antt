-- ===== src/Cleanup/Complete.antt =====
-- The end of a removal in the store: CompleteTaskCleanup of internal/store/sqlite/cleanup.go.
pub mod Rows
pub mod Authority
use comis_dev_crew.Base.{
  Bool, true, false, not, ◌&&◌, ◌||◌, List, [], ◌∷◌, ◌++◌, Option, none, some, Result, ok, err,
  ◌>>=◌, ◌>>◌, refuse, require, ℤ, Time, before, not_utc_time, if◌then◌else◌, is_empty, is_ok,
  length, ◌==◌,
}
use comis_dev_crew.Text.{Text, text_eq, ascii}
use comis_dev_crew.Field.{validate_opaque_id}
use comis_dev_crew.Lifecycle.{TaskState, TaskTransition, same_state}
use comis_dev_crew.Task.{Task}
use comis_dev_crew.Task.Apply.{apply_transition}
use comis_dev_crew.Task.Validate.{validate_task}
use comis_dev_crew.Operation.{OperationRecord}
use comis_dev_crew.Cleanup.{CleanupError, CleanupStage, TaskCleanupRecord, TaskCleanupCompletion}
use comis_dev_crew.Cleanup.Tables.{Database}
use comis_dev_crew.Cleanup.Database.{
  Refusal, rolled_back, Stored, find_task_cleanup_record, mutation_replay,
  completed_mutation_operation, insert_operation, next_mutation_state_version,
}
use comis_dev_crew.Cleanup.Write.{StoreContext, get_task, update_task_state}
use comis_dev_crew.Cleanup.Proof.{same_stage}
use comis_dev_crew.Cleanup.Store.{precondition_failed, transitioned, update_cleanup, found_or}
use comis_dev_crew.Cleanup.Begin.{settle}

-- MutationResult, without the preparation that a cleanup does not carry.
pub record MutationResult : Type 0 where
  pub task : Task
  pub operation : OperationRecord

-- The completion with the identity of the request, which is that of the operation where none is
-- given.
unfoldable pub with_request : TaskCleanupCompletion → TaskCleanupCompletion
with_request completion =
    if is_empty completion.request_operation_id && is_empty completion.request_subject_digest
    then record completion {
      request_operation_id = completion.operation_id;
      request_subject_digest = completion.subject_digest;
    }
    else completion

unfoldable pub valid_completion : TaskCleanupCompletion → Bool
valid_completion completion =
    is_ok (validate_opaque_id "operationId" completion.operation_id)
    && length completion.subject_digest == 64
    && is_ok (validate_opaque_id "operationId" completion.request_operation_id)
    && length completion.request_subject_digest == 64
    && not (not_utc_time completion.at)

-- `command := commandCleanupTask`, or commandDiscardTask.
unfoldable pub removal_command : TaskCleanupRecord → Text
removal_command row = if row.discard then ascii "DiscardTask" else ascii "CleanupTask"

-- The task without its host authority references.
abbrev pub without_authority : Task → Task
without_authority task = record task {
  managed_run_id = [];
  workspace_lease_id = [];
  execution_attachment_id = [];
  attachment_target_name = [];
}

-- A second operation for the caller's request, where it is another one.
unfoldable pub record_request :
    Database
    → TaskCleanupCompletion
    → TaskCleanupRecord
    → Task
    → OperationRecord
    → Stored (OperationRecord × Database)
record_request db completion row task original =
    let operation =
      completed_mutation_operation completion.request_operation_id (removal_command row)
        completion.request_subject_digest task.handle task.state_version completion.at in
    if text_eq completion.request_operation_id completion.operation_id
    then ok (original, db)
    else (insert_operation db operation >>= λ stored. ok (operation, stored))

-- The operation of the cleanup, and then that of the request.
unfoldable pub record_operations :
    Database
    → TaskCleanupCompletion
    → TaskCleanupRecord
    → Task
    → Stored (OperationRecord × Database)
unfolding record_request removal_command
record_operations db completion row cleaned =
    let original =
      completed_mutation_operation completion.operation_id (removal_command row)
        completion.subject_digest cleaned.handle cleaned.state_version completion.at in
    insert_operation db original >>= λ recorded.
    record_request recorded completion row cleaned original

abbrev pub completed_row : TaskCleanupRecord → TaskCleanupRecord
completed_row row = record row { stage = CleanupStage.completed }

module _ (context : StoreContext) where
  -- replayResult, for the five commands that reach it here: CleanupTask, DiscardTask, PauseTask,
  -- CancelTask and CancelManagedRun. It reads a preparation for PrepareTask and AbandonManagedRun.
  unfoldable pub replay_result : Database → OperationRecord → Stored (MutationResult × Database)
  replay_result db operation = do
    task ← get_task context db operation.result_ref
    ok (record { task = task; operation = operation }, db)

  -- `record.Stage == CleanupCompleted`: only a later request is recorded.
  unfoldable pub complete_again :
      Database → TaskCleanupCompletion → TaskCleanupRecord → Stored (MutationResult × Database)
  unfolding removal_command
  complete_again db completion row = do
    task ← get_task context db row.task_handle
    refuse
        (not (same_state task.state TaskState.cleaned)
          || text_eq completion.request_operation_id completion.operation_id)
        precondition_failed
    let operation =
        completed_mutation_operation completion.request_operation_id (removal_command row)
          completion.request_subject_digest task.handle task.state_version completion.at
    stored ← insert_operation db operation
    ok (record { task = task; operation = operation }, stored)

  -- The writes: the task, the ledger and the stage of the record.
  unfoldable pub complete_cleaned :
      Database
      → TaskCleanupCompletion
      → TaskCleanupRecord
      → Task
      → Stored (MutationResult × Database)
  unfolding record_operations update_cleanup
  complete_cleaned db completion row cleaned = do
    require (is_ok (validate_task context.platform cleaned))
        (rolled_back (CleanupError.plain "validate cleaned task"))
    touched ← update_task_state context db cleaned
    recorded ← record_operations touched completion row cleaned
    stored ←
        update_cleanup recorded.1 completion.operation_id CleanupStage.removal_authorized
          (completed_row row)
    ok (record { task = cleaned; operation = recorded.0 }, stored)

  unfoldable pub complete_now :
      Database → TaskCleanupCompletion → TaskCleanupRecord → Stored (MutationResult × Database)
  unfolding complete_cleaned
  complete_now db completion row = do
    require (same_stage row.stage CleanupStage.removal_authorized) precondition_failed
    task ← get_task context db row.task_handle
    refuse
        (not (same_state task.state TaskState.cleanup_held) || before completion.at task.updated_at)
        precondition_failed
    moved ←
        transitioned
          (apply_transition context.platform task TaskTransition.cleanup_accepted completion.at)
    version ← next_mutation_state_version db
    complete_cleaned db completion row
        (record (without_authority moved) { state_version = version })

  unfoldable pub complete_record :
      Database
      → TaskCleanupCompletion
      → TaskCleanupRecord
      → Option OperationRecord
      → Stored (MutationResult × Database)
  unfolding complete_now complete_again replay_result
  complete_record db completion row (some replay) = replay_result db replay
  complete_record db completion row none =
      if same_stage row.stage CleanupStage.completed
      then complete_again db completion row
      else complete_now db completion row

  unfoldable pub complete_transaction :
      Database → TaskCleanupCompletion → Stored (MutationResult × Database)
  unfolding complete_record removal_command valid_completion found_or
  complete_transaction db completion = do
    require (valid_completion completion)
        (rolled_back (CleanupError.plain "complete task cleanup: input is invalid"))
    row ←
        found_or (find_task_cleanup_record db completion.operation_id)
          (rolled_back CleanupError.not_found)
    require (text_eq row.subject_digest completion.subject_digest)
        (rolled_back CleanupError.conflict)
    replay ←
        mutation_replay db completion.request_operation_id (removal_command row)
          completion.request_subject_digest
    complete_record db completion row replay

  unfoldable pub complete_task_cleanup :
      Database → TaskCleanupCompletion → Result CleanupError MutationResult × Database
  unfolding complete_transaction with_request settle
  complete_task_cleanup db completion =
      settle db (complete_transaction db (with_request completion))
