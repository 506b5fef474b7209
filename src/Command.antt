-- ===== src/Command.antt =====
-- The transaction that every command on a task's state goes through, commitTaskMutation of
-- internal/store/sqlite/commit_skeleton.go, for the three commands that pause or cancel.
pub mod Replay
pub mod Stop
pub mod Stopped
mod HostCancel
use comis_dev_crew.Base.{
  Bool, true, false, not, Option, none, some, Result, ok, err, ◌>>=◌, ◌>>◌, refuse, require, Time,
  is_ok,
}
use comis_dev_crew.Text.{Text, text_eq, ascii}
use comis_dev_crew.Task.{Task}
use comis_dev_crew.Operation.{OperationRecord, validate_operation}
use comis_dev_crew.Cleanup.{CleanupError}
use comis_dev_crew.Cleanup.Rows.{some_row}
use comis_dev_crew.Cleanup.Tables.{Database}
use comis_dev_crew.Cleanup.Database.{
  rolled_back, Stored, mutation_replay, next_mutation_state_version, completed_mutation_operation,
  insert_operation,
}
use comis_dev_crew.Cleanup.Write.{StoreContext, update_task_state}
use comis_dev_crew.Cleanup.Complete.{MutationResult, replay_result}

-- The commands that are modelled. None of them has a Record step, and none is one of the two whose
-- replay reads a preparation.
pub data TaskCommand : Type 0 where
  pause_task cancel_task cancel_managed_run : TaskCommand

-- The text of a command in the ledger.
unfoldable pub command_text : TaskCommand → Text
command_text TaskCommand.pause_task = ascii "PauseTask"
command_text TaskCommand.cancel_task = ascii "CancelTask"
command_text TaskCommand.cancel_managed_run = ascii "CancelManagedRun"

-- taskMutationSpec, without the label that only its messages name, and without the Record step,
-- which these commands do not have.
pub record TaskMutationSpec : Type 0 where
  pub command : TaskCommand
  pub operation_id : Text
  pub subject_digest : Text
  pub at : Time

-- taskMutationBody: the task to persist, and what the body itself writes.
abbrev pub TaskMutationBody : Type 0
TaskMutationBody = Database → Stored (Task × Database)

-- The INSERT of the operation, whose constraint error is a conflict.
unfoldable pub insert_new_operation : Database → OperationRecord → Stored Database
insert_new_operation db operation = do
  require (is_ok (validate_operation operation))
      (rolled_back (CleanupError.plain "insert operation"))
  refuse (some_row (λ (o : OperationRecord). text_eq o.id operation.id) db.operations)
      (rolled_back CleanupError.conflict)
  insert_operation db operation

module _ (context : StoreContext) where
  -- The state version, the task and the operation.
  unfoldable pub persist : TaskMutationSpec → Database → Task → Stored (MutationResult × Database)
  unfolding insert_new_operation
  persist spec db updated = do
    version ← next_mutation_state_version db
    let task = record updated { state_version = version }
    touched ← update_task_state context db task
    let operation =
        completed_mutation_operation spec.operation_id (command_text spec.command)
          spec.subject_digest task.handle version spec.at
    stored ← insert_new_operation touched operation
    ok (record { task = task; operation = operation }, stored)

  -- A replay is answered from the ledger; any other command runs its body.
  unfoldable pub commit_or_replay :
      TaskMutationSpec
      → TaskMutationBody
      → Database
      → Option OperationRecord
      → Stored (MutationResult × Database)
  unfolding persist
  commit_or_replay spec body db (some replay) = replay_result context db replay
  commit_or_replay spec body db none = do answer ← body db; persist spec answer.1 answer.0

  unfoldable pub commit_task_mutation :
      TaskMutationSpec → TaskMutationBody → Database → Stored (MutationResult × Database)
  unfolding commit_or_replay
  commit_task_mutation spec body db = do
    require spec.at.utc (rolled_back CleanupError.precondition)
    replay ← mutation_replay db spec.operation_id (command_text spec.command) spec.subject_digest
    commit_or_replay spec body db replay
