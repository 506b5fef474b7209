-- ===== src/Command/HostCancel.antt =====
-- The cancel of an activated run at the host's request: CommitManagedRunCancel of
-- internal/store/sqlite/cancel.go, and getTaskByManagedRun of terminal_lifecycle.go there.
mod Laws
use comis_dev_crew.Base.{
  Bool, not, ◌||◌, List, [], ◌∷◌, Result, ok, err, ◌>>=◌, ◌>>◌, refuse, require, Time, keep, all,
  is_ok, if◌then◌else◌,
}
use comis_dev_crew.Text.{Text, text_eq}
use comis_dev_crew.Lifecycle.{TaskState, TaskTransition, same_state}
use comis_dev_crew.Task.{Task}
use comis_dev_crew.Task.Apply.{apply_transition}
use comis_dev_crew.Task.Validate.{validate_task}
use comis_dev_crew.Cleanup.{CleanupError}
use comis_dev_crew.Cleanup.Tables.{Database}
use comis_dev_crew.Cleanup.Database.{rolled_back, Stored}
use comis_dev_crew.Cleanup.Write.{StoreContext}
use comis_dev_crew.Cleanup.Store.{transitioned}
use comis_dev_crew.Cleanup.Complete.{MutationResult}
use comis_dev_crew.Command.{TaskCommand, TaskMutationBody, commit_task_mutation}
use comis_dev_crew.Command.Stop.{refuse_any_reserved_integration_task_mutation}

-- ManagedRunCancelMutation, without the reason, which the transaction does not read.
pub record ManagedRunCancelMutation : Type 0 where
  pub service_instance_id : Text
  pub managed_run_id : Text
  pub operation_id : Text
  pub subject_digest : Text
  pub at : Time

-- `len(matches) != 1`
unfoldable pub only_match : List Task → Stored Task
only_match (task ∷ []) = ok task
only_match _ = err (rolled_back CleanupError.precondition)

module _ (context : StoreContext) where
  -- Every row of the run is read and validated before they are counted.
  unfoldable pub get_task_by_managed_run : Database → Text → Stored Task
  unfolding only_match
  get_task_by_managed_run db run =
      let matches = keep (λ (t : Task). text_eq t.managed_run_id run) db.tasks in
      do
        require (all (λ (t : Task). is_ok (validate_task context.platform t)) matches)
            (rolled_back (CleanupError.plain "get task by managed run"))
        only_match matches

  -- A run that is cancelled already is reported as it is.
  unfoldable pub host_cancel_unless_cancelled : Database → Task → Time → Stored (Task × Database)
  host_cancel_unless_cancelled db task at =
      let cancelling = do
        updated ←
            transitioned (apply_transition context.platform task TaskTransition.cancel_requested at)
        ok (updated, db)
      in if same_state task.state TaskState.cancelled then ok (task, db) else cancelling

  unfoldable pub managed_run_cancel_body : ManagedRunCancelMutation → TaskMutationBody
  unfolding get_task_by_managed_run host_cancel_unless_cancelled
  managed_run_cancel_body mutation db = do
    task ← get_task_by_managed_run db mutation.managed_run_id
    refuse
        (not (text_eq task.service_instance_id mutation.service_instance_id) || not mutation.at.utc)
        (rolled_back CleanupError.precondition)
    refuse_any_reserved_integration_task_mutation db task.handle
    host_cancel_unless_cancelled db task mutation.at

  unfoldable pub commit_managed_run_cancel :
      Database → ManagedRunCancelMutation → Stored (MutationResult × Database)
  unfolding managed_run_cancel_body
  commit_managed_run_cancel db mutation =
      commit_task_mutation context
        (record {
          command = TaskCommand.cancel_managed_run;
          operation_id = mutation.operation_id;
          subject_digest = mutation.subject_digest;
          at = mutation.at;
        })
        (managed_run_cancel_body mutation) db
