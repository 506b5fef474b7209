-- ===== src/Command/Stop.antt =====
-- The commands that stop work: CommitTaskPauseRequest of internal/store/sqlite/pause.go,
-- CommitTaskCancel of cancel_task.go there and CommitManagedRunCancel of cancel.go there.
use comis_dev_crew.Base.{
  Bool, true, false, not, ◌&&◌, ◌||◌, List, ◌∷◌, ok, ◌>>=◌, ◌>>◌, refuse, require, Time, keep,
  if◌then◌else◌, is_empty,
}
use comis_dev_crew.Text.{Text, text_eq}
use comis_dev_crew.Lifecycle.{TaskState, TaskTransition, same_state}
use comis_dev_crew.Task.{Task}
use comis_dev_crew.Task.Apply.{apply_transition}
use comis_dev_crew.Cleanup.{CleanupError}
use comis_dev_crew.Cleanup.Rows.{some_row}
use comis_dev_crew.Cleanup.Tables.{Database, IntegrationApplication, PauseRequest}
use comis_dev_crew.Cleanup.Database.{rolled_back, Stored}
use comis_dev_crew.Cleanup.Write.{StoreContext, get_task, is_reserved}
use comis_dev_crew.Cleanup.Safety.{prove_nothing_is_still_running}
use comis_dev_crew.Cleanup.Store.{transitioned}
use comis_dev_crew.Cleanup.Complete.{MutationResult}
use comis_dev_crew.Command.{TaskCommand, TaskMutationBody, commit_task_mutation}

-- TaskPauseRequestMutation and TaskCancelMutation, which have the same fields.
pub record TaskStopMutation : Type 0 where
  pub task_handle : Text
  pub operation_id : Text
  pub subject_digest : Text
  pub at : Time

-- The task has a worker that can reach a safe boundary.
unfoldable pub task_holds_a_worker : TaskState → Bool
task_holds_a_worker TaskState.launching = true
task_holds_a_worker TaskState.working = true
task_holds_a_worker TaskState.awaiting_decision = true
task_holds_a_worker TaskState.blocked = true
task_holds_a_worker _ = false

-- refuseAnyReservedIntegrationTaskMutation
unfoldable pub refuse_any_reserved_integration_task_mutation : Database → Text → Stored (Unit {0})
refuse_any_reserved_integration_task_mutation db handle =
    refuse
      (some_row
        (λ (a : IntegrationApplication).
          is_reserved a.status
          && (text_eq a.integration_task_handle handle || text_eq a.candidate_task_handle handle))
        db.applications)
      (rolled_back CleanupError.precondition)

abbrev pub other_pauses : Text → Database → List PauseRequest
other_pauses handle db = keep (λ (p : PauseRequest). not (text_eq p.task_handle handle)) db.pauses

unfoldable pub clear_pause_request : Database → Text → Database
clear_pause_request db handle = record db { pauses = other_pauses handle db }

-- The UPDATE of the two pause columns of a task.
unfoldable pub request_pause : Database → Text → Text → Database
request_pause db handle operation = record db {
  pauses = record { task_handle = handle; operation_id = operation } ∷ other_pauses handle db;
}

-- PauseRequest, which fails for a task that is not there.
unfoldable pub pause_request : Database → Text → Stored Bool
pause_request db handle = do
  require (some_row (λ (t : Task). text_eq t.handle handle) db.tasks)
      (rolled_back (CleanupError.plain "read task pause request"))
  ok (
      some_row (λ (p : PauseRequest). text_eq p.task_handle handle && not (is_empty p.operation_id))
        db.pauses)

module _ (context : StoreContext) where
  unfoldable pub pause_body : TaskStopMutation → TaskMutationBody
  unfolding task_holds_a_worker request_pause
  pause_body mutation db = do
    task ← get_task context db mutation.task_handle
    require (task_holds_a_worker task.state) (rolled_back CleanupError.precondition)
    ok (task, request_pause db task.handle mutation.operation_id)

  unfoldable pub commit_task_pause_request :
      Database → TaskStopMutation → Stored (MutationResult × Database)
  unfolding pause_body
  commit_task_pause_request db mutation =
      commit_task_mutation context
        (record {
          command = TaskCommand.pause_task;
          operation_id = mutation.operation_id;
          subject_digest = mutation.subject_digest;
          at = mutation.at;
        })
        (pause_body mutation) db

  -- An unknown task is cancelled through reconciliation, once nothing runs any more.
  unfoldable pub cancel_task_state : Database → Task → Time → Stored Task
  cancel_task_state db task at =
      let through = do
        prove_nothing_is_still_running db task true
        reconciling ←
            transitioned
              (apply_transition context.platform task TaskTransition.reconcile_required at)
        transitioned
            (apply_transition context.platform reconciling TaskTransition.reconciled_cancelled at)
      in if not (same_state task.state TaskState.unknown)
        then transitioned
            (apply_transition context.platform task TaskTransition.cancel_requested at)
        else through

  -- A task that is cancelled already is reported as it is.
  unfoldable pub cancel_unless_cancelled : Database → Task → Time → Stored (Task × Database)
  unfolding cancel_task_state clear_pause_request
  cancel_unless_cancelled db task at =
      let cancelling = do
        updated ← cancel_task_state db task at
        ok (updated, clear_pause_request db task.handle)
      in if same_state task.state TaskState.cancelled then ok (task, db) else cancelling

  unfoldable pub cancel_body : TaskStopMutation → TaskMutationBody
  unfolding cancel_unless_cancelled refuse_any_reserved_integration_task_mutation
  cancel_body mutation db = do
    task ← get_task context db mutation.task_handle
    refuse_any_reserved_integration_task_mutation db task.handle
    cancel_unless_cancelled db task mutation.at

  unfoldable pub commit_task_cancel :
      Database → TaskStopMutation → Stored (MutationResult × Database)
  unfolding cancel_body
  commit_task_cancel db mutation =
      commit_task_mutation context
        (record {
          command = TaskCommand.cancel_task;
          operation_id = mutation.operation_id;
          subject_digest = mutation.subject_digest;
          at = mutation.at;
        })
        (cancel_body mutation) db
