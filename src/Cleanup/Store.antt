-- ===== src/Cleanup/Store.antt =====
-- The durable stages of a removal: internal/store/sqlite/cleanup.go and
-- internal/store/sqlite/discard.go. A record that is read back is the one that was written: the
-- JSON and time columns, and a context or driver error inside a transaction, are left out.

pub mod Laws
pub mod Kept
use comis_dev_crew.Base.{
  Bool, true, false, not, ◌&&◌, ◌||◌, List, [], ◌∷◌, ◌++◌, Option, none, some, Result, ok, err,
  ◌>>=◌, ◌>>◌, refuse, require, ℤ, Time, before, not_utc_time, if◌then◌else◌, is_empty, is_ok,
  length, ◌==◌,
}
use comis_dev_crew.Text.{Text, text_eq, ascii}
use comis_dev_crew.Field.{validate_opaque_id}
use comis_dev_crew.Lifecycle.{TaskState, TaskTransition, same_state}
use comis_dev_crew.Task.{Task, TaskError}
use comis_dev_crew.Task.Apply.{apply_transition}
use comis_dev_crew.Task.Validate.{validate_task}
use comis_dev_crew.Operation.{OperationRecord}
use comis_dev_crew.Cleanup.{
  CleanupError, CleanupStage, TaskCleanupRecord, TaskCleanupCompletion, WorkspaceSnapshot,
  PullRequestDeliveryTruth, ManagedRunReleaseReceipt, valid_snapshot, receipt_matches, has_no_run,
}
use comis_dev_crew.Cleanup.Rows.{update_where, count_rows}
use comis_dev_crew.Cleanup.Tables.{Database}
use comis_dev_crew.Cleanup.Database.{
  Refusal, rolled_back, Stored, find_task_cleanup_record, mutation_replay,
  completed_mutation_operation, insert_operation, next_mutation_state_version,
}
use comis_dev_crew.Cleanup.Write.{StoreContext, get_task, update_task_state}
use comis_dev_crew.Cleanup.Proof.{
  validate_cleanup_proof, cleanup_proof_matches, same_stage, cleanup_stage_allowed,
}

abbrev pub precondition_failed : Refusal
precondition_failed = rolled_back CleanupError.precondition

-- The key of the UPDATE: `WHERE operation_id = ? AND stage = ?`.
unfoldable pub at_stage : Text → CleanupStage → TaskCleanupRecord → Bool
at_stage operation stage row = text_eq row.operation_id operation && same_stage row.stage stage

-- The UPDATE of one cleanup row, which must change exactly one.
unfoldable pub update_cleanup : Database → Text → CleanupStage → TaskCleanupRecord → Stored Database
update_cleanup db operation stage new = do
  require (count_rows (at_stage operation stage) db.cleanups == 1)
      (rolled_back (CleanupError.plain "exact stage was not updated"))
  ok (record db { cleanups = update_where (at_stage operation stage) new db.cleanups })

-- `found` of a lookup, or the error of a missing row.
unfoldable pub found_or : {A : Type 0} → Option A → Refusal → Stored A
found_or none e = err e
found_or (some a) e = ok a

-- `receipt != nil && (…)`
abbrev pub receipt_differs : TaskCleanupRecord → Option ManagedRunReleaseReceipt → Bool
receipt_differs row none = false
receipt_differs row (some receipt) = not (receipt_matches row receipt)

abbrev pub has_no_authority : Task → Bool
has_no_authority task =
    is_empty task.managed_run_id
    && is_empty task.workspace_lease_id
    && is_empty task.execution_attachment_id
    && is_empty task.attachment_target_name

-- The task and the error of ApplyTransition, as a result.
abbrev pub transitioned : Task × Option TaskError → Stored Task
transitioned (task, none) = ok task
transitioned (task, some e) = err (rolled_back CleanupError.invalid_transition)

abbrev pub moved_to : TaskCleanupRecord → CleanupStage → WorkspaceSnapshot → TaskCleanupRecord
moved_to row stage snapshot = record row { stage = stage; snapshot = snapshot }

pub record StageChange : Type 0 where
  pub operation_id : Text
  pub subject_digest : Text
  pub from : List CleanupStage
  pub target : CleanupStage
  pub snapshot : WorkspaceSnapshot
  pub truth : PullRequestDeliveryTruth
  pub receipt : Option ManagedRunReleaseReceipt
  pub at : Time

module _ (context : StoreContext) where
  unfoldable pub valid_stage_change : StageChange → Bool
  valid_stage_change change =
      is_ok (validate_opaque_id "operationId" change.operation_id)
      && length change.subject_digest == 64
      && valid_snapshot context.is_abs context.clean_path change.snapshot
      && not (not_utc_time change.at)

  -- The end of advanceTaskCleanup, for a stage that has to change.
  unfoldable pub move_stage :
      Database → StageChange → TaskCleanupRecord → Stored (TaskCleanupRecord × Database)
  unfolding update_cleanup
  move_stage db change row = do
    require (cleanup_stage_allowed row.stage change.from) precondition_failed
    validate_cleanup_proof row change.snapshot change.truth
    refuse (receipt_differs row change.receipt) precondition_failed
    task ← get_task context db row.task_handle
    refuse (not (same_state task.state TaskState.cleanup_held) || before change.at task.updated_at)
        precondition_failed
    refuse
        (same_stage row.stage CleanupStage.managed_run_absent
          && not (has_no_run row && has_no_authority task))
        precondition_failed
    version ← next_mutation_state_version db
    touched ←
        update_task_state context db
          (record task { state_version = version; updated_at = change.at })
    stored ←
        update_cleanup touched change.operation_id row.stage
          (moved_to row change.target change.snapshot)
    ok (moved_to row change.target change.snapshot, stored)

  -- A change that has been made, with the same proof, is answered by the stored record.
  unfoldable pub replay_or_move :
      Database → StageChange → TaskCleanupRecord → Stored (TaskCleanupRecord × Database)
  unfolding move_stage
  replay_or_move db change row =
      if same_stage row.stage change.target
        && cleanup_proof_matches row change.snapshot change.truth
      then ok (row, db)
      else move_stage db change row

  unfoldable pub advance_task_cleanup :
      Database → StageChange → Stored (TaskCleanupRecord × Database)
  unfolding replay_or_move found_or valid_stage_change
  advance_task_cleanup db change = do
    require (valid_stage_change change)
        (rolled_back (CleanupError.plain "advance task cleanup: input is invalid"))
    row ←
        found_or (find_task_cleanup_record db change.operation_id)
          (rolled_back CleanupError.not_found)
    require (text_eq row.subject_digest change.subject_digest) (rolled_back CleanupError.conflict)
    replay_or_move db change row

pub record HostReleaseMutation : Type 0 where
  pub operation_id : Text
  pub subject_digest : Text
  pub snapshot : WorkspaceSnapshot
  pub truth : PullRequestDeliveryTruth
  pub receipt : ManagedRunReleaseReceipt
  pub at : Time

pub record RemovalAuthorization : Type 0 where
  pub operation_id : Text
  pub subject_digest : Text
  pub snapshot : WorkspaceSnapshot
  pub truth : PullRequestDeliveryTruth
  pub at : Time

abbrev pub release_change : HostReleaseMutation → StageChange
release_change mutation = record {
  operation_id = mutation.operation_id;
  subject_digest = mutation.subject_digest;
  from = CleanupStage.prepared ∷ [];
  target = CleanupStage.host_released;
  snapshot = mutation.snapshot;
  truth = mutation.truth;
  receipt = some mutation.receipt;
  at = mutation.at;
}

abbrev pub authorize_change : RemovalAuthorization → StageChange
authorize_change mutation = record {
  operation_id = mutation.operation_id;
  subject_digest = mutation.subject_digest;
  from = CleanupStage.host_released ∷ CleanupStage.managed_run_absent ∷ [];
  target = CleanupStage.removal_authorized;
  snapshot = mutation.snapshot;
  truth = mutation.truth;
  receipt = none;
  at = mutation.at;
}

module _ (context : StoreContext) where
  unfoldable pub record_task_cleanup_host_release :
      Database → HostReleaseMutation → Stored (TaskCleanupRecord × Database)
  unfolding advance_task_cleanup
  record_task_cleanup_host_release db mutation =
      advance_task_cleanup context db (release_change mutation)

  unfoldable pub authorize_task_cleanup_removal :
      Database → RemovalAuthorization → Stored (TaskCleanupRecord × Database)
  unfolding advance_task_cleanup
  authorize_task_cleanup_removal db mutation =
      advance_task_cleanup context db (authorize_change mutation)
