-- ===== src/Cleanup/Write.antt =====
-- The write of a task's state: updateTaskState of internal/store/sqlite/mutations.go with its
-- reservation guard.
pub mod Frame
use comis_dev_crew.Base.{
  ◌⊎◌, inl, inr, Bool-cases, some-injective, In-cons, In-cons_eq, ◌≡◌, refl, Bool, true, false, not,
  ◌&&◌, ◌||◌, List, [], ◌∷◌, ◌++◌, map, Option, none, some, String, Result, ok, err, ◌>>=◌, ◌>>◌,
  refuse, require, ℤ, pos, increment, int_less, is_number, max_int64, Time, if◌then◌else◌, is_empty,
  any, is_ok, keep, In, here, there,
}
use comis_dev_crew.Text.{Text, text_eq, ascii}
use comis_dev_crew.Platform.{Platform}
use comis_dev_crew.Lifecycle.{TaskState, TaskShape, same_state}
use comis_dev_crew.Task.{Task}
use comis_dev_crew.Task.Validate.{validate_task}
use comis_dev_crew.Operation.{OperationRecord, OperationStatus, ErrorCode, validate_operation}
use comis_dev_crew.Initiative.{DevelopmentInitiative}
use comis_dev_crew.Evidence.Seal.{EvidenceCodec}
use comis_dev_crew.Cleanup.{CleanupError, TaskCleanupRecord, WorkspaceCleanliness}
use comis_dev_crew.Cleanup.Rows.{row_where, some_row}
use comis_dev_crew.Cleanup.Tables.{
  CleanupHold, ValidationProcess, ReportKind, StoredReport, DecisionCancellation, ScoutAttestation,
  TerminalTransition, TerminalBinding, EvidenceDelivery, TaskPreparation, StoredEvidence,
  ApplicationStatus, IntegrationApplication, ReplayConflict, TaskStateEvent, AuditReason,
  AuditEvent, Database,
}
use comis_dev_crew.Cleanup.Database.{Refusal, rolled_back, Stored, task_row}

unfoldable pub integration_owner_mutation_state : TaskState → Bool
integration_owner_mutation_state TaskState.ready = true
integration_owner_mutation_state TaskState.working = true
integration_owner_mutation_state TaskState.awaiting_decision = true
integration_owner_mutation_state TaskState.blocked = true
integration_owner_mutation_state _ = false

unfoldable pub integration_candidate_mutation_state : TaskState → Bool
integration_candidate_mutation_state TaskState.candidate_complete = true
integration_candidate_mutation_state TaskState.delivered = true
integration_candidate_mutation_state _ = false

abbrev pub is_reserved : ApplicationStatus → Bool
is_reserved ApplicationStatus.reserved = true
is_reserved _ = false

abbrev pub is_applied : ApplicationStatus → Bool
is_applied ApplicationStatus.applied = true
is_applied _ = false

-- `owner` selects the column.
unfoldable pub reserved_integration_task_role : Database → Bool → Text → Bool
unfolding some_row
reserved_integration_task_role db owner handle =
    some_row
      (λ (a : IntegrationApplication).
        is_reserved a.status
        && text_eq (if owner then a.integration_task_handle else a.candidate_task_handle) handle)
      db.applications

unfoldable pub refuse_reserved_integration_task_transition :
    Database → Text → TaskState → TaskState → Stored (Unit {0})
unfolding reserved_integration_task_role
refuse_reserved_integration_task_transition db handle previous next = do
  refuse
      (not (same_state previous next)
        && integration_owner_mutation_state previous
        && not (integration_owner_mutation_state next)
        && reserved_integration_task_role db true handle)
      (rolled_back CleanupError.precondition)
  refuse
      (not (same_state previous next)
        && integration_candidate_mutation_state previous
        && not (integration_candidate_mutation_state next)
        && reserved_integration_task_role db false handle)
      (rolled_back CleanupError.precondition)

-- What the parts of the store and of the standard library that stand elsewhere give: filepath,
-- and refreshInitiativeAggregate of internal/store/sqlite/initiative_aggregate.go, which rewrites
-- initiatives only. Every theorem holds for all such functions.
pub record StoreContext : Type 0 where
  pub platform : Platform
  pub codec : EvidenceCodec
  pub is_abs : Text → Bool
  pub clean_path : Text → Text
  pub refresh_initiative_aggregate :
      Database → Text → ℤ → Time → Stored (List DevelopmentInitiative)

-- appendTaskStateEvent
abbrev pub with_event : Database → Task → Database
with_event db task =
    let event : TaskStateEvent = record {
      task_handle = task.handle;
      state = task.state;
      state_version = task.state_version;
      occurred_at = task.updated_at;
    } in
    record db { events = db.events ++ (event ∷ []) }

module _ (context : StoreContext) where
  -- getTask, for the row that the query gives: scanTask validates it.
  unfoldable pub stored_task : Option Task → Stored Task
  stored_task none = err (rolled_back CleanupError.not_found)
  stored_task (some task) = do
    require (is_ok (validate_task context.platform task))
        (rolled_back (CleanupError.plain "validate stored task"))
    ok task

  unfoldable pub get_task : Database → Text → Stored Task
  unfolding stored_task
  get_task db handle = stored_task (task_row db handle)

  -- The UPDATE of state, version and time: it writes no other column.
  unfoldable pub write_task_state : Database → Task → Database
  write_task_state db task = record db {
    tasks =
        map
          (λ (old : Task).
            if text_eq old.handle task.handle
            then record old {
              state = task.state;
              state_version = task.state_version;
              updated_at = task.updated_at;
            }
            else old)
          db.tasks;
  }

  -- refreshInitiativeAggregate, for the initiatives that it gives.
  unfoldable pub refreshed : Database → Stored (List DevelopmentInitiative) → Stored Database
  refreshed db (ok initiatives) = ok (record db { initiatives = initiatives })
  refreshed db (err e) = err e

  -- appendTaskStateEvent and refreshInitiativeAggregate, where the state has changed.
  unfoldable pub announce : Database → Task → TaskState → Stored Database
  unfolding refreshed
  announce db task previous =
      if same_state previous task.state
      then ok db
      else refreshed (with_event db task) (
          context.refresh_initiative_aggregate (with_event db task) task.handle task.state_version
            task.updated_at)

  unfoldable pub update_row : Database → Task → Option Task → Stored Database
  unfolding announce write_task_state
  update_row db task none = err (rolled_back (CleanupError.plain "read task state before update"))
  update_row db task (some previous) = do
    refuse_reserved_integration_task_transition db task.handle previous.state task.state
    announce (write_task_state db task) task previous.state

  unfoldable pub update_task_state : Database → Task → Stored Database
  unfolding update_row
  update_task_state db task = do
    require (is_ok (validate_task context.platform task))
        (rolled_back (CleanupError.plain "validate task state update"))
    update_row db task (task_row db task.handle)
