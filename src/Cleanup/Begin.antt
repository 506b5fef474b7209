-- ===== src/Cleanup/Begin.antt =====
-- The entry gates of a removal: BeginTaskCleanup of internal/store/sqlite/cleanup.go and
-- BeginTaskDiscard of internal/store/sqlite/discard.go.
pub mod Rows
pub mod Settled
use comis_dev_crew.Base.{
  Bool, true, false, not, ◌&&◌, ◌||◌, List, [], ◌∷◌, ◌++◌, Option, none, some, Result, ok, err,
  ◌>>=◌, ◌>>◌, refuse, require, ℤ, Time, before, is_zero, not_utc_time, if◌then◌else◌, is_empty,
  is_ok, length, ◌==◌,
}
use comis_dev_crew.Text.{Text, text_eq, ascii}
use comis_dev_crew.Field.{validate_opaque_id, validate_task_handle}
use comis_dev_crew.Lifecycle.{TaskState, TaskTransition, same_state}
use comis_dev_crew.Task.{Task}
use comis_dev_crew.Task.Apply.{apply_transition}
use comis_dev_crew.Operation.{OperationRecord}
use comis_dev_crew.Evidence.{DeliveryEvidenceBundle, ForgeEvidence, ReportArtifactEvidence}
use comis_dev_crew.Evidence.Seal.{SealedDeliveryEvidence}
use comis_dev_crew.Cleanup.{
  CleanupError, CleanupStage, TaskCleanupRecord, TaskCleanupMutation, no_snapshot, is_precondition,
}
use comis_dev_crew.Cleanup.Rows.{some_row}
use comis_dev_crew.Cleanup.Tables.{Database, AuditReason, AuditEvent, StoredEvidence}
use comis_dev_crew.Cleanup.Database.{
  Refusal, rolled_back, Stored, find_task_cleanup_record, find_task_cleanup_record_by_task,
  mutation_replay, next_mutation_state_version,
}
use comis_dev_crew.Cleanup.Write.{StoreContext, get_task, update_task_state}
use comis_dev_crew.Cleanup.Safety.{
  prove_cleanup_database_safety, prove_nothing_is_still_running, cleanup_preparation,
}
use comis_dev_crew.Cleanup.Origin.{
  cleanup_evidence, prove_cleanup_candidate_origin, prove_cleanup_integration_applications,
  initiatives_of,
}
use comis_dev_crew.Cleanup.Store.{precondition_failed, transitioned, has_no_authority}

-- A transaction that is committed, or rolled back but for the audit of an altered replay.
unfoldable pub settle :
    {A : Type 0} → Database → Stored (A × Database) → Result CleanupError A × Database
settle db (ok (a, stored)) = (ok a, stored)
settle db (err refusal) =
    (err refusal.error, record db { conflicts = db.conflicts ++ refusal.audited })

-- The stages of a found operation: it is replayed, if it is the same.
unfoldable pub replay_record :
    Bool → TaskCleanupRecord → Database → Stored (TaskCleanupRecord × Database)
replay_record same row db = do require same (rolled_back CleanupError.conflict); ok (row, db)

unfoldable pub validate_cleanup_mutation : TaskCleanupMutation → Bool
validate_cleanup_mutation mutation =
    is_ok (validate_opaque_id "operationId" mutation.operation_id)
    && is_ok (validate_opaque_id "operationId" mutation.release_operation_id)
    && is_ok (validate_task_handle mutation.task_handle)
    && length mutation.subject_digest == 64
    && not (not_utc_time mutation.released_at)
    && not (not_utc_time mutation.at)
    && mutation.released_at.instant == mutation.at.instant

-- `switch task.State`, and `task.State != domain.TaskDelivered` behind it.
unfoldable pub delivered_state : TaskState → Stored (Unit {0})
delivered_state TaskState.unknown = err (rolled_back CleanupError.unknown_execution)
delivered_state TaskState.ready = err (rolled_back CleanupError.active_execution)
delivered_state TaskState.launching = err (rolled_back CleanupError.active_execution)
delivered_state TaskState.working = err (rolled_back CleanupError.active_execution)
delivered_state TaskState.awaiting_decision = err (rolled_back CleanupError.active_execution)
delivered_state TaskState.blocked = err (rolled_back CleanupError.active_execution)
delivered_state TaskState.paused = err (rolled_back CleanupError.active_execution)
delivered_state TaskState.reconciling = err (rolled_back CleanupError.active_execution)
delivered_state TaskState.validating = err (rolled_back CleanupError.active_execution)
delivered_state TaskState.delivered = ok tt
delivered_state _ = err precondition_failed

unfoldable pub cleanup_posture : Task → Time → Stored (Unit {0})
unfolding delivered_state
cleanup_posture task at = do
  delivered_state task.state
  refuse
      (before at task.updated_at
        || is_empty task.managed_run_id
        || is_empty task.workspace_lease_id)
      precondition_failed

-- `if bundle.ForgeEvidence != nil { … } else if bundle.ReportArtifact != nil { … }`: the pull
-- request and the hash of the report.
unfoldable pub delivery_reference :
    Option ForgeEvidence → Option ReportArtifactEvidence → Stored (Text × Text)
delivery_reference (some forge) report = ok (forge.pull_request_id, [])
delivery_reference none (some report) = ok ([], report.content_hash)
delivery_reference none none = err precondition_failed

-- The INSERT, whose keys are the operation, the task and the release operation.
unfoldable pub insert_cleanup : Database → TaskCleanupRecord → Stored Database
insert_cleanup db row = do
  refuse
      (some_row
        (λ (r : TaskCleanupRecord).
          text_eq r.operation_id row.operation_id
          || text_eq r.task_handle row.task_handle
          || text_eq r.release_operation_id row.release_operation_id)
        db.cleanups)
      (rolled_back CleanupError.conflict)
  ok (record db { cleanups = row ∷ db.cleanups })

module _ (context : StoreContext) where
  -- The task in the cleanup_held state, and the record, in one transaction.
  unfoldable pub hold_task :
      Database → Task → Time → TaskCleanupRecord → Stored (TaskCleanupRecord × Database)
  unfolding insert_cleanup
  hold_task db task at row = do
    held ← transitioned (apply_transition context.platform task TaskTransition.cleanup_started at)
    version ← next_mutation_state_version db
    touched ← update_task_state context db (record held { state_version = version })
    stored ← insert_cleanup touched row
    ok (row, stored)

  unfoldable pub begin_new_cleanup :
      Database → TaskCleanupMutation → Stored (TaskCleanupRecord × Database)
  unfolding cleanup_posture delivery_reference hold_task
  begin_new_cleanup db mutation = do
    task ← get_task context db mutation.task_handle
    cleanup_posture task mutation.at
    prove_cleanup_database_safety db task
    origin ← cleanup_preparation db task.handle
    evidence ← cleanup_evidence context db task
    prove_cleanup_integration_applications db task.handle evidence.0.digest
        evidence.1.bundle.head_revision (initiatives_of task.handle db.members db.initiatives)
    prove_cleanup_candidate_origin db task origin.0 origin.1 evidence.1.bundle.head_revision
    reference ←
        delivery_reference evidence.1.bundle.forge_evidence evidence.1.bundle.report_artifact
    hold_task db task mutation.at (record {
      operation_id = mutation.operation_id;
      subject_digest = mutation.subject_digest;
      task_handle = task.handle;
      preparation_operation_id = origin.0;
      managed_run_id = task.managed_run_id;
      workspace_lease_id = task.workspace_lease_id;
      repository_id = task.repository_id;
      worktree_path = origin.1;
      head_revision = evidence.1.bundle.head_revision;
      evidence_digest = evidence.1.digest;
      pull_request_id = reference.0;
      required_forge_checks = evidence.0.required_forge_checks;
      report_artifact_hash = reference.1;
      stage = CleanupStage.prepared;
      release_operation_id = mutation.release_operation_id;
      released_at = mutation.released_at;
      snapshot = no_snapshot;
      discard = false;
    })

  -- After the lookups: a record of the task is returned, and a replay needs one.
  unfoldable pub begin_after_replay :
      Database
      → TaskCleanupMutation
      → Bool
      → Option TaskCleanupRecord
      → Stored (TaskCleanupRecord × Database)
  unfolding begin_new_cleanup
  begin_after_replay db mutation replayed (some existing) = ok (existing, db)
  begin_after_replay db mutation replayed none = do
    refuse replayed (rolled_back (CleanupError.plain "task cleanup replay record is unavailable"))
    begin_new_cleanup db mutation

-- `found && replay.ResultRef != mutation.TaskHandle`, and whether the caller replays.
unfoldable pub caller_replay : Text → Option OperationRecord → Stored Bool
caller_replay handle none = ok false
caller_replay handle (some replay) = do
  require (text_eq replay.result_ref handle) (rolled_back CleanupError.conflict)
  ok true

module _ (context : StoreContext) where
  unfoldable pub begin_after_operation :
      Database
      → TaskCleanupMutation
      → Option TaskCleanupRecord
      → Stored (TaskCleanupRecord × Database)
  unfolding replay_record caller_replay begin_after_replay
  begin_after_operation db mutation (some existing) =
      replay_record
        (text_eq existing.subject_digest mutation.subject_digest
          && text_eq existing.task_handle mutation.task_handle
          && text_eq existing.release_operation_id mutation.release_operation_id)
        existing db
  begin_after_operation db mutation none = do
    replay ← mutation_replay db mutation.operation_id (ascii "CleanupTask") mutation.subject_digest
    replayed ← caller_replay mutation.task_handle replay
    begin_after_replay context db mutation replayed
        (find_task_cleanup_record_by_task db mutation.task_handle)

  unfoldable pub begin_task_cleanup_transaction :
      Database → TaskCleanupMutation → Stored (TaskCleanupRecord × Database)
  unfolding begin_after_operation validate_cleanup_mutation
  begin_task_cleanup_transaction db mutation = do
    require (validate_cleanup_mutation mutation)
        (rolled_back (CleanupError.plain "begin task cleanup: input is invalid"))
    begin_after_operation db mutation (find_task_cleanup_record db mutation.operation_id)

unfoldable pub audit_cleanup_reason : CleanupError → AuditReason
audit_cleanup_reason CleanupError.open_hold = AuditReason.open_hold
audit_cleanup_reason CleanupError.open_decision = AuditReason.open_decision
audit_cleanup_reason CleanupError.unattested_scout = AuditReason.unattested_scout
audit_cleanup_reason CleanupError.active_execution = AuditReason.active_execution
audit_cleanup_reason CleanupError.unknown_execution = AuditReason.unknown_execution
audit_cleanup_reason _ = AuditReason.evidence_missing

-- RecordAuditEvent of internal/store/sqlite/audit.go, for a refused cleanup: an event without a
-- time is invalid.
unfoldable pub record_audit_event : Database → AuditEvent → Database
record_audit_event db event =
    if is_zero event.occurred_at then db else record db { audits = db.audits ++ (event ∷ []) }

unfoldable pub audit_refusal :
    TaskCleanupMutation
    → Result CleanupError TaskCleanupRecord × Database
    → Result CleanupError TaskCleanupRecord × Database
unfolding audit_cleanup_reason record_audit_event
audit_refusal mutation (ok row, db) = (ok row, db)
audit_refusal mutation (err e, db) =
    if is_precondition e
    then (
      err e,
      record_audit_event db (record {
        occurred_at = mutation.at;
        task_handle = mutation.task_handle;
        reason = audit_cleanup_reason e;
      }),
    )
    else (err e, db)

module _ (context : StoreContext) where
  unfoldable pub begin_task_cleanup :
      Database → TaskCleanupMutation → Result CleanupError TaskCleanupRecord × Database
  unfolding begin_task_cleanup_transaction settle audit_refusal
  begin_task_cleanup db mutation =
      audit_refusal mutation (settle db (begin_task_cleanup_transaction context db mutation))
