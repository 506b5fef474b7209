-- ===== src/Cleanup/Complete/Rows.antt =====
-- What CompleteTaskCleanup of internal/store/sqlite/cleanup.go leaves in the cleanup rows.
use mathlib.Core.Path.{subst}
use comis_dev_crew.Base.{
  ◌≡◌, refl, sym, ap, ◌∙◌, inl, inr, Bool-cases, Option, none, some, ok, err, ◌>>=◌, In, >>-eq-ok,
  >>=-eq-ok, require-eq-ok, ok-injective, is_empty, ◌&&◌,
}
use comis_dev_crew.Text.{Text, text_eq}
use comis_dev_crew.Lifecycle.{TaskTransition}
use comis_dev_crew.Task.{Task}
use comis_dev_crew.Task.Apply.{apply_transition}
use comis_dev_crew.Operation.{OperationRecord}
use comis_dev_crew.Cleanup.{CleanupError, CleanupStage, TaskCleanupRecord, TaskCleanupCompletion}
use comis_dev_crew.Cleanup.Tables.{Database}
use comis_dev_crew.Cleanup.Database.{
  rolled_back, Stored, find_task_cleanup_record, mutation_replay, completed_mutation_operation,
  insert_operation, next_mutation_state_version,
}
use comis_dev_crew.Cleanup.Write.{StoreContext, get_task, update_task_state}
use comis_dev_crew.Cleanup.Write.Frame.{update_task_state-cleanups, insert_operation-cleanups}
use comis_dev_crew.Cleanup.Proof.{same_stage}
use comis_dev_crew.Cleanup.Store.{transitioned, update_cleanup, found_or}
use comis_dev_crew.Cleanup.Store.Laws.{
  find_task_cleanup_record-In, same_stage_sound, same_stage_refl, found_or-eq-ok,
}
use comis_dev_crew.Cleanup.Store.Kept.{
  RowsKept, RowsKept-along, update_cleanup-RowsKept, find_by_rows, find_task_cleanup_record-named,
}
use comis_dev_crew.Cleanup.Begin.{settle}
use comis_dev_crew.Cleanup.Complete.{
  MutationResult, with_request, without_authority, removal_command, record_request,
  record_operations, completed_row, replay_result, complete_cleaned, complete_again, complete_now,
  complete_record, complete_transaction, complete_task_cleanup,
}

-- The rows stay, or the one of the operation, which was authorized, is completed.
pub data Completed (operation : Text) (db after : Database) : Type 0 where
  same : after.cleanups ≡ db.cleanups → Completed operation db after
  completed :
      (row : TaskCleanupRecord)
      → In row db.cleanups
      → row.operation_id ≡ operation
      → find_task_cleanup_record db row.operation_id ≡ some row
      → row.stage ≡ CleanupStage.removal_authorized
      → RowsKept db after (some row) (completed_row row)
      → Completed operation db after

with_request-named :
    (completion : TaskCleanupCompletion)
    → (with_request completion).operation_id ≡ completion.operation_id
unfolding with_request
with_request-named completion =
    elim (Bool-cases
      (is_empty completion.request_operation_id && is_empty completion.request_subject_digest)) [
        | inl own ↦ rw own
        | inr another ↦ rw another
      ]

record_request-cleanups :
    (db : Database) (completion : TaskCleanupCompletion) (row : TaskCleanupRecord) (task : Task)
    (original operation : OperationRecord) (after : Database)
    → record_request db completion row task original ≡ ok (operation, after)
    → after.cleanups ≡ db.cleanups
unfolding record_request
record_request-cleanups db completion row task original operation after h =
    elim (Bool-cases (text_eq completion.request_operation_id completion.operation_id)) [
      | inl own ↦ unchanged db original operation after (rw own at h)
      | inr another ↦ inserted db after operation _ (rw another at h)
    ]
  where
    unchanged :
        (db : Database) (original operation : OperationRecord) (after : Database)
        → ◌≡◌ {A = Stored (OperationRecord × Database)} (ok (original, db)) (ok (operation, after))
        → after.cleanups ≡ db.cleanups
    unchanged db original operation after h =
        ap (λ (p : OperationRecord × Database). p.1.cleanups) (sym (ok-injective h))

    inserted :
        (db after : Database) (operation entry : OperationRecord)
        → ◌>>=◌ {B = OperationRecord × Database}
            (insert_operation db entry)
            (λ stored. ok (entry, stored))
          ≡ ok (operation, after)
        → after.cleanups ≡ db.cleanups
    inserted db after operation entry h =
        let (stored, entered, last) = >>=-eq-ok (insert_operation db entry) _ h in
        ap (λ (p : OperationRecord × Database). p.1.cleanups) (sym (ok-injective last))
        ∙ insert_operation-cleanups db entry stored entered

record_operations-cleanups :
    (db : Database) (completion : TaskCleanupCompletion) (row : TaskCleanupRecord) (cleaned : Task)
    (operation : OperationRecord) (after : Database)
    → record_operations db completion row cleaned ≡ ok (operation, after)
    → after.cleanups ≡ db.cleanups
unfolding record_operations
record_operations-cleanups db completion row cleaned operation after h =
    let original =
      completed_mutation_operation completion.operation_id (removal_command row)
        completion.subject_digest cleaned.handle cleaned.state_version completion.at in
    let (recorded, entered, last) = >>=-eq-ok (insert_operation db original) _ h in
    record_request-cleanups recorded completion row cleaned original operation after last
    ∙ insert_operation-cleanups db original recorded entered

module _ (context : StoreContext) where
  replay_result-Completed :
      {name : Text} (db : Database) (operation : OperationRecord) (result : MutationResult)
      (after : Database)
      → replay_result context db operation ≡ ok (result, after)
      → Completed name db after
  unfolding replay_result
  replay_result-Completed db operation result after h =
      let (task, read, last) = >>=-eq-ok (get_task context db operation.result_ref) _ h in
      Completed.same
        (ap (λ (p : MutationResult × Database). p.1.cleanups) (sym (ok-injective last)))

  complete_again-Completed :
      (db : Database) (completion : TaskCleanupCompletion) (row : TaskCleanupRecord)
      (result : MutationResult) (after : Database)
      → complete_again context db completion row ≡ ok (result, after)
      → Completed completion.operation_id db after
  unfolding complete_again
  complete_again-Completed db completion row result after h =
      let (task, read, h1) = >>=-eq-ok (get_task context db row.task_handle) _ h in
      let (posture, h2) = >>-eq-ok _ _ h1 in
      let (stored, entered, last) =
        >>=-eq-ok
          (insert_operation db (
            completed_mutation_operation completion.request_operation_id (removal_command row)
              completion.request_subject_digest task.handle task.state_version completion.at))
          _ h2 in
      Completed.same (
        ap (λ (p : MutationResult × Database). p.1.cleanups) (sym (ok-injective last))
        ∙ insert_operation-cleanups db _ stored entered)

  complete_cleaned-Completed :
      (db : Database) (completion : TaskCleanupCompletion) (row : TaskCleanupRecord)
      (cleaned : Task) (result : MutationResult) (after : Database)
      → find_task_cleanup_record db completion.operation_id ≡ some row
      → row.stage ≡ CleanupStage.removal_authorized
      → complete_cleaned context db completion row cleaned ≡ ok (result, after)
      → Completed completion.operation_id db after
  unfolding complete_cleaned
  complete_cleaned-Completed db completion row cleaned result after m authorized h =
      let (valid, h1) = >>-eq-ok _ _ h in
      let (touched, written, h2) = >>=-eq-ok (update_task_state context db cleaned) _ h1 in
      let (recorded, entered, h3) =
        >>=-eq-ok (record_operations touched completion row cleaned) _ h2 in
      let (stored, updated, h4) =
        >>=-eq-ok
          (update_cleanup recorded.1 completion.operation_id CleanupStage.removal_authorized
            (completed_row row))
          _ h3 in
      let same : recorded.1.cleanups ≡ db.cleanups =
        record_operations-cleanups touched completion row cleaned recorded.0 recorded.1 entered
        ∙ update_task_state-cleanups context db cleaned touched written in
      let ended : stored ≡ after = ap (λ (p : MutationResult × Database). p.1) (ok-injective h4) in
      let named : row.operation_id ≡ completion.operation_id =
        find_task_cleanup_record-named db completion.operation_id row m in
      Completed.completed row (find_task_cleanup_record-In db completion.operation_id row m) named
        (subst (λ name. find_task_cleanup_record db name ≡ some row) (sym named) m) authorized
        (RowsKept-along same ended refl (
          update_cleanup-RowsKept recorded.1 completion.operation_id row (completed_row row) stored
            (find_by_rows db recorded.1 completion.operation_id same ∙ m) refl
            (same_stage_refl row.stage)
            (subst
              (λ stage.
                update_cleanup recorded.1 completion.operation_id stage (completed_row row)
                ≡ ok stored)
              (sym authorized) updated)))

  complete_now-Completed :
      (db : Database) (completion : TaskCleanupCompletion) (row : TaskCleanupRecord)
      (result : MutationResult) (after : Database)
      → find_task_cleanup_record db completion.operation_id ≡ some row
      → complete_now context db completion row ≡ ok (result, after)
      → Completed completion.operation_id db after
  unfolding complete_now
  complete_now-Completed db completion row result after m h =
      let (authorized, h1) = >>-eq-ok _ _ h in
      let (task, read, h2) = >>=-eq-ok (get_task context db row.task_handle) _ h1 in
      let (posture, h3) = >>-eq-ok _ _ h2 in
      let (moved, applied, h4) =
        >>=-eq-ok
          (transitioned
            (apply_transition context.platform task TaskTransition.cleanup_accepted completion.at))
          _ h3 in
      let (version, numbered, h5) = >>=-eq-ok (next_mutation_state_version db) _ h4 in
      complete_cleaned-Completed db completion row
        (record (without_authority moved) { state_version = version }) result after m
        (same_stage_sound row.stage CleanupStage.removal_authorized (require-eq-ok _ _ authorized))
        h5

  complete_record-Completed :
      (db : Database) (completion : TaskCleanupCompletion) (row : TaskCleanupRecord)
      (replay : Option OperationRecord) (result : MutationResult) (after : Database)
      → find_task_cleanup_record db completion.operation_id ≡ some row
      → complete_record context db completion row replay ≡ ok (result, after)
      → Completed completion.operation_id db after
  unfolding complete_record
  complete_record-Completed db completion row (some operation) result after m h =
      replay_result-Completed db operation result after h
  complete_record-Completed db completion row none result after m h =
      elim (Bool-cases (same_stage row.stage CleanupStage.completed)) [
        | inl done ↦ complete_again-Completed db completion row result after (rw done at h)
        | inr open_yet ↦ complete_now-Completed db completion row result after m (rw open_yet at h)
      ]

  complete_transaction-Completed :
      (db : Database) (completion : TaskCleanupCompletion) (result : MutationResult)
      (after : Database)
      → complete_transaction context db completion ≡ ok (result, after)
      → Completed completion.operation_id db after
  unfolding complete_transaction
  complete_transaction-Completed db completion result after h =
      let (valid, h1) = >>-eq-ok _ _ h in
      let (row, found, h2) =
        >>=-eq-ok
          (found_or (find_task_cleanup_record db completion.operation_id)
            (rolled_back CleanupError.not_found))
          _ h1 in
      let (unaltered, h3) = >>-eq-ok _ _ h2 in
      let (replay, ledger, h4) =
        >>=-eq-ok
          (mutation_replay db completion.request_operation_id (removal_command row)
            completion.request_subject_digest)
          _ h3 in
      complete_record-Completed db completion row replay result after (found_or-eq-ok _ _ row found)
        h4

  pub complete_task_cleanup-Completed :
      (db : Database) (completion : TaskCleanupCompletion)
      → Completed completion.operation_id db (complete_task_cleanup context db completion).1
  unfolding complete_task_cleanup
  complete_task_cleanup-Completed db completion =
      subst (λ name. Completed name db (complete_task_cleanup context db completion).1)
        (with_request-named completion)
        (settled (complete_transaction context db (with_request completion))
          (complete_transaction-Completed db (with_request completion)))
    where
      settled :
          (end : Stored (MutationResult × Database))
          → ((result : MutationResult) (after : Database)
              → end ≡ ok (result, after)
              → Completed (with_request completion).operation_id db after)
          → Completed (with_request completion).operation_id db (settle db end).1
      settled (ok (result, after)) ends = unfold settle in ends result after refl
      settled (err e) ends = unfold settle in Completed.same refl
