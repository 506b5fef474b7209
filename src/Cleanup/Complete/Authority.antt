-- ===== src/Cleanup/Complete/Authority.antt =====
-- The host authority references of stored tasks through CompleteTaskCleanup of
-- internal/store/sqlite/cleanup.go.
use comis_dev_crew.Base.{
  ◌≡◌, refl, sym, ap, ◌∙◌, inl, inr, Bool-cases, List, [], ◌∷◌, map, Option, none, some, ok, err,
  ◌>>=◌, >>-eq-ok, >>=-eq-ok, ok-injective, if◌then◌else◌,
}
use comis_dev_crew.Text.{Text, text_eq}
use comis_dev_crew.Lifecycle.{TaskState, TaskTransition, same_state}
use comis_dev_crew.Task.{Task}
use comis_dev_crew.Task.Apply.{apply_transition}
use comis_dev_crew.Initiative.{DevelopmentInitiative}
use comis_dev_crew.Operation.{OperationRecord}
use comis_dev_crew.Cleanup.{CleanupStage, TaskCleanupRecord, TaskCleanupCompletion}
use comis_dev_crew.Cleanup.Tables.{Database}
use comis_dev_crew.Cleanup.Database.{
  Stored, task_row, completed_mutation_operation, insert_operation, next_mutation_state_version,
}
use comis_dev_crew.Cleanup.Write.{
  StoreContext, with_event, refreshed, announce, write_task_state, update_row, update_task_state,
  get_task,
}
use comis_dev_crew.Cleanup.Store.{transitioned, update_cleanup}
use comis_dev_crew.Cleanup.Complete.{
  MutationResult, without_authority, removal_command, record_request, record_operations,
  completed_row, complete_cleaned, complete_now,
}

-- The run and the lease of each stored task.
abbrev pub references : Database → List (Text × Text)
references db = map (λ (t : Task). (t.managed_run_id, t.workspace_lease_id)) db.tasks

insert_operation-references :
    (db : Database) (operation : OperationRecord) (stored : Database)
    → insert_operation db operation ≡ ok stored
    → references stored ≡ references db
unfolding insert_operation
insert_operation-references db operation stored h =
    let (first, rest) = >>-eq-ok _ _ h in
    let (second, last) = >>-eq-ok _ _ rest in ap references (sym (ok-injective last))

record_request-references :
    (db : Database) (completion : TaskCleanupCompletion) (row : TaskCleanupRecord) (task : Task)
    (original : OperationRecord) (answer : OperationRecord × Database)
    → record_request db completion row task original ≡ ok answer
    → references answer.1 ≡ references db
unfolding record_request
record_request-references db completion row task original answer h =
    elim (Bool-cases (text_eq completion.request_operation_id completion.operation_id)) [
      | inl own ↦ unchanged (rw own at h)
      | inr another ↦ inserted _ (rw another at h)
    ]
  where
    unchanged :
        ◌≡◌ {A = Stored (OperationRecord × Database)} (ok (original, db)) (ok answer)
        → references answer.1 ≡ references db
    unchanged h = ap (λ (p : OperationRecord × Database). references p.1) (sym (ok-injective h))

    inserted :
        (entry : OperationRecord)
        → ◌>>=◌ {B = OperationRecord × Database}
            (insert_operation db entry)
            (λ stored. ok (entry, stored))
          ≡ ok answer
        → references answer.1 ≡ references db
    inserted entry h =
        let (stored, entered, last) = >>=-eq-ok (insert_operation db entry) _ h in
        ap (λ (p : OperationRecord × Database). references p.1) (sym (ok-injective last))
        ∙ insert_operation-references db entry stored entered

update_cleanup-references :
    (db : Database) (operation : Text) (stage : CleanupStage) (new : TaskCleanupRecord)
    (after : Database)
    → update_cleanup db operation stage new ≡ ok after
    → references after ≡ references db
unfolding update_cleanup
update_cleanup-references db operation stage new after h =
    let (one, last) = >>-eq-ok _ _ h in ap references (sym (ok-injective last))

module _ (context : StoreContext) where
  -- The UPDATE of a task's state writes neither reference.
  write_task_state-references :
      (db : Database) (task : Task) → references (write_task_state context db task) ≡ references db
  unfolding write_task_state
  write_task_state-references db task = each db.tasks
    where
      each :
          (tasks : List Task)
          → map {B = Text × Text}
              (λ (t : Task). (t.managed_run_id, t.workspace_lease_id))
              (map
                (λ (old : Task).
                  if text_eq old.handle task.handle
                  then record old {
                    state = task.state;
                    state_version = task.state_version;
                    updated_at = task.updated_at;
                  }
                  else old)
                tasks)
            ≡ map {B = Text × Text} (λ (t : Task). (t.managed_run_id, t.workspace_lease_id)) tasks
      each [] = refl
      each (old ∷ rest) = elim (Bool-cases (text_eq old.handle task.handle)) [
        | inl hit ↦ rw (hit, each rest)
        | inr miss ↦ rw (miss, each rest)
      ]

  refreshed-references :
      (db : Database) (initiatives : Stored (List DevelopmentInitiative)) (stored : Database)
      → refreshed context db initiatives ≡ ok stored
      → references stored ≡ references db
  unfolding refreshed
  refreshed-references db (ok initiatives) stored h = ap references (sym (ok-injective h))
  refreshed-references db (err e) stored h = cc

  announce-references :
      (db : Database) (task : Task) (previous : TaskState) (stored : Database)
      → announce context db task previous ≡ ok stored
      → references stored ≡ references db
  unfolding announce
  announce-references db task previous stored h =
      elim (Bool-cases (same_state previous task.state)) [
        | inl same ↦ ap references (sym (ok-injective (rw same at h)))
        | inr moved ↦ refreshed-references (with_event db task) _ stored (rw moved at h)
      ]

  update_row-references :
      (db : Database) (task : Task) (row : Option Task) (stored : Database)
      → update_row context db task row ≡ ok stored
      → references stored ≡ references db
  unfolding update_row
  update_row-references db task none stored h = cc
  update_row-references db task (some previous) stored h =
      let (guarded, rest) = >>-eq-ok _ _ h in
      announce-references (write_task_state context db task) task previous.state stored rest
      ∙ write_task_state-references db task

  update_task_state-references :
      (db : Database) (task : Task) (stored : Database)
      → update_task_state context db task ≡ ok stored
      → references stored ≡ references db
  unfolding update_task_state
  update_task_state-references db task stored h =
      let (valid, rest) = >>-eq-ok _ _ h in
      update_row-references db task (task_row db task.handle) stored rest

  complete_cleaned-references :
      (db : Database) (completion : TaskCleanupCompletion) (row : TaskCleanupRecord)
      (cleaned : Task) (answer : MutationResult × Database)
      → complete_cleaned context db completion row cleaned ≡ ok answer
      → (references answer.1 ≡ references db) × (answer.0.task ≡ cleaned)
  unfolding complete_cleaned record_operations
  complete_cleaned-references db completion row cleaned answer h =
      let (valid, h1) = >>-eq-ok _ _ h in
      let (touched, written, h2) = >>=-eq-ok (update_task_state context db cleaned) _ h1 in
      let original =
        completed_mutation_operation completion.operation_id (removal_command row)
          completion.subject_digest cleaned.handle cleaned.state_version completion.at in
      let (recorded, entered, h3) =
        >>=-eq-ok (record_operations touched completion row cleaned) _ h2 in
      let (inserted, ledger, asked) = >>=-eq-ok (insert_operation touched original) _ entered in
      let (stored, updated, h4) =
        >>=-eq-ok
          (update_cleanup recorded.1 completion.operation_id CleanupStage.removal_authorized
            (completed_row row))
          _ h3 in
      (
        ap (λ (p : MutationResult × Database). references p.1) (sym (ok-injective h4))
            ∙ update_cleanup-references recorded.1 completion.operation_id
                CleanupStage.removal_authorized (completed_row row) stored updated
            ∙ record_request-references inserted completion row cleaned original recorded asked
            ∙ insert_operation-references touched original inserted ledger
            ∙ update_task_state-references db cleaned touched written,
        ap (λ (p : MutationResult × Database). p.0.task) (sym (ok-injective h4)),
      )

  -- Where CompleteTaskCleanup completes an authorized removal (completeNow is its last part), the
  -- task that it returns has no managed run and no workspace lease, and yet every stored task keeps
  -- the two that it had.
  pub completion_keeps_stored_references :
      (db : Database) (completion : TaskCleanupCompletion) (row : TaskCleanupRecord)
      (result : MutationResult) (after : Database)
      → complete_now context db completion row ≡ ok (result, after)
      → (result.task.managed_run_id ≡ [])
        × (result.task.workspace_lease_id ≡ [])
        × (references after ≡ references db)
  unfolding complete_now
  completion_keeps_stored_references db completion row result after h =
      let (authorized, h1) = >>-eq-ok _ _ h in
      let (task, read, h2) = >>=-eq-ok (get_task context db row.task_handle) _ h1 in
      let (posture, h3) = >>-eq-ok _ _ h2 in
      let (moved, applied, h4) =
        >>=-eq-ok
          (transitioned
            (apply_transition context.platform task TaskTransition.cleanup_accepted completion.at))
          _ h3 in
      let (version, numbered, h5) = >>=-eq-ok (next_mutation_state_version db) _ h4 in
      let (kept, cleaned) =
        complete_cleaned-references db completion row
          (record (without_authority moved) { state_version = version }) (result, after) h5 in
      (
        ap (λ (t : Task). t.managed_run_id) cleaned,
        ap (λ (t : Task). t.workspace_lease_id) cleaned,
        kept,
      )
