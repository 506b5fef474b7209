-- ===== src/Cleanup/Write/Frame.antt =====
-- The write of a task's state and of the ledger leaves the cleanup rows alone: facts about
-- updateTaskState and insertOperation of internal/store/sqlite.
use mathlib.Core.Path.{subst}
use comis_dev_crew.Text.{Text, text_eq}
use comis_dev_crew.Text.Laws.{text_eq_sound}
use comis_dev_crew.Cleanup.Rows.{row_where, row_where-In}
use comis_dev_crew.Base.{
  List, ◌≡◌, Bool-cases, inl, inr, Option, none, some, ok, err, >>-eq-ok, ok-injective, sym, ap,
}
use comis_dev_crew.Lifecycle.{TaskState, same_state}
use comis_dev_crew.Task.{Task}
use comis_dev_crew.Operation.{OperationRecord}
use comis_dev_crew.Initiative.{DevelopmentInitiative}
use comis_dev_crew.Cleanup.Tables.{Database}
use comis_dev_crew.Cleanup.Database.{Stored, task_row, insert_operation}
use comis_dev_crew.Cleanup.Write.{
  StoreContext, write_task_state, with_event, refreshed, announce, update_row, update_task_state,
  stored_task, get_task,
}

pub insert_operation-cleanups :
    (db : Database) (operation : OperationRecord) (stored : Database)
    → insert_operation db operation ≡ ok stored
    → stored.cleanups ≡ db.cleanups
unfolding insert_operation
insert_operation-cleanups db operation stored h =
    let (first, rest) = >>-eq-ok _ _ h in
    let (second, last) = >>-eq-ok _ _ rest in
    ap (λ (d : Database). d.cleanups) (sym (ok-injective last))

module _ (context : StoreContext) where
  refreshed-cleanups :
      (db : Database) (initiatives : Stored (List DevelopmentInitiative)) (stored : Database)
      → refreshed context db initiatives ≡ ok stored
      → stored.cleanups ≡ db.cleanups
  unfolding refreshed
  refreshed-cleanups db (ok initiatives) stored h =
      ap (λ (d : Database). d.cleanups) (sym (ok-injective h))
  refreshed-cleanups db (err e) stored h = cc

  announce-cleanups :
      (db : Database) (task : Task) (previous : TaskState) (stored : Database)
      → announce context db task previous ≡ ok stored
      → stored.cleanups ≡ db.cleanups
  unfolding announce
  announce-cleanups db task previous stored h = elim (Bool-cases (same_state previous task.state)) [
    | inl same ↦ ap (λ (d : Database). d.cleanups) (sym (ok-injective (rw same at h)))
    | inr moved ↦ refreshed-cleanups (with_event db task) _ stored (rw moved at h)
  ]

  pub update_row-cleanups :
      (db : Database) (task : Task) (row : Option Task) (stored : Database)
      → update_row context db task row ≡ ok stored
      → stored.cleanups ≡ db.cleanups
  unfolding update_row write_task_state
  update_row-cleanups db task none stored h = cc
  update_row-cleanups db task (some previous) stored h =
      let (guarded, rest) = >>-eq-ok _ _ h in
      announce-cleanups (write_task_state context db task) task previous.state stored rest

  pub update_task_state-cleanups :
      (db : Database) (task : Task) (stored : Database)
      → update_task_state context db task ≡ ok stored
      → stored.cleanups ≡ db.cleanups
  unfolding update_task_state
  update_task_state-cleanups db task stored h =
      let (valid, rest) = >>-eq-ok _ _ h in
      update_row-cleanups db task (task_row db task.handle) stored rest

stored_task-row :
    (context : StoreContext) (row : Option Task) (task : Task)
    → stored_task context row ≡ ok task
    → row ≡ some task
unfolding stored_task
stored_task-row context none task h = cc
stored_task-row context (some old) task h =
    let (valid, last) = >>-eq-ok _ _ h in ap some (ok-injective last)

-- A task that getTask gives is the row under its handle.
pub get_task-row :
    (context : StoreContext) (db : Database) (handle : Text) (task : Task)
    → get_task context db handle ≡ ok task
    → (task.handle ≡ handle) × (task_row db task.handle ≡ some task)
unfolding get_task task_row
get_task-row context db handle task h =
    let row : row_where (λ (t : Task). text_eq t.handle handle) db.tasks ≡ some task =
      stored_task-row context _ task h in
    let (inside, named) = row_where-In (λ (t : Task). text_eq t.handle handle) db.tasks task row in
    let same : task.handle ≡ handle = text_eq_sound task.handle handle named in
    (
      same,
      subst (λ name. row_where (λ (t : Task). text_eq t.handle name) db.tasks ≡ some task)
          (sym same) row,
    )
