-- ===== src/Cleanup/Begin/Rows.antt =====
-- What the entry gates of internal/store/sqlite/cleanup.go and internal/store/sqlite/discard.go
-- leave in the cleanup rows.
use mathlib.Core.Path.{subst}
use comis_dev_crew.Base.{
  ◌≡◌, refl, sym, ap, ◌∙◌, inl, inr, Bool, true, false, Bool-cases, Option, none, some, Result, ok,
  err, if◌then◌else◌, In, ◌==◌, >>-eq-ok, >>=-eq-ok, ok-injective, Time,
}
use comis_dev_crew.Text.{Text, text_eq, ascii}
use comis_dev_crew.Lifecycle.{TaskTransition}
use comis_dev_crew.Task.{Task}
use comis_dev_crew.Task.Apply.{apply_transition}
use comis_dev_crew.Cleanup.{
  CleanupError, CleanupStage, TaskCleanupRecord, TaskCleanupMutation, is_precondition,
}
use comis_dev_crew.Cleanup.Rows.{row_where-In}
use comis_dev_crew.Cleanup.Tables.{Database}
use comis_dev_crew.Cleanup.Database.{
  Stored, find_task_cleanup_record, find_task_cleanup_record_by_task, mutation_replay,
  next_mutation_state_version,
}
use comis_dev_crew.Cleanup.Write.{StoreContext, get_task, update_task_state}
use comis_dev_crew.Cleanup.Write.Frame.{update_task_state-cleanups}
use comis_dev_crew.Cleanup.Safety.{cleanup_preparation}
use comis_dev_crew.Cleanup.Origin.{cleanup_evidence}
use comis_dev_crew.Cleanup.Store.{transitioned, has_no_authority}
use comis_dev_crew.Cleanup.Store.Kept.{
  RowsKept, RowsKept-along, insert_cleanup-RowsKept, find_by_rows,
}
use comis_dev_crew.Cleanup.Store.Laws.{find_task_cleanup_record-In}
use comis_dev_crew.Cleanup.Begin.{
  settle, replay_record, insert_cleanup, hold_task, begin_new_cleanup, begin_after_replay,
  begin_after_operation, caller_replay, begin_task_cleanup_transaction, begin_task_cleanup,
  audit_refusal, record_audit_event, delivery_reference,
}
use comis_dev_crew.Cleanup.Discard.{
  begin_new_discard, discard_after_replay, discard_after_operation, begin_task_discard,
}

-- A stage that a record starts in; only a discard may start without a run.
abbrev pub is_first_stage : Bool → CleanupStage → Bool
is_first_stage discards CleanupStage.prepared = true
is_first_stage discards CleanupStage.managed_run_absent = discards
is_first_stage discards _ = false

-- The answer of an entry gate: a record that was there, or a new one for the operation in a first
-- stage.
pub data Begun (operation : Text) (discards : Bool) (db after : Database) (row : TaskCleanupRecord)
    : Type 0 where
  found : In row db.cleanups → after.cleanups ≡ db.cleanups → Begun operation discards db after row
  fresh :
      row.operation_id ≡ operation
      → is_first_stage discards row.stage ≡ true
      → find_task_cleanup_record db row.operation_id ≡ none
      → RowsKept db after none row
      → Begun operation discards db after row

-- A gate that refuses leaves the rows alone.
abbrev pub GateAnswer :
    Text → Bool → Database → Result CleanupError TaskCleanupRecord × Database → Type 0
GateAnswer operation discards db (ok row, after) = Begun operation discards db after row
GateAnswer operation discards db (err e, after) = after.cleanups ≡ db.cleanups

module _ (context : StoreContext) where
  -- The last step of a gate, for a record in a first stage.
  hold_task-Begun :
      (discards : Bool) (db : Database) (task : Task) (at : Time) (row result : TaskCleanupRecord)
      (after : Database)
      → is_first_stage discards row.stage ≡ true
      → hold_task context db task at row ≡ ok (result, after)
      → Begun row.operation_id discards db after result
  unfolding hold_task
  hold_task-Begun discards db task at row result after first h =
      let (held, moved, h1) =
        >>=-eq-ok
          (transitioned (apply_transition context.platform task TaskTransition.cleanup_started at))
          _ h in
      let (version, numbered, h2) = >>=-eq-ok (next_mutation_state_version db) _ h1 in
      let (touched, written, h3) =
        >>=-eq-ok (update_task_state context db (record held { state_version = version })) _ h2 in
      let (stored, inserted, h4) = >>=-eq-ok (insert_cleanup touched row) _ h3 in
      let same : (◌≡◌ {A = TaskCleanupRecord × Database} (row, stored) (result, after)) =
        ok-injective h4 in
      let untouched : touched.cleanups ≡ db.cleanups =
        update_task_state-cleanups context db (record held { state_version = version }) touched
          written in
      let row_eq : row ≡ result = ap (λ (p : TaskCleanupRecord × Database). p.0) same in
      let (kept, unused) = insert_cleanup-RowsKept touched row stored inserted in
      Begun.fresh (ap (λ (r : TaskCleanupRecord). r.operation_id) (sym row_eq))
        (subst (λ (r : TaskCleanupRecord). is_first_stage discards r.stage ≡ true) row_eq first)
        (subst (λ (r : TaskCleanupRecord). find_task_cleanup_record db r.operation_id ≡ none) row_eq
          (sym (find_by_rows db touched row.operation_id untouched) ∙ unused))
        (RowsKept-along untouched (ap (λ (p : TaskCleanupRecord × Database). p.1) same) row_eq kept)

  begin_new_cleanup-Begun :
      (db : Database) (mutation : TaskCleanupMutation) (result : TaskCleanupRecord)
      (after : Database)
      → begin_new_cleanup context db mutation ≡ ok (result, after)
      → Begun mutation.operation_id false db after result
  unfolding begin_new_cleanup
  begin_new_cleanup-Begun db mutation result after h =
      let (task, read, h1) = >>=-eq-ok (get_task context db mutation.task_handle) _ h in
      let (posture, h2) = >>-eq-ok _ _ h1 in
      let (safe, h3) = >>-eq-ok _ _ h2 in
      let (origin, prepared, h4) = >>=-eq-ok (cleanup_preparation db task.handle) _ h3 in
      let (evidence, sealed, h5) = >>=-eq-ok (cleanup_evidence context db task) _ h4 in
      let (applied, h6) = >>-eq-ok _ _ h5 in
      let (originated, h7) = >>-eq-ok _ _ h6 in
      let (reference, delivered, h8) =
        >>=-eq-ok
          (delivery_reference evidence.1.bundle.forge_evidence evidence.1.bundle.report_artifact) _
          h7 in
      hold_task-Begun false db task mutation.at _ result after refl h8

  begin_new_discard-Begun :
      (db : Database) (mutation : TaskCleanupMutation) (result : TaskCleanupRecord)
      (after : Database)
      → begin_new_discard context db mutation ≡ ok (result, after)
      → Begun mutation.operation_id true db after result
  unfolding begin_new_discard
  begin_new_discard-Begun db mutation result after h =
      let (task, read, h1) = >>=-eq-ok (get_task context db mutation.task_handle) _ h in
      let (posture, h2) = >>-eq-ok _ _ h1 in
      let (settled, h3) = >>-eq-ok _ _ h2 in
      let (origin, prepared, h4) = >>=-eq-ok (cleanup_preparation db task.handle) _ h3 in
      hold_task-Begun true db task mutation.at _ result after (first_stage (has_no_authority task))
        h4
    where
      first_stage :
          (absent : Bool)
          → is_first_stage true
              (if absent then CleanupStage.managed_run_absent else CleanupStage.prepared)
            ≡ true
      first_stage true = refl
      first_stage false = refl

-- A record that a lookup found is answered as it is.
found_record-Begun :
    {operation : Text} {discards : Bool} {db after : Database} {row result : TaskCleanupRecord}
    → In row db.cleanups
    → ◌≡◌ {A = Stored (TaskCleanupRecord × Database)} (ok (row, db)) (ok (result, after))
    → Begun operation discards db after result
found_record-Begun {operation} {discards} {db} {after} {row} {result} m h =
    let same : (◌≡◌ {A = TaskCleanupRecord × Database} (row, db) (result, after)) =
      ok-injective h in
    Begun.found
      (subst (λ r. In r db.cleanups) (ap (λ (p : TaskCleanupRecord × Database). p.0) same) m)
      (sym (ap (λ (p : TaskCleanupRecord × Database). p.1.cleanups) same))

replay_record-Begun :
    {operation : Text} {discards : Bool} (db : Database) (same : Bool)
    (row result : TaskCleanupRecord) (after : Database)
    → In row db.cleanups
    → replay_record same row db ≡ ok (result, after)
    → Begun operation discards db after result
unfolding replay_record
replay_record-Begun db same row result after m h =
    let (agrees, last) = >>-eq-ok _ _ h in found_record-Begun m last

by_task-In :
    (db : Database) (task : Text) (row : TaskCleanupRecord)
    → find_task_cleanup_record_by_task db task ≡ some row
    → In row db.cleanups
unfolding find_task_cleanup_record_by_task
by_task-In db task row h =
    let (inside, named) =
      row_where-In (λ (r : TaskCleanupRecord). text_eq r.task_handle task) db.cleanups row h in
    inside

-- What a transaction's answer says once it is committed or rolled back.
settle-GateAnswer :
    (operation : Text) (discards : Bool) (db : Database)
    (gate : Stored (TaskCleanupRecord × Database))
    → ((row : TaskCleanupRecord) (after : Database)
        → gate ≡ ok (row, after)
        → Begun operation discards db after row)
    → GateAnswer operation discards db (settle db gate)
unfolding settle
settle-GateAnswer operation discards db (ok (row, after)) begun = begun row after refl
settle-GateAnswer operation discards db (err e) begun = refl

audit_refusal-GateAnswer :
    (operation : Text) (discards : Bool) (db : Database) (mutation : TaskCleanupMutation)
    (answer : Result CleanupError TaskCleanupRecord × Database)
    → GateAnswer operation discards db answer
    → GateAnswer operation discards db (audit_refusal mutation answer)
unfolding audit_refusal record_audit_event
audit_refusal-GateAnswer operation discards db mutation (ok row, after) h = h
audit_refusal-GateAnswer operation discards db mutation (err e, after) h =
    elim (Bool-cases (is_precondition e)) [
      | inl refused ↦ elim (Bool-cases (mutation.at.instant == 0)) [
        | inl timeless ↦ rw (refused, timeless) h
        | inr timed ↦ rw (refused, timed) h
      ]
      | inr failed ↦ rw failed h
    ]

module _ (context : StoreContext) where
  begin_after_replay-Begun :
      (db : Database) (mutation : TaskCleanupMutation) (replayed : Bool)
      (existing : Option TaskCleanupRecord) (result : TaskCleanupRecord) (after : Database)
      → ((row : TaskCleanupRecord) → existing ≡ some row → In row db.cleanups)
      → begin_after_replay context db mutation replayed existing ≡ ok (result, after)
      → Begun mutation.operation_id false db after result
  unfolding begin_after_replay
  begin_after_replay-Begun db mutation replayed (some row) result after inside h =
      found_record-Begun (inside row refl) h
  begin_after_replay-Begun db mutation replayed none result after inside h =
      let (first, rest) = >>-eq-ok _ _ h in
      begin_new_cleanup-Begun context db mutation result after rest

  begin_after_operation-Begun :
      (db : Database) (mutation : TaskCleanupMutation) (existing : Option TaskCleanupRecord)
      (result : TaskCleanupRecord) (after : Database)
      → ((row : TaskCleanupRecord) → existing ≡ some row → In row db.cleanups)
      → begin_after_operation context db mutation existing ≡ ok (result, after)
      → Begun mutation.operation_id false db after result
  unfolding begin_after_operation
  begin_after_operation-Begun db mutation (some row) result after inside h =
      replay_record-Begun db _ row result after (inside row refl) h
  begin_after_operation-Begun db mutation none result after inside h =
      let (replay, ledger, h1) =
        >>=-eq-ok
          (mutation_replay db mutation.operation_id (ascii "CleanupTask") mutation.subject_digest) _
          h in
      let (replayed, agrees, h2) = >>=-eq-ok (caller_replay mutation.task_handle replay) _ h1 in
      begin_after_replay-Begun db mutation replayed
        (find_task_cleanup_record_by_task db mutation.task_handle) result after
        (by_task-In db mutation.task_handle) h2

  discard_after_replay-Begun :
      (db : Database) (mutation : TaskCleanupMutation) (replayed : Bool)
      (existing : Option TaskCleanupRecord) (result : TaskCleanupRecord) (after : Database)
      → ((row : TaskCleanupRecord) → existing ≡ some row → In row db.cleanups)
      → discard_after_replay context db mutation replayed existing ≡ ok (result, after)
      → Begun mutation.operation_id true db after result
  unfolding discard_after_replay
  discard_after_replay-Begun db mutation replayed (some row) result after inside h =
      let (discards, last) = >>-eq-ok _ _ h in found_record-Begun (inside row refl) last
  discard_after_replay-Begun db mutation replayed none result after inside h =
      let (first, rest) = >>-eq-ok _ _ h in
      begin_new_discard-Begun context db mutation result after rest

  discard_after_operation-Begun :
      (db : Database) (mutation : TaskCleanupMutation) (existing : Option TaskCleanupRecord)
      (result : TaskCleanupRecord) (after : Database)
      → ((row : TaskCleanupRecord) → existing ≡ some row → In row db.cleanups)
      → discard_after_operation context db mutation existing ≡ ok (result, after)
      → Begun mutation.operation_id true db after result
  unfolding discard_after_operation
  discard_after_operation-Begun db mutation (some row) result after inside h =
      replay_record-Begun db _ row result after (inside row refl) h
  discard_after_operation-Begun db mutation none result after inside h =
      let (replay, ledger, h1) =
        >>=-eq-ok
          (mutation_replay db mutation.operation_id (ascii "DiscardTask") mutation.subject_digest) _
          h in
      let (replayed, agrees, h2) = >>=-eq-ok (caller_replay mutation.task_handle replay) _ h1 in
      discard_after_replay-Begun db mutation replayed
        (find_task_cleanup_record_by_task db mutation.task_handle) result after
        (by_task-In db mutation.task_handle) h2

  pub begin_task_cleanup-GateAnswer :
      (db : Database) (mutation : TaskCleanupMutation)
      → GateAnswer mutation.operation_id false db (begin_task_cleanup context db mutation)
  unfolding begin_task_cleanup begin_task_cleanup_transaction
  begin_task_cleanup-GateAnswer db mutation =
      audit_refusal-GateAnswer mutation.operation_id false db mutation
        (settle db (begin_task_cleanup_transaction context db mutation))
        (settle-GateAnswer mutation.operation_id false db
          (begin_task_cleanup_transaction context db mutation)
          (λ row after h.
            let (valid, rest) = >>-eq-ok _ _ h in
            begin_after_operation-Begun db mutation
              (find_task_cleanup_record db mutation.operation_id) row after
              (find_task_cleanup_record-In db mutation.operation_id) rest))

  pub begin_task_discard-GateAnswer :
      (db : Database) (mutation : TaskCleanupMutation)
      → GateAnswer mutation.operation_id true db (begin_task_discard context db mutation)
  unfolding begin_task_discard
  begin_task_discard-GateAnswer db mutation =
      settle-GateAnswer mutation.operation_id true db _ (λ row after h.
        let (valid, rest) = >>-eq-ok _ _ h in
        discard_after_operation-Begun db mutation
          (find_task_cleanup_record db mutation.operation_id) row after
          (find_task_cleanup_record-In db mutation.operation_id) rest)
