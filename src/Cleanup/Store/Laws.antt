-- ===== src/Cleanup/Store/Laws.antt =====
-- What a stage change of internal/store/sqlite/cleanup.go leaves in the cleanup rows.
use comis_dev_crew.Base.{
  ◌≡◌, refl, sym, ap, ◌∙◌, inl, inr, true, false, not, ◌&&◌, Bool-cases, Option, none, some, ok, In,
  >>-eq-ok, >>=-eq-ok, refuse-eq-ok, require-eq-ok, ok-injective, arith, &&-eq-true,
}
use mathlib.Core.Path.{subst}
use comis_dev_crew.Text.{Text, text_eq}
use comis_dev_crew.Text.Laws.{text_eq_sound, text_eq_refl}
use comis_dev_crew.Task.{Task}
use comis_dev_crew.Cleanup.{CleanupError, CleanupStage, TaskCleanupRecord, has_no_run}
use comis_dev_crew.Cleanup.Rows.{row_where-In}
use comis_dev_crew.Cleanup.Tables.{Database}
use comis_dev_crew.Cleanup.Database.{
  Refusal, rolled_back, find_task_cleanup_record, next_mutation_state_version,
}
use comis_dev_crew.Cleanup.Store.Kept.{
  RowsKept, RowsKept-along, update_cleanup-RowsKept, find_by_rows, find_task_cleanup_record-named,
}
use comis_dev_crew.Cleanup.Write.{StoreContext, get_task, update_task_state}
use comis_dev_crew.Cleanup.Write.Frame.{update_task_state-cleanups}
use comis_dev_crew.Cleanup.Proof.{
  validate_cleanup_proof, cleanup_proof_matches, same_stage, cleanup_stage_allowed,
}
use comis_dev_crew.Cleanup.Store.{
  StageChange, advance_task_cleanup, replay_or_move, move_stage, update_cleanup, found_or, moved_to,
  receipt_differs, has_no_authority,
}

-- What holds of the record that a stage change moves: it stood in the table for the operation in
-- an allowed stage, the proof fits it, the receipt is the one that it asks for, and an absent run
-- is absent.
pub record Moves (db : Database) (change : StageChange) (row : TaskCleanupRecord) : Type 0 where
  pub stored : In row db.cleanups
  pub named : row.operation_id ≡ change.operation_id
  pub found : find_task_cleanup_record db row.operation_id ≡ some row
  pub allowed : cleanup_stage_allowed row.stage change.from ≡ true
  pub proved : validate_cleanup_proof row change.snapshot change.truth ≡ ok tt
  pub acknowledged : receipt_differs row change.receipt ≡ false
  pub absent : same_stage row.stage CleanupStage.managed_run_absent ≡ true → has_no_run row ≡ true

-- The answer of a stage change: the stored record where nothing had to change, or the moved one.
pub data Advanced (db : Database) (change : StageChange) (after : Database)
    (result : TaskCleanupRecord) : Type 0 where
  replayed :
      In result db.cleanups
      → result.stage ≡ change.target
      → after.cleanups ≡ db.cleanups
      → Advanced db change after result
  moved :
      (row : TaskCleanupRecord)
      → Moves db change row
      → result ≡ moved_to row change.target change.snapshot
      → RowsKept db after (some row) result
      → Advanced db change after result

pub same_stage_sound : (a b : CleanupStage) → same_stage a b ≡ true → a ≡ b
unfolding same_stage
same_stage_sound CleanupStage.prepared CleanupStage.prepared h = refl
same_stage_sound CleanupStage.managed_run_absent CleanupStage.managed_run_absent h = refl
same_stage_sound CleanupStage.host_released CleanupStage.host_released h = refl
same_stage_sound CleanupStage.removal_authorized CleanupStage.removal_authorized h = refl
same_stage_sound CleanupStage.completed CleanupStage.completed h = refl
same_stage_sound (CleanupStage.other a) (CleanupStage.other b) h =
    ap CleanupStage.other (text_eq_sound a b h)
same_stage_sound a b h = cc

pub found_or-eq-ok :
    {A : Type 0} (found : Option A) (e : Refusal) (a : A) → found_or found e ≡ ok a → found ≡ some a
unfolding found_or
found_or-eq-ok none e a h = cc
found_or-eq-ok (some b) e a h = ap some (ok-injective h)

pub find_task_cleanup_record-In :
    (db : Database) (operation : Text) (row : TaskCleanupRecord)
    → find_task_cleanup_record db operation ≡ some row
    → In row db.cleanups
unfolding find_task_cleanup_record
find_task_cleanup_record-In db operation row h =
    let (inside, named) =
      row_where-In (λ (r : TaskCleanupRecord). text_eq r.operation_id operation) db.cleanups row
        h in
    inside

pub same_stage_refl : (stage : CleanupStage) → same_stage stage stage ≡ true
unfolding same_stage
same_stage_refl CleanupStage.prepared = refl
same_stage_refl CleanupStage.managed_run_absent = refl
same_stage_refl CleanupStage.host_released = refl
same_stage_refl CleanupStage.removal_authorized = refl
same_stage_refl CleanupStage.completed = refl
same_stage_refl (CleanupStage.other text) = text_eq_refl text

module _ (context : StoreContext) where
  pub move_stage-Advanced :
      (db : Database) (change : StageChange) (row : TaskCleanupRecord) (result : TaskCleanupRecord)
      (after : Database)
      → find_task_cleanup_record db change.operation_id ≡ some row
      → move_stage context db change row ≡ ok (result, after)
      → Advanced db change after result
  unfolding move_stage
  move_stage-Advanced db change row result after m h =
      let named : row.operation_id ≡ change.operation_id =
        find_task_cleanup_record-named db change.operation_id row m in
      let (allowed, h1) = >>-eq-ok _ _ h in
      let (proved, h2) = >>-eq-ok _ _ h1 in
      let (acknowledged, h3) = >>-eq-ok _ _ h2 in
      let (task, found, h4) = >>=-eq-ok (get_task context db row.task_handle) _ h3 in
      let (posture, h5) = >>-eq-ok _ _ h4 in
      let (absent, h6) = >>-eq-ok _ _ h5 in
      let (version, numbered, h7) = >>=-eq-ok (next_mutation_state_version db) _ h6 in
      let (touched, written, h8) =
        >>=-eq-ok
          (update_task_state context db
            (record task { state_version = version; updated_at = change.at }))
          _ h7 in
      let (stored, updated, h9) =
        >>=-eq-ok
          (update_cleanup touched change.operation_id row.stage
            (moved_to row change.target change.snapshot))
          _ h8 in
      let same : (◌≡◌ {A = TaskCleanupRecord × Database}
          (moved_to row change.target change.snapshot, stored) (result, after)) =
        ok-injective h9 in
      let untouched : touched.cleanups ≡ db.cleanups =
        update_task_state-cleanups context db
          (record task { state_version = version; updated_at = change.at }) touched written in
      let moves : Moves db change row = record {
        stored = find_task_cleanup_record-In db change.operation_id row m;
        named = named;
        found = subst (λ name. find_task_cleanup_record db name ≡ some row) (sym named) m;
        allowed = require-eq-ok _ _ allowed;
        proved = proved;
        acknowledged = refuse-eq-ok _ _ acknowledged;
        absent = λ at_absent. absent_has_no_run row task at_absent (refuse-eq-ok _ _ absent);
      } in
      let result_eq : (moved_to row change.target change.snapshot ≡ result) =
        ap (λ (p : TaskCleanupRecord × Database). p.0) same in
      Advanced.moved row moves (sym result_eq) (
        RowsKept-along untouched (ap (λ (p : TaskCleanupRecord × Database). p.1) same) result_eq (
          update_cleanup-RowsKept touched change.operation_id row
            (moved_to row change.target change.snapshot) stored
            (find_by_rows db touched change.operation_id untouched ∙ m) refl
            (same_stage_refl row.stage) updated))
    where
      absent_has_no_run :
          (row : TaskCleanupRecord) (task : Task)
          → same_stage row.stage CleanupStage.managed_run_absent ≡ true
          → (same_stage row.stage CleanupStage.managed_run_absent
              && not (has_no_run row && has_no_authority task))
            ≡ false
          → has_no_run row ≡ true
      absent_has_no_run row task a b = ground arith

  replay_or_move-Advanced :
      (db : Database) (change : StageChange) (row : TaskCleanupRecord) (result : TaskCleanupRecord)
      (after : Database)
      → find_task_cleanup_record db change.operation_id ≡ some row
      → replay_or_move context db change row ≡ ok (result, after)
      → Advanced db change after result
  unfolding replay_or_move
  replay_or_move-Advanced db change row result after stored h =
      elim (Bool-cases (
        same_stage row.stage change.target
        && cleanup_proof_matches row change.snapshot change.truth)) [
          | inl replay ↦
              let same : (◌≡◌ {A = TaskCleanupRecord × Database} (row, db) (result, after)) =
                ok-injective (rw replay at h) in
              let result_eq : row ≡ result = ap (λ (p : TaskCleanupRecord × Database). p.0) same in
              Advanced.replayed
                (subst (λ r. In r db.cleanups) result_eq
                  (find_task_cleanup_record-In db change.operation_id row stored))
                (ap (λ (r : TaskCleanupRecord). r.stage) (sym result_eq)
                  ∙ same_stage_sound row.stage change.target (&&-eq-true _ _ replay).0)
                (ap (λ (p : TaskCleanupRecord × Database). p.1.cleanups) (sym same))
          | inr fresh ↦ move_stage-Advanced db change row result after stored (rw fresh at h)
        ]

  pub advance_task_cleanup-Advanced :
      (db : Database) (change : StageChange) (result : TaskCleanupRecord) (after : Database)
      → advance_task_cleanup context db change ≡ ok (result, after)
      → Advanced db change after result
  unfolding advance_task_cleanup
  advance_task_cleanup-Advanced db change result after h =
      let (valid, h1) = >>-eq-ok _ _ h in
      let (row, found, h2) =
        >>=-eq-ok
          (found_or (find_task_cleanup_record db change.operation_id)
            (rolled_back CleanupError.not_found))
          _ h1 in
      let (unaltered, h3) = >>-eq-ok _ _ h2 in
      replay_or_move-Advanced db change row result after (found_or-eq-ok _ _ row found) h3
