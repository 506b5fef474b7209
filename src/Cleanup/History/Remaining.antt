-- ===== src/Cleanup/History/Remaining.antt =====
-- Which records the writes of internal/store/sqlite/cleanup.go replace, and which remain.
use mathlib.Core.Path.{subst}
use comis_dev_crew.Base.{
  ◌≡◌, ◌≢◌, refl, sym, ap, ◌∙◌, inl, inr, true, [], ◌∷◌, Option, none, some, In, some-injective,
}
use comis_dev_crew.Cleanup.{CleanupStage, TaskCleanupRecord}
use comis_dev_crew.Cleanup.Tables.{Database}
use comis_dev_crew.Cleanup.Proof.{cleanup_stage_allowed, same_stage}
use comis_dev_crew.Cleanup.Complete.{completed_row}
use comis_dev_crew.Cleanup.Store.Kept.{RowsKept}
use comis_dev_crew.Cleanup.Store.Laws.{find_task_cleanup_record-In}
use comis_dev_crew.Cleanup.History.{Remains}

-- What a write may replace: a record that is neither authorized nor completed, or an authorized one
-- by the same completed.
pub record Replaces (old : Option TaskCleanupRecord) (new : TaskCleanupRecord) : Type 0 where
  pub authorized :
      (row : TaskCleanupRecord)
      → old ≡ some row
      → row.stage ≡ CleanupStage.removal_authorized
      → new ≡ completed_row row
  pub uncompleted : (row : TaskCleanupRecord) → old ≡ some row → row.stage ≢ CleanupStage.completed

pub fresh-Replaces : (row : TaskCleanupRecord) → Replaces none row
fresh-Replaces row = record { authorized = λ old h stage. cc; uncompleted = λ old h stage. cc }

pub completed-Replaces :
    (row : TaskCleanupRecord)
    → row.stage ≡ CleanupStage.removal_authorized
    → Replaces (some row) (completed_row row)
completed-Replaces row authorized = record {
  authorized = λ old h stage. ap completed_row (some-injective h);
  uncompleted = λ old h stage.
      cc (sym authorized ∙ ap (λ (r : TaskCleanupRecord). r.stage) (some-injective h) ∙ stage);
}

pub unended-Replaces :
    (row new : TaskCleanupRecord)
    → row.stage ≢ CleanupStage.removal_authorized
    → row.stage ≢ CleanupStage.completed
    → Replaces (some row) new
unended-Replaces row new a c = record {
  authorized = λ old h stage.
      elim (a (ap (λ (r : TaskCleanupRecord). r.stage) (some-injective h) ∙ stage)) [ ];
  uncompleted =
      λ old h stage. c (ap (λ (r : TaskCleanupRecord). r.stage) (some-injective h) ∙ stage);
}

pub from_release :
    (stage : CleanupStage)
    → cleanup_stage_allowed stage (CleanupStage.prepared ∷ []) ≡ true
    → (stage ≢ CleanupStage.removal_authorized) × (stage ≢ CleanupStage.completed)
unfolding cleanup_stage_allowed same_stage
from_release CleanupStage.prepared h = ((λ e. cc), λ e. cc)
from_release stage h = cc

pub from_authorization :
    (stage : CleanupStage)
    → cleanup_stage_allowed stage
        (CleanupStage.host_released ∷ CleanupStage.managed_run_absent ∷ [])
      ≡ true
    → (stage ≢ CleanupStage.removal_authorized) × (stage ≢ CleanupStage.completed)
unfolding cleanup_stage_allowed same_stage
from_authorization CleanupStage.host_released h = ((λ e. cc), λ e. cc)
from_authorization CleanupStage.managed_run_absent h = ((λ e. cc), λ e. cc)
from_authorization stage h = cc

-- After a write of one row, an authorized record remains that remained before.
pub RowsKept-Remains :
    (db after : Database) (old : Option TaskCleanupRecord) (new row : TaskCleanupRecord)
    → RowsKept db after old new
    → Replaces old new
    → row.stage ≡ CleanupStage.removal_authorized
    → Remains row db.cleanups
    → Remains row after.cleanups
RowsKept-Remains db after old new row kept replaces stage (inl m) = elim (kept.stays row m) [
  | inl stays ↦ inl stays
  | inr replaced ↦ inr (
      subst (λ r. In r after.cleanups) (replaces.authorized row replaced stage)
        (find_task_cleanup_record-In after new.operation_id new kept.own))
]
RowsKept-Remains db after old new row kept replaces stage (inr m) =
    elim (kept.stays (completed_row row) m) [
      | inl stays ↦ inr stays
      | inr replaced ↦ elim (replaces.uncompleted (completed_row row) replaced refl) [ ]
    ]
