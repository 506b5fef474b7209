-- ===== src/Cleanup/Stages.antt =====
-- The stages of removals as an abstract machine, and the store of internal/store/sqlite as an
-- implementation of it: the machine knows of each operation only the stage that it has reached.
use mathlib.Core.Path.{subst}
use comis_dev_crew.Base.{
  ◌≡◌, refl, sym, ap, ◌∙◌, Bool, true, false, Option, none, some, Result, ok, err,
}
use comis_dev_crew.Text.{Text, text_eq}
use comis_dev_crew.Cleanup.{
  CleanupError, CleanupStage, TaskCleanupRecord, TaskCleanupMutation, TaskCleanupCompletion,
}
use comis_dev_crew.Cleanup.Tables.{Database}
use comis_dev_crew.Cleanup.Database.{Stored, find_task_cleanup_record}
use comis_dev_crew.Cleanup.Write.{StoreContext}
use comis_dev_crew.Cleanup.Proof.{cleanup_stage_allowed, same_stage}
use comis_dev_crew.Cleanup.Store.{
  HostReleaseMutation, RemovalAuthorization, StageChange, release_change, authorize_change,
  advance_task_cleanup, record_task_cleanup_host_release, authorize_task_cleanup_removal, moved_to,
}
use comis_dev_crew.Cleanup.Store.Laws.{Advanced, advance_task_cleanup-Advanced}
use comis_dev_crew.Cleanup.Store.Kept.{RowsKept, find_by_rows}
use comis_dev_crew.Cleanup.Begin.{settle, begin_task_cleanup}
use comis_dev_crew.Cleanup.Begin.Rows.{
  Begun, GateAnswer, is_first_stage, begin_task_cleanup-GateAnswer, begin_task_discard-GateAnswer,
}
use comis_dev_crew.Cleanup.Discard.{begin_task_discard}
use comis_dev_crew.Cleanup.Complete.{complete_task_cleanup, completed_row}
use comis_dev_crew.Cleanup.Complete.Rows.{Completed, complete_task_cleanup-Completed}

-- The stage of each operation that has one.
abbrev pub Stages : Type 0
Stages = Text → Option CleanupStage

-- A call of the store that has to do with removals.
pub data StoreCall : Type 0 where
  begin_cleanup : TaskCleanupMutation → StoreCall
  begin_discard : TaskCleanupMutation → StoreCall
  record_release : HostReleaseMutation → StoreCall
  authorize_removal : RemovalAuthorization → StoreCall
  complete : TaskCleanupCompletion → StoreCall

-- The operation that a call is about.
abbrev pub operation_of : StoreCall → Text
operation_of (StoreCall.begin_cleanup m) = m.operation_id
operation_of (StoreCall.begin_discard m) = m.operation_id
operation_of (StoreCall.record_release m) = m.operation_id
operation_of (StoreCall.authorize_removal m) = m.operation_id
operation_of (StoreCall.complete c) = c.operation_id

-- The stage that a call may find its operation in, and the one that it then leaves it in.
pub data Permits : StoreCall → Option CleanupStage → Option CleanupStage → Type 0 where
  prepares :
      {m : TaskCleanupMutation}
      → Permits (StoreCall.begin_cleanup m) none (some CleanupStage.prepared)
  prepares_discard :
      {m : TaskCleanupMutation}
      → Permits (StoreCall.begin_discard m) none (some CleanupStage.prepared)
  prepares_absent :
      {m : TaskCleanupMutation}
      → Permits (StoreCall.begin_discard m) none (some CleanupStage.managed_run_absent)
  releases :
      {m : HostReleaseMutation}
      → Permits
          (StoreCall.record_release m)
          (some CleanupStage.prepared)
          (some CleanupStage.host_released)
  authorizes :
      {m : RemovalAuthorization}
      → Permits
          (StoreCall.authorize_removal m)
          (some CleanupStage.host_released)
          (some CleanupStage.removal_authorized)
  authorizes_absent :
      {m : RemovalAuthorization}
      → Permits
          (StoreCall.authorize_removal m)
          (some CleanupStage.managed_run_absent)
          (some CleanupStage.removal_authorized)
  completes :
      {c : TaskCleanupCompletion}
      → Permits
          (StoreCall.complete c)
          (some CleanupStage.removal_authorized)
          (some CleanupStage.completed)

-- One call as the machine sees it: nothing changes, or its own operation does, as permitted.
pub data Follows (call : StoreCall) (before after : Stages) : Type 0 where
  rests : ((q : Text) → after q ≡ before q) → Follows call before after
  moves :
      Permits call (before (operation_of call)) (after (operation_of call))
      → ((q : Text) → text_eq (operation_of call) q ≡ false → after q ≡ before q)
      → Follows call before after

abbrev stage_of : Option TaskCleanupRecord → Option CleanupStage
stage_of none = none
stage_of (some row) = some row.stage

-- What the machine sees of the store.
abbrev pub stages : Database → Stages
stages db operation = stage_of (find_task_cleanup_record db operation)

same_rows-Follows :
    (call : StoreCall) (db after : Database)
    → after.cleanups ≡ db.cleanups
    → Follows call (stages db) (stages after)
same_rows-Follows call db after h = Follows.rests (λ q. ap stage_of (find_by_rows db after q h))

-- A write of one row of the call's operation, where the stages that it had and has are permitted.
kept-Follows :
    (call : StoreCall) (db after : Database) (old : Option TaskCleanupRecord)
    (row : TaskCleanupRecord)
    → row.operation_id ≡ operation_of call
    → find_task_cleanup_record db row.operation_id ≡ old
    → Permits call (stage_of old) (some row.stage)
    → RowsKept db after old row
    → Follows call (stages db) (stages after)
kept-Follows call db after old row named found permitted kept =
    Follows.moves
      (subst (λ name. Permits call (stages db name) (stages after name)) named
        (subst (λ o. Permits call (stage_of o) (stages after row.operation_id)) (sym found)
          (subst (λ o. Permits call (stage_of old) (stage_of o)) (sym kept.own) permitted)))
      (λ q apart.
        ap stage_of (kept.others q (subst (λ name. text_eq name q ≡ false) (sym named) apart)))

permitted_release :
    (m : HostReleaseMutation) (stage : CleanupStage)
    → cleanup_stage_allowed stage (release_change m).from ≡ true
    → Permits (StoreCall.record_release m) (some stage) (some CleanupStage.host_released)
unfolding cleanup_stage_allowed same_stage
permitted_release m CleanupStage.prepared h = Permits.releases
permitted_release m stage h = cc

permitted_authorization :
    (m : RemovalAuthorization) (stage : CleanupStage)
    → cleanup_stage_allowed stage (authorize_change m).from ≡ true
    → Permits (StoreCall.authorize_removal m) (some stage) (some CleanupStage.removal_authorized)
unfolding cleanup_stage_allowed same_stage
permitted_authorization m CleanupStage.host_released h = Permits.authorizes
permitted_authorization m CleanupStage.managed_run_absent h = Permits.authorizes_absent
permitted_authorization m stage h = cc

first_cleanup :
    (m : TaskCleanupMutation) (stage : CleanupStage)
    → is_first_stage false stage ≡ true
    → Permits (StoreCall.begin_cleanup m) none (some stage)
first_cleanup m CleanupStage.prepared h = Permits.prepares
first_cleanup m stage h = cc

first_discard :
    (m : TaskCleanupMutation) (stage : CleanupStage)
    → is_first_stage true stage ≡ true
    → Permits (StoreCall.begin_discard m) none (some stage)
first_discard m CleanupStage.prepared h = Permits.prepares_discard
first_discard m CleanupStage.managed_run_absent h = Permits.prepares_absent
first_discard m stage h = cc

GateAnswer-Follows :
    (call : StoreCall) (discards : Bool) (db : Database)
    (answer : Result CleanupError TaskCleanupRecord × Database)
    → ((stage : CleanupStage)
        → is_first_stage discards stage ≡ true
        → Permits call none (some stage))
    → GateAnswer (operation_of call) discards db answer
    → Follows call (stages db) (stages answer.1)
GateAnswer-Follows call discards db (ok row, after) permitted (Begun.found inside same) =
    same_rows-Follows call db after same
GateAnswer-Follows call discards db (ok row, after) permitted
      (Begun.fresh named first unused kept) =
    kept-Follows call db after none row named unused (permitted row.stage first) kept
GateAnswer-Follows call discards db (err e, after) permitted same =
    same_rows-Follows call db after same

Advanced-Follows :
    (call : StoreCall) (db after : Database) (change : StageChange) (result : TaskCleanupRecord)
    → change.operation_id ≡ operation_of call
    → ((stage : CleanupStage)
        → cleanup_stage_allowed stage change.from ≡ true
        → Permits call (some stage) (some change.target))
    → Advanced db change after result
    → Follows call (stages db) (stages after)
Advanced-Follows call db after change result named permitted
      (Advanced.replayed inside target same) =
    same_rows-Follows call db after same
Advanced-Follows call db after change result named permitted (Advanced.moved row facts same kept) =
    kept-Follows call db after (some row) (moved_to row change.target change.snapshot)
      (facts.named ∙ named) facts.found (permitted row.stage facts.allowed)
      (subst (RowsKept db after (some row)) same kept)

Completed-Follows :
    (c : TaskCleanupCompletion) (db after : Database)
    → Completed c.operation_id db after
    → Follows (StoreCall.complete c) (stages db) (stages after)
Completed-Follows c db after (Completed.same same) =
    same_rows-Follows (StoreCall.complete c) db after same
Completed-Follows c db after (Completed.completed row inside named found authorized kept) =
    kept-Follows (StoreCall.complete c) db after (some row) (completed_row row) named found
      (subst (λ stage. Permits (StoreCall.complete c) (some stage) (some CleanupStage.completed))
        (sym authorized) Permits.completes)
      kept

module _ (context : StoreContext) where
  -- The database after a call, whether the call succeeds or not.
  abbrev pub run_call : StoreCall → Database → Database
  run_call (StoreCall.begin_cleanup m) db = (begin_task_cleanup context db m).1
  run_call (StoreCall.begin_discard m) db = (begin_task_discard context db m).1
  run_call (StoreCall.record_release m) db =
      (settle db (record_task_cleanup_host_release context db m)).1
  run_call (StoreCall.authorize_removal m) db =
      (settle db (authorize_task_cleanup_removal context db m)).1
  run_call (StoreCall.complete c) db = (complete_task_cleanup context db c).1

  advance-Follows :
      (call : StoreCall) (db : Database) (change : StageChange)
      (answer : Stored (TaskCleanupRecord × Database))
      → change.operation_id ≡ operation_of call
      → ((stage : CleanupStage)
          → cleanup_stage_allowed stage change.from ≡ true
          → Permits call (some stage) (some change.target))
      → advance_task_cleanup context db change ≡ answer
      → Follows call (stages db) (stages (settle db answer).1)
  unfolding settle
  advance-Follows call db change (ok (row, after)) named permitted h =
      Advanced-Follows call db after change row named permitted
        (advance_task_cleanup-Advanced context db change row after h)
  advance-Follows call db change (err e) named permitted h =
      same_rows-Follows call db (settle {A = TaskCleanupRecord} db (err e)).1 refl

  -- Whatever the store holds, each of the five calls, refused or not, changes the stage of its own
  -- operation at most, and only so: a cleanup enters prepared, a discard enters prepared or without
  -- a managed run, and neither does where the operation has a stage; the release is recorded only
  -- from prepared, the removal is authorized only from released or without a managed run, and the
  -- operation completes only from authorized.
  pub store_call-Follows :
      (db : Database) (call : StoreCall) → Follows call (stages db) (stages (run_call call db))
  unfolding record_task_cleanup_host_release authorize_task_cleanup_removal
  store_call-Follows db (StoreCall.begin_cleanup m) =
      GateAnswer-Follows (StoreCall.begin_cleanup m) false db (begin_task_cleanup context db m)
        (first_cleanup m) (begin_task_cleanup-GateAnswer context db m)
  store_call-Follows db (StoreCall.begin_discard m) =
      GateAnswer-Follows (StoreCall.begin_discard m) true db (begin_task_discard context db m)
        (first_discard m) (begin_task_discard-GateAnswer context db m)
  store_call-Follows db (StoreCall.record_release m) =
      advance-Follows (StoreCall.record_release m) db (release_change m) _ refl
        (permitted_release m) refl
  store_call-Follows db (StoreCall.authorize_removal m) =
      advance-Follows (StoreCall.authorize_removal m) db (authorize_change m) _ refl
        (permitted_authorization m) refl
  store_call-Follows db (StoreCall.complete c) =
      Completed-Follows c db (complete_task_cleanup context db c).1
        (complete_task_cleanup-Completed context db c)
