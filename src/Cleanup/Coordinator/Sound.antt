-- ===== src/Cleanup/Coordinator/Sound.antt =====
-- The durable records and the log of the ports agree after every pass of runRemovalStages.
use mathlib.Core.Path.{subst}
use comis_dev_crew.Base.{
  ◌≡◌, sym, ap, ◌∙◌, ◌⊎◌, inl, inr, true, false, List, ◌∷◌, Option, some, In, not-eq-false,
}
use comis_dev_crew.Cleanup.{
  CleanupStage, TaskCleanupRecord, WorkspaceSnapshot, PullRequestDeliveryTruth, receipt_matches,
  no_truth,
}
use comis_dev_crew.Cleanup.Tables.{Database}
use comis_dev_crew.Cleanup.Write.{StoreContext}
use comis_dev_crew.Cleanup.Proof.Laws.{validate_cleanup_proof-IsProved}
use comis_dev_crew.Cleanup.Store.{
  HostReleaseMutation, RemovalAuthorization, release_change, authorize_change, moved_to,
  receipt_differs,
}
use comis_dev_crew.Cleanup.Store.Kept.{RowsKept}
use comis_dev_crew.Cleanup.Store.Laws.{Advanced, find_task_cleanup_record-In}
use comis_dev_crew.Cleanup.Ports.{Event, World}
use comis_dev_crew.Cleanup.Coordinator.{Pass}
use comis_dev_crew.Cleanup.Coordinator.Triples.{Logs}
use comis_dev_crew.Cleanup.Coordinator.Calls.{Extends, Called, SafetySeen}
use comis_dev_crew.Cleanup.History.{Since, RunReleased, Backed, RemovalsAuthorized}
use comis_dev_crew.Cleanup.History.Growth.{
  Suffix, Extends-Suffix, RemovalsAuthorized-Extends, RemovalsAuthorized-rows, StageBacked-grows,
}
use comis_dev_crew.Cleanup.History.Remaining.{
  Replaces, unended-Replaces, from_release, from_authorization, RowsKept-Remains,
}
use comis_dev_crew.Cleanup.History.Authorize.{released-HostFree, pass-Authorized}

-- Every stored record is backed by the log, and every removal in the log was authorized.
pub record Sound {E : Type 0} (w : World E) : Type 0 where
  pub backed : (row : TaskCleanupRecord) → In row w.database.cleanups → Backed row w.log
  pub removals : RemovalsAuthorized w.database.cleanups w.log

-- A record of the store that the log backs, as the coordinator holds one.
pub record Held {E : Type 0} (row : TaskCleanupRecord) (w : World E) : Type 0 where
  pub stored : In row w.database.cleanups
  pub backed : Backed row w.log

-- The answer of a pass: the next record is backed too.
abbrev pub Continues : {E : Type 0} → Pass → World E → Type 0
Continues (Pass.again row) w = Sound w × Held row w
Continues (Pass.finished result) w = Sound w

module _ {E : Type 0} where
  -- The same rows, and more calls that remove nothing.
  pub Sound-Extends :
      (w after : World E)
      → after.database.cleanups ≡ w.database.cleanups
      → Extends w.log after.log
      → Sound w
      → Sound after
  Sound-Extends w after rows calls sound = record {
    backed = λ row m.
        StageBacked-grows row w.log after.log (Extends-Suffix w.log after.log calls) row.stage
          (sound.backed row (subst (In row) rows m));
    removals =
        subst (λ rows'. RemovalsAuthorized rows' after.log) (sym rows)
          (RemovalsAuthorized-Extends w.log after.log calls sound.removals);
  }

  pub Sound-Called : (w after : World E) → Called w after → Sound w → Sound after
  Sound-Called w after called =
      Sound-Extends w after (ap (λ (d : Database). d.cleanups) called.database) called.extends

  pub Sound-same :
      (w after : World E)
      → after.database.cleanups ≡ w.database.cleanups
      → after.log ≡ w.log
      → Sound w
      → Sound after
  Sound-same w after rows same =
      Sound-Extends w after rows (subst (Extends w.log) (sym same) Extends.stays)

  -- A new or changed row that is backed.
  pub Sound-row :
      (w after : World E) (old : Option TaskCleanupRecord) (row : TaskCleanupRecord)
      → after.log ≡ w.log
      → RowsKept w.database after.database old row
      → Replaces old row
      → Backed row w.log
      → Sound w
      → Sound after × Held row after
  Sound-row w after old row same kept replaces backed sound = (
    record {
      backed = λ x m. elim (kept.each x m) [
        | inl old' ↦ subst (Backed x) (sym same) (sound.backed x old')
        | inr new ↦ subst (λ r. Backed r after.log) (sym new) (subst (Backed row) (sym same) backed)
      ];
      removals = subst (RemovalsAuthorized after.database.cleanups) (sym same) (
          RemovalsAuthorized-rows
            (λ r. RowsKept-Remains w.database after.database old row r kept replaces) w.log
            sound.removals);
    },
    record {
      stored = find_task_cleanup_record-In after.database row.operation_id row kept.own;
      backed = subst (Backed row) (sym same) backed;
    },
  )

  -- A stored row that is answered as it is.
  pub Sound-found :
      (w after : World E) (row : TaskCleanupRecord)
      → In row w.database.cleanups
      → after.database.cleanups ≡ w.database.cleanups
      → after.log ≡ w.log
      → Sound w
      → Sound after × Held row after
  Sound-found w after row m rows same sound = (
    Sound-same w after rows same sound,
    record {
      stored = subst (In row) (sym rows) m;
      backed = subst (Backed row) (sym same) (sound.backed row m);
    },
  )

-- The two stage changes of the store, after the calls of their pass.
module _ {E : Type 0} (w after : World E) (row : TaskCleanupRecord) where
  pub released-Sound :
      (mutation : HostReleaseMutation) (rest : List Event)
      → w.log ≡ Event.run_released mutation.receipt ∷ rest
      → after.log ≡ w.log
      → Advanced w.database (release_change mutation) after.database row
      → Sound w
      → Sound after × Held row after
  released-Sound mutation rest logged same (Advanced.replayed m stage rows) sound =
      Sound-found w after row m rows same sound
  released-Sound mutation rest logged same (Advanced.moved old moves e kept) sound =
      Sound-row w after (some old) row same kept
        (let (a, c) = from_release old.stage moves.allowed in unended-Replaces old row a c)
        (subst (λ r. Backed r w.log) (sym e)
          (subst (Since (RunReleased (moved_to old CleanupStage.host_released mutation.snapshot)))
            (sym logged) (Since.now (RunReleased.run_released (acknowledged moves.acknowledged)))))
        sound
    where
      acknowledged :
          receipt_differs old (some mutation.receipt) ≡ false
          → receipt_matches
              (moved_to old CleanupStage.host_released mutation.snapshot)
              mutation.receipt
            ≡ true
      acknowledged h = unfold receipt_matches in not-eq-false _ h

  pub authorized-Sound :
      (context : StoreContext) (asked : TaskCleanupRecord) (mutation : RemovalAuthorization)
      (start detached : World E)
      → Sound start
      → start.database ≡ w.database
      → detached.log ≡ Event.attachment_released asked.task_handle ∷ start.log
      → SafetySeen context asked detached mutation.snapshot mutation.truth w
      → after.log ≡ w.log
      → Advanced w.database (authorize_change mutation) after.database row
      → Sound w
      → Sound after × Held row after
  authorized-Sound context asked mutation start detached began stored logged seen same
        (Advanced.replayed m stage rows) sound =
      Sound-found w after row m rows same sound
  authorized-Sound context asked mutation start detached began stored logged seen same
        (Advanced.moved old moves e kept) sound =
      Sound-row w after (some old) row same kept
        (let (a, c) = from_authorization old.stage moves.allowed in unended-Replaces old row a c)
        (subst (λ r. Backed r w.log) (sym e)
          (pass-Authorized context asked old mutation.snapshot mutation.truth start.log w.log
            seen.fits
            (validate_cleanup_proof-IsProved old mutation.snapshot mutation.truth moves.proved)
            (released-HostFree old start.log moves.allowed moves.absent (
              began.backed old
                (subst (λ (d : Database). In old d.cleanups) (sym stored) moves.stored)))
            (shape seen.logged)))
        sound
    where
      shape :
          ((w.log ≡ Event.inspected mutation.snapshot ∷ detached.log) × (mutation.truth ≡ no_truth))
            ⊎ (w.log
                ≡ Event.verified mutation.truth ∷ Event.inspected mutation.snapshot ∷ detached.log)
          → ((w.log
                ≡ Event.inspected mutation.snapshot
                  ∷ Event.attachment_released asked.task_handle
                  ∷ start.log)
              × (mutation.truth ≡ no_truth))
            ⊎ (w.log
                ≡ Event.verified mutation.truth
                  ∷ Event.inspected mutation.snapshot
                  ∷ Event.attachment_released asked.task_handle
                  ∷ start.log)
      shape (inl (l, nothing)) =
          inl (l ∙ ap (λ rest. Event.inspected mutation.snapshot ∷ rest) logged, nothing)
      shape (inr l) = inr (
          l
          ∙ ap (λ rest. Event.verified mutation.truth ∷ Event.inspected mutation.snapshot ∷ rest)
              logged)

pub Sound-Logs : {E : Type 0} (w after : World E) → Logs w w.log after → Sound w → Sound after
Sound-Logs w after l = Sound-same w after (ap (λ (d : Database). d.cleanups) l.database) l.logged

pub SafetySeen-Called :
    {E : Type 0} (context : StoreContext) (row : TaskCleanupRecord) (w after : World E)
    (snapshot : WorkspaceSnapshot) (truth : PullRequestDeliveryTruth)
    → SafetySeen context row w snapshot truth after
    → Called w after
SafetySeen-Called context row w after snapshot truth safety = record {
  database = safety.database;
  extends = elim safety.logged [
    | inl (l, nothing) ↦ subst (Extends w.log) (sym l) (Extends.inspects Extends.stays)
    | inr l ↦ subst (Extends w.log) (sym l) (Extends.verifies (Extends.inspects Extends.stays))
  ];
}

-- A reading of the clock in between.
pub SafetySeen-Logs :
    {E : Type 0} (context : StoreContext) (row : TaskCleanupRecord) (w seen after : World E)
    (snapshot : WorkspaceSnapshot) (truth : PullRequestDeliveryTruth)
    → SafetySeen context row w snapshot truth seen
    → Logs seen seen.log after
    → SafetySeen context row w snapshot truth after
SafetySeen-Logs context row w seen after snapshot truth safety l = record {
  fits = safety.fits;
  database = l.database ∙ safety.database;
  logged = elim safety.logged [
    | inl (same, nothing) ↦ inl (l.logged ∙ same, nothing)
    | inr same ↦ inr (l.logged ∙ same)
  ];
}

-- One more call, where the removals of the longer log are authorized.
pub Sound-more :
    {E : Type 0} (w after : World E) (event : Event)
    → Logs w (event ∷ w.log) after
    → RemovalsAuthorized w.database.cleanups (event ∷ w.log)
    → Sound w
    → Sound after
Sound-more w after event l removals sound = record {
  backed = λ row m.
      StageBacked-grows row w.log after.log
        (subst (Suffix w.log) (sym l.logged) (Suffix.more Suffix.whole)) row.stage
        (sound.backed row (subst (λ (d : Database). In row d.cleanups) l.database m));
  removals =
      subst (λ (d : Database). RemovalsAuthorized d.cleanups after.log) (sym l.database)
        (subst (RemovalsAuthorized w.database.cleanups) (sym l.logged) removals);
}
