-- ===== src/Cleanup/History.antt =====
-- What has to stand in the log of the ports before a workspace may be removed. The log has the
-- latest call first.
pub mod Growth
pub mod Remaining
pub mod Authorize
use comis_dev_crew.Base.{◌≡◌, ◌⊎◌, Bool, true, false, List, [], ◌∷◌, is_empty, In, ℕ, Option}
use comis_dev_crew.Text.{Text, text_eq}
use comis_dev_crew.Cleanup.{
  CleanupStage, TaskCleanupRecord, WorkspaceSnapshot, PullRequestDeliveryTruth,
  ManagedRunReleaseReceipt, DeliveredWorkspaceRemoval, receipt_matches, has_no_run, is_clean,
}
use comis_dev_crew.Cleanup.Proof.{snapshot_of_record, truth_matches}
use comis_dev_crew.Cleanup.Complete.{completed_row}
use comis_dev_crew.Cleanup.Ports.{Event}
use comis_dev_crew.Cleanup.Coordinator.{removal_of}

-- The log had a suffix with the property at some time.
pub data Since (P : List Event → Type 0) : List Event → Type 0 where
  now : {log : List Event} → P log → Since P log
  before_that : {event : Event} {log : List Event} → Since P log → Since P (event ∷ log)

module _ {P Q : List Event → Type 0} where
  pub Since-map :
      ((log : List Event) → P log → Q log) → (log : List Event) → Since P log → Since Q log
  Since-map f log (Since.now p) = Since.now (f log p)
  Since-map f log (Since.before_that {log = log'} s) = Since.before_that (Since-map f log' s)

-- The host has acknowledged the release that the record asks for.
pub data RunReleased (row : TaskCleanupRecord) : List Event → Type 0 where
  run_released :
      {receipt : ManagedRunReleaseReceipt} {log : List Event}
      → receipt_matches row receipt ≡ true
      → RunReleased row (Event.run_released receipt ∷ log)

-- The host has no run of the task any more: it has been released, or there never was one.
abbrev pub HostFree : TaskCleanupRecord → List Event → Type 0
HostFree row log = Since (RunReleased row) log ⊎ (has_no_run row ≡ true)

-- The runtime attachment was released when the host was free.
pub data Detached (row : TaskCleanupRecord) : List Event → Type 0 where
  detached :
      {handle : Text} {log : List Event}
      → handle ≡ row.task_handle
      → HostFree row log
      → Detached row (Event.attachment_released handle ∷ log)

-- A snapshot that a removal may rest on: of the worktree of the record and, unless the operator
-- discards the work, clean and at the recorded head.
pub record SafeSnapshot (row : TaskCleanupRecord) (snapshot : WorkspaceSnapshot) : Type 0 where
  pub of_record : snapshot_of_record row snapshot ≡ true
  pub settled :
      (row.discard ≡ true)
      ⊎ ((text_eq snapshot.head_revision row.head_revision ≡ true)
          × (is_clean snapshot.cleanliness ≡ true))

-- The workspace was inspected after the attachment was gone, and the record kept that snapshot.
pub data Reinspected (row : TaskCleanupRecord) : List Event → Type 0 where
  reinspected :
      {snapshot : WorkspaceSnapshot} {log : List Event}
      → snapshot ≡ row.snapshot
      → SafeSnapshot row snapshot
      → Since (Detached row) log
      → Reinspected row (Event.inspected snapshot ∷ log)

-- The forge confirmed the pull request, its head and its required checks after that inspection.
pub data Reverified (row : TaskCleanupRecord) : List Event → Type 0 where
  reverified :
      {truth : PullRequestDeliveryTruth} {log : List Event}
      → truth_matches row truth ≡ true
      → Since (Reinspected row) log
      → Reverified row (Event.verified truth ∷ log)

-- The delivery is proved: not asked for in a discard, a sealed report, or a confirmed pull request.
abbrev pub DeliveryProved : TaskCleanupRecord → List Event → Type 0
DeliveryProved row log =
    (row.discard ≡ true)
    ⊎ ((is_empty row.pull_request_id ≡ true) × (is_empty row.report_artifact_hash ≡ false))
    ⊎ Since (Reverified row) log

pub record Authorized (row : TaskCleanupRecord) (log : List Event) : Type 0 where
  pub workspace : Since (Reinspected row) log
  pub delivery : DeliveryProved row log

-- What the stage of a stored record says about the log.
abbrev pub StageBacked : CleanupStage → TaskCleanupRecord → List Event → Type 0
StageBacked CleanupStage.host_released row log = Since (RunReleased row) log
StageBacked CleanupStage.removal_authorized row log = Authorized row log
StageBacked CleanupStage.completed row log = Authorized row log
StageBacked _ row log = Unit

abbrev pub Backed : TaskCleanupRecord → List Event → Type 0
Backed row log = StageBacked row.stage row log

abbrev pub is_removing : Event → Bool
is_removing (Event.removing discard removal) = true
is_removing _ = false

-- The store still holds the record, as it was or completed since.
abbrev pub Remains : TaskCleanupRecord → List TaskCleanupRecord → Type 0
Remains row rows = In row rows ⊎ In (completed_row row) rows

-- Every call that removes a workspace was for a record of the store whose removal was authorized,
-- with what that needs in the log before the call.
pub data RemovalsAuthorized (rows : List TaskCleanupRecord) : List Event → Type 0 where
  nothing : RemovalsAuthorized rows []
  removing :
      {discard : Bool} {removal : DeliveredWorkspaceRemoval} {log : List Event}
      (row : TaskCleanupRecord)
      → discard ≡ row.discard
      → removal ≡ removal_of row
      → row.stage ≡ CleanupStage.removal_authorized
      → Remains row rows
      → Authorized row log
      → RemovalsAuthorized rows log
      → RemovalsAuthorized rows (Event.removing discard removal ∷ log)
  other :
      {event : Event} {log : List Event}
      → is_removing event ≡ false
      → RemovalsAuthorized rows log
      → RemovalsAuthorized rows (event ∷ log)
