-- ===== src/Cleanup/History/Growth.antt =====
-- What stood in a log still stands in a longer one, and does not read the stage of a record.
use comis_dev_crew.Base.{◌≡◌, refl, inl, inr, List, ◌∷◌}
use comis_dev_crew.Cleanup.{CleanupStage, TaskCleanupRecord, receipt_matches, has_no_run}
use comis_dev_crew.Cleanup.Proof.{snapshot_of_record, truth_matches}
use comis_dev_crew.Cleanup.Complete.{completed_row}
use comis_dev_crew.Cleanup.Ports.{Event}
use comis_dev_crew.Cleanup.Coordinator.Calls.{Extends}
use comis_dev_crew.Cleanup.History.{
  Since, Since-map, RunReleased, HostFree, Detached, Reinspected, Reverified, DeliveryProved,
  Authorized, StageBacked, RemovalsAuthorized, Remains,
}

-- The log with more calls of any kind.
pub data Suffix (log : List Event) : List Event → Type 0 where
  whole : Suffix log log
  more : {event : Event} {longer : List Event} → Suffix log longer → Suffix log (event ∷ longer)

pub Extends-Suffix : (log longer : List Event) → Extends log longer → Suffix log longer
Extends-Suffix log longer Extends.stays = Suffix.whole
Extends-Suffix log longer (Extends.inspects {longer = l} e) = Suffix.more (Extends-Suffix log l e)
Extends-Suffix log longer (Extends.verifies {longer = l} e) = Suffix.more (Extends-Suffix log l e)
Extends-Suffix log longer (Extends.releases {longer = l} e) = Suffix.more (Extends-Suffix log l e)
Extends-Suffix log longer (Extends.detaches {longer = l} e) = Suffix.more (Extends-Suffix log l e)

pub Since-Suffix :
    {P : List Event → Type 0} (log longer : List Event)
    → Suffix log longer
    → Since P log
    → Since P longer
Since-Suffix log longer Suffix.whole s = s
Since-Suffix log longer (Suffix.more {longer = l} e) s = Since.before_that (Since-Suffix log l e s)

pub RemovalsAuthorized-Extends :
    {rows : List TaskCleanupRecord} (log longer : List Event)
    → Extends log longer
    → RemovalsAuthorized rows log
    → RemovalsAuthorized rows longer
RemovalsAuthorized-Extends log longer Extends.stays s = s
RemovalsAuthorized-Extends log longer (Extends.inspects {longer = l} e) s =
    RemovalsAuthorized.other refl (RemovalsAuthorized-Extends log l e s)
RemovalsAuthorized-Extends log longer (Extends.verifies {longer = l} e) s =
    RemovalsAuthorized.other refl (RemovalsAuthorized-Extends log l e s)
RemovalsAuthorized-Extends log longer (Extends.releases {longer = l} e) s =
    RemovalsAuthorized.other refl (RemovalsAuthorized-Extends log l e s)
RemovalsAuthorized-Extends log longer (Extends.detaches {longer = l} e) s =
    RemovalsAuthorized.other refl (RemovalsAuthorized-Extends log l e s)

-- A change of the rows after which the authorized ones remain.
pub RemovalsAuthorized-rows :
    {rows later : List TaskCleanupRecord}
    → ((row : TaskCleanupRecord)
        → row.stage ≡ CleanupStage.removal_authorized
        → Remains row rows
        → Remains row later)
    → (log : List Event) → RemovalsAuthorized rows log
    → RemovalsAuthorized later log
RemovalsAuthorized-rows keep log RemovalsAuthorized.nothing = RemovalsAuthorized.nothing
RemovalsAuthorized-rows keep log
      (RemovalsAuthorized.removing {log = l} row kind named stage remains authorized s) =
    RemovalsAuthorized.removing row kind named stage (keep row stage remains) authorized
      (RemovalsAuthorized-rows keep l s)
RemovalsAuthorized-rows keep log (RemovalsAuthorized.other {log = l} h s) =
    RemovalsAuthorized.other h (RemovalsAuthorized-rows keep l s)

module _ (row : TaskCleanupRecord) (log longer : List Event) (e : Suffix log longer) where
  pub DeliveryProved-grows : DeliveryProved row log → DeliveryProved row longer
  DeliveryProved-grows (inl discards) = inl discards
  DeliveryProved-grows (inr (inl reports)) = inr (inl reports)
  DeliveryProved-grows (inr (inr confirmed)) = inr (inr (Since-Suffix log longer e confirmed))

  pub Authorized-grows : Authorized row log → Authorized row longer
  Authorized-grows a = record {
    workspace = Since-Suffix log longer e a.workspace;
    delivery = DeliveryProved-grows a.delivery;
  }

  pub StageBacked-grows :
      (stage : CleanupStage) → StageBacked stage row log → StageBacked stage row longer
  StageBacked-grows CleanupStage.host_released b = Since-Suffix log longer e b
  StageBacked-grows CleanupStage.removal_authorized b = Authorized-grows b
  StageBacked-grows CleanupStage.completed b = Authorized-grows b
  StageBacked-grows CleanupStage.prepared b = b
  StageBacked-grows CleanupStage.managed_run_absent b = b
  StageBacked-grows (CleanupStage.other t) b = b

-- The same of the record once it is completed.
module _ (row : TaskCleanupRecord) where
  RunReleased-completed :
      (log : List Event) → RunReleased row log → RunReleased (completed_row row) log
  unfolding receipt_matches
  RunReleased-completed log (RunReleased.run_released h) = RunReleased.run_released h

  HostFree-completed : (log : List Event) → HostFree row log → HostFree (completed_row row) log
  unfolding has_no_run
  HostFree-completed log (inl s) = inl (Since-map RunReleased-completed log s)
  HostFree-completed log (inr h) = inr h

  Detached-completed : (log : List Event) → Detached row log → Detached (completed_row row) log
  Detached-completed log (Detached.detached {log = l} e free) =
      Detached.detached e (HostFree-completed l free)

  Reinspected-completed :
      (log : List Event) → Reinspected row log → Reinspected (completed_row row) log
  unfolding snapshot_of_record
  Reinspected-completed log (Reinspected.reinspected {log = l} e safe s) =
      Reinspected.reinspected e (record { of_record = safe.of_record; settled = safe.settled })
        (Since-map Detached-completed l s)

  Reverified-completed :
      (log : List Event) → Reverified row log → Reverified (completed_row row) log
  unfolding truth_matches
  Reverified-completed log (Reverified.reverified {log = l} h s) =
      Reverified.reverified h (Since-map Reinspected-completed l s)

  pub Authorized-completed :
      (log : List Event) → Authorized row log → Authorized (completed_row row) log
  Authorized-completed log a = record {
    workspace = Since-map Reinspected-completed log a.workspace;
    delivery = delivered a.delivery;
  }
    where
      delivered : DeliveryProved row log → DeliveryProved (completed_row row) log
      delivered (inl discards) = inl discards
      delivered (inr (inl reports)) = inr (inl reports)
      delivered (inr (inr confirmed)) = inr (inr (Since-map Reverified-completed log confirmed))
