-- ===== src/Cleanup/Ports.antt =====
-- The ports of CleanupCoordinator in internal/application/cleanup.go and the actions over them: a
-- state that holds everything outside the service, the database, and a log of the calls, latest
-- first. The context that every call passes on is left out.
use comis_dev_crew.Base.{Bool, List, ◌∷◌, Option, Result, ok, err, Time, if◌then◌else◌}
use comis_dev_crew.Text.{Text}
use comis_dev_crew.Landed.{MergedPullRequest}
use comis_dev_crew.Cleanup.{
  CleanupError, WorkspaceSnapshot, WorkspaceSnapshotRequest, PullRequestDeliveryVerification,
  PullRequestDeliveryTruth, ManagedRunReleaseRequest, ManagedRunReleaseReceipt,
  DeliveredWorkspaceRemoval, CleanupTaskCommand, DiscardTaskCommand,
}
use comis_dev_crew.Cleanup.Tables.{Database}

pub record LandedEvidenceRequest : Type 0 where
  pub repository_id : Text
  pub branch : Text
  pub head_revision : Text

pub record LandedEvidenceTruth : Type 0 where
  pub work_head : Text
  pub available : Bool
  pub reachable_from_remote_refs : List Text
  pub merged_pull_request : Option MergedPullRequest
  pub default_branch_head : Text
  pub default_branch_up_to_date : Bool
  pub default_branch_contains_head : Bool

-- What a call of a port answered, over the state E of everything outside the service.
abbrev pub Port : Type 0 → Type 0 → Type 0 → Type 0
Port E Request Answer = Request → E → Result CleanupError Answer × E

pub record CleanupPorts (E : Type 0) : Type 0 where
  pub inspect_workspace : Port E WorkspaceSnapshotRequest WorkspaceSnapshot
  pub verify_pull_request_delivery : Port E PullRequestDeliveryVerification PullRequestDeliveryTruth
  pub gather_landed_evidence : Option (Port E LandedEvidenceRequest LandedEvidenceTruth)
  pub release_managed_run : Port E ManagedRunReleaseRequest ManagedRunReleaseReceipt
  pub release_runtime_attachment : Port E Text (Unit {0})
  pub remove_delivered_workspace : Port E DeliveredWorkspaceRemoval (Unit {0})
  pub remove_discarded_workspace : Port E DeliveredWorkspaceRemoval (Unit {0})
  pub clock : E → Time × E
  -- json.Marshal of the commands
  pub encode_cleanup : CleanupTaskCommand → Option Text
  pub encode_discard : DiscardTaskCommand → Option Text

-- What a port was asked for or has confirmed. `removing` is the call, `removed` its success.
pub data Event : Type 0 where
  inspected : WorkspaceSnapshot → Event
  verified : PullRequestDeliveryTruth → Event
  run_released : ManagedRunReleaseReceipt → Event
  attachment_released : Text → Event
  removing : Bool → DeliveredWorkspaceRemoval → Event
  removed : DeliveredWorkspaceRemoval → Event

pub record World (E : Type 0) : Type 0 where
  pub environment : E
  pub database : Database
  pub log : List Event

abbrev pub Action : Type 0 → Type 0 → Type 0
Action E A = World E → Result CleanupError A × World E

infixl 5 ◌>>=◌ ◌>>◌
unfoldable pub ◌>>=◌ : {E A B : Type 0} → Action E A → (A → Action E B) → Action E B
◌>>=◌ m next w =
    let (answer, after) = m w in
    elim answer [ ok value ↦ next value after | err e ↦ (err e, after) ]

abbrev pub ◌>>◌ : {E A B : Type 0} → Action E A → Action E B → Action E B
m >> next = m >>= λ _. next

module _ {E : Type 0} where
  abbrev pub pure : {A : Type 0} → A → Action E A
  pure value w = (ok value, w)

  abbrev pub raise : {A : Type 0} → CleanupError → Action E A
  raise e w = (err e, w)

  unfoldable pub raise_if : Bool → CleanupError → Action E (Unit {0})
  raise_if bad e w = (if bad then err e else ok tt, w)

  -- The error of an action, as the caller reports it.
  unfoldable pub reporting : {A : Type 0} → (CleanupError → CleanupError) → Action E A → Action E A
  reporting report m w =
      let (answer, after) = m w in
      elim answer [ ok value ↦ (ok value, after) | err e ↦ (err (report e), after) ]

  -- A call of a port. Its success, if it has an event, is logged.
  unfoldable pub call :
      {Request Answer : Type 0}
      → Port E Request Answer
      → (Answer → List Event → List Event)
      → Request
      → Action E Answer
  call port logged request w =
      let (answer, after) = port request w.environment in
      elim answer [
        | ok value ↦ (ok value, record w { environment = after; log = logged value w.log })
        | err e ↦ (err e, record w { environment = after })
      ]

  abbrev pub note : Event → Action E (Unit {0})
  note event w = (ok tt, record w { log = event ∷ w.log })

  -- A call of the store.
  unfoldable pub store : {A : Type 0} → (Database → Result CleanupError A × Database) → Action E A
  store operation w =
      let (answer, stored) = operation w.database in (answer, record w { database = stored })
