-- ===== src/Scheduler/Launch.antt =====
-- Why a ready task may not start: launchDependencyReason and taskPinsCurrentContract of
-- internal/application/initiative_scheduler.go.
pub mod Laws
use comis_dev_crew.Base.{
  Bool, true, false, not, ◌&&◌, ◌||◌, List, [], ◌∷◌, Option, none, some, if◌then◌else◌,
}
use comis_dev_crew.Text.{Text, text_eq, member}
use comis_dev_crew.Lifecycle.{TaskState, satisfies_initiative_dependency}
use comis_dev_crew.Contract.{
  ComponentContractArtifact, ContractArtifactKind, PinnedContract, same_kind,
}
use comis_dev_crew.Task.{Task}
use comis_dev_crew.Initiative.{
  DevelopmentInitiative, InitiativeEdge, is_blocks_validation, is_consumes_artifact,
  is_integrates_after,
}
use comis_dev_crew.Scheduler.{InitiativeScheduleReason}

-- `currentArtifacts[handle]`
unfoldable pub artifact_of :
    Text → List ComponentContractArtifact → Option ComponentContractArtifact
artifact_of handle [] = none
artifact_of handle (artifact ∷ artifacts) =
    let rest = artifact_of handle artifacts in
    if text_eq artifact.artifact_handle handle then some artifact else rest

-- The artifact that a pin names is recorded, current, of the producer, and has the pinned content.
unfoldable pub is_current_pin :
    Text → List Text → PinnedContract → Option ComponentContractArtifact → Bool
is_current_pin producer current_handles pin none = false
is_current_pin producer current_handles pin (some artifact) =
    member pin.artifact_handle current_handles
    && (text_eq artifact.producer_task_handle producer
        && (same_kind artifact.kind pin.kind && text_eq artifact.content_hash pin.content_hash))

-- The loop over the pins: whether a pin of the kind was met, and whether one of them is current.
unfoldable pub pins_current :
    Text
    → ContractArtifactKind
    → List ComponentContractArtifact
    → List Text
    → Bool
    → List PinnedContract
    → Bool × Bool
pins_current producer kind artifacts current_handles pinned [] = (pinned, false)
pins_current producer kind artifacts current_handles pinned (pin ∷ pins) =
    let skipped = pins_current producer kind artifacts current_handles pinned pins in
    let later = pins_current producer kind artifacts current_handles true pins in
    if not (same_kind pin.kind kind)
    then skipped
    else if is_current_pin producer current_handles pin (artifact_of pin.artifact_handle artifacts)
    then (true, true)
    else later

unfoldable pub task_pins_current_contract :
    Task → Text → ContractArtifactKind → List ComponentContractArtifact → List Text → Bool × Bool
task_pins_current_contract task producer kind artifacts current_handles =
    pins_current producer kind artifacts current_handles false task.consumed_contracts

-- `tasks[handle]`: of a missing task the state is empty, which satisfies nothing.
unfoldable pub task_of : Text → List Task → Option Task
task_of handle [] = none
task_of handle (task ∷ tasks) =
    let rest = task_of handle tasks in if text_eq task.handle handle then some task else rest

abbrev pub is_satisfied : Option Task → Bool
is_satisfied none = false
is_satisfied (some task) = satisfies_initiative_dependency task.state

abbrev pub reason_of_pins : Bool × Bool → InitiativeScheduleReason
reason_of_pins (true, false) = InitiativeScheduleReason.contract_stale
reason_of_pins (false, current) = InitiativeScheduleReason.dependency_blocked
reason_of_pins (true, true) = InitiativeScheduleReason.no_reason

-- A reason that is found returns at once; without one the loop goes on.
abbrev pub unless_reason :
    InitiativeScheduleReason → InitiativeScheduleReason → InitiativeScheduleReason
unless_reason InitiativeScheduleReason.no_reason rest = rest
unless_reason reason rest = reason

-- The first loop, over the edges that hand an artifact to the task.
unfoldable pub artifact_reason :
    Task
    → List ComponentContractArtifact
    → List Text
    → List InitiativeEdge
    → InitiativeScheduleReason
artifact_reason task artifacts current_handles [] = InitiativeScheduleReason.no_reason
artifact_reason task artifacts current_handles (edge ∷ edges) =
    let rest = artifact_reason task artifacts current_handles edges in
    if not (text_eq edge.to_task_handle task.handle) || not (is_consumes_artifact edge.kind)
    then rest
    else unless_reason
        (reason_of_pins (
          task_pins_current_contract task edge.from_task_handle edge.required_artifact_kind
            artifacts current_handles))
        rest

-- The second loop, over the edges that order the task behind another.
unfoldable pub order_reason :
    Text → Task → List Task → List InitiativeEdge → InitiativeScheduleReason
order_reason owner task tasks [] = InitiativeScheduleReason.no_reason
order_reason owner task tasks (edge ∷ edges) =
    let rest = order_reason owner task tasks edges in
    if not (text_eq edge.to_task_handle task.handle)
      || is_blocks_validation edge.kind
      || is_consumes_artifact edge.kind
    then rest
    else if is_satisfied (task_of edge.from_task_handle tasks)
    then rest
    else if is_integrates_after edge.kind && text_eq task.handle owner
    then InitiativeScheduleReason.integration_held
    else InitiativeScheduleReason.dependency_blocked

unfoldable pub launch_dependency_reason :
    DevelopmentInitiative
    → Task
    → List Task
    → List ComponentContractArtifact
    → List Text
    → InitiativeScheduleReason
launch_dependency_reason initiative task tasks artifacts current_handles =
    unless_reason (artifact_reason task artifacts current_handles initiative.edges)
      (order_reason initiative.integration_owner_task task tasks initiative.edges)
