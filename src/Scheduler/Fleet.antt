-- ===== src/Scheduler/Fleet.antt =====
-- The fleet-wide decision: ScheduleInitiatives of internal/application/initiative_scheduler.go, with
-- the artifact registry of initiative_scheduler_artifacts.go.
pub mod Updates
pub mod Marks
pub mod Laws
use comis_dev_crew.Base.{
  ℕ, zero, suc, ◌+◌, Bool, true, false, not, ◌&&◌, ◌||◌, List, [], ◌∷◌, Option, none, some, Result,
  ok, err, ◌>>◌, ◌>>=◌, refuse, require, if◌then◌else◌, String, sort_by, is_ok, any, all, keep,
  ◌==◌, before,
}
use comis_dev_crew.Text.{Text, text_eq, text_less, member}
use comis_dev_crew.Platform.{Platform}
use comis_dev_crew.Contract.{ComponentContractArtifact, validate_artifact}
use comis_dev_crew.Task.{Task}
use comis_dev_crew.Initiative.{DevelopmentInitiative}
use comis_dev_crew.Initiative.Validate.{validate_initiative}
use comis_dev_crew.Initiative.Stale.{contains_task}
use comis_dev_crew.Scheduler.{
  InitiativeSchedule, InitiativeSchedulingLimits, SchedulingUsage, validate_scheduling_limits,
  index_scheduling_tasks,
}
use comis_dev_crew.Scheduler.Allocate.{SchedulingCandidate, allocate_initiative_candidates}
use comis_dev_crew.Scheduler.Plan.{schedule_one_initiative}
use comis_dev_crew.Scheduler.Derive.{derive_initiative_state}

-- The order by creation, and by handle where two were created at once.
unfoldable pub created_before : DevelopmentInitiative → DevelopmentInitiative → Bool
created_before left right =
    if not (left.created_at.instant == right.created_at.instant)
    then before left.created_at right.created_at
    else text_less left.handle right.handle

unfoldable pub in_creation_order : List DevelopmentInitiative → List DevelopmentInitiative
in_creation_order = sort_by created_before

-- The first loop of indexSchedulingArtifacts.
unfoldable pub unique_initiatives :
    List Text → List DevelopmentInitiative → Result String (Unit {0})
unique_initiatives seen [] = ok tt
unique_initiatives seen (initiative ∷ initiatives) =
    let rest = unique_initiatives (initiative.handle ∷ seen) initiatives in
    do
      refuse (member initiative.handle seen)
          "schedule initiatives: initiative handles must be unique"
      rest

unfoldable pub initiative_of : Text → List DevelopmentInitiative → Option DevelopmentInitiative
initiative_of handle [] = none
initiative_of handle (initiative ∷ initiatives) =
    let rest = initiative_of handle initiatives in
    if text_eq initiative.handle handle then some initiative else rest

unfoldable pub check_producer :
    ComponentContractArtifact → Option DevelopmentInitiative → Result String (Unit {0})
check_producer artifact none =
    err "schedule initiatives: contract artifact belongs to an unknown initiative"
check_producer artifact (some initiative) =
    require (contains_task initiative.components artifact.producer_task_handle)
      "schedule initiatives: contract artifact producer is outside the initiative"

-- One key of the map of maps.
unfoldable pub same_registration : ComponentContractArtifact → ComponentContractArtifact → Bool
same_registration a b =
    text_eq a.initiative_handle b.initiative_handle && text_eq a.artifact_handle b.artifact_handle

-- The second loop, with the artifacts that it has indexed.
unfoldable pub register_artifacts :
    List DevelopmentInitiative
    → List ComponentContractArtifact
    → List ComponentContractArtifact
    → Result String (Unit {0})
unfolding check_producer same_registration
register_artifacts initiatives seen [] = ok tt
register_artifacts initiatives seen (artifact ∷ artifacts) =
    let rest = register_artifacts initiatives (artifact ∷ seen) artifacts in
    do
      require (is_ok (validate_artifact artifact)) "schedule contract artifact %q: %w"
      check_producer artifact (initiative_of artifact.initiative_handle initiatives)
      refuse (any (same_registration artifact) seen)
          "schedule initiatives: contract artifact handles must be unique"
      rest

-- `indexed[handle]`
unfoldable pub artifacts_of : Text → List ComponentContractArtifact → List ComponentContractArtifact
artifacts_of handle artifacts =
    keep (λ artifact. text_eq artifact.initiative_handle handle) artifacts

-- The third loop: every listed handle is registered.
unfoldable pub is_complete : List ComponentContractArtifact → DevelopmentInitiative → Bool
is_complete artifacts initiative =
    all
      (λ handle.
        any (λ artifact. text_eq artifact.artifact_handle handle)
          (artifacts_of initiative.handle artifacts))
      initiative.contract_artifacts

unfoldable pub index_scheduling_artifacts :
    List DevelopmentInitiative → List ComponentContractArtifact → Result String (Unit {0})
unfolding unique_initiatives register_artifacts
index_scheduling_artifacts initiatives artifacts = do
  unique_initiatives [] initiatives
  register_artifacts initiatives [] artifacts
  require (all (is_complete artifacts) initiatives)
      "schedule initiatives: current contract artifact registry is incomplete"

-- One schedule and one list of candidates for each initiative.
pub record FleetPlan : Type 0 where
  pub schedules : List InitiativeSchedule
  pub candidates : List (List SchedulingCandidate)

-- The loop over the initiatives, with the keys of memberOwner.
unfoldable pub plan_loop :
    List Task
    → List ComponentContractArtifact
    → ℕ
    → List Text
    → List DevelopmentInitiative
    → Result String FleetPlan
plan_loop tasks artifacts index owned [] = ok (record { schedules = []; candidates = [] })
plan_loop tasks artifacts index owned (initiative ∷ initiatives) = do
  require (is_ok (validate_initiative initiative)) "schedule initiative %q: %w"
  one ←
      schedule_one_initiative initiative tasks (artifacts_of initiative.handle artifacts) index
        owned
  plan ← plan_loop tasks artifacts (index + 1) one.2 initiatives
  ok (record { schedules = one.0 ∷ plan.schedules; candidates = one.1 ∷ plan.candidates })

-- The last loop: every schedule gets the derived state of its initiative.
unfoldable pub derive_states :
    List DevelopmentInitiative → List InitiativeSchedule → List InitiativeSchedule
derive_states (initiative ∷ initiatives) (schedule ∷ schedules) =
    record schedule { state = derive_initiative_state initiative schedule.tasks }
    ∷ derive_states initiatives schedules
derive_states _ _ = []

unfoldable pub plan_fleet :
    List DevelopmentInitiative
    → List Task
    → List ComponentContractArtifact
    → InitiativeSchedulingLimits
    → SchedulingUsage
    → Result String (List InitiativeSchedule)
plan_fleet initiatives tasks artifacts limits usage = do
  index_scheduling_artifacts (in_creation_order initiatives) artifacts
  plan ← plan_loop tasks artifacts 0 [] (in_creation_order initiatives)
  ok (
      derive_states (in_creation_order initiatives)
        (allocate_initiative_candidates plan.schedules plan.candidates limits usage).schedules)

unfoldable pub schedule_initiatives :
    Platform
    → List DevelopmentInitiative
    → List Task
    → List ComponentContractArtifact
    → InitiativeSchedulingLimits
    → Result String (List InitiativeSchedule)
unfolding plan_fleet
schedule_initiatives platform initiatives tasks artifacts limits = do
  validate_scheduling_limits limits
  indexed ← index_scheduling_tasks platform tasks limits
  plan_fleet initiatives indexed.0 artifacts limits indexed.1
