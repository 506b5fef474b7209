-- ===== src/Scheduler/Derive.antt =====
-- The aggregate state: deriveInitiativeState and its helpers of
-- internal/application/initiative_scheduler.go. A map of states that is only tested is the test.
pub mod Laws
use comis_dev_crew.Base.{
  Bool, true, false, not, ◌&&◌, ◌||◌, List, [], ◌∷◌, if◌then◌else◌, all, any, is_empty,
}
use comis_dev_crew.Text.{Text, text_eq}
use comis_dev_crew.Lifecycle.{TaskState, same_state}
use comis_dev_crew.Initiative.{DevelopmentInitiative, InitiativeState}
use comis_dev_crew.Scheduler.{InitiativeScheduleReason, InitiativeTaskSchedule}

-- `counts[state] > 0`
unfoldable pub some_in_state : TaskState → List InitiativeTaskSchedule → Bool
unfolding text_eq
some_in_state state decisions = any (λ decision. same_state decision.state state) decisions

unfoldable pub all_task_states : List InitiativeTaskSchedule → List TaskState → Bool
unfolding text_eq
all_task_states decisions allowed =
    not (is_empty decisions)
    && all (λ decision. any (λ state. same_state decision.state state) allowed) decisions

-- The state of the first decision for the task; the empty state where there is none.
unfoldable pub task_state_in_schedule : List InitiativeTaskSchedule → Text → TaskState
task_state_in_schedule [] handle = TaskState.other []
task_state_in_schedule (decision ∷ decisions) handle =
    let rest = task_state_in_schedule decisions handle in
    if text_eq decision.task_handle handle then decision.state else rest

abbrev is_queued : InitiativeScheduleReason → Bool
is_queued InitiativeScheduleReason.resource_queued = true
is_queued _ = false

abbrev is_progress_state : TaskState → Bool
is_progress_state TaskState.launching = true
is_progress_state TaskState.working = true
is_progress_state TaskState.awaiting_decision = true
is_progress_state TaskState.paused = true
is_progress_state TaskState.delivering = true
is_progress_state _ = false

unfoldable pub has_initiative_progress : List InitiativeTaskSchedule → Bool
has_initiative_progress decisions =
    any
      (λ decision.
        decision.launchable || is_queued decision.reason || is_progress_state decision.state)
      decisions

abbrev is_held : InitiativeScheduleReason → Bool
is_held InitiativeScheduleReason.dependency_blocked = true
is_held InitiativeScheduleReason.contract_stale = true
is_held InitiativeScheduleReason.integration_held = true
is_held _ = false

unfoldable pub initiative_schedule_held : List InitiativeTaskSchedule → Bool
initiative_schedule_held decisions = any (λ decision. is_held decision.reason) decisions

-- The states that the first switch returns as they are.
abbrev pub is_settled : InitiativeState → Bool
is_settled InitiativeState.preparing = true
is_settled InitiativeState.unknown = true
is_settled InitiativeState.delivered = true
is_settled InitiativeState.failed = true
is_settled InitiativeState.cancelled = true
is_settled _ = false

abbrev pub is_closed_state : InitiativeState → Bool
is_closed_state InitiativeState.cancelled = true
is_closed_state InitiativeState.failed = true
is_closed_state _ = false

abbrev pub is_integrating_state : TaskState → Bool
is_integrating_state TaskState.launching = true
is_integrating_state TaskState.working = true
is_integrating_state TaskState.awaiting_decision = true
is_integrating_state TaskState.paused = true
is_integrating_state _ = false

abbrev pub is_validating_state : TaskState → Bool
is_validating_state TaskState.validating = true
is_validating_state _ = false

abbrev pub finished_states : List TaskState
finished_states = TaskState.delivered ∷ TaskState.cleaned ∷ []

abbrev pub candidate_states : List TaskState
candidate_states =
    TaskState.candidate_complete ∷ TaskState.delivering ∷ TaskState.delivered
    ∷ TaskState.cleanup_held ∷ TaskState.cleaned ∷ []

-- What follows the switch on the state of the integration owner.
unfoldable pub derive_from_members : List InitiativeTaskSchedule → InitiativeState
derive_from_members decisions =
    if some_in_state TaskState.validating decisions
    then InitiativeState.validating
    else if all_task_states decisions candidate_states
    then InitiativeState.candidate_complete
    else if has_initiative_progress decisions
    then InitiativeState.active
    else if some_in_state TaskState.failed decisions
    then InitiativeState.failed
    else if initiative_schedule_held decisions || some_in_state TaskState.blocked decisions
    then InitiativeState.blocked
    else InitiativeState.active

unfoldable pub derive_initiative_state :
    DevelopmentInitiative → List InitiativeTaskSchedule → InitiativeState
unfolding derive_from_members
derive_initiative_state initiative decisions =
    let owner = task_state_in_schedule decisions initiative.integration_owner_task in
    if is_settled initiative.state
    then initiative.state
    else if some_in_state TaskState.unknown decisions
        || some_in_state TaskState.reconciling decisions
    then InitiativeState.unknown
    else if all_task_states decisions finished_states
    then (if is_closed_state initiative.state then initiative.state else InitiativeState.delivered)
    else if all_task_states decisions (TaskState.cancelled ∷ TaskState.cleaned ∷ [])
    then InitiativeState.cancelled
    else if is_validating_state owner
    then InitiativeState.validating
    else if is_integrating_state owner
    then InitiativeState.integrating
    else derive_from_members decisions
