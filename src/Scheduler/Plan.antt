-- ===== src/Scheduler/Plan.antt =====
-- The decisions for one initiative: scheduleOneInitiative of
-- internal/application/initiative_scheduler.go.
pub mod Laws
pub mod Fresh
pub mod States
use comis_dev_crew.Base.{
  ℕ, zero, suc, ◌+◌, Bool, true, false, not, ◌&&◌, ◌||◌, List, [], ◌∷◌, ◌++◌, Option, none, some,
  Result, ok, err, ◌>>◌, ◌>>=◌, refuse, require, if◌then◌else◌, String, sort_by,
}
use comis_dev_crew.Text.{Text, text_eq, text_less, member}
use comis_dev_crew.Lifecycle.{TaskState, same_state}
use comis_dev_crew.Contract.{ComponentContractArtifact}
use comis_dev_crew.Task.{Task}
use comis_dev_crew.Initiative.{DevelopmentInitiative, InitiativeComponent, InitiativeState}
use comis_dev_crew.Scheduler.{InitiativeSchedule, InitiativeTaskSchedule, InitiativeScheduleReason}
use comis_dev_crew.Scheduler.Launch.{launch_dependency_reason, task_of}
use comis_dev_crew.Scheduler.Allocate.{SchedulingCandidate}

-- `InitiativeTaskSchedule{TaskHandle: handle, State: task.State}`, of the member's task.
unfoldable pub member_decision : Text → Text → Option Task → Result String InitiativeTaskSchedule
member_decision handle repository none = err "schedule initiative %q: member task %q is missing"
member_decision handle repository (some task) = do
  require (text_eq task.repository_id repository)
      "schedule initiative %q: member repository differs"
  ok (record {
    task_handle = handle;
    state = task.state;
    launchable = false;
    reason = InitiativeScheduleReason.no_reason;
  })

-- What the two nested loops keep: the keys of memberOwner, which the initiatives share, and the
-- decisions so far.
pub record Members : Type 0 where
  pub owned : List Text
  pub decisions : List InitiativeTaskSchedule

unfoldable pub handles_loop : List Task → Text → List Text → Members → Result String Members
unfolding member_decision
handles_loop tasks repository [] members = ok members
handles_loop tasks repository (handle ∷ handles) members = do
  refuse (member handle members.owned) "schedule initiatives: task %q belongs to both %q and %q"
  decision ← member_decision handle repository (task_of handle tasks)
  handles_loop tasks repository handles
      (record { owned = handle ∷ members.owned; decisions = members.decisions ++ (decision ∷ []) })

unfoldable pub component_loop :
    List Task → List InitiativeComponent → Members → Result String Members
unfolding handles_loop
component_loop tasks [] members = ok members
component_loop tasks (component ∷ components) members = do
  after ← handles_loop tasks component.repository_id component.task_handles members
  component_loop tasks components after

unfoldable pub sorted_decisions : List InitiativeTaskSchedule → List InitiativeTaskSchedule
sorted_decisions = sort_by (λ left right. text_less left.task_handle right.task_handle)

abbrev pub is_active : InitiativeState → Bool
is_active InitiativeState.active = true
is_active _ = false

abbrev pub is_no_reason : InitiativeScheduleReason → Bool
is_no_reason InitiativeScheduleReason.no_reason = true
is_no_reason _ = false

-- The decisions with their reasons, and the candidates.
pub record Offers : Type 0 where
  pub decisions : List InitiativeTaskSchedule
  pub candidates : List SchedulingCandidate

-- What one turn adds in front of the later turns.
abbrev pub add_decision : InitiativeTaskSchedule → Offers → Offers
add_decision decision offers = record offers { decisions = decision ∷ offers.decisions }

abbrev pub add_candidate : SchedulingCandidate → Offers → Offers
add_candidate candidate offers = record offers { candidates = candidate ∷ offers.candidates }

module _ (initiative : DevelopmentInitiative) (tasks : List Task)
    (artifacts : List ComponentContractArtifact) (schedule_index : ℕ) where
  -- The body of the loop over the sorted decisions, for the task of a decision. Every decision has
  -- a task, since it was made from one.
  unfoldable pub decide_member : ℕ → InitiativeTaskSchedule → Option Task → Offers → Offers
  unfolding text_eq
  decide_member decision_index decision none later = add_decision decision later
  decide_member decision_index decision (some task) later =
      let reason =
        launch_dependency_reason initiative task tasks artifacts initiative.contract_artifacts in
      let candidate : SchedulingCandidate = record {
        schedule_index = schedule_index;
        decision_index = decision_index;
        task = task;
      } in
      let decided = add_decision (record decision { reason = reason }) later in
      if not (same_state task.state TaskState.ready) || not (is_active initiative.state)
      then add_decision decision later
      else if is_no_reason reason
      then add_candidate candidate decided
      else decided

  unfoldable pub decide_loop : ℕ → List InitiativeTaskSchedule → Offers
  unfolding decide_member
  decide_loop decision_index [] = record { decisions = []; candidates = [] }
  decide_loop decision_index (decision ∷ decisions) =
      decide_member decision_index decision (task_of decision.task_handle tasks)
        (decide_loop (decision_index + 1) decisions)

  -- The schedule, the candidates, and the keys of memberOwner after the initiative.
  unfoldable pub schedule_one_initiative :
      List Text → Result String (InitiativeSchedule × List SchedulingCandidate × List Text)
  unfolding decide_loop component_loop sorted_decisions
  schedule_one_initiative owned = do
    members ← component_loop tasks initiative.components (record { owned = owned; decisions = [] })
    let offers = decide_loop 0 (sorted_decisions members.decisions)
    ok (
      record {
        initiative_handle = initiative.handle;
        state = InitiativeState.other [];
        tasks = offers.decisions;
      },
      offers.candidates,
      members.owned,
    )
