-- ===== src/Scheduler/Allocate.antt =====
-- The rounds in which slots are offered: allocateInitiativeCandidates and its helpers of
-- internal/application/initiative_scheduler.go. The two indices of a candidate stand for the
-- pointer to its decision; they are within the lists, since the scheduler made them from these.
pub mod Laws
pub mod Decisions
pub mod Turns
use comis_dev_crew.Base.{
  ℕ, zero, suc, ◌+◌, ◌-◌, Bool, true, false, not, ◌&&◌, ◌||◌, List, [], ◌∷◌, Option, none, some,
  if◌then◌else◌, ltb, leb, length, get_elem?, ℤ, pos, int_less,
}
use comis_dev_crew.Text.{Text}
use comis_dev_crew.Lifecycle.{TaskState}
use comis_dev_crew.Task.{Task}
use comis_dev_crew.Scheduler.{
  InitiativeSchedule, InitiativeTaskSchedule, InitiativeScheduleReason, InitiativeSchedulingLimits,
  SchedulingUsage, consume, profile_limit,
}

pub record SchedulingCandidate : Type 0 where
  pub schedule_index : ℕ
  pub decision_index : ℕ
  pub task : Task

unfoldable pub scheduling_capacity_available :
    Task → InitiativeSchedulingLimits → SchedulingUsage → Bool
scheduling_capacity_available task limits usage =
    int_less (pos usage.host) limits.max_concurrent_tasks
    && (int_less (pos (usage.repositories task.repository_id))
          limits.max_concurrent_tasks_per_repository
        && int_less (pos (usage.profiles task.worker_profile_id))
            (profile_limit limits.worker_profile_limits task.worker_profile_id))

abbrev waits_for_turn : TaskState → Bool
waits_for_turn TaskState.prepared = true
waits_for_turn TaskState.ready = true
waits_for_turn _ = false

-- The members that left the prepared and ready states took a turn each.
unfoldable pub initiative_round_offset : List InitiativeTaskSchedule → ℕ
initiative_round_offset [] = 0
initiative_round_offset (task ∷ tasks) =
    let rest = initiative_round_offset tasks in if waits_for_turn task.state then rest else rest + 1

-- An element changed in place.
unfoldable pub update_at : {A : Type 0} → ℕ → (A → A) → List A → List A
update_at i f [] = []
update_at zero f (x ∷ xs) = f x ∷ xs
update_at (suc i) f (x ∷ xs) = x ∷ update_at i f xs

unfoldable pub decide :
    SchedulingCandidate
    → (InitiativeTaskSchedule → InitiativeTaskSchedule)
    → List InitiativeSchedule
    → List InitiativeSchedule
unfolding update_at
decide candidate change schedules =
    update_at candidate.schedule_index
      (λ schedule. record schedule {
        tasks = update_at candidate.decision_index change schedule.tasks;
      })
      schedules

-- What the rounds change: the decisions and the usage.
pub record Allocation : Type 0 where
  pub schedules : List InitiativeSchedule
  pub usage : SchedulingUsage

-- The body of the inner loop, for one candidate.
unfoldable pub offer : InitiativeSchedulingLimits → SchedulingCandidate → Allocation → Allocation
offer limits candidate allocation =
    if scheduling_capacity_available candidate.task limits allocation.usage
    then record {
      schedules =
          decide candidate (λ decision. record decision { launchable = true }) allocation.schedules;
      usage = consume candidate.task allocation.usage;
    }
    else record allocation {
      schedules =
          decide candidate
            (λ decision. record decision { reason = InitiativeScheduleReason.resource_queued })
            allocation.schedules;
    }

-- The candidates of one initiative, behind its offset.
pub record Lane : Type 0 where
  pub offset : ℕ
  pub candidates : List SchedulingCandidate

-- The candidate of a round: `candidateIndex := round - roundOffsets[initiativeIndex]`, if it is in range.
unfoldable pub candidate_of_round : Lane → ℕ → Option SchedulingCandidate
candidate_of_round lane round =
    if ltb round lane.offset then none else get_elem? lane.candidates (round - lane.offset)

abbrev pub offer_if :
    InitiativeSchedulingLimits → Option SchedulingCandidate → Allocation → Allocation
offer_if limits none allocation = allocation
offer_if limits (some candidate) allocation = offer limits candidate allocation

unfoldable pub allocate_round : InitiativeSchedulingLimits → ℕ → List Lane → Allocation → Allocation
allocate_round limits round [] allocation = allocation
allocate_round limits round (lane ∷ lanes) allocation =
    allocate_round limits round lanes (offer_if limits (candidate_of_round lane round) allocation)

unfoldable pub maximum_round : List Lane → ℕ
maximum_round [] = 0
maximum_round (lane ∷ lanes) =
    let rest = maximum_round lanes in
    let end' = lane.offset + length lane.candidates in if ltb rest end' then end' else rest

-- The outer loop, from a round on, for a number of rounds.
unfoldable pub run_rounds : InitiativeSchedulingLimits → List Lane → ℕ → ℕ → Allocation → Allocation
run_rounds limits lanes round zero allocation = allocation
run_rounds limits lanes round (suc rounds) allocation =
    run_rounds limits lanes (round + 1) rounds (allocate_round limits round lanes allocation)

-- `candidates` has one list for each schedule.
unfoldable pub lanes_of : List InitiativeSchedule → List (List SchedulingCandidate) → List Lane
lanes_of (schedule ∷ schedules) (candidates ∷ more) =
    record { offset = initiative_round_offset schedule.tasks; candidates = candidates }
    ∷ lanes_of schedules more
lanes_of _ _ = []

unfoldable pub allocate_initiative_candidates :
    List InitiativeSchedule
    → List (List SchedulingCandidate)
    → InitiativeSchedulingLimits
    → SchedulingUsage
    → Allocation
allocate_initiative_candidates schedules candidates limits usage =
    let lanes = lanes_of schedules candidates in
    run_rounds limits lanes 0 (maximum_round lanes)
      (record { schedules = schedules; usage = usage })
