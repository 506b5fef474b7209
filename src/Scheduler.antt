-- ===== src/Scheduler.antt =====
-- The scheduler of internal/application/initiative_scheduler.go and initiative_scheduler_usage.go:
-- its limits, the usage of the fleet, and the decisions. Counts of workers are natural numbers, as
-- they start at zero, or at a validated number, and only go up; an error that wraps another keeps
-- its text, with %q and %w for what it prints.
pub mod Launch
pub mod Allocate
pub mod Plan
pub mod Derive
pub mod Fleet
use comis_dev_crew.Base.{
  ℕ, ◌+◌, Bool, true, false, not, ◌&&◌, ◌||◌, List, [], ◌∷◌, Result, ok, err, ◌>>◌, ◌>>=◌, refuse,
  require, if◌then◌else◌, ℤ, pos, negsuc, not_positive, exceeds, int_less, is_empty, is_ok, length,
  ltb, String, any, Option, none, some,
}
use comis_dev_crew.Text.{Text, text_eq}
use comis_dev_crew.Field.{validate_authority_reference}
use comis_dev_crew.Platform.{Platform}
use comis_dev_crew.Lifecycle.{TaskState}
use comis_dev_crew.Task.{Task}
use comis_dev_crew.Task.Validate.{validate_task}
use comis_dev_crew.Initiative.{InitiativeState}

pub data InitiativeScheduleReason : Type 0 where
  no_reason dependency_blocked resource_queued contract_stale integration_held :
      InitiativeScheduleReason

-- An entry of the map WorkerProfileLimits.
pub record ProfileLimit : Type 0 where
  pub profile_id : Text
  pub limit : ℤ

pub record InitiativeSchedulingLimits : Type 0 where
  pub max_concurrent_tasks : ℤ
  pub max_concurrent_tasks_per_repository : ℤ
  pub worker_profile_limits : List ProfileLimit

-- `limits.WorkerProfileLimits[profile]`: a missing key reads as zero.
unfoldable pub profile_limit : List ProfileLimit → Text → ℤ
profile_limit [] profile = pos 0
profile_limit (entry ∷ entries) profile =
    let rest = profile_limit entries profile in
    if text_eq entry.profile_id profile then entry.limit else rest

unfoldable pub is_configured : List ProfileLimit → Text → Bool
is_configured entries profile = any (λ entry. text_eq entry.profile_id profile) entries

unfoldable pub validate_scheduling_limits : InitiativeSchedulingLimits → Result String (Unit {0})
validate_scheduling_limits limits = do
  refuse
      (not_positive limits.max_concurrent_tasks
        || exceeds limits.max_concurrent_tasks 1024
        || not_positive limits.max_concurrent_tasks_per_repository
        || int_less limits.max_concurrent_tasks limits.max_concurrent_tasks_per_repository
        || is_empty limits.worker_profile_limits
        || ltb 64 (length limits.worker_profile_limits))
      "schedule initiatives: concurrency limits are invalid"
  refuse
      (any
        (λ entry.
          not (is_ok (validate_authority_reference "workerProfileId" entry.profile_id))
          || not_positive entry.limit
          || int_less limits.max_concurrent_tasks entry.limit)
        limits.worker_profile_limits)
      "schedule initiatives: worker profile limit is invalid"

pub record InitiativeTaskSchedule : Type 0 where
  pub task_handle : Text
  pub state : TaskState
  pub launchable : Bool
  pub reason : InitiativeScheduleReason

pub record InitiativeSchedule : Type 0 where
  pub initiative_handle : Text
  pub state : InitiativeState
  pub tasks : List InitiativeTaskSchedule

-- The maps of counts are functions; a missing key reads as zero.
pub record SchedulingUsage : Type 0 where
  pub host : ℕ
  pub repositories : Text → ℕ
  pub profiles : Text → ℕ

-- `counts[key]++`
unfoldable pub count_one : Text → (Text → ℕ) → Text → ℕ
count_one key counts other = if text_eq key other then counts other + 1 else counts other

-- The three increments for one worker.
unfoldable pub consume : Task → SchedulingUsage → SchedulingUsage
consume task usage = record {
  host = usage.host + 1;
  repositories = count_one task.repository_id usage.repositories;
  profiles = count_one task.worker_profile_id usage.profiles;
}

unfoldable pub task_consumes_worker : TaskState → Bool
task_consumes_worker TaskState.launching = true
task_consumes_worker TaskState.working = true
task_consumes_worker TaskState.awaiting_decision = true
task_consumes_worker TaskState.blocked = true
task_consumes_worker TaskState.paused = true
task_consumes_worker TaskState.reconciling = true
task_consumes_worker TaskState.unknown = true
task_consumes_worker _ = false

abbrev pub no_usage : SchedulingUsage
no_usage = record { host = 0; repositories = λ key. 0; profiles = λ key. 0 }

-- The loop of indexSchedulingTasks over the indexed tasks, from its last turn to its first.
unfoldable pub usage_of : List Task → SchedulingUsage
usage_of [] = no_usage
usage_of (task ∷ tasks) =
    let rest = usage_of tasks in if task_consumes_worker task.state then consume task rest else rest

-- The map of tasks by handle is the list of the tasks, whose handles are unique; `seen` holds
-- the tasks before.
unfoldable pub index_loop :
    Platform → InitiativeSchedulingLimits → List Task → List Task → Result String (Unit {0})
index_loop platform limits seen [] = ok tt
index_loop platform limits seen (task ∷ tasks) =
    let rest = index_loop platform limits (task ∷ seen) tasks in
    do
      require (is_ok (validate_task platform task)) "schedule task %q: %w"
      refuse (any (λ before. text_eq before.handle task.handle) seen)
          "schedule initiatives: task handles must be unique"
      require (is_configured limits.worker_profile_limits task.worker_profile_id)
          "schedule initiatives: task worker profile has no concurrency limit"
      rest

unfoldable pub index_scheduling_task_set :
    Platform → List Task → InitiativeSchedulingLimits → Result String (List Task)
unfolding index_loop
index_scheduling_task_set platform tasks limits = do index_loop platform limits [] tasks; ok tasks

unfoldable pub index_scheduling_tasks :
    Platform → List Task → InitiativeSchedulingLimits → Result String (List Task × SchedulingUsage)
index_scheduling_tasks platform tasks limits = do
  indexed ← index_scheduling_task_set platform tasks limits
  ok (indexed, usage_of indexed)
