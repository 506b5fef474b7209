-- ===== src/Tests/Schedules.antt =====
-- The scheduler: launch reasons, rounds, plans and derived states.
use comis_dev_crew.Base.{◌≡◌, ◌≢◌, ◌⊎◌, refl, ok, List, [], ◌∷◌, true, false, pos, In, sort_by}
use comis_dev_crew.Text.{Text, text_eq, ascii, member, text_less}
use comis_dev_crew.Lifecycle.{TaskState}
use comis_dev_crew.Contract.{
  ComponentContractArtifact, ContractArtifactKind, same_kind, artifact_kind_text,
}
use comis_dev_crew.Task.{Task}
use comis_dev_crew.Initiative.{
  DevelopmentInitiative, InitiativeState, is_blocks_validation, is_consumes_artifact,
}
use comis_dev_crew.Scheduler.{
  InitiativeScheduleReason, InitiativeSchedule, InitiativeSchedulingLimits, InitiativeTaskSchedule,
  no_usage,
}
use comis_dev_crew.Scheduler.Launch.{
  launch_dependency_reason, artifact_reason, order_reason, task_pins_current_contract, pins_current,
  is_current_pin, artifact_of, task_of, is_satisfied,
}
use comis_dev_crew.Scheduler.Launch.Laws.{PinsCurrent, launchable_task_dependencies}
use comis_dev_crew.Scheduler.Allocate.{SchedulingCandidate, allocate_initiative_candidates}
use comis_dev_crew.Scheduler.Allocate.Laws.{AreKept, allocation-AreKept}
use comis_dev_crew.Scheduler.Allocate.Turns.{every_candidate-IsDecided}
use comis_dev_crew.Scheduler.Allocate.Decisions.{DecisionAt, IsDecided}
use comis_dev_crew.Scheduler.Plan.{
  schedule_one_initiative, component_loop, handles_loop, member_decision, decide_loop,
  decide_member, sorted_decisions,
}
use comis_dev_crew.Scheduler.Derive.{derive_initiative_state, all_task_states, some_in_state}
use comis_dev_crew.Scheduler.Derive.Laws.{derived_delivery}
use comis_dev_crew.Tests.Samples.{
  sample_initiative, sample_digest, sample_head, task_a, task_b, edge_a_b, at_time, bound_task,
}

abbrev pub schema : ComponentContractArtifact
schema = record {
  artifact_handle = ascii "artifact-one";
  initiative_handle = ascii "initiative-one";
  producer_task_handle = task_a;
  kind = ContractArtifactKind.api_schema;
  content_hash = sample_digest;
  source_revision = sample_head;
  media_type = ascii "application/json";
  size = pos 2;
  produced_at = at_time 3;
  supersedes_artifact_handle = [];
}

-- The second task of the sample initiative, with the schema of the first pinned.
abbrev pub consumer : Task
consumer = record (bound_task TaskState.ready) {
  handle = task_b;
  consumed_contracts =
      record {
        artifact_handle = ascii "artifact-one";
        kind = ContractArtifactKind.api_schema;
        content_hash = sample_digest;
      }
      ∷ [];
}

abbrev pub producer : Task
producer = record (bound_task TaskState.working) { handle = task_a }

abbrev pub shared_initiative : DevelopmentInitiative
shared_initiative = record sample_initiative { contract_artifacts = ascii "artifact-one" ∷ [] }

abbrev pub members : List Task
members = producer ∷ consumer ∷ []

consumer_unblocked :
    launch_dependency_reason shared_initiative consumer members
      (schema ∷ [])
      shared_initiative.contract_artifacts
    ≡ InitiativeScheduleReason.no_reason
unfolding launch_dependency_reason artifact_reason order_reason task_pins_current_contract
    pins_current is_current_pin artifact_of same_kind artifact_kind_text text_eq member
consumer_unblocked = refl

launchable_task_dependencies_example :
    (is_consumes_artifact edge_a_b.kind ≡ true
      → PinsCurrent task_a ContractArtifactKind.api_schema
          (schema ∷ [])
          shared_initiative.contract_artifacts
          consumer.consumed_contracts)
    × (is_consumes_artifact edge_a_b.kind ≡ false
        → is_blocks_validation edge_a_b.kind ≡ false
        → is_satisfied (task_of task_a members) ≡ true)
launchable_task_dependencies_example =
    launchable_task_dependencies shared_initiative consumer members (schema ∷ [])
      shared_initiative.contract_artifacts consumer_unblocked edge_a_b In.here refl

abbrev sample_limits : InitiativeSchedulingLimits
sample_limits = record {
  max_concurrent_tasks = pos 2;
  max_concurrent_tasks_per_repository = pos 1;
  worker_profile_limits = record { profile_id = ascii "worker-one"; limit = pos 1 } ∷ [];
}

abbrev consumer_candidate : SchedulingCandidate
consumer_candidate = record { schedule_index = 0; decision_index = 1; task = consumer }

abbrev pub decision_of : Text → TaskState → InitiativeTaskSchedule
decision_of handle state = record {
  task_handle = handle;
  state = state;
  launchable = false;
  reason = InitiativeScheduleReason.no_reason;
}

abbrev sample_schedule : InitiativeSchedule
sample_schedule = record {
  initiative_handle = ascii "initiative-one";
  state = InitiativeState.other [];
  tasks = decision_of task_a TaskState.working ∷ decision_of task_b TaskState.ready ∷ [];
}

allocation-AreKept_example :
    AreKept sample_limits no_usage
      (allocate_initiative_candidates
        (sample_schedule ∷ [])
        ((consumer_candidate ∷ []) ∷ [])
        sample_limits
        no_usage).usage
allocation-AreKept_example =
    allocation-AreKept sample_limits (sample_schedule ∷ []) ((consumer_candidate ∷ []) ∷ [])
      no_usage

every_candidate-IsDecided_example :
    DecisionAt
      (IsDecided task_b)
      consumer_candidate.schedule_index
      consumer_candidate.decision_index
      (allocate_initiative_candidates
        (sample_schedule ∷ [])
        ((consumer_candidate ∷ []) ∷ [])
        sample_limits
        no_usage).schedules
every_candidate-IsDecided_example =
    every_candidate-IsDecided (sample_schedule ∷ []) ((consumer_candidate ∷ []) ∷ []) sample_limits
      no_usage 0 sample_schedule (consumer_candidate ∷ []) consumer_candidate task_b refl refl
      In.here
      (record {
        schedule = sample_schedule;
        decision = decision_of task_b TaskState.ready;
        placed = refl;
        listed = refl;
        holds = refl;
      })

sample_planned :
    schedule_one_initiative shared_initiative members (schema ∷ []) 0 []
    ≡ ok (sample_schedule, consumer_candidate ∷ [], task_b ∷ task_a ∷ [])
unfolding schedule_one_initiative component_loop handles_loop member_decision decide_loop
    decide_member sorted_decisions sort_by launch_dependency_reason artifact_reason order_reason
    task_pins_current_contract pins_current is_current_pin artifact_of same_kind artifact_kind_text
    text_eq text_less member task_of
sample_planned = refl

abbrev finished : List InitiativeTaskSchedule
finished = decision_of task_a TaskState.delivered ∷ decision_of task_b TaskState.cleaned ∷ []

all_delivered : derive_initiative_state sample_initiative finished ≡ InitiativeState.delivered
unfolding derive_initiative_state all_task_states some_in_state text_eq
all_delivered = refl

derived_delivery_example :
    (finished ≢ [])
    × ((decision : InitiativeTaskSchedule)
        → In decision finished
        → (decision.state ≡ TaskState.delivered) ⊎ (decision.state ≡ TaskState.cleaned))
derived_delivery_example = derived_delivery sample_initiative finished refl all_delivered
