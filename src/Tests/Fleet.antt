-- ===== src/Tests/Fleet.antt =====
-- A whole run of the scheduler: the first member works, and the second may start beside it.
use mathlib.Core.Bool.{xor}
use comis_dev_crew.Base.{◌≡◌, refl, ok, [], ◌∷◌, true, pos, In, sort_by}
use comis_dev_crew.Text.{
  text_eq, ascii, has_shape, is_lower, is_upper, is_digit, has_class, is_lower_hex, member,
  text_less,
}
use comis_dev_crew.Text.Utf8.{is_blank, is_control, is_space, runes, valid_utf8}
use comis_dev_crew.Platform.{format_int, quote}
use comis_dev_crew.Field.{
  validate_opaque_id, opaque_id_pattern, validate_authority_reference, authority_pattern,
  validate_revision, revision_pattern, sha256_hex_pattern, validate_bounded_safe_text,
  validate_safe_text, validate_sha256, validate_times, validate_repository_id, validate_task_handle,
  media_type_pattern,
}
use comis_dev_crew.Contract.{
  valid_artifact_kind, artifact_kind_text, is_no_kind, same_kind, validate_pin, validate_artifact,
  validate_contract_artifact_handle,
}
use comis_dev_crew.Lifecycle.{
  TaskState, valid_state, allows_unbound_preparation, valid_shape, mode_text, shape_text,
  valid_for_shape, valid_mode,
}
use comis_dev_crew.Task.Brief.{
  validate_contract_text_list, brief_contracts, brief_field, brief_items, brief_list, brief_pins,
  brief_protocol, brief_revision_digest, brief_text, pins_loop, render_brief_content, sorted_pins,
  text_list_loop, validate_brief_inputs, validate_consumed_contracts,
}
use comis_dev_crew.Task.Validate.{
  validate_task, validate_identity, validate_host_binding, validate_lifecycle,
  validate_pinned_brief, validate_delivery, validate_counters,
}
use comis_dev_crew.Initiative.{
  InitiativeState, task_handles_of, valid_initiative_state, valid_edge_kind,
}
use comis_dev_crew.Initiative.Cycle.{
  search_cycle, has_cycle, visit_roots, visit, scan, successors, set_mark,
}
use comis_dev_crew.Initiative.Validate.{
  validate_initiative, validate_initiative_fields, validate_base_revisions, validate_components,
  validate_edges, validate_contract_artifacts, bases_loop, components_loop, members_loop,
  check_component, edges_loop, check_edge, artifacts_loop,
}
use comis_dev_crew.Initiative.Stale.{contains_task}
use comis_dev_crew.Scheduler.{
  InitiativeSchedule, InitiativeSchedulingLimits, InitiativeTaskSchedule,
  validate_scheduling_limits, index_scheduling_tasks, index_scheduling_task_set, index_loop,
  is_configured, usage_of, consume, count_one, task_consumes_worker, profile_limit,
}
use comis_dev_crew.Scheduler.Launch.{
  launch_dependency_reason, artifact_reason, order_reason, task_pins_current_contract, pins_current,
  is_current_pin, artifact_of, task_of,
}
use comis_dev_crew.Scheduler.Allocate.{
  candidate_of_round, maximum_round, allocate_initiative_candidates, run_rounds, allocate_round,
  offer, decide, update_at, scheduling_capacity_available, initiative_round_offset, lanes_of,
}
use comis_dev_crew.Scheduler.Plan.{
  schedule_one_initiative, component_loop, handles_loop, member_decision, decide_loop,
  decide_member, sorted_decisions,
}
use comis_dev_crew.Scheduler.Derive.{
  derive_initiative_state, derive_from_members, all_task_states, some_in_state,
  task_state_in_schedule, has_initiative_progress, initiative_schedule_held,
}
use comis_dev_crew.Scheduler.Fleet.{
  schedule_initiatives, plan_fleet, plan_loop, derive_states, index_scheduling_artifacts,
  is_complete, artifacts_of, register_artifacts, check_producer, same_registration, initiative_of,
  unique_initiatives, in_creation_order, created_before,
}
use comis_dev_crew.Scheduler.Fleet.Laws.{launchable_member_is_ready}
use comis_dev_crew.Tests.Samples.{sample_platform, task_a, task_b}
use comis_dev_crew.Tests.Schedules.{schema, members, shared_initiative, decision_of}

abbrev fleet_limits : InitiativeSchedulingLimits
fleet_limits = record {
  max_concurrent_tasks = pos 2;
  max_concurrent_tasks_per_repository = pos 2;
  worker_profile_limits = record { profile_id = ascii "worker-one"; limit = pos 2 } ∷ [];
}

abbrev started : InitiativeTaskSchedule
started = record (decision_of task_b TaskState.ready) { launchable = true }

abbrev fleet_schedule : InitiativeSchedule
fleet_schedule = record {
  initiative_handle = ascii "initiative-one";
  state = InitiativeState.active;
  tasks = decision_of task_a TaskState.working ∷ started ∷ [];
}

fleet_scheduled :
    schedule_initiatives sample_platform (shared_initiative ∷ []) members (schema ∷ []) fleet_limits
    ≡ ok (fleet_schedule ∷ [])
unfolding schedule_initiatives plan_fleet plan_loop derive_states index_scheduling_artifacts
    is_complete artifacts_of register_artifacts check_producer same_registration initiative_of
    unique_initiatives in_creation_order created_before validate_scheduling_limits
    index_scheduling_tasks index_scheduling_task_set index_loop is_configured usage_of consume
    count_one task_consumes_worker profile_limit launch_dependency_reason artifact_reason
    order_reason task_pins_current_contract pins_current is_current_pin artifact_of task_of
    candidate_of_round maximum_round allocate_initiative_candidates run_rounds allocate_round offer
    decide update_at scheduling_capacity_available initiative_round_offset lanes_of
    schedule_one_initiative component_loop handles_loop member_decision decide_loop decide_member
    sorted_decisions derive_initiative_state derive_from_members all_task_states some_in_state
    task_state_in_schedule has_initiative_progress initiative_schedule_held contains_task
    validate_initiative validate_initiative_fields validate_base_revisions validate_components
    validate_edges validate_contract_artifacts bases_loop components_loop members_loop
    check_component edges_loop check_edge artifacts_loop valid_initiative_state valid_edge_kind
    is_no_kind same_kind validate_repository_id validate_task_handle has_cycle search_cycle
    visit_roots visit scan successors set_mark task_handles_of validate_artifact
    validate_contract_artifact_handle valid_artifact_kind artifact_kind_text media_type_pattern
    validate_pin validate_task validate_identity validate_host_binding validate_lifecycle
    validate_pinned_brief validate_delivery validate_counters validate_opaque_id opaque_id_pattern
    has_shape is_lower is_digit validate_authority_reference authority_pattern is_upper xor
    valid_state allows_unbound_preparation valid_shape validate_revision revision_pattern has_class
    is_lower_hex validate_contract_text_list sort_by sha256_hex_pattern validate_bounded_safe_text
    validate_safe_text validate_sha256 validate_times mode_text shape_text valid_for_shape
    valid_mode format_int quote brief_contracts brief_field brief_items brief_list brief_pins
    brief_protocol brief_revision_digest brief_text pins_loop render_brief_content sorted_pins
    text_list_loop validate_brief_inputs validate_consumed_contracts member text_eq text_less
    is_blank is_control is_space runes valid_utf8
fleet_scheduled = refl

launchable_member_is_ready_example : started.state ≡ TaskState.ready
launchable_member_is_ready_example =
    launchable_member_is_ready sample_platform (shared_initiative ∷ []) members (schema ∷ [])
      fleet_limits (fleet_schedule ∷ []) fleet_scheduled fleet_schedule In.here started
      (In.there In.here) refl
