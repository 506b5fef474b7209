-- ===== src/Tests/Cleanup/Runs.antt =====
-- A cleanup from the first hold to the removed workspace.
use comis_dev_crew.Base.{◌≡◌, ◌≢◌, refl, ok, none, length}
use comis_dev_crew.Cleanup.Commands.{discard_task}
use comis_dev_crew.Cleanup.{valid_snapshot, wanted_checks}
use comis_dev_crew.Cleanup.Rows.{count_rows, update_where}
use comis_dev_crew.Cleanup.Database.{
  current_state_version, next_mutation_state_version, task_row, operation_row,
  find_task_cleanup_record, find_task_cleanup_record_by_task, mutation_replay,
  completed_mutation_operation, insert_operation,
}
use comis_dev_crew.Cleanup.Write.{
  integration_owner_mutation_state, integration_candidate_mutation_state,
  refuse_reserved_integration_task_transition, get_task, update_task_state,
}
use comis_dev_crew.Cleanup.Safety.{prove_cleanup_database_safety, cleanup_preparation}
use comis_dev_crew.Cleanup.Origin.{
  cleanup_evidence, prove_cleanup_candidate_origin, initiatives_of,
  prove_cleanup_integration_applications,
}
use comis_dev_crew.Cleanup.Proof.{
  same_checks, snapshot_of_record, truth_matches, validate_cleanup_proof, cleanup_stage_allowed,
}
use comis_dev_crew.Cleanup.Store.{
  at_stage, record_task_cleanup_host_release, authorize_task_cleanup_removal,
}
use comis_dev_crew.Cleanup.Begin.{begin_task_cleanup}
use comis_dev_crew.Cleanup.Complete.{complete_task_cleanup}
use comis_dev_crew.Cleanup.Ports.{◌>>=◌, raise_if, reporting, call, store}
use comis_dev_crew.Cleanup.Commands.{cleanup_task}
use comis_dev_crew.Task.Validate.{
  validate_task, validate_identity, validate_host_binding, validate_lifecycle,
  validate_pinned_brief, validate_delivery, validate_counters,
}
use comis_dev_crew.Field.{
  validate_task_handle, validate_opaque_id, opaque_id_pattern, validate_authority_reference,
  authority_pattern, validate_revision, revision_pattern, sha256_hex_pattern, validate_safe_text,
  validate_sha256, validate_times, validate_command, command_pattern,
}
use comis_dev_crew.Text.{
  has_shape, is_lower, is_upper, has_class, is_lower_hex, member, contains_any,
}
use mathlib.Core.Bool.{xor}
use comis_dev_crew.Lifecycle.{
  valid_state, allows_unbound_preparation, valid_for_shape, next_task_state,
}
use comis_dev_crew.Task.Brief.{
  validate_contract_text_list, brief_revision_digest, validate_brief_inputs,
  validate_consumed_contracts,
}
use comis_dev_crew.Text.Utf8.{is_blank, is_control, valid_utf8, is_trimmed}
use comis_dev_crew.Evidence.Validate.{validate_evidence}
use comis_dev_crew.Evidence.Seal.{parse_delivery_evidence}
use comis_dev_crew.Task.Apply.{apply_transition}
use comis_dev_crew.Operation.{validate_operation, valid_status}
use comis_dev_crew.Cleanup.Commands.Sound.{Reachable, removals_are_authorized}
use comis_dev_crew.Cleanup.Commands.Total.{removal_loop_ends}
use comis_dev_crew.Cleanup.History.{RemovalsAuthorized}
use comis_dev_crew.Tests.Cleanup.{
  sample_context, sample_ports, sample_cleanup, sample_discard, delivered_world,
}

-- The run is eight calls long: inspected and verified, released, detached, inspected and verified
-- again, and removed.
delivered_run_length :
    length (cleanup_task sample_context sample_ports sample_cleanup delivered_world).1.log ≡ 8
unfolding validate_task_handle current_state_version next_mutation_state_version task_row
    operation_row find_task_cleanup_record find_task_cleanup_record_by_task mutation_replay
    completed_mutation_operation integration_owner_mutation_state
    integration_candidate_mutation_state refuse_reserved_integration_task_transition get_task
    update_task_state prove_cleanup_database_safety cleanup_preparation cleanup_evidence
    prove_cleanup_candidate_origin initiatives_of prove_cleanup_integration_applications
    begin_task_cleanup validate_task validate_identity validate_host_binding validate_lifecycle
    validate_pinned_brief validate_delivery validate_counters opaque_id_pattern has_shape is_lower
    validate_authority_reference authority_pattern is_upper xor valid_state
    allows_unbound_preparation validate_revision revision_pattern has_class is_lower_hex
    validate_contract_text_list sha256_hex_pattern validate_safe_text validate_sha256 validate_times
    valid_for_shape brief_revision_digest validate_brief_inputs validate_consumed_contracts member
    is_blank is_control valid_utf8 validate_evidence contains_any is_trimmed parse_delivery_evidence
    apply_transition next_task_state count_rows update_where insert_operation cleanup_stage_allowed
    at_stage complete_task_cleanup validate_opaque_id validate_operation valid_status
    validate_command command_pattern cleanup_task valid_snapshot ◌>>=◌ raise_if reporting store call
    snapshot_of_record truth_matches same_checks wanted_checks record_task_cleanup_host_release
    validate_cleanup_proof authorize_task_cleanup_removal
delivered_run_length = refl

removals_are_authorized_example :
    RemovalsAuthorized
      (cleanup_task sample_context sample_ports sample_cleanup delivered_world).1.database.cleanups
      (cleanup_task sample_context sample_ports sample_cleanup delivered_world).1.log
removals_are_authorized_example =
    removals_are_authorized sample_context sample_ports
      (cleanup_task sample_context sample_ports sample_cleanup delivered_world).1
      (Reachable.cleanup sample_cleanup (Reachable.started refl refl) refl)

removal_loop_ends_example :
    ((cleanup_task sample_context sample_ports sample_cleanup delivered_world).0 ≢ ok none)
    × ((discard_task sample_context sample_ports sample_discard delivered_world).0 ≢ ok none)
removal_loop_ends_example =
    removal_loop_ends sample_context sample_ports sample_cleanup sample_discard delivered_world
