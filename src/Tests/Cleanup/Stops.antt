-- ===== src/Tests/Cleanup/Stops.antt =====
-- A pause request and a cancel, run on a working and on an unknown task.
use comis_dev_crew.Base.{◌≡◌, refl, ok, some, pos, [], ◌∷◌}
use comis_dev_crew.Task.{Task}
use comis_dev_crew.Cleanup.Tables.{Database}
use comis_dev_crew.Cleanup.Database.{operation_row, mutation_replay}
use comis_dev_crew.Cleanup.Complete.{replay_result}
use comis_dev_crew.Cleanup.Safety.{prove_nothing_is_still_running}
use comis_dev_crew.Command.{TaskCommand, TaskMutationSpec, command_text, commit_task_mutation}
use comis_dev_crew.Command.Stop.{TaskStopMutation, pause_body, commit_task_cancel, cancel_body}
use comis_dev_crew.Command.Replay.{committed_mutation_replays}
use comis_dev_crew.Command.Stopped.{IsEnded, cancelled_task-IsEnded}
use comis_dev_crew.Cleanup.Database.{task_row}
use comis_dev_crew.Text.{ascii, text_eq}
use comis_dev_crew.Lifecycle.{TaskState}
use comis_dev_crew.Cleanup.Complete.{MutationResult}
use comis_dev_crew.Cleanup.Database.{
  current_state_version, next_mutation_state_version, task_row, operation_row, mutation_replay,
  completed_mutation_operation, insert_operation,
}
use comis_dev_crew.Cleanup.Write.{
  integration_owner_mutation_state, integration_candidate_mutation_state,
  refuse_reserved_integration_task_transition, get_task, update_task_state,
}
use comis_dev_crew.Task.Validate.{
  validate_task, validate_identity, validate_host_binding, validate_lifecycle,
  validate_pinned_brief, validate_delivery, validate_counters,
}
use comis_dev_crew.Field.{
  validate_opaque_id, opaque_id_pattern, validate_authority_reference, authority_pattern,
  validate_revision, revision_pattern, sha256_hex_pattern, validate_safe_text, validate_sha256,
  validate_times, validate_command, command_pattern,
}
use comis_dev_crew.Text.{has_shape, is_lower, is_upper, has_class, is_lower_hex, member}
use mathlib.Core.Bool.{xor}
use comis_dev_crew.Lifecycle.{
  valid_state, allows_unbound_preparation, valid_for_shape, next_task_state,
}
use comis_dev_crew.Task.Brief.{
  validate_contract_text_list, brief_revision_digest, validate_brief_inputs,
  validate_consumed_contracts,
}
use comis_dev_crew.Text.Utf8.{is_blank, is_control, valid_utf8}
use comis_dev_crew.Task.Apply.{apply_transition}
use comis_dev_crew.Operation.{validate_operation, valid_status}
use comis_dev_crew.Tests.Samples.{sample_digest, bound_task, at_time}
use comis_dev_crew.Tests.Cleanup.{sample_context, delivered_database, prepared_by}

abbrev working_database : Database
working_database = record delivered_database { tasks = bound_task TaskState.working ∷ [] }

abbrev pause_mutation : TaskStopMutation
pause_mutation = record {
  task_handle = ascii "task-one";
  operation_id = ascii "pause-one";
  subject_digest = sample_digest;
  at = at_time 9;
}

abbrev pause_spec : TaskMutationSpec
pause_spec = record {
  command = TaskCommand.pause_task;
  operation_id = ascii "pause-one";
  subject_digest = sample_digest;
  at = at_time 9;
}

abbrev paused_result : MutationResult
paused_result = record {
  task = record (bound_task TaskState.working) { state_version = pos 2 };
  operation =
      completed_mutation_operation (ascii "pause-one") (ascii "PauseTask") sample_digest
        (ascii "task-one") (pos 2) (at_time 9);
}

abbrev paused_database : Database
paused_database = record working_database {
  tasks = paused_result.task ∷ [];
  operations = prepared_by ∷ paused_result.operation ∷ [];
  pauses = record { task_handle = ascii "task-one"; operation_id = ascii "pause-one" } ∷ [];
}

pause_is_recorded :
    commit_task_mutation sample_context pause_spec
      (pause_body sample_context pause_mutation)
      working_database
    ≡ ok (paused_result, paused_database)
unfolding current_state_version next_mutation_state_version task_row completed_mutation_operation
    insert_operation integration_owner_mutation_state integration_candidate_mutation_state
    refuse_reserved_integration_task_transition get_task update_task_state validate_task
    validate_identity validate_host_binding validate_lifecycle validate_pinned_brief
    validate_delivery validate_counters validate_opaque_id opaque_id_pattern has_shape is_lower
    validate_authority_reference authority_pattern is_upper xor valid_state
    allows_unbound_preparation validate_revision revision_pattern has_class is_lower_hex
    validate_contract_text_list sha256_hex_pattern validate_safe_text validate_sha256 validate_times
    valid_for_shape brief_revision_digest validate_brief_inputs validate_consumed_contracts member
    is_blank is_control valid_utf8 apply_transition next_task_state validate_operation valid_status
    validate_command command_pattern commit_task_mutation command_text pause_body mutation_replay
    operation_row
pause_is_recorded = refl

committed_mutation_replays_example :
    commit_task_mutation sample_context pause_spec
      (cancel_body sample_context pause_mutation)
      paused_database
    ≡ replay_result sample_context paused_database paused_result.operation
committed_mutation_replays_example =
    committed_mutation_replays sample_context pause_spec (pause_body sample_context pause_mutation)
      (cancel_body sample_context pause_mutation) working_database paused_result paused_database
      pause_is_recorded

abbrev unknown_database : Database
unknown_database = record delivered_database { tasks = bound_task TaskState.unknown ∷ [] }

abbrev cancel_mutation : TaskStopMutation
cancel_mutation = record pause_mutation { operation_id = ascii "cancel-one" }

abbrev cancelled_result : MutationResult
cancelled_result = record {
  task = record (bound_task TaskState.cancelled) { state_version = pos 2; updated_at = at_time 9 };
  operation =
      completed_mutation_operation (ascii "cancel-one") (ascii "CancelTask") sample_digest
        (ascii "task-one") (pos 2) (at_time 9);
}

abbrev cancelled_database : Database
cancelled_database = record unknown_database {
  tasks = cancelled_result.task ∷ [];
  operations = prepared_by ∷ cancelled_result.operation ∷ [];
  events =
      record {
        task_handle = ascii "task-one";
        state = TaskState.cancelled;
        state_version = pos 2;
        occurred_at = at_time 9;
      }
      ∷ [];
}

unknown_task_is_cancelled :
    commit_task_cancel sample_context unknown_database cancel_mutation
    ≡ ok (cancelled_result, cancelled_database)
unfolding current_state_version next_mutation_state_version task_row completed_mutation_operation
    insert_operation integration_owner_mutation_state integration_candidate_mutation_state
    refuse_reserved_integration_task_transition get_task update_task_state validate_task
    validate_identity validate_host_binding validate_lifecycle validate_pinned_brief
    validate_delivery validate_counters validate_opaque_id opaque_id_pattern has_shape is_lower
    validate_authority_reference authority_pattern is_upper xor valid_state
    allows_unbound_preparation validate_revision revision_pattern has_class is_lower_hex
    validate_contract_text_list sha256_hex_pattern validate_safe_text validate_sha256 validate_times
    valid_for_shape brief_revision_digest validate_brief_inputs validate_consumed_contracts member
    is_blank is_control valid_utf8 apply_transition next_task_state validate_operation valid_status
    validate_command command_pattern commit_task_cancel prove_nothing_is_still_running
    commit_task_mutation command_text mutation_replay operation_row
unknown_task_is_cancelled = refl

cancelled_task-IsEnded_example :
    (TaskState.cancelled ≡ TaskState.cancelled)
    × ((task : Task) × (task_row unknown_database (ascii "task-one") ≡ some task)
        × (task.state ≡ TaskState.unknown → IsEnded unknown_database task))
unfolding operation_row text_eq completed_mutation_operation
cancelled_task-IsEnded_example =
    cancelled_task-IsEnded sample_context unknown_database cancel_mutation cancelled_result
      cancelled_database refl unknown_task_is_cancelled
