-- ===== src/Tests/Cleanup/Settled.antt =====
-- What a cleanup record stands on when it is made, and what its end leaves in the store.
use comis_dev_crew.Base.{◌≡◌, refl, ok, pos, [], ◌∷◌}
use comis_dev_crew.Text.{ascii}
use comis_dev_crew.Lifecycle.{TaskState}
use comis_dev_crew.Task.{Task}
use comis_dev_crew.Operation.{OperationRecord}
use comis_dev_crew.Cleanup.{
  CleanupStage, TaskCleanupRecord, TaskCleanupMutation, TaskCleanupCompletion, no_snapshot,
}
use comis_dev_crew.Cleanup.Tables.{Database}
use comis_dev_crew.Cleanup.Stages.{StoreCall, Follows, run_call, stages, store_call-Follows}
use comis_dev_crew.Cleanup.Begin.Settled.{IsSettled, held_cleanup-IsSettled}
use comis_dev_crew.Cleanup.Complete.{MutationResult}
use comis_dev_crew.Cleanup.Complete.Authority.{references, completion_keeps_stored_references}
use comis_dev_crew.Tests.Samples.{sample_digest, bound_task, at_time}
use comis_dev_crew.Tests.Cleanup.{sample_context, delivered_database, prepared_by, authorized_row}
use comis_dev_crew.Cleanup.Rows.{count_rows, update_where}
use comis_dev_crew.Cleanup.Database.{
  current_state_version, next_mutation_state_version, task_row, operation_row,
  find_task_cleanup_record, find_task_cleanup_record_by_task, mutation_replay,
  completed_mutation_operation, insert_operation,
}
use comis_dev_crew.Cleanup.Write.{
  integration_owner_mutation_state, integration_candidate_mutation_state,
  refuse_reserved_integration_task_transition, get_task, update_task_state,
}
use comis_dev_crew.Cleanup.Safety.{prove_cleanup_database_safety, cleanup_preparation}
use comis_dev_crew.Cleanup.Origin.{
  cleanup_evidence, prove_cleanup_candidate_origin, initiatives_of,
  prove_cleanup_integration_applications,
}
use comis_dev_crew.Cleanup.Proof.{cleanup_stage_allowed}
use comis_dev_crew.Cleanup.Store.{at_stage}
use comis_dev_crew.Cleanup.Begin.{begin_task_cleanup}
use comis_dev_crew.Cleanup.Complete.{complete_now, complete_task_cleanup}
use comis_dev_crew.Task.Validate.{
  validate_task, validate_identity, validate_host_binding, validate_lifecycle,
  validate_pinned_brief, validate_delivery, validate_counters,
}
use comis_dev_crew.Field.{
  validate_task_handle, validate_opaque_id, opaque_id_pattern, validate_authority_reference,
  authority_pattern, validate_revision, revision_pattern, sha256_hex_pattern, validate_safe_text,
  validate_sha256, validate_times, validate_command, command_pattern,
}
use comis_dev_crew.Text.{
  has_shape, is_lower, is_upper, has_class, is_lower_hex, member, contains_any,
}
use mathlib.Core.Bool.{xor}
use comis_dev_crew.Lifecycle.{
  valid_state, allows_unbound_preparation, valid_for_shape, next_task_state,
}
use comis_dev_crew.Task.Brief.{
  validate_contract_text_list, brief_revision_digest, validate_brief_inputs,
  validate_consumed_contracts,
}
use comis_dev_crew.Text.Utf8.{is_blank, is_control, valid_utf8, is_trimmed}
use comis_dev_crew.Evidence.Validate.{validate_evidence}
use comis_dev_crew.Evidence.Seal.{parse_delivery_evidence}
use comis_dev_crew.Task.Apply.{apply_transition}
use comis_dev_crew.Operation.{validate_operation, valid_status}

abbrev sample_mutation : TaskCleanupMutation
sample_mutation = record {
  operation_id = ascii "cleanup-one";
  subject_digest = sample_digest;
  task_handle = ascii "task-one";
  release_operation_id = ascii "release-one";
  released_at = at_time 6;
  at = at_time 6;
}

abbrev held_row : TaskCleanupRecord
held_row = record authorized_row { stage = CleanupStage.prepared; snapshot = no_snapshot }

cleanup_is_held :
    (begin_task_cleanup sample_context delivered_database sample_mutation).0 ≡ ok held_row
unfolding validate_task_handle current_state_version next_mutation_state_version task_row
    operation_row find_task_cleanup_record find_task_cleanup_record_by_task mutation_replay
    completed_mutation_operation integration_owner_mutation_state
    integration_candidate_mutation_state refuse_reserved_integration_task_transition get_task
    update_task_state prove_cleanup_database_safety cleanup_preparation cleanup_evidence
    prove_cleanup_candidate_origin initiatives_of prove_cleanup_integration_applications
    begin_task_cleanup validate_task validate_identity validate_host_binding validate_lifecycle
    validate_pinned_brief validate_delivery validate_counters opaque_id_pattern has_shape is_lower
    validate_authority_reference authority_pattern is_upper xor valid_state
    allows_unbound_preparation validate_revision revision_pattern has_class is_lower_hex
    validate_contract_text_list sha256_hex_pattern validate_safe_text validate_sha256 validate_times
    valid_for_shape brief_revision_digest validate_brief_inputs validate_consumed_contracts member
    is_blank is_control valid_utf8 validate_evidence contains_any is_trimmed parse_delivery_evidence
    apply_transition next_task_state
cleanup_is_held = refl

held_cleanup-IsSettled_example :
    (task : Task) × (task.handle ≡ ascii "task-one") × IsSettled delivered_database task
unfolding find_task_cleanup_record find_task_cleanup_record_by_task
held_cleanup-IsSettled_example =
    held_cleanup-IsSettled sample_context delivered_database sample_mutation held_row refl refl
      cleanup_is_held

abbrev held_database : Database
held_database = record delivered_database {
  tasks = bound_task TaskState.cleanup_held ∷ [];
  cleanups = authorized_row ∷ [];
}

abbrev sample_completion : TaskCleanupCompletion
sample_completion = record {
  operation_id = ascii "cleanup-one";
  subject_digest = sample_digest;
  request_operation_id = ascii "cleanup-one";
  request_subject_digest = sample_digest;
  at = at_time 9;
}

abbrev cleaned_task : Task
cleaned_task = record (bound_task TaskState.cleaned) {
  managed_run_id = [];
  workspace_lease_id = [];
  state_version = pos 2;
  updated_at = at_time 9;
}

abbrev cleanup_entry : OperationRecord
cleanup_entry =
    completed_mutation_operation (ascii "cleanup-one") (ascii "CleanupTask") sample_digest
      (ascii "task-one") (pos 2) (at_time 9)

abbrev cleaned_result : MutationResult
cleaned_result = record { task = cleaned_task; operation = cleanup_entry }

-- The stored task is cleaned and still names its run and its lease.
abbrev cleaned_database : Database
cleaned_database = record held_database {
  tasks =
      record (bound_task TaskState.cleaned) { state_version = pos 2; updated_at = at_time 9 } ∷ [];
  cleanups = record authorized_row { stage = CleanupStage.completed } ∷ [];
  operations = prepared_by ∷ cleanup_entry ∷ [];
  events =
      record {
        task_handle = ascii "task-one";
        state = TaskState.cleaned;
        state_version = pos 2;
        occurred_at = at_time 9;
      }
      ∷ [];
}

cleanup_completes :
    complete_now sample_context held_database sample_completion authorized_row
    ≡ ok (cleaned_result, cleaned_database)
unfolding count_rows update_where current_state_version next_mutation_state_version task_row
    completed_mutation_operation insert_operation integration_owner_mutation_state
    integration_candidate_mutation_state refuse_reserved_integration_task_transition get_task
    update_task_state cleanup_stage_allowed at_stage complete_task_cleanup validate_task
    validate_identity validate_host_binding validate_lifecycle validate_pinned_brief
    validate_delivery validate_counters validate_opaque_id opaque_id_pattern has_shape is_lower
    validate_authority_reference authority_pattern is_upper xor valid_state
    allows_unbound_preparation validate_revision revision_pattern has_class is_lower_hex
    validate_contract_text_list sha256_hex_pattern validate_safe_text validate_sha256 validate_times
    valid_for_shape brief_revision_digest validate_brief_inputs validate_consumed_contracts member
    is_blank is_control valid_utf8 apply_transition next_task_state validate_operation valid_status
    validate_command command_pattern
cleanup_completes = refl

completion_keeps_stored_references_example :
    (cleaned_task.managed_run_id ≡ [])
    × (cleaned_task.workspace_lease_id ≡ [])
    × (references cleaned_database ≡ references held_database)
completion_keeps_stored_references_example =
    completion_keeps_stored_references sample_context held_database sample_completion authorized_row
      cleaned_result cleaned_database cleanup_completes

-- The completion of an authorized removal.
store_call-Follows_example :
    Follows
      (StoreCall.complete sample_completion)
      (stages held_database)
      (stages (run_call sample_context (StoreCall.complete sample_completion) held_database))
store_call-Follows_example =
    store_call-Follows sample_context held_database (StoreCall.complete sample_completion)
