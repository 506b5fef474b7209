-- ===== src/Tests/Tasks.antt =====
-- Tasks: transitions, bindings and reports.
use comis_dev_crew.Base.{◌≡◌, ◌↔◌, refl, none, some, true}
use comis_dev_crew.Text.{text_eq, ascii, has_shape, is_lower, is_upper, is_digit}
use comis_dev_crew.Field.{validate_authority_reference, authority_pattern}
use comis_dev_crew.Lifecycle.{
  TaskState, TaskTransition, allows_unbound_preparation, next_task_state,
}
use comis_dev_crew.Task.{Task, TaskError}
use comis_dev_crew.Task.Brief.{brief_text}
use comis_dev_crew.Task.Validate.Laws.{active_task_is_bound, valid_task_pins_brief}
use comis_dev_crew.Task.Apply.{
  apply_transition, enter_state, moved, TaskBinding, acknowledge_binding, validate_binding,
  is_binding_replay, is_unbound_preparation,
}
use comis_dev_crew.Task.Apply.Laws.{apply_transition_iff, refused_transition_unchanged, IsStep}
use comis_dev_crew.Task.Apply.Binding.{acknowledge_binding-IsBound, acknowledge_replay, IsBound}
use comis_dev_crew.Task.Report.{
  accept_worker_report, touched, counted, report_transition, is_fixture_launch, move_for_report,
  finish_report,
}
use comis_dev_crew.Task.Report.Laws.{
  refused_report_unchanged, accept_worker_report-IsAccepted, IsAccepted,
}
use comis_dev_crew.Tests.Samples.Valid.{
  prepared_valid, bound_valid, ready_valid, working_valid, report_valid, reported_valid,
  sample_report,
}
use comis_dev_crew.Tests.Samples.{sample_platform, prepared_task, bound_task, at_time}

active_task_is_bound_example :
    (authority_pattern (ascii "run-1") ≡ true) × (authority_pattern (ascii "lease-1") ≡ true)
unfolding allows_unbound_preparation
active_task_is_bound_example =
    active_task_is_bound sample_platform (bound_task TaskState.working) working_valid refl

valid_task_pins_brief_example :
    prepared_task.brief_revision_hash
    ≡ sample_platform.sha256_hex (brief_text sample_platform prepared_task)
valid_task_pins_brief_example = valid_task_pins_brief sample_platform prepared_task prepared_valid

abbrev launching_task : Task
launching_task = moved (bound_task TaskState.ready) TaskState.launching (at_time 6)

apply_transition_iff_example :
    (apply_transition sample_platform
        (bound_task TaskState.ready)
        TaskTransition.launch_requested
        (at_time 6)
      ≡ (launching_task, none))
    ↔ IsStep sample_platform
        (bound_task TaskState.ready)
        TaskTransition.launch_requested
        (at_time 6)
        launching_task
apply_transition_iff_example =
    apply_transition_iff sample_platform (bound_task TaskState.ready)
      TaskTransition.launch_requested (at_time 6) launching_task

abbrev not_ready : TaskError
not_ready =
    TaskError.transition TaskState.prepared TaskTransition.launch_requested
      "transition is not valid from current state"

launch_refused :
    apply_transition sample_platform prepared_task TaskTransition.launch_requested (at_time 6)
    ≡ (prepared_task, some not_ready)
unfolding apply_transition enter_state next_task_state
launch_refused = rw prepared_valid

refused_transition_unchanged_example : prepared_task ≡ prepared_task
refused_transition_unchanged_example =
    refused_transition_unchanged sample_platform prepared_task TaskTransition.launch_requested
      (at_time 6) prepared_task not_ready launch_refused

abbrev sample_binding : TaskBinding
sample_binding = record { managed_run_id = ascii "run-1"; workspace_lease_id = ascii "lease-1" }

abbrev ready_task : Task
ready_task = moved (bound_task TaskState.prepared) TaskState.ready (at_time 6)

acknowledged :
    acknowledge_binding sample_platform prepared_task sample_binding (at_time 6)
    ≡ (ready_task, none)
unfolding acknowledge_binding validate_binding validate_authority_reference authority_pattern
    has_shape is_lower is_upper is_digit is_binding_replay is_unbound_preparation text_eq
    apply_transition enter_state next_task_state
acknowledged = rw (bound_valid, ready_valid)

acknowledge_binding-IsBound_example : IsBound ready_task sample_binding
acknowledge_binding-IsBound_example =
    acknowledge_binding-IsBound sample_platform prepared_task sample_binding (at_time 6) ready_task
      acknowledged

acknowledge_replay_example :
    acknowledge_binding sample_platform ready_task sample_binding (at_time 9) ≡ (ready_task, none)
acknowledge_replay_example =
    acknowledge_replay sample_platform prepared_task sample_binding (at_time 6) ready_task
      (at_time 9) acknowledged

abbrev reported_task : Task
reported_task = counted (touched (bound_task TaskState.working) (at_time 6))

reported :
    accept_worker_report sample_platform (bound_task TaskState.working) sample_report (at_time 6)
    ≡ (reported_task, none)
unfolding accept_worker_report move_for_report finish_report is_fixture_launch text_eq
reported = rw (working_valid, report_valid, reported_valid)

accept_worker_report-IsAccepted_example :
    IsAccepted sample_platform
      (bound_task TaskState.working)
      sample_report
      (at_time 6)
      reported_task
accept_worker_report-IsAccepted_example =
    accept_worker_report-IsAccepted sample_platform (bound_task TaskState.working) sample_report
      (at_time 6) reported_task reported

abbrev not_working : TaskError
not_working =
    TaskError.transition TaskState.prepared TaskTransition.worker_acknowledged
      "progress requires acknowledged working state"

report_refused :
    accept_worker_report sample_platform prepared_task sample_report (at_time 6)
    ≡ (prepared_task, some not_working)
unfolding accept_worker_report move_for_report finish_report is_fixture_launch text_eq
    report_transition
report_refused = rw (prepared_valid, report_valid)

refused_report_unchanged_example : prepared_task ≡ prepared_task
refused_report_unchanged_example =
    refused_report_unchanged sample_platform prepared_task sample_report (at_time 6) prepared_task
      not_working report_refused
