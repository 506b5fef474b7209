-- ===== src/Task/Apply.antt =====
-- ApplyTransition of internal/domain/task_transition.go and AcknowledgeBinding of
-- internal/domain/binding.go. A method returns the task and an error, which is none on success.
pub mod Laws
pub mod Binding
use comis_dev_crew.Base.{
  String, Bool, true, false, not, ◌&&◌, ◌||◌, Option, none, some, Result, ok, err, ◌>>◌, Time,
  before, is_ok, increment, is_number, max_int64, if◌then◌else◌, is_empty,
}
use comis_dev_crew.Text.{Text, text_eq}
use comis_dev_crew.Platform.{Platform}
use comis_dev_crew.Field.{ValidationError, Checked, validate_authority_reference}
use comis_dev_crew.Lifecycle.{TaskState, TaskTransition, next_task_state, same_state}
use comis_dev_crew.Task.{Task, TaskError, transition_failure}
use comis_dev_crew.Task.Validate.{validate_task}

-- `return task, transitionFailure(task, event, reason)`
abbrev pub failed_transition : Task → TaskTransition → String → Task × Option TaskError
failed_transition task event reason = (task, some (transition_failure task event reason))

-- The record that a transition to a state makes.
abbrev pub moved : Task → TaskState → Time → Task
moved task next occurred_at = record task {
  state = next;
  state_version = increment task.state_version;
  updated_at = occurred_at;
}

module _ (platform : Platform) where
  -- The end of ApplyTransition, from the state that nextTaskState gave.
  unfoldable pub enter_state :
      Task → TaskTransition → Time → Option TaskState → Task × Option TaskError
  enter_state task event occurred_at none =
      failed_transition task event "transition is not valid from current state"
  enter_state task event occurred_at (some next) =
      if is_ok (validate_task platform (moved task next occurred_at))
      then (moved task next occurred_at, none)
      else failed_transition task event "transition would create an invalid task"

  unfoldable pub apply_transition : Task → TaskTransition → Time → Task × Option TaskError
  unfolding enter_state
  apply_transition task event occurred_at =
      if not (is_ok (validate_task platform task))
      then failed_transition task event "current task is invalid"
      else if not occurred_at.utc || before occurred_at task.updated_at
      then failed_transition task event "transition time must be monotonic UTC"
      else if is_number task.state_version max_int64
      then failed_transition task event "state version is exhausted"
      else enter_state task event occurred_at (next_task_state task.state event)

pub record TaskBinding : Type 0 where
  pub managed_run_id : Text
  pub workspace_lease_id : Text

unfoldable pub validate_binding : TaskBinding → Checked
validate_binding binding = do
  validate_authority_reference "managedRunId" binding.managed_run_id
  validate_authority_reference "workspaceLeaseId" binding.workspace_lease_id

-- The task with the exact authority references of the host.
abbrev pub bound : Task → TaskBinding → Task
bound task binding = record task {
  managed_run_id = binding.managed_run_id;
  workspace_lease_id = binding.workspace_lease_id;
}

-- `task.State == TaskReady` with the same references: a replay of the acknowledgement.
unfoldable pub is_binding_replay : Task → TaskBinding → Bool
unfolding text_eq
is_binding_replay task binding =
    same_state task.state TaskState.ready
    && text_eq task.managed_run_id binding.managed_run_id
    && text_eq task.workspace_lease_id binding.workspace_lease_id

-- `task.State == TaskPrepared` with no reference yet.
unfoldable pub is_unbound_preparation : Task → Bool
unfolding text_eq
is_unbound_preparation task =
    same_state task.state TaskState.prepared
    && is_empty task.managed_run_id
    && is_empty task.workspace_lease_id

unfoldable pub acknowledge_binding : Platform → Task → TaskBinding → Time → Task × Option TaskError
acknowledge_binding platform task binding occurred_at =
    if not (is_ok (validate_binding binding))
    then failed_transition task TaskTransition.bind_acknowledged "binding identity is invalid"
    else if is_binding_replay task binding
    then (task, none)
    else if not (is_unbound_preparation task)
    then failed_transition task TaskTransition.bind_acknowledged
        "task is not an unbound preparation"
    else apply_transition platform (bound task binding) TaskTransition.bind_acknowledged occurred_at
