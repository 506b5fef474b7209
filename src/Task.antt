-- ===== src/Task.antt =====
-- The task record of internal/domain/task.go, and the errors that task operations return.
pub mod Brief
pub mod Validate
pub mod Apply
pub mod Report
use comis_dev_crew.Base.{ℤ, List, Time, String, Option, none, some}
use comis_dev_crew.Text.{Text}
use comis_dev_crew.Field.{ValidationError}
use comis_dev_crew.Contract.{PinnedContract}
use comis_dev_crew.Lifecycle.{TaskShape, DeliveryMode, TaskState, TaskTransition}

pub record Task : Type 0 where
  pub schema_version : ℤ
  pub handle : Text
  pub service_instance_id : Text
  pub managed_run_id : Text
  pub workspace_lease_id : Text
  pub execution_attachment_id : Text
  pub attachment_target_name : Text
  pub state : TaskState
  pub shape : TaskShape
  pub repository_id : Text
  pub base_revision : Text
  pub brief_revision : ℤ
  pub brief_revision_hash : Text
  pub acceptance_criteria : List Text
  pub constraints : List Text
  pub consumed_contracts : List PinnedContract
  pub validation_profile : Text
  pub delivery_mode : DeliveryMode
  pub worker_profile_id : Text
  pub report_cursor : ℤ
  pub state_version : ℤ
  pub created_at : Time
  pub updated_at : Time

-- The errors of the task operations: a ValidationError, or a TransitionError with the state, the
-- event and the reason.
pub data TaskError : Type 0 where
  validation : ValidationError → TaskError
  transition : TaskState → TaskTransition → String → TaskError

abbrev pub transition_failure : Task → TaskTransition → String → TaskError
transition_failure task event reason = TaskError.transition task.state event reason
