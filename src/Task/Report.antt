-- ===== src/Task/Report.antt =====
-- Worker reports: internal/domain/report.go and internal/domain/report_transition.go.
pub mod Laws
use comis_dev_crew.Base.{
  ℕ, Bool, true, false, not, ◌&&◌, ◌||◌, Option, none, some, Result, ok, err, ◌>>◌, refuse, require,
  when, is_empty, is_number, not_positive, ℤ, increment, max_int64, int_eq, Time, is_zero, before,
  not_utc_time, is_ok, if◌then◌else◌, String,
}
use comis_dev_crew.Text.{Text, ascii, text_eq}
use comis_dev_crew.Platform.{Platform}
use comis_dev_crew.Field.{
  ValidationError, invalid, Checked, validate_opaque_id, validate_sha256, validate_safe_text,
  validate_bounded_safe_text,
}
use comis_dev_crew.Lifecycle.{TaskState, TaskTransition, same_state}
use comis_dev_crew.Task.{Task, TaskError, transition_failure}
use comis_dev_crew.Task.Validate.{validate_task}
use comis_dev_crew.Task.Apply.{apply_transition, failed_transition}

pub data WorkerReportKind : Type 0 where
  progress decision blocked paused candidate_complete failed resolution : WorkerReportKind
  other : Text → WorkerReportKind

unfoldable pub valid_report_kind : WorkerReportKind → Bool
valid_report_kind (WorkerReportKind.other t) = false
valid_report_kind _ = true

abbrev requires_key : WorkerReportKind → Bool
requires_key WorkerReportKind.decision = true
requires_key WorkerReportKind.resolution = true
requires_key _ = false

pub record WorkerReport : Type 0 where
  pub schema_version : ℤ
  pub local_report_id : Text
  pub brief_revision : ℤ
  pub brief_revision_hash : Text
  pub kind : WorkerReportKind
  pub external_key : Text
  pub summary : Text
  pub details : Text
  pub worker_observed_at : Option Time

abbrev bad_observation : Option Time → Bool
bad_observation none = false
bad_observation (some t) = not_utc_time t

unfoldable pub validate_report : WorkerReport → Checked
validate_report report = do
  require (is_number report.schema_version 1) (invalid "schemaVersion" "must equal 1")
  validate_opaque_id "localReportId" report.local_report_id
  refuse (not_positive report.brief_revision) (invalid "briefRevision" "must be positive")
  validate_sha256 "briefRevisionHash" report.brief_revision_hash
  require (valid_report_kind report.kind) (invalid "kind" "must be a known sparse report kind")
  if requires_key report.kind
      then validate_opaque_id "externalKey" report.external_key
      else require (is_empty report.external_key)
          (invalid "externalKey" "is allowed only for decision or resolution reports")
  validate_safe_text "summary" report.summary
  when (not (is_empty report.details)) (validate_bounded_safe_text "details" report.details 4096)
  refuse (bad_observation report.worker_observed_at)
      (invalid "workerObservedAt" "must be a nonzero UTC time when present")

pub record AcceptedReport : Type 0 where
  pub task_handle : Text
  pub report : WorkerReport
  pub subject_digest : Text
  pub state_version : ℤ
  pub accepted_at : Time

unfoldable pub validate_accepted_report : AcceptedReport → Checked
validate_accepted_report accepted = do
  validate_opaque_id "taskHandle" accepted.task_handle
  validate_report accepted.report
  validate_sha256 "subjectDigest" accepted.subject_digest
  refuse (not_positive accepted.state_version) (invalid "stateVersion" "must be positive")
  refuse (not_utc_time accepted.accepted_at)
      (invalid "acceptedAt" "must be nonzero UTC service time")

-- reportTransition. Text that is no kind stays text that is no event.
unfoldable pub report_transition : WorkerReportKind → TaskTransition
report_transition WorkerReportKind.progress = TaskTransition.worker_acknowledged
report_transition WorkerReportKind.decision = TaskTransition.decision_requested
report_transition WorkerReportKind.resolution = TaskTransition.decision_answered
report_transition WorkerReportKind.blocked = TaskTransition.blocked
report_transition WorkerReportKind.paused = TaskTransition.paused
report_transition WorkerReportKind.candidate_complete = TaskTransition.validation_started
report_transition WorkerReportKind.failed = TaskTransition.failure_observed
report_transition (WorkerReportKind.other t) = TaskTransition.other t

abbrev is_progress : WorkerReportKind → Bool
is_progress WorkerReportKind.progress = true
is_progress _ = false

-- `task.State == TaskLaunching && task.WorkerProfileID == "fixture-worker"`
unfoldable pub is_fixture_launch : Task → Bool
unfolding text_eq
is_fixture_launch task =
    same_state task.state TaskState.launching
    && text_eq task.worker_profile_id (ascii "fixture-worker")

-- A progress report of a working task: a new version, and no change of state.
abbrev pub touched : Task → Time → Task
touched task accepted_at = record task {
  state_version = increment task.state_version;
  updated_at = accepted_at;
}

abbrev pub counted : Task → Task
counted task = record task { report_cursor = increment task.report_cursor }

module _ (platform : Platform) (task : Task) (report : WorkerReport) (accepted_at : Time) where
  -- The branches on the kind of the report, up to the new cursor.
  unfoldable pub move_for_report : Task × Option TaskError
  unfolding is_fixture_launch
  move_for_report =
      if is_progress report.kind && not (is_fixture_launch task)
      then (if same_state task.state TaskState.working
          then (touched task accepted_at, none)
          else failed_transition task (report_transition report.kind)
              "progress requires acknowledged working state")
      else apply_transition platform task (report_transition report.kind) accepted_at

  -- The end of AcceptWorkerReport: the cursor moves, and the result is validated.
  unfoldable pub finish_report : Task × Option TaskError → Task × Option TaskError
  finish_report (updated, some e) = (task, some e)
  finish_report (updated, none) =
      if is_ok (validate_task platform (counted updated))
      then (counted updated, none)
      else failed_transition task (report_transition report.kind)
          "report would create an invalid task"

  abbrev reject_report : String → String → Task × Option TaskError
  reject_report field reason = (task, some (TaskError.validation (invalid field reason)))

  unfoldable pub accept_worker_report : Task × Option TaskError
  unfolding move_for_report finish_report text_eq
  accept_worker_report =
      if not (is_ok (validate_task platform task))
      then failed_transition task (report_transition report.kind) "current task is invalid"
      else if not (is_ok (validate_report report))
      then reject_report "report" "worker report is invalid"
      else if not (int_eq report.brief_revision task.brief_revision)
          || not (text_eq report.brief_revision_hash task.brief_revision_hash)
      then reject_report "reportBrief" "does not match the pinned task brief"
      else if not_utc_time accepted_at || before accepted_at task.updated_at
      then reject_report "acceptedAt" "must be monotonic UTC service time"
      else if is_number task.report_cursor max_int64 || is_number task.state_version max_int64
      then failed_transition task (report_transition report.kind)
          "task report authority is exhausted"
      else finish_report move_for_report
