-- ===== src/Cleanup/Tables.antt =====
-- The rows that cleanup reads and writes, as the tables of internal/store/sqlite keep them: the
-- columns that its queries name.
use comis_dev_crew.Base.{Bool, List, ℤ, Time}
use comis_dev_crew.Text.{Text}
use comis_dev_crew.Lifecycle.{TaskState}
use comis_dev_crew.Task.{Task}
use comis_dev_crew.Operation.{OperationRecord}
use comis_dev_crew.Initiative.{DevelopmentInitiative}
use comis_dev_crew.Cleanup.{TaskCleanupRecord}

pub record CleanupHold : Type 0 where
  pub task_handle : Text
  pub closed : Bool

-- `settled` is whether the state is 'exited' or 'absent'.
pub record ValidationProcess : Type 0 where
  pub task_handle : Text
  pub settled : Bool

pub data ReportKind : Type 0 where
  decision resolution candidate_complete : ReportKind
  other : Text → ReportKind

-- A report with the columns that cleanup joins; `outbox` has an element for each row of
-- comis_report_outbox for the report, which says whether delivered_at is set.
pub record StoredReport : Type 0 where
  pub task_handle : Text
  pub kind : ReportKind
  pub external_key : Text
  pub outbox : List Bool
  pub state_version : ℤ

pub record DecisionCancellation : Type 0 where
  pub task_handle : Text
  pub external_key : Text

-- `clear` is whether the finding is 'no_open_decisions'.
pub record ScoutAttestation : Type 0 where
  pub task_handle : Text
  pub clear : Bool

pub data TerminalTransition : Type 0 where
  created running input_needed stuck exited lost recovered released : TerminalTransition
  other : Text → TerminalTransition

pub record TerminalBinding : Type 0 where
  pub task_handle : Text
  pub managed_run_id : Text
  pub workspace_lease_id : Text
  pub terminal_session_id : Text
  pub latest_transition : TerminalTransition
  pub updated_at : Time

-- A row of task_candidate_reconciliations. `validates` is whether the action is
-- 'validate_clean_candidate', and `clean` whether the observed worktree was clean.
pub record CandidateReconciliation : Type 0 where
  pub task_handle : Text
  pub validates : Bool
  pub operation_id : Text
  pub preparation_operation_id : Text
  pub repository_id : Text
  pub worktree_path : Text
  pub base_revision : Text
  pub head_revision : Text
  pub clean : Bool
  pub terminal_session_id : Text
  pub terminal_transition : TerminalTransition
  pub terminal_observed_at : Time
  pub started_state_version : ℤ
  pub completed_state_version : ℤ

-- A row of comis_evidence_outbox.
pub record EvidenceDelivery : Type 0 where
  pub task_handle : Text
  pub delivered : Bool

pub record TaskPreparation : Type 0 where
  pub task_handle : Text
  pub requested_workspace_root : Text

pub record StoredEvidence : Type 0 where
  pub task_handle : Text
  pub digest : Text
  pub canonical : Text
  pub required_forge_checks : List Text
  pub accepted : Bool
  pub state_version : ℤ

pub data ApplicationStatus : Type 0 where
  reserved applied : ApplicationStatus
  other : Text → ApplicationStatus

pub record IntegrationApplication : Type 0 where
  pub initiative_handle : Text
  pub integration_task_handle : Text
  pub candidate_task_handle : Text
  pub candidate_head : Text
  pub evidence_digest : Text
  pub status : ApplicationStatus

pub record InitiativeMember : Type 0 where
  pub initiative_handle : Text
  pub task_handle : Text

pub record ReplayConflict : Type 0 where
  pub original : OperationRecord
  pub presented_command : Text
  pub presented_digest : Text

pub record TaskStateEvent : Type 0 where
  pub task_handle : Text
  pub state : TaskState
  pub state_version : ℤ
  pub occurred_at : Time

pub data AuditReason : Type 0 where
  open_hold open_decision unattested_scout active_execution : AuditReason
  unknown_execution evidence_missing : AuditReason

pub record AuditEvent : Type 0 where
  pub occurred_at : Time
  pub task_handle : Text
  pub reason : AuditReason

-- pause_requested_operation_id of a task, where it is not empty.
pub record PauseRequest : Type 0 where
  pub task_handle : Text
  pub operation_id : Text

pub record Database : Type 0 where
  pub tasks : List Task
  pub cleanups : List TaskCleanupRecord
  pub operations : List OperationRecord
  pub conflicts : List ReplayConflict
  pub events : List TaskStateEvent
  pub audits : List AuditEvent
  pub holds : List CleanupHold
  pub processes : List ValidationProcess
  pub reports : List StoredReport
  pub cancellations : List DecisionCancellation
  pub attestations : List ScoutAttestation
  pub terminals : List TerminalBinding
  pub evidence_outbox : List EvidenceDelivery
  pub preparations : List TaskPreparation
  pub evidence : List StoredEvidence
  pub reconciliations : List CandidateReconciliation
  pub members : List InitiativeMember
  pub initiatives : List DevelopmentInitiative
  pub applications : List IntegrationApplication
  pub pauses : List PauseRequest
