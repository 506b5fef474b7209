-- ===== src/Cleanup/Safety.antt =====
-- The proofs that the store asks of its own rows before a task is held for removal:
-- internal/store/sqlite/cleanup_safety.go, and proveNothingIsStillRunning of
-- internal/store/sqlite/replace.go.
use comis_dev_crew.Base.{
  ◌==◌, Bool, true, false, not, ◌&&◌, List, [], ◌∷◌, Option, none, some, ok, err, ◌>>◌, refuse,
  require, if◌then◌else◌, is_empty, keep,
}
use comis_dev_crew.Text.{Text, text_eq, ascii}
use comis_dev_crew.Lifecycle.{TaskShape}
use comis_dev_crew.Task.{Task}
use comis_dev_crew.Operation.{OperationRecord, OperationStatus}
use comis_dev_crew.Cleanup.{CleanupError}
use comis_dev_crew.Cleanup.Rows.{row_where, some_row, count_rows}
use comis_dev_crew.Cleanup.Tables.{
  CleanupHold, ValidationProcess, ReportKind, StoredReport, DecisionCancellation, ScoutAttestation,
  TerminalTransition, TerminalBinding, EvidenceDelivery, TaskPreparation, Database,
}
use comis_dev_crew.Cleanup.Database.{rolled_back, Stored}

abbrev pub is_scout : TaskShape → Bool
is_scout TaskShape.scout = true
is_scout _ = false

abbrev pub is_decision : ReportKind → Bool
is_decision ReportKind.decision = true
is_decision _ = false

abbrev pub is_resolution : ReportKind → Bool
is_resolution ReportKind.resolution = true
is_resolution _ = false

abbrev pub is_candidate_complete : ReportKind → Bool
is_candidate_complete ReportKind.candidate_complete = true
is_candidate_complete _ = false

abbrev pub is_settled_terminal : TerminalTransition → Bool
is_settled_terminal TerminalTransition.exited = true
is_settled_terminal TerminalTransition.released = true
is_settled_terminal _ = false

-- The WHERE of decisionStillOpenClause.
unfoldable pub decision_still_open : Database → StoredReport → Bool
unfolding some_row
decision_still_open db d =
    not (
      some_row
        (λ (r : StoredReport).
          text_eq r.task_handle d.task_handle
          && is_resolution r.kind
          && text_eq r.external_key d.external_key)
        db.reports)
    && not (
        some_row
          (λ (c : DecisionCancellation).
            text_eq c.task_handle d.task_handle && text_eq c.external_key d.external_key)
          db.cancellations)

unfoldable pub has_open_hold : Database → Text → Bool
unfolding some_row
has_open_hold db handle =
    some_row (λ (h : CleanupHold). text_eq h.task_handle handle && not h.closed) db.holds

unfoldable pub has_active_process : Database → Text → Bool
unfolding some_row
has_active_process db handle =
    some_row (λ (p : ValidationProcess). text_eq p.task_handle handle && not p.settled) db.processes

unfoldable pub has_open_decision : Database → Text → Bool
unfolding some_row decision_still_open
has_open_decision db handle =
    some_row
      (λ (d : StoredReport).
        text_eq d.task_handle handle && is_decision d.kind && decision_still_open db d)
      db.reports

unfoldable pub is_attested : Database → Text → Bool
unfolding some_row
is_attested db handle =
    some_row (λ (a : ScoutAttestation). text_eq a.task_handle handle && a.clear) db.attestations

unfoldable pub terminal_of : Database → Text → Option TerminalBinding
unfolding row_where
terminal_of db handle =
    row_where (λ (t : TerminalBinding). text_eq t.task_handle handle) db.terminals

-- `switch transition`
unfoldable pub terminal_blocker : TerminalTransition → Stored (Unit {0})
terminal_blocker TerminalTransition.exited = ok tt
terminal_blocker TerminalTransition.released = ok tt
terminal_blocker TerminalTransition.lost = err (rolled_back CleanupError.unknown_execution)
terminal_blocker (TerminalTransition.other t) = err (rolled_back CleanupError.unknown_execution)
terminal_blocker TerminalTransition.created = err (rolled_back CleanupError.active_execution)
terminal_blocker TerminalTransition.running = err (rolled_back CleanupError.active_execution)
terminal_blocker TerminalTransition.input_needed = err (rolled_back CleanupError.active_execution)
terminal_blocker TerminalTransition.stuck = err (rolled_back CleanupError.active_execution)
terminal_blocker TerminalTransition.recovered = err (rolled_back CleanupError.active_execution)

-- The terminal of the task; the in-process fixture worker has none.
unfoldable pub prove_terminal_settled : Task → Option TerminalBinding → Stored (Unit {0})
unfolding terminal_blocker
prove_terminal_settled task none =
    require (text_eq task.worker_profile_id (ascii "fixture-worker"))
      (rolled_back CleanupError.unknown_execution)
prove_terminal_settled task (some binding) = do
  require
      (text_eq binding.managed_run_id task.managed_run_id
        && text_eq binding.workspace_lease_id task.workspace_lease_id)
      (rolled_back CleanupError.unknown_execution)
  terminal_blocker binding.latest_transition

unfoldable pub prove_cleanup_database_safety : Database → Task → Stored (Unit {0})
unfolding has_open_hold has_active_process has_open_decision is_attested prove_terminal_settled
    terminal_of count_rows
prove_cleanup_database_safety db task = do
  refuse (has_open_hold db task.handle) (rolled_back CleanupError.open_hold)
  refuse (has_active_process db task.handle) (rolled_back CleanupError.active_execution)
  refuse (has_open_decision db task.handle) (rolled_back CleanupError.open_decision)
  refuse (is_scout task.shape && not (is_attested db task.handle))
      (rolled_back CleanupError.unattested_scout)
  prove_terminal_settled task (terminal_of db task.handle)
  require
      (count_rows (λ (e : EvidenceDelivery). text_eq e.task_handle task.handle) db.evidence_outbox
          == 2
        && count_rows (λ (e : EvidenceDelivery). text_eq e.task_handle task.handle && e.delivered)
            db.evidence_outbox
          == 2)
      (rolled_back CleanupError.precondition)

-- The checks of the terminal binding in proveNothingIsStillRunning; `required` is requireBinding.
unfoldable pub prove_settled_binding : Bool → Task → Option TerminalBinding → Stored (Unit {0})
prove_settled_binding required task none = refuse required (rolled_back CleanupError.precondition)
prove_settled_binding required task (some binding) = do
  require
      (text_eq binding.managed_run_id task.managed_run_id
        && text_eq binding.workspace_lease_id task.workspace_lease_id)
      (rolled_back CleanupError.precondition)
  require (is_settled_terminal binding.latest_transition) (rolled_back CleanupError.precondition)

unfoldable pub prove_nothing_is_still_running : Database → Task → Bool → Stored (Unit {0})
unfolding prove_settled_binding terminal_of has_active_process
prove_nothing_is_still_running db task required = do
  prove_settled_binding required task (terminal_of db task.handle)
  refuse (has_active_process db task.handle) (rolled_back CleanupError.precondition)

-- `o.command = ? AND o.status = ? AND o.result_ref = ?`
abbrev pub is_completed : OperationStatus → Bool
is_completed OperationStatus.completed = true
is_completed _ = false

unfoldable pub completed_for : Text → Text → OperationRecord → Bool
completed_for command handle o =
    text_eq o.command command && is_completed o.status && text_eq o.result_ref handle

unfoldable pub preparation_of : Database → Text → Option TaskPreparation
unfolding row_where
preparation_of db handle =
    row_where (λ (p : TaskPreparation). text_eq p.task_handle handle) db.preparations

-- The one row of the join, whose preparation has one row for each task.
unfoldable pub joined_preparation :
    List OperationRecord → Option TaskPreparation → Stored (Text × Text)
joined_preparation (o ∷ []) (some p) =
    if is_empty p.requested_workspace_root
    then err (rolled_back CleanupError.precondition)
    else ok (o.id, p.requested_workspace_root)
joined_preparation _ _ = err (rolled_back CleanupError.precondition)

unfoldable pub cleanup_preparation : Database → Text → Stored (Text × Text)
unfolding joined_preparation preparation_of completed_for
cleanup_preparation db handle =
    joined_preparation (keep (completed_for (ascii "PrepareTask") handle) db.operations)
      (preparation_of db handle)
