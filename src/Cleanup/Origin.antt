-- ===== src/Cleanup/Origin.antt =====
-- The delivered candidate that a cleanup rests on: its sealed evidence, where the candidate came
-- from, and that every integration took it in. cleanupEvidence, proveCleanupCandidateOrigin and
-- proveCleanupIntegrationApplications of internal/store/sqlite/cleanup_safety.go.
use comis_dev_crew.Base.{
  ℕ, ◌==◌, Bool, true, false, not, xor, ◌&&◌, ◌||◌, List, [], ◌∷◌, ◌++◌, Option, none, some, String,
  Result, ok, err, ◌>>=◌, ◌>>◌, require, increment, int_less, int_eq, is_number, if◌then◌else◌,
  keep, length,
}
use comis_dev_crew.Text.{Text, text_eq, text_less, ascii}
use comis_dev_crew.Lifecycle.{DeliveryMode}
use comis_dev_crew.Task.{Task}
use comis_dev_crew.Operation.{OperationRecord}
use comis_dev_crew.Initiative.{DevelopmentInitiative, InitiativeEdge, InitiativeEdgeKind}
use comis_dev_crew.Evidence
use comis_dev_crew.Evidence.{DeliveryEvidenceBundle}
use comis_dev_crew.Evidence.Seal.{SealedDeliveryEvidence, parse_delivery_evidence}
use comis_dev_crew.Cleanup.{CleanupError}
use comis_dev_crew.Cleanup.Rows.{some_row, count_rows}
use comis_dev_crew.Cleanup.Tables.{
  StoredReport, TerminalTransition, TerminalBinding, TaskPreparation, StoredEvidence,
  IntegrationApplication, CandidateReconciliation, InitiativeMember, Database,
}
use comis_dev_crew.Cleanup.Database.{rolled_back, Stored, operation_row}
use comis_dev_crew.Cleanup.Write.{StoreContext, is_applied}
use comis_dev_crew.Cleanup.Safety.{
  is_candidate_complete, terminal_of, preparation_of, completed_for,
}

-- `ORDER BY state_version DESC, evidence_digest`
unfoldable pub comes_first : StoredEvidence → StoredEvidence → Bool
comes_first a b =
    int_less b.state_version a.state_version
    || (int_eq a.state_version b.state_version && text_less a.digest b.digest)

-- The first row of that order, `LIMIT 1`.
unfoldable pub first_evidence : Option StoredEvidence → List StoredEvidence → Option StoredEvidence
unfolding comes_first
first_evidence best [] = best
first_evidence none (row ∷ rows) = first_evidence (some row) rows
first_evidence (some best) (row ∷ rows) =
    first_evidence (some (if comes_first row best then row else best)) rows

abbrev pub is_some : {A : Type 0} → Option A → Bool
is_some none = false
is_some (some a) = true

abbrev pub is_pull_request : DeliveryMode → Bool
is_pull_request DeliveryMode.pull_request = true
is_pull_request _ = false

abbrev pub is_report : DeliveryMode → Bool
is_report DeliveryMode.report = true
is_report _ = false

-- The bundle is accepted evidence of the task.
unfoldable pub evidence_fits : Task → StoredEvidence → DeliveryEvidenceBundle → Bool
evidence_fits task row bundle =
    row.accepted
    && text_eq bundle.task_handle task.handle
    && text_eq bundle.repository_identity task.repository_id
    && text_eq bundle.base_revision task.base_revision
    && Evidence.is_clean bundle.worktree_cleanliness
    && is_number bundle.unresolved_decision_count 0
    && not (xor (is_pull_request task.delivery_mode) (is_some bundle.forge_evidence))
    && not (xor (is_report task.delivery_mode) (is_some bundle.report_artifact))

abbrev parsed_or_refused : Result String SealedDeliveryEvidence → Stored SealedDeliveryEvidence
parsed_or_refused (ok sealed) = ok sealed
parsed_or_refused (err e) =
    err (rolled_back (CleanupError.plain "read task cleanup evidence: stored evidence is invalid"))

module _ (context : StoreContext) where
  unfoldable pub read_evidence :
      Task → Option StoredEvidence → Stored (StoredEvidence × SealedDeliveryEvidence)
  unfolding evidence_fits
  read_evidence task none = err (rolled_back (CleanupError.plain "read task cleanup evidence"))
  read_evidence task (some row) = do
    sealed ←
        parsed_or_refused
          (parse_delivery_evidence context.platform context.codec row.canonical row.digest)
    require (evidence_fits task row sealed.bundle) (rolled_back CleanupError.precondition)
    ok (row, sealed)

  unfoldable pub cleanup_evidence :
      Database → Task → Stored (StoredEvidence × SealedDeliveryEvidence)
  unfolding read_evidence first_evidence
  cleanup_evidence db task = read_evidence task (
      first_evidence none
        (keep (λ (e : StoredEvidence). text_eq e.task_handle task.handle) db.evidence))

abbrev same_terminal_transition : TerminalTransition → TerminalTransition → Bool
same_terminal_transition TerminalTransition.created TerminalTransition.created = true
same_terminal_transition TerminalTransition.running TerminalTransition.running = true
same_terminal_transition TerminalTransition.input_needed TerminalTransition.input_needed = true
same_terminal_transition TerminalTransition.stuck TerminalTransition.stuck = true
same_terminal_transition TerminalTransition.exited TerminalTransition.exited = true
same_terminal_transition TerminalTransition.lost TerminalTransition.lost = true
same_terminal_transition TerminalTransition.recovered TerminalTransition.recovered = true
same_terminal_transition TerminalTransition.released TerminalTransition.released = true
same_terminal_transition (TerminalTransition.other a) (TerminalTransition.other b) = text_eq a b
same_terminal_transition _ _ = false

-- The joined row of each table, which has the operation or the task as its key.
unfoldable pub recovery_joins : CandidateReconciliation → Option OperationRecord → Bool
recovery_joins r none = false
recovery_joins r (some o) =
    completed_for (ascii "ReconcileTask") r.task_handle o
    && int_eq o.state_version r.completed_state_version

unfoldable pub preparation_joins : CandidateReconciliation → Option OperationRecord → Bool
preparation_joins r none = false
preparation_joins r (some o) = completed_for (ascii "PrepareTask") r.task_handle o

unfoldable pub workspace_joins : CandidateReconciliation → Option TaskPreparation → Bool
workspace_joins r none = false
workspace_joins r (some p) = text_eq p.requested_workspace_root r.worktree_path

unfoldable pub terminal_joins : CandidateReconciliation → Option TerminalBinding → Bool
terminal_joins r none = false
terminal_joins r (some t) =
    text_eq t.terminal_session_id r.terminal_session_id
    && same_terminal_transition t.latest_transition r.terminal_transition
    && t.updated_at.instant == r.terminal_observed_at.instant

unfoldable pub reconciliation_counts :
    Database → Task → Text → Text → Text → CandidateReconciliation → Bool
unfolding recovery_joins preparation_joins workspace_joins terminal_joins
reconciliation_counts db task preparation worktree head r =
    text_eq r.task_handle task.handle
    && r.validates
    && text_eq r.preparation_operation_id preparation
    && text_eq r.repository_id task.repository_id
    && text_eq r.worktree_path worktree
    && workspace_joins r (preparation_of db r.task_handle)
    && text_eq r.base_revision task.base_revision
    && text_eq r.head_revision head
    && r.clean
    && terminal_joins r (terminal_of db r.task_handle)
    && recovery_joins r (operation_row db r.operation_id)
    && preparation_joins r (operation_row db r.preparation_operation_id)
    && int_eq (increment r.started_state_version) r.completed_state_version
    && not (int_less task.state_version r.completed_state_version)

-- The rows of the outbox that join with the candidate report of the task.
unfoldable pub candidate_deliveries : Text → List StoredReport → List Bool
candidate_deliveries handle [] = []
candidate_deliveries handle (r ∷ rs) =
    let rest = candidate_deliveries handle rs in
    if text_eq r.task_handle handle && is_candidate_complete r.kind then r.outbox ++ rest else rest

-- Exactly one origin: a delivered report, or an accepted reconciliation.
unfoldable pub one_origin : ℕ → ℕ → ℕ → Bool
one_origin total delivered reconciled =
    (total == 1 && delivered == 1 && reconciled == 0)
    || (total == 0 && delivered == 0 && reconciled == 1)

unfoldable pub prove_cleanup_candidate_origin :
    Database → Task → Text → Text → Text → Stored (Unit {0})
unfolding one_origin candidate_deliveries count_rows reconciliation_counts
prove_cleanup_candidate_origin db task preparation worktree head =
    let deliveries = candidate_deliveries task.handle db.reports in
    require
      (one_origin (length deliveries) (count_rows (λ delivered. delivered) deliveries)
        (count_rows (reconciliation_counts db task preparation worktree head) db.reconciliations))
      (rolled_back CleanupError.precondition)

abbrev pub is_integrates_after : InitiativeEdgeKind → Bool
is_integrates_after InitiativeEdgeKind.integrates_after = true
is_integrates_after _ = false

-- The initiatives that the task is a member of.
unfoldable pub initiatives_of :
    Text → List InitiativeMember → List DevelopmentInitiative → List DevelopmentInitiative
unfolding some_row
initiatives_of handle members = keep (λ (i : DevelopmentInitiative).
    some_row
      (λ (m : InitiativeMember).
        text_eq m.task_handle handle && text_eq m.initiative_handle i.handle)
      members)

unfoldable pub applied_everywhere :
    Database → DevelopmentInitiative → Text → Text → Text → List InitiativeEdge → Stored (Unit {0})
unfolding count_rows
applied_everywhere db initiative handle digest head [] = ok tt
applied_everywhere db initiative handle digest head (edge ∷ edges) = do
  require
      (not (is_integrates_after edge.kind && text_eq edge.from_task_handle handle)
        || count_rows
            (λ (a : IntegrationApplication).
              text_eq a.initiative_handle initiative.handle
              && text_eq a.integration_task_handle edge.to_task_handle
              && text_eq a.candidate_task_handle handle
              && text_eq a.candidate_head head
              && text_eq a.evidence_digest digest
              && is_applied a.status)
            db.applications
          == 1)
      (rolled_back CleanupError.precondition)
  applied_everywhere db initiative handle digest head edges

unfoldable pub prove_cleanup_integration_applications :
    Database → Text → Text → Text → List DevelopmentInitiative → Stored (Unit {0})
unfolding applied_everywhere
prove_cleanup_integration_applications db handle digest head [] = ok tt
prove_cleanup_integration_applications db handle digest head (initiative ∷ []) =
    applied_everywhere db initiative handle digest head initiative.edges
prove_cleanup_integration_applications db handle digest head (a ∷ b ∷ more) = err (
    rolled_back
      (CleanupError.plain "read initiative membership: task belongs to multiple initiatives"))
