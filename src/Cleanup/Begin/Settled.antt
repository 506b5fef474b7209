-- ===== src/Cleanup/Begin/Settled.antt =====
-- What has to hold of a task before internal/store/sqlite/cleanup.go holds it for removal.
use comis_dev_crew.Base.{
  ◌≡◌, refl, ap, inl, inr, Bool, true, false, not, ◌&&◌, ◌||◌, Bool-cases, Option, none, some,
  Result, ok, err, is_empty, ◌==◌, arith, Time, >>-eq-ok, >>=-eq-ok, refuse-eq-ok, require-eq-ok,
  &&-eq-true, ok-injective, before,
}
use comis_dev_crew.Text.{text_eq, ascii}
use comis_dev_crew.Lifecycle.{TaskState}
use comis_dev_crew.Task.{Task}
use comis_dev_crew.Cleanup.{CleanupError, is_precondition, TaskCleanupRecord, TaskCleanupMutation}
use comis_dev_crew.Cleanup.Tables.{Database, TerminalBinding, EvidenceDelivery, TerminalTransition}
use comis_dev_crew.Cleanup.Rows.{count_rows}
use comis_dev_crew.Cleanup.Database.{
  Stored, task_row, find_task_cleanup_record, find_task_cleanup_record_by_task, mutation_replay,
}
use comis_dev_crew.Cleanup.Write.{StoreContext, get_task}
use comis_dev_crew.Cleanup.Write.Frame.{get_task-row}
use comis_dev_crew.Cleanup.Safety.{
  is_scout, is_settled_terminal, has_open_hold, has_active_process, has_open_decision, is_attested,
  terminal_of, terminal_blocker, prove_terminal_settled, prove_cleanup_database_safety,
}
use comis_dev_crew.Cleanup.Begin.{
  delivered_state, cleanup_posture, begin_new_cleanup, begin_after_replay, begin_after_operation,
  begin_task_cleanup_transaction, begin_task_cleanup, audit_refusal, settle, caller_replay,
}

-- The terminal that ran the task has ended; only the fixture worker has none.
abbrev pub TerminalSettled : Task → Option TerminalBinding → Type 0
TerminalSettled task none = text_eq task.worker_profile_id (ascii "fixture-worker") ≡ true
TerminalSettled task (some binding) =
    (text_eq binding.managed_run_id task.managed_run_id ≡ true)
    × (text_eq binding.workspace_lease_id task.workspace_lease_id ≡ true)
    × (is_settled_terminal binding.latest_transition ≡ true)

-- Nothing of the task is open, running or undelivered.
pub record IsSettled (db : Database) (task : Task) : Type 0 where
  pub stored : task_row db task.handle ≡ some task
  pub delivered : task.state ≡ TaskState.delivered
  pub bound : (is_empty task.managed_run_id ≡ false) × (is_empty task.workspace_lease_id ≡ false)
  pub no_hold : has_open_hold db task.handle ≡ false
  pub no_process : has_active_process db task.handle ≡ false
  pub no_decision : has_open_decision db task.handle ≡ false
  pub attested : is_scout task.shape ≡ true → is_attested db task.handle ≡ true
  pub terminal : TerminalSettled task (terminal_of db task.handle)
  pub evidence_sent :
      (count_rows
          (λ (e : EvidenceDelivery). text_eq e.task_handle task.handle && e.delivered)
          db.evidence_outbox
        == 2)
      ≡ true

terminal_blocker-settled :
    (t : TerminalTransition) → terminal_blocker t ≡ ok tt → is_settled_terminal t ≡ true
unfolding terminal_blocker
terminal_blocker-settled TerminalTransition.exited h = refl
terminal_blocker-settled TerminalTransition.released h = refl
terminal_blocker-settled t h = cc

prove_terminal_settled-settled :
    (task : Task) (binding : Option TerminalBinding)
    → prove_terminal_settled task binding ≡ ok tt
    → TerminalSettled task binding
unfolding prove_terminal_settled
prove_terminal_settled-settled task none h = require-eq-ok _ _ h
prove_terminal_settled-settled task (some binding) h =
    let (authority, rest) = >>-eq-ok _ _ h in
    let (run, lease) = &&-eq-true _ _ (require-eq-ok _ _ authority) in
    (run, lease, terminal_blocker-settled binding.latest_transition rest)

delivered_state-delivered :
    (state : TaskState) → delivered_state state ≡ ok tt → state ≡ TaskState.delivered
unfolding delivered_state
delivered_state-delivered TaskState.delivered h = refl
delivered_state-delivered state h = cc

settled_answer :
    (db : Database) (mutation : TaskCleanupMutation) (gate : Stored (TaskCleanupRecord × Database))
    (row : TaskCleanupRecord) (after : Database)
    → (audit_refusal mutation (settle db gate)).0 ≡ ok row
    → (stored : Database) × (gate ≡ ok (row, stored))
unfolding audit_refusal settle
settled_answer db mutation (ok (found, stored)) row after h =
    (stored, ap (λ (r : TaskCleanupRecord). ok (r, stored)) (ok-injective h))
settled_answer db mutation (err refusal) row after h =
    elim (Bool-cases (is_precondition refusal.error)) [
      | inl refused ↦ refuted (rw refused at h)
      | inr failed ↦ refuted (rw failed at h)
    ]
  where
    refuted :
        ◌≡◌ {A = Result CleanupError TaskCleanupRecord} (err refusal.error) (ok row)
        → (stored : Database) × (◌≡◌ {A = Stored (TaskCleanupRecord × Database)}
            (err refusal)
            (ok (row, stored)))
    refuted h = cc

cleanup_posture-delivered :
    (task : Task) (at : Time)
    → cleanup_posture task at ≡ ok tt
    → (task.state ≡ TaskState.delivered)
      × (is_empty task.managed_run_id ≡ false)
      × (is_empty task.workspace_lease_id ≡ false)
unfolding cleanup_posture
cleanup_posture-delivered task at h =
    let (delivered, rest) = >>-eq-ok _ _ h in
    let bound : (before at task.updated_at
          || is_empty task.managed_run_id
          || is_empty task.workspace_lease_id)
        ≡ false =
      refuse-eq-ok _ _ rest in
    (delivered_state-delivered task.state delivered, ground (arith, bound), ground (arith, bound))

prove_cleanup_database_safety-IsSettled :
    (db : Database) (task : Task)
    → task_row db task.handle ≡ some task
    → (task.state ≡ TaskState.delivered)
      × (is_empty task.managed_run_id ≡ false)
      × (is_empty task.workspace_lease_id ≡ false)
    → prove_cleanup_database_safety db task ≡ ok tt
    → IsSettled db task
unfolding prove_cleanup_database_safety
prove_cleanup_database_safety-IsSettled db task row (delivered, run, lease) h =
    let (hold, s1) = >>-eq-ok _ _ h in
    let (process, s2) = >>-eq-ok _ _ s1 in
    let (decision, s3) = >>-eq-ok _ _ s2 in
    let (scout, s4) = >>-eq-ok _ _ s3 in
    let (terminal, s5) = >>-eq-ok _ _ s4 in
    record {
      stored = row;
      delivered = delivered;
      bound = (run, lease);
      no_hold = refuse-eq-ok _ _ hold;
      no_process = refuse-eq-ok _ _ process;
      no_decision = refuse-eq-ok _ _ decision;
      attested =
          attested (is_scout task.shape) (is_attested db task.handle) (refuse-eq-ok _ _ scout);
      terminal = prove_terminal_settled-settled task (terminal_of db task.handle) terminal;
      evidence_sent = (&&-eq-true _ _ (require-eq-ok _ _ s5)).1;
    }
  where
    attested : (a b : Bool) → (a && not b) ≡ false → a ≡ true → b ≡ true
    attested a b h k = ground arith

module _ (context : StoreContext) (db : Database) (mutation : TaskCleanupMutation) where
  abbrev SettledTask : Type 0
  SettledTask = (task : Task) × (task.handle ≡ mutation.task_handle) × IsSettled db task

  begin_new_cleanup-IsSettled :
      (answer : TaskCleanupRecord × Database)
      → begin_new_cleanup context db mutation ≡ ok answer
      → SettledTask
  unfolding begin_new_cleanup
  begin_new_cleanup-IsSettled answer h =
      let (task, read, h1) = >>=-eq-ok (get_task context db mutation.task_handle) _ h in
      let (posture, h2) = >>-eq-ok _ _ h1 in
      let (safe, h3) = >>-eq-ok _ _ h2 in
      let (named, row) = get_task-row context db mutation.task_handle task read in
      (
        task,
        named,
        prove_cleanup_database_safety-IsSettled db task row
            (cleanup_posture-delivered task mutation.at posture) safe,
      )

  begin_after_operation-IsSettled :
      (existing : Option TaskCleanupRecord) (answer : TaskCleanupRecord × Database)
      → existing ≡ none
      → find_task_cleanup_record_by_task db mutation.task_handle ≡ none
      → begin_after_operation context db mutation existing ≡ ok answer
      → SettledTask
  unfolding begin_after_operation
  begin_after_operation-IsSettled (some row) answer e unknown h = cc
  begin_after_operation-IsSettled none answer e unknown h =
      let (replay, ledger, h1) =
        >>=-eq-ok
          (mutation_replay db mutation.operation_id (ascii "CleanupTask") mutation.subject_digest) _
          h in
      let (replayed, agrees, h2) = >>=-eq-ok (caller_replay mutation.task_handle replay) _ h1 in
      fresh (find_task_cleanup_record_by_task db mutation.task_handle) replayed unknown h2
    where
      fresh :
          (found : Option TaskCleanupRecord) (replayed : Bool)
          → found ≡ none
          → begin_after_replay context db mutation replayed found ≡ ok answer
          → SettledTask
      fresh (some row) replayed e h = cc
      fresh none replayed e h =
          let (first, rest) = >>-eq-ok _ _ (unfold begin_after_replay in h) in
          begin_new_cleanup-IsSettled answer rest

  -- Where no cleanup record of the operation or of the task is stored, BeginTaskCleanup makes one
  -- only for a stored task with the given handle that is delivered and bound, that has no open
  -- hold, no running validation and no open decision, whose scout inventory (if it is a scout) says
  -- that nothing is open, whose terminal has ended (or it has none, and its worker is the
  -- fixture), and of whose evidence records exactly two have been sent.
  pub held_cleanup-IsSettled :
      (row : TaskCleanupRecord)
      → find_task_cleanup_record db mutation.operation_id ≡ none
      → find_task_cleanup_record_by_task db mutation.task_handle ≡ none
      → (begin_task_cleanup context db mutation).0 ≡ ok row
      → SettledTask
  unfolding begin_task_cleanup begin_task_cleanup_transaction
  held_cleanup-IsSettled row no_operation no_record h =
      let (after, committed) =
        settled_answer db mutation (begin_task_cleanup_transaction context db mutation) row db h in
      let (valid, rest) = >>-eq-ok _ _ committed in
      begin_after_operation-IsSettled (find_task_cleanup_record db mutation.operation_id)
        (row, after) no_operation no_record rest
