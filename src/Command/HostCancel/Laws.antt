-- ===== src/Command/HostCancel/Laws.antt =====
-- What a cancel at the host's request does: CommitManagedRunCancel of
-- internal/store/sqlite/cancel.go.
use mathlib.Core.Path.{subst}
use comis_dev_crew.Base.{
  ◌≡◌, ◌≢◌, ap, ◌∙◌, inl, inr, Bool-cases, none, some, ok, Time, >>-eq-ok, >>=-eq-ok, ok-injective,
  arith,
}
use comis_dev_crew.Lifecycle.{TaskState, TaskTransition, same_state, next_task_state}
use comis_dev_crew.Task.{Task}
use comis_dev_crew.Task.Apply.{apply_transition}
use comis_dev_crew.Task.Apply.Laws.{IsStep, apply_transition-IsStep}
use comis_dev_crew.Cleanup.Tables.{Database}
use comis_dev_crew.Cleanup.Database.{operation_row}
use comis_dev_crew.Cleanup.Write.{StoreContext}
use comis_dev_crew.Cleanup.Store.{transitioned}
use comis_dev_crew.Cleanup.Complete.{MutationResult}
use comis_dev_crew.Command.Stopped.{
  cancel_requested_leads, applied-state, cancelled_state, transitioned-applied, persist-state,
  commit_task_mutation-fresh,
}
use comis_dev_crew.Command.HostCancel.{
  ManagedRunCancelMutation, get_task_by_managed_run, host_cancel_unless_cancelled,
  managed_run_cancel_body, commit_managed_run_cancel,
}

cancel_refuses_unknown :
    (s t : TaskState)
    → next_task_state s TaskTransition.cancel_requested ≡ some t
    → s ≢ TaskState.unknown
unfolding next_task_state
cancel_refuses_unknown s t h u = ground arith

module _ (context : StoreContext) where
  host_cancel_unless_cancelled-state :
      (db : Database) (task updated : Task) (at : Time) (after : Database)
      → host_cancel_unless_cancelled context db task at ≡ ok (updated, after)
      → (updated.state ≡ TaskState.cancelled) × (task.state ≢ TaskState.unknown)
  unfolding host_cancel_unless_cancelled
  host_cancel_unless_cancelled-state db task updated at after h =
      elim (Bool-cases (same_state task.state TaskState.cancelled)) [
        | inl already ↦
            let same : task ≡ updated =
              ap (λ (p : Task × Database). p.0) (ok-injective (rw already at h)) in
            let cancelled : task.state ≡ TaskState.cancelled = cancelled_state task.state already in
            (
              subst (λ (t : Task). t.state ≡ TaskState.cancelled) same cancelled,
              λ unknown. apart task.state cancelled unknown,
            )
        | inr open_yet ↦
            let (stopped, applied, last) =
              >>=-eq-ok
                (transitioned
                  (apply_transition context.platform task TaskTransition.cancel_requested at))
                _ (rw open_yet at h) in
            let step : IsStep context.platform task TaskTransition.cancel_requested at stopped =
              apply_transition-IsStep context.platform task TaskTransition.cancel_requested at
                stopped (transitioned-applied _ stopped applied) in
            (
              subst (λ (t : Task). t.state ≡ TaskState.cancelled)
                  (ap (λ (p : Task × Database). p.0) (ok-injective last))
                  (applied-state context.platform task stopped TaskTransition.cancel_requested at
                    TaskState.cancelled cancel_requested_leads applied),
              cancel_refuses_unknown task.state step.next step.allowed,
            )
      ]
    where
      apart : (s : TaskState) → s ≡ TaskState.cancelled → s ≡ TaskState.unknown → ⊥
      apart s h k = cc

  -- Where the ledger does not have the operation, a cancel at the host's request ends with a
  -- cancelled task only for the one task of the run, and never for one that was unknown.
  host_cancelled-IsKnown :
      (db : Database) (mutation : ManagedRunCancelMutation) (result : MutationResult)
      (after : Database)
      → operation_row db mutation.operation_id ≡ none
      → commit_managed_run_cancel context db mutation ≡ ok (result, after)
      → (result.task.state ≡ TaskState.cancelled)
        × ((task : Task) × (get_task_by_managed_run context db mutation.managed_run_id ≡ ok task)
            × (task.state ≢ TaskState.unknown))
  unfolding commit_managed_run_cancel managed_run_cancel_body
  host_cancelled-IsKnown db mutation result after fresh h =
      let (answer, ran, rest) =
        commit_task_mutation-fresh context _ (managed_run_cancel_body context mutation) db result
          after fresh h in
      let (task, read, b1) =
        >>=-eq-ok (get_task_by_managed_run context db mutation.managed_run_id) _ ran in
      let (joined, b2) = >>-eq-ok _ _ b1 in
      let (unreserved, b3) = >>-eq-ok _ _ b2 in
      let (cancelled, known) =
        host_cancel_unless_cancelled-state db task answer.0 mutation.at answer.1 b3 in
      (persist-state context _ answer.1 answer.0 result after rest ∙ cancelled, (task, read, known))
