-- ===== src/Command/Stopped.antt =====
-- What a cancelled task stands on: CommitTaskCancel of internal/store/sqlite/cancel_task.go.
use comis_dev_crew.Base.{
  ◌≡◌, refl, sym, ap, ◌∙◌, inl, inr, Bool, true, false, not, Bool-cases, Option, none, some, ok,
  Time, >>-eq-ok, >>=-eq-ok, refuse-eq-ok, require-eq-ok, &&-eq-true, ok-injective, arith,
}
use mathlib.Core.Path.{subst}
use comis_dev_crew.Text.{text_eq}
use comis_dev_crew.Platform.{Platform}
use comis_dev_crew.Lifecycle.{TaskState, TaskTransition, same_state, next_task_state}
use comis_dev_crew.Task.{Task, TaskError}
use comis_dev_crew.Task.Apply.{apply_transition}
use comis_dev_crew.Task.Apply.Laws.{IsStep, apply_transition-IsStep}
use comis_dev_crew.Cleanup.Tables.{Database, TerminalBinding}
use comis_dev_crew.Cleanup.Database.{
  task_row, operation_row, mutation_replay, replay_of, next_mutation_state_version,
}
use comis_dev_crew.Cleanup.Write.{StoreContext, get_task, update_task_state}
use comis_dev_crew.Cleanup.Safety.{
  terminal_of, has_active_process, is_settled_terminal, prove_settled_binding,
  prove_nothing_is_still_running,
}
use comis_dev_crew.Cleanup.Store.{transitioned}
use comis_dev_crew.Cleanup.Write.Frame.{get_task-row}
use comis_dev_crew.Cleanup.Complete.{MutationResult}
use comis_dev_crew.Command.{
  command_text, TaskMutationSpec, TaskMutationBody, persist, commit_or_replay, commit_task_mutation,
  insert_new_operation,
}
use comis_dev_crew.Command.Stop.{
  TaskStopMutation, cancel_task_state, cancel_unless_cancelled, cancel_body, commit_task_cancel,
}

-- Durable evidence that nothing runs for the task: its terminal is bound to its run and its lease
-- and has ended, and no validation of it is running.
pub record IsEnded (db : Database) (task : Task) : Type 0 where
  pub binding : TerminalBinding
  pub bound : terminal_of db task.handle ≡ some binding
  pub run : text_eq binding.managed_run_id task.managed_run_id ≡ true
  pub lease : text_eq binding.workspace_lease_id task.workspace_lease_id ≡ true
  pub settled : is_settled_terminal binding.latest_transition ≡ true
  pub idle : has_active_process db task.handle ≡ false

prove_settled_binding-bound :
    (task : Task) (binding : Option TerminalBinding)
    → prove_settled_binding true task binding ≡ ok tt
    → (found : TerminalBinding) × (binding ≡ some found)
      × (text_eq found.managed_run_id task.managed_run_id ≡ true)
      × (text_eq found.workspace_lease_id task.workspace_lease_id ≡ true)
      × (is_settled_terminal found.latest_transition ≡ true)
unfolding prove_settled_binding
prove_settled_binding-bound task none h = cc
prove_settled_binding-bound task (some binding) h =
    let (authority, rest) = >>-eq-ok _ _ h in
    let (run, lease) = &&-eq-true _ _ (require-eq-ok _ _ authority) in
    (binding, refl, run, lease, require-eq-ok _ _ rest)

prove_nothing_is_still_running-IsEnded :
    (db : Database) (task : Task)
    → prove_nothing_is_still_running db task true ≡ ok tt
    → IsEnded db task
unfolding prove_nothing_is_still_running
prove_nothing_is_still_running-IsEnded db task h =
    let (terminal, rest) = >>-eq-ok _ _ h in
    let (found, bound, run, lease, settled) =
      prove_settled_binding-bound task (terminal_of db task.handle) terminal in
    record {
      binding = found;
      bound = bound;
      run = run;
      lease = lease;
      settled = settled;
      idle = refuse-eq-ok _ _ rest;
    }

pub transitioned-applied :
    (answer : Task × Option TaskError) (task : Task)
    → transitioned answer ≡ ok task
    → answer ≡ (task, none)
transitioned-applied (t, none) task h = ap (λ (x : Task). (x, none)) (ok-injective h)
transitioned-applied (t, some e) task h = cc

pub cancel_requested_leads :
    (s t : TaskState)
    → next_task_state s TaskTransition.cancel_requested ≡ some t
    → t ≡ TaskState.cancelled
unfolding next_task_state
cancel_requested_leads s t h = ground arith

reconciled_cancelled_leads :
    (s t : TaskState)
    → next_task_state s TaskTransition.reconciled_cancelled ≡ some t
    → t ≡ TaskState.cancelled
unfolding next_task_state
reconciled_cancelled_leads s t h = ground arith

-- A transition whose event leads to one state only leads there.
pub applied-state :
    (platform : Platform) (task after : Task) (event : TaskTransition) (at : Time)
    (target : TaskState)
    → ((s t : TaskState) → next_task_state s event ≡ some t → t ≡ target)
    → transitioned (apply_transition platform task event at) ≡ ok after
    → after.state ≡ target
applied-state platform task after event at target leads h =
    let step : IsStep platform task event at after =
      apply_transition-IsStep platform task event at after
        (transitioned-applied (apply_transition platform task event at) after h) in
    ap (λ (t : Task). t.state) step.result ∙ leads task.state step.next step.allowed

pub cancelled_state :
    (s : TaskState) → same_state s TaskState.cancelled ≡ true → s ≡ TaskState.cancelled
unfolding text_eq
cancelled_state TaskState.cancelled h = refl
cancelled_state s h = ground arith

not_unknown : (s : TaskState) → s ≡ TaskState.unknown → not (same_state s TaskState.unknown) ≡ false
unfolding text_eq
not_unknown s h = rw h

-- What a cancel says of the task it stops.
abbrev Stops : Database → Task → Task → Type 0
Stops db task updated =
    (updated.state ≡ TaskState.cancelled) × (task.state ≡ TaskState.unknown → IsEnded db task)

module _ (context : StoreContext) where
  cancel_task_state-Stops :
      (db : Database) (task updated : Task) (at : Time)
      → cancel_task_state context db task at ≡ ok updated
      → Stops db task updated
  unfolding cancel_task_state
  cancel_task_state-Stops db task updated at h =
      elim (Bool-cases (not (same_state task.state TaskState.unknown))) [
        | inl known ↦ (
          applied-state context.platform task updated TaskTransition.cancel_requested at
              TaskState.cancelled cancel_requested_leads (rw known at h),
          λ unknown. elim (clash _ known (not_unknown task.state unknown)) [ ],
        )
        | inr unknown ↦
            let (ended, rest) = >>-eq-ok _ _ (rw unknown at h) in
            let (reconciling, required, last) =
              >>=-eq-ok
                (transitioned
                  (apply_transition context.platform task TaskTransition.reconcile_required at))
                _ rest in
            (
              applied-state context.platform reconciling updated TaskTransition.reconciled_cancelled
                  at TaskState.cancelled reconciled_cancelled_leads last,
              λ _. prove_nothing_is_still_running-IsEnded db task ended,
            )
      ]
    where
      clash : (b : Bool) → b ≡ true → b ≡ false → ⊥
      clash b h k = cc

  cancel_unless_cancelled-Stops :
      (db : Database) (task updated : Task) (at : Time) (after : Database)
      → cancel_unless_cancelled context db task at ≡ ok (updated, after)
      → Stops db task updated
  unfolding cancel_unless_cancelled
  cancel_unless_cancelled-Stops db task updated at after h =
      elim (Bool-cases (same_state task.state TaskState.cancelled)) [
        | inl already ↦
            let same : task ≡ updated =
              ap (λ (p : Task × Database). p.0) (ok-injective (rw already at h)) in
            let cancelled : task.state ≡ TaskState.cancelled = cancelled_state task.state already in
            (
              subst (λ (t : Task). t.state ≡ TaskState.cancelled) same cancelled,
              λ unknown. elim (apart task.state cancelled unknown) [ ],
            )
        | inr open_yet ↦
            let (stopped, cancelled, last) =
              >>=-eq-ok (cancel_task_state context db task at) _ (rw open_yet at h) in
            subst (Stops db task) (ap (λ (p : Task × Database). p.0) (ok-injective last))
              (cancel_task_state-Stops db task stopped at cancelled)
      ]
    where
      apart : (s : TaskState) → s ≡ TaskState.cancelled → s ≡ TaskState.unknown → ⊥
      apart s h k = cc

  pub persist-state :
      (spec : TaskMutationSpec) (db : Database) (updated : Task) (result : MutationResult)
      (after : Database)
      → persist context spec db updated ≡ ok (result, after)
      → result.task.state ≡ updated.state
  unfolding persist
  persist-state spec db updated result after h =
      let (version, numbered, h1) = >>=-eq-ok (next_mutation_state_version db) _ h in
      let (touched, written, h2) =
        >>=-eq-ok (update_task_state context db (record updated { state_version = version })) _
          h1 in
      let (stored, entered, last) = >>=-eq-ok (insert_new_operation touched _) _ h2 in
      ap (λ (p : MutationResult × Database). p.0.task.state) (sym (ok-injective last))

  -- A command that the ledger does not have runs its body and persists what it gives.
  pub commit_task_mutation-fresh :
      (spec : TaskMutationSpec) (body : TaskMutationBody) (db : Database) (result : MutationResult)
      (after : Database)
      → operation_row db spec.operation_id ≡ none
      → commit_task_mutation context spec body db ≡ ok (result, after)
      → (answer : Task × Database) × (body db ≡ ok answer)
        × (persist context spec answer.1 answer.0 ≡ ok (result, after))
  unfolding commit_task_mutation commit_or_replay mutation_replay replay_of
  commit_task_mutation-fresh spec body db result after fresh h =
      let (utc, h1) = >>-eq-ok _ _ h in
      let (replay, ledger, h2) =
        >>=-eq-ok
          (mutation_replay db spec.operation_id (command_text spec.command) spec.subject_digest) _
          h1 in
      let same : replay ≡ none =
        ok-injective
          (sym ledger ∙ ap (replay_of (command_text spec.command) spec.subject_digest) fresh) in
      let ran : commit_or_replay context spec body db none ≡ ok (result, after) =
        subst (λ r. commit_or_replay context spec body db r ≡ ok (result, after)) same h2 in
      >>=-eq-ok (body db) _ ran

  cancel_body-Stops :
      (mutation : TaskStopMutation) (db : Database) (updated : Task) (after : Database)
      → cancel_body context mutation db ≡ ok (updated, after)
      → (task : Task) × (task_row db mutation.task_handle ≡ some task) × Stops db task updated
  unfolding cancel_body
  cancel_body-Stops mutation db updated after h =
      let (task, read, b1) = >>=-eq-ok (get_task context db mutation.task_handle) _ h in
      let (unreserved, b2) = >>-eq-ok _ _ b1 in
      let (named, row) = get_task-row context db mutation.task_handle task read in
      (
        task,
        subst (λ handle. task_row db handle ≡ some task) named row,
        cancel_unless_cancelled-Stops db task updated mutation.at after b2,
      )

  -- Where the ledger does not have the operation, CommitTaskCancel ends with a cancelled task only
  -- for a stored task; and where that task was unknown, its terminal is bound to its run and its
  -- lease and has ended, and no validation of it is running.
  pub cancelled_task-IsEnded :
      (db : Database) (mutation : TaskStopMutation) (result : MutationResult) (after : Database)
      → operation_row db mutation.operation_id ≡ none
      → commit_task_cancel context db mutation ≡ ok (result, after)
      → (result.task.state ≡ TaskState.cancelled)
        × ((task : Task) × (task_row db mutation.task_handle ≡ some task)
            × (task.state ≡ TaskState.unknown → IsEnded db task))
  unfolding commit_task_cancel
  cancelled_task-IsEnded db mutation result after fresh h =
      let (answer, ran, rest) =
        commit_task_mutation-fresh _ (cancel_body context mutation) db result after fresh h in
      let (task, row, (cancelled, ended)) = cancel_body-Stops mutation db answer.0 answer.1 ran in
      (persist-state _ answer.1 answer.0 result after rest ∙ cancelled, (task, row, ended))
