-- ===== src/Cleanup/Commands/Total.antt =====
-- The loop of runRemovalStages ends: every pass moves the record to a later stage.
use comis_dev_crew.Base.{
  ◌≡◌, ◌≢◌, ◌≤◌, ap, Option, none, some, Result, ok, err, ℕ, zero, suc, arith,
}
use comis_dev_crew.Text.{Text}
use comis_dev_crew.Cleanup.{
  CleanupError, CleanupStage, TaskCleanupRecord, CleanupTaskCommand, DiscardTaskCommand,
}
use comis_dev_crew.Cleanup.Tables.{Database}
use comis_dev_crew.Cleanup.Write.{StoreContext}
use comis_dev_crew.Cleanup.Store.{
  StageChange, HostReleaseMutation, RemovalAuthorization, release_change, authorize_change,
  record_task_cleanup_host_release, authorize_task_cleanup_removal,
}
use comis_dev_crew.Cleanup.Store.Laws.{Advanced, advance_task_cleanup-Advanced}
use comis_dev_crew.Cleanup.Complete.{MutationResult}
use comis_dev_crew.Cleanup.Ports.{CleanupPorts, World}
use comis_dev_crew.Cleanup.Coordinator.{
  Pass, pass_prepared, pass_released, pass_stage, pass_once, complete, next_pass,
  run_removal_stages,
}
use comis_dev_crew.Cleanup.Coordinator.Triples.{
  Outcome, Ends, Ends-bind, Ends-mono, Ends-reporting, Ends-raise_if, store-Ends,
}
use comis_dev_crew.Cleanup.Commands.{stage_passes, cleanup_task, discard_task}

-- How many passes a record in a stage needs.
abbrev passes_left : CleanupStage → ℕ
passes_left CleanupStage.prepared = 3
passes_left CleanupStage.managed_run_absent = 2
passes_left CleanupStage.host_released = 2
passes_left _ = 1

enough_passes : (stage : CleanupStage) → passes_left stage ≤ stage_passes
enough_passes CleanupStage.prepared = omega arith
enough_passes CleanupStage.managed_run_absent = omega arith
enough_passes CleanupStage.host_released = omega arith
enough_passes CleanupStage.removal_authorized = omega arith
enough_passes CleanupStage.completed = omega arith
enough_passes (CleanupStage.other t) = omega arith

-- An answer after which fewer passes are left.
abbrev Fewer : {E : Type 0} → ℕ → Pass → World E → Type 0
Fewer n (Pass.again row) w = suc (passes_left row.stage) ≤ n
Fewer n (Pass.finished result) w = Unit

-- The fuel has not run out.
abbrev Ended : {E : Type 0} → Option MutationResult → World E → Type 0
Ended none w = ⊥
Ended (some result) w = Unit

abbrev Anything : {E : Type 0} → World E → Type 0
Anything w = Unit

any_end :
    {E A : Type 0} (answer : Result CleanupError A × World E)
    → Ends (λ (a : A). Anything) Anything answer
any_end (ok a, after) = Outcome.returns tt
any_end (err e, after) = Outcome.fails tt

Advanced-stage :
    (db after : Database) (change : StageChange) (row : TaskCleanupRecord)
    → Advanced db change after row
    → row.stage ≡ change.target
Advanced-stage db after change row (Advanced.replayed m stage rows) = stage
Advanced-stage db after change row (Advanced.moved old moves e kept) =
    ap (λ (r : TaskCleanupRecord). r.stage) e

module _ {E : Type 0} (context : StoreContext) (ports : CleanupPorts E) where
  release-stage :
      (db : Database) (mutation : HostReleaseMutation) (row : TaskCleanupRecord) (after : Database)
      → record_task_cleanup_host_release context db mutation ≡ ok (row, after)
      → row.stage ≡ CleanupStage.host_released
  unfolding record_task_cleanup_host_release
  release-stage db mutation row after h =
      Advanced-stage db after (release_change mutation) row
        (advance_task_cleanup-Advanced context db (release_change mutation) row after h)

  authorize-stage :
      (db : Database) (mutation : RemovalAuthorization) (row : TaskCleanupRecord) (after : Database)
      → authorize_task_cleanup_removal context db mutation ≡ ok (row, after)
      → row.stage ≡ CleanupStage.removal_authorized
  unfolding authorize_task_cleanup_removal
  authorize-stage db mutation row after h =
      Advanced-stage db after (authorize_change mutation) row
        (advance_task_cleanup-Advanced context db (authorize_change mutation) row after h)

  pass_prepared-Fewer :
      (row : TaskCleanupRecord) (w : World E)
      → Ends (Fewer 3) Anything (pass_prepared context ports row w)
  unfolding pass_prepared
  pass_prepared-Fewer row w = Ends-bind _ _ w (any_end _) (λ proof seen a.
      Ends-bind _ _ seen (any_end _) (λ receipt released b.
        Ends-bind _ _ released (any_end _) (λ time timed c.
          Ends-bind _ _ timed
            (Ends-mono _ (λ next after s. s) (λ after s. tt)
              (Ends-reporting _ _ timed (store-Ends _ timed)))
            (λ next after s. Outcome.returns (
              stage_passes_left next.stage
                (release-stage timed.database _ next after.database s.0))))))
    where
      stage_passes_left :
          (stage : CleanupStage) → stage ≡ CleanupStage.host_released → suc (passes_left stage) ≤ 3
      stage_passes_left stage e = rw e (omega arith)

  pass_released-Fewer :
      (row : TaskCleanupRecord) (w : World E)
      → Ends (Fewer 2) Anything (pass_released context ports row w)
  unfolding pass_released
  pass_released-Fewer row w = Ends-bind _ _ w (any_end _) (λ u detached a.
      Ends-bind _ _ detached (any_end _) (λ proof seen b.
        Ends-bind _ _ seen (any_end _) (λ time timed c.
          Ends-bind _ _ timed
            (Ends-mono _ (λ next after s. s) (λ after s. tt)
              (Ends-reporting _ _ timed (store-Ends _ timed)))
            (λ next after s. Outcome.returns (
              stage_passes_left next.stage
                (authorize-stage timed.database _ next after.database s.0))))))
    where
      stage_passes_left :
          (stage : CleanupStage)
          → stage ≡ CleanupStage.removal_authorized
          → suc (passes_left stage) ≤ 2
      stage_passes_left stage e = rw e (omega arith)

  complete-Fewer :
      (n : ℕ) (command : CleanupTaskCommand) (digest : Text) (row : TaskCleanupRecord) (w : World E)
      → Ends (Fewer n) Anything (complete context ports command digest row w)
  unfolding complete
  complete-Fewer n command digest row w =
      Ends-bind _ _ w (any_end _)
        (λ time timed c. Ends-bind _ _ timed (any_end _) (λ result after s. Outcome.returns tt))

  pass_stage-Fewer :
      (command : CleanupTaskCommand) (digest : Text) (row : TaskCleanupRecord)
      (stage : CleanupStage) (w : World E)
      → Ends
          (Fewer (passes_left stage))
          Anything
          (pass_stage context ports command digest row stage w)
  unfolding pass_stage
  pass_stage-Fewer command digest row CleanupStage.prepared w = pass_prepared-Fewer row w
  pass_stage-Fewer command digest row CleanupStage.managed_run_absent w =
      Ends-raise_if _ _ _ w tt (λ absent. pass_released-Fewer row w)
  pass_stage-Fewer command digest row CleanupStage.host_released w = pass_released-Fewer row w
  pass_stage-Fewer command digest row CleanupStage.removal_authorized w =
      Ends-bind _ _ w (any_end _) (λ a removed s. complete-Fewer 1 command digest row removed)
  pass_stage-Fewer command digest row CleanupStage.completed w =
      complete-Fewer 1 command digest row w
  pass_stage-Fewer command digest row (CleanupStage.other t) w = Outcome.fails tt

  run_removal_stages-Ended :
      (fuel : ℕ) (command : CleanupTaskCommand) (digest : Text) (row : TaskCleanupRecord)
      (w : World E)
      → passes_left row.stage ≤ fuel
      → Ends Ended Anything (run_removal_stages context ports fuel command digest row w)
  unfolding run_removal_stages pass_once next_pass
  run_removal_stages-Ended zero command digest row w enough = absurd (no_pass row.stage enough)
    where
      no_pass : (stage : CleanupStage) → passes_left stage ≤ 0 → ⊥
      no_pass CleanupStage.prepared h = omega arith
      no_pass CleanupStage.managed_run_absent h = omega arith
      no_pass CleanupStage.host_released h = omega arith
      no_pass CleanupStage.removal_authorized h = omega arith
      no_pass CleanupStage.completed h = omega arith
      no_pass (CleanupStage.other t) h = omega arith
  run_removal_stages-Ended (suc fuel) command digest row w enough =
      Ends-bind _ _ w
        (Ends-raise_if _ _ _ w tt (λ named. pass_stage-Fewer command digest row row.stage w))
        (after_pass (run_removal_stages-Ended fuel command digest))
    where
      after_pass :
          ((next : TaskCleanupRecord) (v : World E)
            → passes_left next.stage ≤ fuel
            → Ends Ended Anything (run_removal_stages context ports fuel command digest next v))
          → (pass : Pass) (after : World E) → Fewer (passes_left row.stage) pass after
          → Ends Ended Anything (
              next_pass context ports
                (run_removal_stages context ports fuel command digest)
                pass
                after)
      after_pass go (Pass.again next) after fewer = go next after (omega (arith, fewer, enough))
      after_pass go (Pass.finished result) after fewer = Outcome.returns tt

module _ {E : Type 0} (context : StoreContext) (ports : CleanupPorts E) where
  cleanup_task-Ended :
      (command : CleanupTaskCommand) (w : World E)
      → Ends Ended Anything (cleanup_task context ports command w)
  unfolding cleanup_task
  cleanup_task-Ended command w = Ends-raise_if _ _ _ w tt (λ valid.
      Ends-bind _ _ w (any_end _) (λ digest digested a.
        Ends-bind _ _ digested (any_end _) (λ time timed b.
          Ends-bind _ _ timed (any_end _) (λ row begun c.
            run_removal_stages-Ended context ports stage_passes command digest row begun
              (enough_passes row.stage)))))

  discard_task-Ended :
      (command : DiscardTaskCommand) (w : World E)
      → Ends Ended Anything (discard_task context ports command w)
  unfolding discard_task
  discard_task-Ended command w = Ends-raise_if _ _ _ w tt (λ valid.
      Ends-raise_if _ _ _ w tt (λ acknowledged. Ends-bind _ _ w (any_end _) (λ digest digested a.
        Ends-bind _ _ digested (any_end _) (λ time timed b.
          Ends-bind _ _ timed (any_end _) (λ row begun c.
            run_removal_stages-Ended context ports stage_passes
              (record { operation_id = command.operation_id; task_handle = command.task_handle })
              digest row begun (enough_passes row.stage))))))

  Ends-not_none :
      (answer : Result CleanupError (Option MutationResult) × World E)
      → Ends Ended Anything answer
      → answer.0 ≢ ok none
  Ends-not_none (ok none, after) (Outcome.returns e) h = e
  Ends-not_none (ok (some r), after) (Outcome.returns e) h = cc
  Ends-not_none (err e, after) (Outcome.fails r) h = cc

  -- Three passes of the loop are enough for CleanupTask and for DiscardTask, whatever the database,
  -- the ports and the command are: each ends with a result or with an error.
  pub removal_loop_ends :
      (cleanup : CleanupTaskCommand) (discard : DiscardTaskCommand) (w : World E)
      → ((cleanup_task context ports cleanup w).0 ≢ ok none)
        × ((discard_task context ports discard w).0 ≢ ok none)
  removal_loop_ends cleanup discard w = (
    Ends-not_none _ (cleanup_task-Ended cleanup w),
    Ends-not_none _ (discard_task-Ended discard w),
  )
