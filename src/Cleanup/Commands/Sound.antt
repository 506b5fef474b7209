-- ===== src/Cleanup/Commands/Sound.antt =====
-- Sequences of CleanupTask and DiscardTask, with retries after any error, and what else happens
-- between them.
use mathlib.Core.Path.{subst}
use comis_dev_crew.Base.{
  ◌≡◌, refl, sym, Bool, true, false, List, [], Option, none, some, Result, ok, err, In,
}
use comis_dev_crew.Text.{Text}
use comis_dev_crew.Cleanup.{
  CleanupError, CleanupStage, TaskCleanupRecord, CleanupTaskCommand, DiscardTaskCommand,
}
use comis_dev_crew.Cleanup.Tables.{Database}
use comis_dev_crew.Cleanup.Write.{StoreContext}
use comis_dev_crew.Cleanup.Begin.Rows.{
  Begun, GateAnswer, is_first_stage, begin_task_cleanup-GateAnswer, begin_task_discard-GateAnswer,
}
use comis_dev_crew.Cleanup.Complete.{MutationResult}
use comis_dev_crew.Cleanup.Ports.{CleanupPorts, Event, World, store}
use comis_dev_crew.Cleanup.Coordinator.Triples.{
  Outcome, Ends, Ends-bind, Ends-mono, Ends-reporting, Ends-raise_if,
}
use comis_dev_crew.Cleanup.Coordinator.Calls.{read_clock-Logs}
use comis_dev_crew.Cleanup.History.Remaining.{fresh-Replaces}
use comis_dev_crew.Cleanup.Coordinator.Sound.{
  Sound, Held, Sound-found, Sound-same, Sound-row, Sound-Logs,
}
use comis_dev_crew.Cleanup.Coordinator.Passes.{run_removal_stages-Sound}
use comis_dev_crew.Cleanup.Commands.{stage_passes, digest_subject, cleanup_task, discard_task}
use comis_dev_crew.Cleanup.History.{StageBacked, RemovalsAuthorized}

-- A record in a first stage needs nothing in the log.
first-Backed :
    (stage : CleanupStage) (row : TaskCleanupRecord) (log : List Event)
    → (discards : Bool) → is_first_stage discards stage ≡ true
    → StageBacked stage row log
first-Backed CleanupStage.prepared row log discards first = tt
first-Backed CleanupStage.managed_run_absent row log discards first = tt
first-Backed CleanupStage.host_released row log discards first = cc
first-Backed CleanupStage.removal_authorized row log discards first = cc
first-Backed CleanupStage.completed row log discards first = cc
first-Backed (CleanupStage.other t) row log discards first = cc

module _ {E : Type 0} where
  gate-Sound :
      (operation : Text) (discards : Bool)
      (gate : Database → Result CleanupError TaskCleanupRecord × Database) (w : World E)
      → GateAnswer operation discards w.database (gate w.database)
      → Sound w
      → Ends (λ row after. Sound after × Held row after) Sound (store gate w)
  unfolding store
  gate-Sound operation discards gate w = go (gate w.database)
    where
      go :
          (answer : Result CleanupError TaskCleanupRecord × Database)
          → GateAnswer operation discards w.database answer
          → Sound w
          → Ends
              (λ row after. Sound after × Held row after)
              Sound
              (store (λ (db : Database). answer) w)
      go (ok row, db) (Begun.found m rows) sound =
          Outcome.returns (Sound-found w (record w { database = db }) row m rows refl sound)
      go (ok row, db) (Begun.fresh named first unused kept) sound = Outcome.returns (
          Sound-row w (record w { database = db }) none row refl kept (fresh-Replaces row)
            (first-Backed row.stage row w.log discards first) sound)
      go (err e, db) rows sound =
          Outcome.fails (Sound-same w (record w { database = db }) rows refl sound)

module _ {E : Type 0} (context : StoreContext) (ports : CleanupPorts E) where
  digest_subject-Ends :
      (encoded : Option Text) (e : CleanupError) (w : World E)
      → Ends
          (λ (digest : Text) after. after ≡ w)
          (λ after. after ≡ w)
          (digest_subject context ports encoded e w)
  unfolding digest_subject
  digest_subject-Ends none e w = Outcome.fails refl
  digest_subject-Ends (some encoded) e w = Outcome.returns refl

  digest_subject-Sound :
      (encoded : Option Text) (e : CleanupError) (w : World E)
      → Sound w
      → Ends (λ (digest : Text). Sound) Sound (digest_subject context ports encoded e w)
  digest_subject-Sound encoded e w sound =
      Ends-mono _ (λ digest after same. subst Sound (sym same) sound)
        (λ after same. subst Sound (sym same) sound) (digest_subject-Ends encoded e w)

  pub cleanup_task-Sound :
      (command : CleanupTaskCommand) (w : World E)
      → Sound w
      → Ends (λ (r : Option MutationResult). Sound) Sound (cleanup_task context ports command w)
  unfolding cleanup_task
  cleanup_task-Sound command w sound = Ends-raise_if _ _ _ w sound (λ valid.
      Ends-bind _ _ w (digest_subject-Sound _ _ w sound) (λ digest digested s.
        Ends-bind _ _ digested
          (Ends-mono _ (λ time after c. c) (λ after c. Sound-Logs digested after c s)
            (read_clock-Logs context ports digested))
          (λ time timed c.
            Ends-bind _ _ timed
              (Ends-reporting _ _ timed (
                gate-Sound _ false _ timed (begin_task_cleanup-GateAnswer context timed.database _)
                  (Sound-Logs digested timed c s)))
              (λ row begun b.
                run_removal_stages-Sound context ports stage_passes command digest row begun b.1
                  b.0))))

  pub discard_task-Sound :
      (command : DiscardTaskCommand) (w : World E)
      → Sound w
      → Ends (λ (r : Option MutationResult). Sound) Sound (discard_task context ports command w)
  unfolding discard_task
  discard_task-Sound command w sound = Ends-raise_if _ _ _ w sound (λ valid.
      Ends-raise_if _ _ _ w sound (λ acknowledged.
        Ends-bind _ _ w (digest_subject-Sound _ _ w sound) (λ digest digested s.
          Ends-bind _ _ digested
            (Ends-mono _ (λ time after c. c) (λ after c. Sound-Logs digested after c s)
              (read_clock-Logs context ports digested))
            (λ time timed c.
              Ends-bind _ _ timed
                (Ends-reporting _ _ timed (
                  gate-Sound _ true _ timed (begin_task_discard-GateAnswer context timed.database _)
                    (Sound-Logs digested timed c s)))
                (λ row begun b.
                  run_removal_stages-Sound context ports stage_passes
                    (record {
                      operation_id = command.operation_id;
                      task_handle = command.task_handle;
                    })
                    digest row begun b.1 b.0)))))

  -- A service that starts with no cleanup record, and what may happen to it: a command, and any
  -- change of the surroundings and of the tables that hold no cleanup record. A command that an
  -- error ends, and one that follows it, are steps of their own.
  pub data Reachable : World E → Type 0 where
    started : {w : World E} → w.database.cleanups ≡ [] → w.log ≡ [] → Reachable w
    cleanup :
        {w : World E} (command : CleanupTaskCommand)
        → Reachable w
        → {after : World E} → after ≡ (cleanup_task context ports command w).1
        → Reachable after
    discard :
        {w : World E} (command : DiscardTaskCommand)
        → Reachable w
        → {after : World E} → after ≡ (discard_task context ports command w).1
        → Reachable after
    elsewhere :
        {w after : World E}
        → Reachable w
        → after.database.cleanups ≡ w.database.cleanups
        → after.log ≡ w.log
        → Reachable after

  ended :
      (answer : Result CleanupError (Option MutationResult) × World E)
      → Ends (λ (r : Option MutationResult). Sound) Sound answer
      → Sound answer.1
  ended (ok r, after) (Outcome.returns s) = s
  ended (err e, after) (Outcome.fails s) = s

  pub Reachable-Sound : (w : World E) → Reachable w → Sound w
  Reachable-Sound w (Reachable.started rows calls) = record {
    backed = λ row m. elim (subst (In row) rows m) [ ];
    removals =
        subst (RemovalsAuthorized w.database.cleanups) (sym calls) RemovalsAuthorized.nothing;
  }
  Reachable-Sound w (Reachable.cleanup {w = v} command r e) =
      subst Sound (sym e) (ended _ (cleanup_task-Sound command v (Reachable-Sound v r)))
  Reachable-Sound w (Reachable.discard {w = v} command r e) =
      subst Sound (sym e) (ended _ (discard_task-Sound command v (Reachable-Sound v r)))
  Reachable-Sound w (Reachable.elsewhere {w = v} r rows same) =
      Sound-same v w rows same (Reachable-Sound v r)

  -- In every history of cleanup and discard commands that starts from an empty log and a store
  -- without cleanup records, whatever the ports answer and whichever commands fail or are sent
  -- again: each call that removes a workspace is for a record in the stage that authorizes the
  -- removal, which the store still holds, as it was or completed since. The snapshot that the record
  -- keeps was inspected after its runtime attachment was released, which was after the host had
  -- acknowledged the release of its run or there never was one; the snapshot is of the record's
  -- worktree; and unless the operator discards the work it is clean, at the recorded head, and
  -- delivered by a sealed report or by a pull request that the forge confirmed after that
  -- inspection.
  pub removals_are_authorized :
      (w : World E) → Reachable w → RemovalsAuthorized w.database.cleanups w.log
  removals_are_authorized w r = (Reachable-Sound w r).removals
