-- ===== src/Cleanup/Coordinator/Passes.antt =====
-- Every pass of runRemovalStages keeps the records and the log in agreement.
use mathlib.Core.Path.{subst}
use comis_dev_crew.Base.{
  if◌then◌else◌, ◌≡◌, refl, sym, ◌∙◌, ◌∷◌, In, inl, some, Option, ℕ, zero, suc,
}
use comis_dev_crew.Text.{Text}
use comis_dev_crew.Cleanup.{CleanupStage, TaskCleanupRecord, CleanupTaskCommand}
use comis_dev_crew.Cleanup.Write.{StoreContext}
use comis_dev_crew.Cleanup.Store.{record_task_cleanup_host_release, authorize_task_cleanup_removal}
use comis_dev_crew.Cleanup.Store.Laws.{advance_task_cleanup-Advanced}
use comis_dev_crew.Cleanup.Complete.{MutationResult, completed_row}
use comis_dev_crew.Cleanup.Complete.Rows.{Completed, complete_task_cleanup-Completed}
use comis_dev_crew.Cleanup.Ports.{CleanupPorts, Event, World, reporting, call}
use comis_dev_crew.Cleanup.Coordinator.{
  Pass, pass_prepared, pass_released, remove_workspace, removal_of, removal_failure, complete,
  pass_stage, pass_once, next_pass, run_removal_stages,
}
use comis_dev_crew.Cleanup.Coordinator.Triples.{
  Outcome, Ends, Ends-bind, Ends-mono, Ends-reporting, Ends-raise_if, call-Logs, store-Ends,
  store-leaves,
}
use comis_dev_crew.Cleanup.Coordinator.Calls.{
  Extends, SafetySeen, verify_current_safety-SafetySeen, release_host-Ends, release_attachment-Ends,
  read_clock-Logs,
}
use comis_dev_crew.Cleanup.History.{Authorized, StageBacked, RemovalsAuthorized}
use comis_dev_crew.Cleanup.History.Growth.{Authorized-completed}
use comis_dev_crew.Cleanup.History.Remaining.{completed-Replaces}
use comis_dev_crew.Cleanup.Coordinator.Sound.{
  Sound, Held, Continues, Sound-Called, Sound-same, Sound-row, Sound-Logs, SafetySeen-Called,
  Sound-more, SafetySeen-Logs, released-Sound, authorized-Sound,
}

module _ {E : Type 0} (context : StoreContext) (ports : CleanupPorts E) where
  pass_prepared-Continues :
      (row : TaskCleanupRecord) (w : World E)
      → Sound w
      → Ends Continues Sound (pass_prepared context ports row w)
  unfolding pass_prepared record_task_cleanup_host_release
  pass_prepared-Continues row w sound =
      Ends-bind _ _ w
        (Ends-mono _ (λ proof seen s. s) (λ after called. Sound-Called w after called sound)
          (Ends-reporting _ _ w (verify_current_safety-SafetySeen context ports row w)))
        (λ proof seen safety.
          let at_seen : Sound seen =
            Sound-Called w seen (SafetySeen-Called context row w seen proof.0 proof.1 safety)
              sound in
          Ends-bind _ _ seen
            (Ends-mono _ (λ receipt after r. r)
              (λ after called. Sound-Called seen after called at_seen)
              (release_host-Ends context ports row seen))
            (λ receipt released l.
              let at_released : Sound released =
                Sound-Called seen released
                  (record {
                    database = l.1.database;
                    extends =
                        subst (Extends seen.log) (sym l.1.logged) (Extends.releases Extends.stays);
                  })
                  at_seen in
              Ends-bind _ _ released
                (Ends-mono _ (λ time after c. c)
                  (λ after c. Sound-Logs released after c at_released)
                  (read_clock-Logs context ports released))
                (λ time timed c.
                  let at_timed : Sound timed = Sound-Logs released timed c at_released in
                  Ends-bind _ _ timed
                    (Ends-mono _ (λ next after s. s)
                      (λ after s. Sound-same timed after s.0 s.1 at_timed)
                      (Ends-reporting _ _ timed (store-Ends _ timed)))
                    (λ next after s. Outcome.returns (
                      released-Sound timed after next
                        (record {
                          operation_id = row.operation_id;
                          subject_digest = row.subject_digest;
                          snapshot = proof.0;
                          truth = proof.1;
                          receipt = receipt;
                          at = time;
                        })
                        seen.log (c.logged ∙ l.1.logged) s.1
                        (advance_task_cleanup-Advanced context timed.database _ next after.database
                          s.0)
                        at_timed)))))

  pass_released-Continues :
      (row : TaskCleanupRecord) (w : World E)
      → Sound w
      → Ends Continues Sound (pass_released context ports row w)
  unfolding pass_released authorize_task_cleanup_removal
  pass_released-Continues row w sound =
      Ends-bind _ _ w
        (Ends-mono _ (λ a detached l. l) (λ after called. Sound-Called w after called sound)
          (release_attachment-Ends context ports row w))
        (λ a detached l.
          let at_detached : Sound detached =
            Sound-Called w detached
              (record {
                database = l.database;
                extends = subst (Extends w.log) (sym l.logged) (Extends.detaches Extends.stays);
              })
              sound in
          Ends-bind _ _ detached
            (Ends-mono _ (λ proof seen s. s)
              (λ after called. Sound-Called detached after called at_detached)
              (Ends-reporting _ _ detached
                (verify_current_safety-SafetySeen context ports row detached)))
            (λ proof seen safety.
              let at_seen : Sound seen =
                Sound-Called detached seen
                  (SafetySeen-Called context row detached seen proof.0 proof.1 safety)
                  at_detached in
              Ends-bind _ _ seen
                (Ends-mono _ (λ time after c. c) (λ after c. Sound-Logs seen after c at_seen)
                  (read_clock-Logs context ports seen))
                (λ time timed c.
                  let at_timed : Sound timed = Sound-Logs seen timed c at_seen in
                  let unread : SafetySeen context row detached proof.0 proof.1 timed =
                    SafetySeen-Logs context row detached seen timed proof.0 proof.1 safety c in
                  Ends-bind _ _ timed
                    (Ends-mono _ (λ next after s. s)
                      (λ after s. Sound-same timed after s.0 s.1 at_timed)
                      (Ends-reporting _ _ timed (store-Ends _ timed)))
                    (λ next after s. Outcome.returns (
                      authorized-Sound timed after next context row
                        (record {
                          operation_id = row.operation_id;
                          subject_digest = row.subject_digest;
                          snapshot = proof.0;
                          truth = proof.1;
                          at = time;
                        })
                        w detached sound (sym (unread.database ∙ l.database)) l.logged unread s.1
                        (advance_task_cleanup-Advanced context timed.database _ next after.database
                          s.0)
                        at_timed)))))

  remove_workspace-Sound :
      (row : TaskCleanupRecord) (w : World E)
      → row.stage ≡ CleanupStage.removal_authorized
      → In row w.database.cleanups
      → Authorized row w.log
      → Sound w
      → Ends (λ (a : Unit {0}). Sound) Sound (remove_workspace context ports row w)
  unfolding remove_workspace
  remove_workspace-Sound row w stage stored authorized sound =
      let noted : World E = record w {
        log = Event.removing row.discard (removal_of row) ∷ w.log;
      } in
      let at_noted : Sound noted =
        Sound-more w noted (Event.removing row.discard (removal_of row))
          (record { database = refl; logged = refl })
          (RemovalsAuthorized.removing row refl refl stage (inl stored) authorized sound.removals)
          sound in
      Ends-bind {Q = λ (a : Unit {0}) after. after ≡ noted} _ _ w (Outcome.returns refl)
        (λ a after same.
          subst
            (λ v.
              Ends (λ (b : Unit {0}). Sound) Sound
                (reporting (removal_failure row)
                  (call
                    (if row.discard
                      then ports.remove_discarded_workspace
                      else ports.remove_delivered_workspace)
                    (λ _ log. Event.removed (removal_of row) ∷ log) (removal_of row))
                  v))
            (sym same)
            (Ends-reporting _ _ noted (
              Ends-mono _
                (λ b removed l.
                  Sound-more noted removed (Event.removed (removal_of row)) l
                    (RemovalsAuthorized.other refl at_noted.removals) at_noted)
                (λ failed l. Sound-Logs noted failed l at_noted) (call-Logs _ _ _ noted))))

  complete-Sound :
      (command : CleanupTaskCommand) (digest : Text) (row : TaskCleanupRecord) (w : World E)
      → Sound w
      → Ends Continues Sound (complete context ports command digest row w)
  unfolding complete
  complete-Sound command digest row w sound =
      Ends-bind _ _ w
        (Ends-mono _ (λ time after c. c) (λ after c. Sound-Logs w after c sound)
          (read_clock-Logs context ports w))
        (λ time timed c.
          let at_timed : Sound timed = Sound-Logs w timed c sound in
          Ends-bind _ _ timed
            (Ends-mono _ (λ result after t. completed_world timed after t.0 t.1 at_timed)
              (λ after t. completed_world timed after t.0 t.1 at_timed)
              (store-leaves (λ db. Completed row.operation_id timed.database db) _ timed
                (complete_task_cleanup-Completed context timed.database _)))
            (λ result after s. Outcome.returns s))
    where
      completed_world :
          (v after : World E)
          → {operation : Text} → Completed operation v.database after.database
          → after.log ≡ v.log
          → Sound v
          → Sound after
      completed_world v after (Completed.same rows) same s = Sound-same v after rows same s
      completed_world v after (Completed.completed old m named found stage kept) same s =
          let (sound_after, backed) =
            Sound-row v after (some old) (completed_row old) same kept
              (completed-Replaces old stage)
              (Authorized-completed old v.log
                (subst (λ st. StageBacked st old v.log) stage (s.backed old m)))
              s in
          sound_after

  pass_stage-Continues :
      (command : CleanupTaskCommand) (digest : Text) (row : TaskCleanupRecord)
      (stage : CleanupStage) (w : World E)
      → row.stage ≡ stage
      → In row w.database.cleanups
      → StageBacked stage row w.log
      → Sound w
      → Ends Continues Sound (pass_stage context ports command digest row stage w)
  unfolding pass_stage
  pass_stage-Continues command digest row CleanupStage.prepared w at_stage stored backed sound =
      pass_prepared-Continues row w sound
  pass_stage-Continues command digest row CleanupStage.managed_run_absent w at_stage stored backed
        sound =
      Ends-raise_if _ _ _ w sound (λ absent. pass_released-Continues row w sound)
  pass_stage-Continues command digest row CleanupStage.host_released w at_stage stored backed
        sound =
      pass_released-Continues row w sound
  pass_stage-Continues command digest row CleanupStage.removal_authorized w at_stage stored backed
        sound =
      Ends-bind _ _ w (remove_workspace-Sound row w at_stage stored backed sound)
        (λ a removed s. complete-Sound command digest row removed s)
  pass_stage-Continues command digest row CleanupStage.completed w at_stage stored backed sound =
      complete-Sound command digest row w sound
  pass_stage-Continues command digest row (CleanupStage.other t) w at_stage stored backed sound =
      Outcome.fails sound

  -- One pass, from a record that the log backs.
  pub pass_once-Continues :
      (command : CleanupTaskCommand) (digest : Text) (row : TaskCleanupRecord) (w : World E)
      → Held row w
      → Sound w
      → Ends Continues Sound (pass_once context ports command digest row w)
  unfolding pass_once
  pass_once-Continues command digest row w held sound = Ends-raise_if _ _ _ w sound (λ named.
      pass_stage-Continues command digest row row.stage w refl held.stored held.backed sound)

  -- The loop, whatever the fuel.
  pub run_removal_stages-Sound :
      (fuel : ℕ) (command : CleanupTaskCommand) (digest : Text) (row : TaskCleanupRecord)
      (w : World E)
      → Held row w
      → Sound w
      → Ends
          (λ (r : Option MutationResult). Sound)
          Sound
          (run_removal_stages context ports fuel command digest row w)
  unfolding run_removal_stages next_pass
  run_removal_stages-Sound zero command digest row w held sound = Outcome.returns sound
  run_removal_stages-Sound (suc fuel) command digest row w held sound =
      Ends-bind _ _ w (pass_once-Continues command digest row w held sound)
        (after_pass (run_removal_stages-Sound fuel command digest))
    where
      after_pass :
          ((next : TaskCleanupRecord) (v : World E)
            → Held next v
            → Sound v
            → Ends
                (λ (r : Option MutationResult). Sound)
                Sound
                (run_removal_stages context ports fuel command digest next v))
          → (pass : Pass) (after : World E) → Continues pass after
          → Ends
              (λ (r : Option MutationResult). Sound)
              Sound
              (next_pass context ports
                (run_removal_stages context ports fuel command digest)
                pass
                after)
      after_pass go (Pass.again next) after c = go next after c.1 c.0
      after_pass go (Pass.finished result) after c = Outcome.returns c
