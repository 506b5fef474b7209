-- ===== src/Cleanup/History/Authorize.antt =====
-- From the calls of a pass and the proof that the store has checked to the authorization of a
-- removal.
use mathlib.Core.Path.{subst}
use comis_dev_crew.Base.{
  ◌≡◌, refl, sym, ap, ◌∙◌, ◌⊎◌, inl, inr, Bool, true, false, Bool-cases, List, [], ◌∷◌, is_empty,
  arith,
}
use comis_dev_crew.Text.{Text, text_eq}
use comis_dev_crew.Text.Laws.{text_eq_sound}
use comis_dev_crew.Cleanup.{
  CleanupStage, TaskCleanupRecord, WorkspaceSnapshot, PullRequestDeliveryTruth, receipt_matches,
  has_no_run, no_truth,
}
use comis_dev_crew.Cleanup.Write.{StoreContext}
use comis_dev_crew.Cleanup.Proof.{
  snapshot_of_record, truth_matches, same_stage, cleanup_stage_allowed,
}
use comis_dev_crew.Cleanup.Proof.Laws.{IsProved}
use comis_dev_crew.Cleanup.Store.{moved_to}
use comis_dev_crew.Cleanup.Store.Laws.{same_stage_sound}
use comis_dev_crew.Cleanup.Ports.{Event}
use comis_dev_crew.Cleanup.Verify.{workspace_differs}
use comis_dev_crew.Cleanup.History.{
  Since, Since-map, RunReleased, HostFree, Detached, Reinspected, Reverified, Authorized,
  StageBacked, Backed,
}

-- The stages from which a removal is authorized.
abbrev pub released_stages : List CleanupStage
released_stages = CleanupStage.host_released ∷ CleanupStage.managed_run_absent ∷ []

-- A record in one of these stages has a host that is free.
pub released-HostFree :
    (row : TaskCleanupRecord) (log : List Event)
    → cleanup_stage_allowed row.stage released_stages ≡ true
    → (same_stage row.stage CleanupStage.managed_run_absent ≡ true → has_no_run row ≡ true)
    → Backed row log
    → HostFree row log
unfolding cleanup_stage_allowed
released-HostFree row log allowed absent backed =
    elim (Bool-cases (same_stage row.stage CleanupStage.host_released)) [
      | inl released ↦ inl (
          subst (λ stage. StageBacked stage row log)
            (same_stage_sound row.stage CleanupStage.host_released released) backed)
      | inr other ↦ inr (absent (ground (arith, other, allowed)))
    ]

HostFree-moved :
    (row : TaskCleanupRecord) (stage : CleanupStage) (snapshot : WorkspaceSnapshot)
    (log : List Event)
    → HostFree row log
    → HostFree (moved_to row stage snapshot) log
unfolding receipt_matches has_no_run
HostFree-moved row stage snapshot log (inl s) = inl (Since-map released log s)
  where
    released :
        (log : List Event) → RunReleased row log → RunReleased (moved_to row stage snapshot) log
    released log (RunReleased.run_released h) = RunReleased.run_released h
HostFree-moved row stage snapshot log (inr h) = inr h

-- The handle that the released attachment belonged to.
same_handle :
    (context : StoreContext) (asked row : TaskCleanupRecord) (snapshot : WorkspaceSnapshot)
    → workspace_differs context asked snapshot ≡ false
    → snapshot_of_record row snapshot ≡ true
    → asked.task_handle ≡ row.task_handle
unfolding workspace_differs snapshot_of_record
same_handle context asked row snapshot fits proved =
    sym (text_eq_sound snapshot.task_handle asked.task_handle (ground (arith, fits)))
    ∙ text_eq_sound snapshot.task_handle row.task_handle (ground (arith, proved))

-- A confirmed pull request is not the empty truth.
no_truth-matches :
    (row : TaskCleanupRecord)
    → is_empty row.pull_request_id ≡ false
    → truth_matches row no_truth ≡ false
unfolding truth_matches
no_truth-matches row recorded = elim (Bool-cases (text_eq [] row.pull_request_id)) [
  | inl same ↦
      let none_recorded : is_empty row.pull_request_id ≡ true =
        ap (λ (t : Text). is_empty t) (sym (text_eq_sound [] row.pull_request_id same)) in
      absurd (apart (is_empty row.pull_request_id) recorded none_recorded)
  | inr apart_from ↦ ground (arith, apart_from)
]
  where
    apart : (b : Bool) → b ≡ false → b ≡ true → ⊥
    apart b h k = cc

module _ (context : StoreContext) (asked row : TaskCleanupRecord) (snapshot : WorkspaceSnapshot)
    (truth : PullRequestDeliveryTruth) (before log : List Event) where
  abbrev authorized : TaskCleanupRecord
  authorized = moved_to row CleanupStage.removal_authorized snapshot

  abbrev inspected_log : List Event
  inspected_log = Event.inspected snapshot ∷ Event.attachment_released asked.task_handle ∷ before

  pass-Reinspected :
      workspace_differs context asked snapshot ≡ false
      → IsProved row snapshot truth
      → HostFree row before
      → Reinspected authorized inspected_log
  unfolding snapshot_of_record
  pass-Reinspected fits proved free =
      Reinspected.reinspected refl
        (record { of_record = proved.of_record; settled = proved.settled })
        (Since.now (
          Detached.detached (same_handle context asked row snapshot fits proved.of_record)
            (HostFree-moved row CleanupStage.removal_authorized snapshot before free)))

  -- The authorization, from the calls of the pass and the checks of the store.
  pub pass-Authorized :
      workspace_differs context asked snapshot ≡ false
      → IsProved row snapshot truth
      → HostFree row before
      → ((log ≡ inspected_log) × (truth ≡ no_truth)) ⊎ (log ≡ Event.verified truth ∷ inspected_log)
      → Authorized authorized log
  unfolding truth_matches
  pass-Authorized fits proved free (inl (l, nothing)) = record {
    workspace =
        subst (Since (Reinspected authorized)) (sym l)
          (Since.now (pass-Reinspected fits proved free));
    delivery = elim proved.delivery [
      | inl discards ↦ inl discards
      | inr (inl reported) ↦ inr (inl reported)
      | inr (inr (recorded, matches)) ↦ absurd (
          clash (truth_matches row no_truth) (no_truth-matches row recorded)
            (subst (λ t. truth_matches row t ≡ true) nothing matches))
    ];
  }
    where
      clash : (b : Bool) → b ≡ false → b ≡ true → ⊥
      clash b h k = cc
  pass-Authorized fits proved free (inr l) = record {
    workspace =
        subst (Since (Reinspected authorized)) (sym l)
          (Since.before_that (Since.now (pass-Reinspected fits proved free)));
    delivery = elim proved.delivery [
      | inl discards ↦ inl discards
      | inr (inl reported) ↦ inr (inl reported)
      | inr (inr (recorded, matches)) ↦ inr (
          inr (
            subst (Since (Reverified authorized)) (sym l) (
              Since.now
                (Reverified.reverified matches (Since.now (pass-Reinspected fits proved free))))))
    ];
  }
