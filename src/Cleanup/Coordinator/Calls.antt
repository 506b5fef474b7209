-- ===== src/Cleanup/Coordinator/Calls.antt =====
-- What the calls of one pass of runRemovalStages leave in the log.
use mathlib.Core.Path.{subst}
use comis_dev_crew.Base.{
  Time, ◌≡◌, refl, ap, ◌∙◌, ◌⊎◌, inl, inr, Bool, true, false, not, Bool-cases, not-eq-false, List,
  ◌∷◌, Option, none, some, is_empty, if◌then◌else◌,
}
use comis_dev_crew.Text.{Text}
use comis_dev_crew.Cleanup.{
  CleanupError, TaskCleanupRecord, WorkspaceSnapshot, PullRequestDeliveryTruth,
  ManagedRunReleaseReceipt, no_truth, is_clean, receipt_matches,
}
use comis_dev_crew.Cleanup.Write.{StoreContext}
use comis_dev_crew.Cleanup.Ports.{
  LandedEvidenceRequest, LandedEvidenceTruth, Port, CleanupPorts, Event, World, pure, raise_if,
}
use comis_dev_crew.Cleanup.Coordinator.{release_host, release_attachment, read_clock}
use comis_dev_crew.Cleanup.Verify.{
  accept_landed, accept_undelivered_if_landed, verify_delivery, prove_delivery, workspace_differs,
  inspect, verify_current_safety,
}
use comis_dev_crew.Cleanup.Coordinator.Triples.{
  Outcome, Ends, Ends-bind, Ends-mono, Ends-reporting, Ends-raise_if, Logs, call-Logs,
}

-- The log with more calls, none of which removes a workspace.
pub data Extends (log : List Event) : List Event → Type 0 where
  stays : Extends log log
  inspects :
      {s : WorkspaceSnapshot} {longer : List Event}
      → Extends log longer
      → Extends log (Event.inspected s ∷ longer)
  verifies :
      {t : PullRequestDeliveryTruth} {longer : List Event}
      → Extends log longer
      → Extends log (Event.verified t ∷ longer)
  releases :
      {r : ManagedRunReleaseReceipt} {longer : List Event}
      → Extends log longer
      → Extends log (Event.run_released r ∷ longer)
  detaches :
      {h : Text} {longer : List Event}
      → Extends log longer
      → Extends log (Event.attachment_released h ∷ longer)

pub Extends-trans :
    {log : List Event} (middle longer : List Event)
    → Extends log middle
    → Extends middle longer
    → Extends log longer
Extends-trans middle longer first Extends.stays = first
Extends-trans middle longer first (Extends.inspects {longer = l} more) =
    Extends.inspects (Extends-trans middle l first more)
Extends-trans middle longer first (Extends.verifies {longer = l} more) =
    Extends.verifies (Extends-trans middle l first more)
Extends-trans middle longer first (Extends.releases {longer = l} more) =
    Extends.releases (Extends-trans middle l first more)
Extends-trans middle longer first (Extends.detaches {longer = l} more) =
    Extends.detaches (Extends-trans middle l first more)

-- A pass has called ports only: the database is as it was, and the log has grown.
pub record Called {E : Type 0} (w after : World E) : Type 0 where
  pub database : after.database ≡ w.database
  pub extends : Extends w.log after.log

-- The truth that a proof of delivery gives: none, or the one that the forge has confirmed.
abbrev pub TruthLogged : {E : Type 0} → World E → PullRequestDeliveryTruth → World E → Type 0
TruthLogged w truth after =
    (Logs w w.log after × (truth ≡ no_truth)) ⊎ Logs w (Event.verified truth ∷ w.log) after

pub Logs-Called : {E : Type 0} (w after : World E) → Logs w w.log after → Called w after
Logs-Called w after l = record { database = l.database; extends = rw l.logged Extends.stays }

module _ {E : Type 0} (context : StoreContext) (ports : CleanupPorts E) where
  accept_landed-Logs :
      (row : TaskCleanupRecord) (snapshot : WorkspaceSnapshot)
      (source : Option (Port E LandedEvidenceRequest LandedEvidenceTruth)) (w : World E)
      → Ends
          (λ (a : Unit {0}). Logs w w.log)
          (Logs w w.log)
          (accept_landed context ports row snapshot source w)
  unfolding accept_landed raise_if
  accept_landed-Logs row snapshot none w = Outcome.fails (record { database = refl; logged = refl })
  accept_landed-Logs row snapshot (some gather) w =
      Ends-bind _ _ w (Ends-reporting _ _ w (call-Logs gather (λ _ log. log) _ w))
        (λ truth after l. passes _ _ after l)
    where
      passes :
          (bad : Bool) (e : CleanupError) (after : World E)
          → Logs w w.log after
          → Ends (λ (a : Unit {0}). Logs w w.log) (Logs w w.log) (raise_if bad e after)
      passes true e after l = Outcome.fails l
      passes false e after l = Outcome.returns l

  prove_delivery-TruthLogged :
      (row : TaskCleanupRecord) (snapshot : WorkspaceSnapshot) (w : World E)
      → Ends (λ truth. TruthLogged w truth) (Called w) (prove_delivery context ports row snapshot w)
  unfolding prove_delivery accept_undelivered_if_landed verify_delivery
  prove_delivery-TruthLogged row snapshot w = elim (Bool-cases row.discard) [
    | inl discards ↦ rw discards (Outcome.returns (inl (unchanged, refl)))
    | inr delivers ↦ elim (Bool-cases (is_clean snapshot.cleanliness)) [
      | inr dirty ↦ rw (delivers, dirty) (Outcome.fails (Logs-Called w w unchanged))
      | inl cleaned ↦ elim (Bool-cases (is_empty row.pull_request_id)) [
        | inl unrecorded ↦
            rw (delivers, cleaned, unrecorded)
              (Ends-bind _ _ w
                (Ends-mono _ (λ a after l. l) (λ after l. Logs-Called w after l) landed)
                (λ a after l. Outcome.returns (inl (l, refl))))
        | inr recorded ↦
            rw (delivers, cleaned, recorded)
              (Ends-bind _ _ w
                (Ends-mono _ (λ truth after l. l) (λ after l. Logs-Called w after l)
                  (Ends-reporting _ _ w (
                    call-Logs ports.verify_pull_request_delivery
                      (λ truth log. Event.verified truth ∷ log) _ w)))
                (λ truth after l.
                  Ends-raise_if _ _ _ after
                    (record {
                      database = l.database;
                      extends = rw l.logged (Extends.verifies Extends.stays);
                    })
                    (λ matches. Outcome.returns (inr l))))
      ]
    ]
  ]
    where
      unchanged : Logs w w.log w
      unchanged = record { database = refl; logged = refl }

      landed :
          Ends
            (λ (a : Unit {0}). Logs w w.log)
            (Logs w w.log)
            ((if not (is_empty row.report_artifact_hash)
                then pure tt
                else accept_landed context ports row snapshot ports.gather_landed_evidence)
              w)
      landed = elim (Bool-cases (is_empty row.report_artifact_hash)) [
        | inl unreported ↦
            rw unreported (accept_landed-Logs row snapshot ports.gather_landed_evidence w)
        | inr reported ↦ rw reported (Outcome.returns unchanged)
      ]

-- What verifyCurrentSafety has seen: the snapshot, and the truth behind it.
pub record SafetySeen {E : Type 0} (context : StoreContext) (row : TaskCleanupRecord) (w : World E)
    (snapshot : WorkspaceSnapshot) (truth : PullRequestDeliveryTruth) (after : World E)
    : Type 0 where
  pub fits : workspace_differs context row snapshot ≡ false
  pub database : after.database ≡ w.database
  pub logged :
      ((after.log ≡ Event.inspected snapshot ∷ w.log) × (truth ≡ no_truth))
      ⊎ (after.log ≡ Event.verified truth ∷ Event.inspected snapshot ∷ w.log)

module _ {E : Type 0} (context : StoreContext) (ports : CleanupPorts E) where
  inspect-Ends :
      (row : TaskCleanupRecord) (w : World E)
      → Ends
          (λ snapshot after.
            (workspace_differs context row snapshot ≡ false)
            × Logs w (Event.inspected snapshot ∷ w.log) after)
          (Called w)
          (inspect context ports row w)
  unfolding inspect
  inspect-Ends row w =
      Ends-bind _ _ w
        (Ends-mono _ (λ snapshot after l. l) (λ after l. Logs-Called w after l)
          (Ends-reporting _ _ w (
            call-Logs ports.inspect_workspace (λ snapshot log. Event.inspected snapshot ∷ log) _
              w)))
        (λ snapshot after l.
          Ends-raise_if _ _ _ after
            (record {
              database = l.database;
              extends = rw l.logged (Extends.inspects Extends.stays);
            })
            (λ fits. Outcome.returns (fits, l)))

  pub verify_current_safety-SafetySeen :
      (row : TaskCleanupRecord) (w : World E)
      → Ends
          (λ proof. SafetySeen context row w proof.0 proof.1)
          (Called w)
          (verify_current_safety context ports row w)
  unfolding verify_current_safety
  verify_current_safety-SafetySeen row w =
      Ends-bind _ _ w (inspect-Ends row w) (λ snapshot after seen.
        Ends-bind _ _ after
          (Ends-mono _ (λ truth last t. t)
            (λ last called. record {
              database = called.database ∙ seen.1.database;
              extends = grown snapshot after last seen.1 called;
            })
            (prove_delivery-TruthLogged context ports row snapshot after))
          (λ truth last proved. Outcome.returns (safety snapshot truth after last seen proved)))
    where
      grown :
          (snapshot : WorkspaceSnapshot) (after last : World E)
          → Logs w (Event.inspected snapshot ∷ w.log) after
          → Called after last
          → Extends w.log last.log
      grown snapshot after last l called =
          Extends-trans (Event.inspected snapshot ∷ w.log) last.log (Extends.inspects Extends.stays)
            (subst (λ log. Extends log last.log) l.logged called.extends)

      safety :
          (snapshot : WorkspaceSnapshot) (truth : PullRequestDeliveryTruth) (after last : World E)
          → (workspace_differs context row snapshot ≡ false)
            × Logs w (Event.inspected snapshot ∷ w.log) after
          → TruthLogged after truth last
          → SafetySeen context row w snapshot truth last
      safety snapshot truth after last (fits, l) (inl (t, nothing)) = record {
        fits = fits;
        database = t.database ∙ l.database;
        logged = inl (t.logged ∙ l.logged, nothing);
      }
      safety snapshot truth after last (fits, l) (inr t) = record {
        fits = fits;
        database = t.database ∙ l.database;
        logged = inr (t.logged ∙ ap (λ log. Event.verified truth ∷ log) l.logged);
      }

  pub release_host-Ends :
      (row : TaskCleanupRecord) (w : World E)
      → Ends
          (λ receipt after.
            (receipt_matches row receipt ≡ true)
            × Logs w (Event.run_released receipt ∷ w.log) after)
          (Called w)
          (release_host context ports row w)
  unfolding release_host
  release_host-Ends row w =
      Ends-bind _ _ w
        (Ends-mono _ (λ receipt after l. l) (λ after l. Logs-Called w after l)
          (Ends-reporting _ _ w (
            call-Logs ports.release_managed_run (λ receipt log. Event.run_released receipt ∷ log) _
              w)))
        (λ receipt after l.
          Ends-raise_if _ _ _ after
            (record {
              database = l.database;
              extends = rw l.logged (Extends.releases Extends.stays);
            })
            (λ matches. Outcome.returns (not-eq-false (receipt_matches row receipt) matches, l)))

  pub release_attachment-Ends :
      (row : TaskCleanupRecord) (w : World E)
      → Ends
          (λ (a : Unit {0}). Logs w (Event.attachment_released row.task_handle ∷ w.log))
          (Called w)
          (release_attachment context ports row w)
  unfolding release_attachment
  release_attachment-Ends row w =
      Ends-mono _ (λ a after l. l) (λ after l. Logs-Called w after l)
        (Ends-reporting _ _ w (
          call-Logs ports.release_runtime_attachment
            (λ _ log. Event.attachment_released row.task_handle ∷ log) _ w))

  pub read_clock-Logs :
      (w : World E) → Ends (λ (t : Time). Logs w w.log) (Logs w w.log) (read_clock context ports w)
  unfolding read_clock
  read_clock-Logs w = Outcome.returns (record { database = refl; logged = refl })
