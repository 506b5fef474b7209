-- ===== src/Judge/Laws.antt =====
-- Lemmas on JudgeCandidate of internal/domain/candidate_judge.go.
use comis_dev_crew.Base.{
  ◌≡◌, ◌≢◌, refl, ap, ◌≤◌, ◌<◌, ◌⊎◌, inl, inr, true, false, Option, none, some, arith,
  is_ok-eq-true, is_empty, In, Bool-cases, ok, is_number,
}
use comis_dev_crew.Text.{Text}
use comis_dev_crew.Text.Laws.{text_eq_sound, text_eq_iff}
use comis_dev_crew.Platform.{Platform}
use comis_dev_crew.Lifecycle.{TaskShape, is_ship, is_scout}
use comis_dev_crew.Task.Validate.{validate_task}
use comis_dev_crew.Evidence.{
  CheckConclusion, DeliveryEvidenceBundle, ForgeEvidence, ReportArtifactEvidence, has_reason,
  is_clean, WorktreeCleanliness, CandidateUnverifiedReason,
}
use comis_dev_crew.Evidence.Seal.{SealedDeliveryEvidence}
use comis_dev_crew.Judge.{
  CandidateOutcome, is_accepted, CandidateJudgeInput, CandidateJudgment, judged_accepted,
  local_loop, required_validation_judgment, forge_loop, otherwise, judge_forge,
  judge_ship_candidate, judge_report, judge_shape, judge_bundle, judge_evidence, judge_candidate,
}
use comis_dev_crew.Judge.Checks.{
  HasReceipt, HasForgeCheck, accepts, local_loop_passed, forge_loop_passed,
  local_loop_never_accepts, forge_loop_never_accepts,
}

-- Forge evidence of this repository and head records every required forge check as passed.
pub record HasForgeProof (input : CandidateJudgeInput) (bundle : DeliveryEvidenceBundle)
    : Type 0 where
  pub forge : ForgeEvidence
  pub present : bundle.forge_evidence ≡ some forge
  pub same_repository : forge.repository ≡ input.task.repository_id
  pub same_head : forge.head_revision ≡ bundle.head_revision
  pub some_required : is_empty input.required_forge_checks ≡ false
  pub passed :
      (name : Text)
      → In name input.required_forge_checks
      → HasForgeCheck forge name CheckConclusion.passed

-- A ship task is proved by the forge, a scout task by a report.
abbrev pub IsDelivered : CandidateJudgeInput → DeliveryEvidenceBundle → Type 0
IsDelivered input bundle =
    ((input.task.shape ≡ TaskShape.ship) × HasForgeProof input bundle)
    ⊎ ((input.task.shape ≡ TaskShape.scout)
        × (report : ReportArtifactEvidence) × (bundle.report_artifact ≡ some report))

-- The evidence is of this task, in time, settled and complete.
pub record IsConclusive (input : CandidateJudgeInput) (bundle : DeliveryEvidenceBundle)
    : Type 0 where
  pub same_task : bundle.task_handle ≡ input.task.handle
  pub same_repository : bundle.repository_identity ≡ input.task.repository_id
  pub same_base : bundle.base_revision ≡ input.task.base_revision
  pub produced : bundle.produced_at.instant ≤ input.now.instant
  pub unexpired : input.now.instant < bundle.expires_at.instant
  pub verified : bundle.unverified_reason ≡ CandidateUnverifiedReason.no_reason
  pub clean : bundle.worktree_cleanliness ≡ WorktreeCleanliness.clean
  pub moved : bundle.head_revision ≢ input.task.base_revision
  pub decided : is_number bundle.unresolved_decision_count 0 ≡ true
  pub some_required : is_empty input.required_local_checks ≡ false
  pub checked :
      (check_id : Text)
      → In check_id input.required_local_checks
      → HasReceipt bundle check_id CheckConclusion.passed
  pub delivered : IsDelivered input bundle

clean_posture :
    (posture : WorktreeCleanliness) → is_clean posture ≡ true → posture ≡ WorktreeCleanliness.clean
clean_posture WorktreeCleanliness.clean h = refl
clean_posture _ h = cc

no_reason_left :
    (reason : CandidateUnverifiedReason)
    → has_reason reason ≡ false
    → reason ≡ CandidateUnverifiedReason.no_reason
no_reason_left CandidateUnverifiedReason.no_reason h = refl
no_reason_left _ h = cc

ship_shape : (shape : TaskShape) → is_ship shape ≡ true → shape ≡ TaskShape.ship
ship_shape TaskShape.ship h = refl
ship_shape _ h = cc

scout_shape : (shape : TaskShape) → is_scout shape ≡ true → shape ≡ TaskShape.scout
scout_shape TaskShape.scout h = refl
scout_shape _ h = cc

otherwise_accepted :
    (found : Option CandidateJudgment) (judgment : CandidateJudgment)
    → accepts found ≡ false
    → is_accepted (otherwise found judgment).outcome ≡ true
    → (found ≡ none) × (is_accepted judgment.outcome ≡ true)
otherwise_accepted none judgment never h = (refl, h)
otherwise_accepted (some j) judgment never h = cc

module _ (input : CandidateJudgeInput) (bundle : DeliveryEvidenceBundle) where
  accepted_forge :
      (found : Option ForgeEvidence)
      → bundle.forge_evidence ≡ found
      → is_accepted (judge_forge input bundle found).outcome ≡ true
      → HasForgeProof input bundle
  unfolding judge_forge
  accepted_forge none e h = cc
  accepted_forge (some forge) e h =
      let loop = forge_loop forge input.required_forge_checks in
      let (passed, _) =
        otherwise_accepted loop judged_accepted
          (forge_loop_never_accepts forge input.required_forge_checks) (ground arith) in
      record {
        forge = forge;
        present = e;
        same_repository = text_eq_sound forge.repository input.task.repository_id (ground arith);
        same_head = text_eq_sound forge.head_revision bundle.head_revision (ground arith);
        some_required = ground arith;
        passed = forge_loop_passed forge input.required_forge_checks passed;
      }

  accepted_report :
      (found : Option ReportArtifactEvidence)
      → is_accepted (judge_report found).outcome ≡ true
      → (report : ReportArtifactEvidence) × (found ≡ some report)
  unfolding judge_report
  accepted_report none h = cc
  accepted_report (some report) h = (report, refl)

  accepted_shape : is_accepted (judge_shape input bundle).outcome ≡ true → IsDelivered input bundle
  unfolding judge_shape judge_ship_candidate
  accepted_shape h = elim (Bool-cases (is_ship input.task.shape)) [
    | inl ship ↦ inl (
      ship_shape input.task.shape ship,
      accepted_forge bundle.forge_evidence refl (rw (ship, judge_shape) at h),
    )
    | inr other ↦
        let (report, found) = accepted_report bundle.report_artifact (ground arith) in
        inr (scout_shape input.task.shape (ground arith), report, found)
  ]

  accepted_bundle :
      is_accepted (judge_bundle input bundle).outcome ≡ true → IsConclusive input bundle
  unfolding judge_bundle required_validation_judgment
  accepted_bundle h =
      let local = local_loop bundle input.required_local_checks in
      let (passed, shaped) =
        otherwise_accepted local (judge_shape input bundle)
          (local_loop_never_accepts bundle input.required_local_checks) (ground arith) in
      record {
        same_task = text_eq_sound bundle.task_handle input.task.handle (ground arith);
        same_repository =
            text_eq_sound bundle.repository_identity input.task.repository_id (ground arith);
        same_base = text_eq_sound bundle.base_revision input.task.base_revision (ground arith);
        produced = ground arith;
        unexpired = ground arith;
        verified = no_reason_left bundle.unverified_reason (ground arith);
        clean = clean_posture bundle.worktree_cleanliness (ground arith);
        moved = λ same.
            ground (arith, (text_eq_iff bundle.head_revision input.task.base_revision).1 same);
        decided = ground arith;
        some_required = ground arith;
        checked = local_loop_passed bundle input.required_local_checks passed;
        delivered = accepted_shape shaped;
      }

-- An accepted candidate has a valid task and sealed evidence of that task, produced and not
-- expired, with a clean and verified worktree, a head other than the base and no open decision, in
-- which every required local check has a receipt that it passed at the head; for a ship task every
-- required forge check passed at the head, and for a scout task there is a report.
pub accepted_candidate-IsConclusive :
    (platform : Platform) (input : CandidateJudgeInput)
    → (judge_candidate platform input).outcome ≡ CandidateOutcome.accepted
    → (validate_task platform input.task ≡ ok tt)
      × (sealed : SealedDeliveryEvidence) × (input.evidence ≡ some sealed)
      × IsConclusive input sealed.bundle
unfolding judge_candidate
accepted_candidate-IsConclusive platform input h =
    let accepted : is_accepted (judge_candidate platform input).outcome ≡ true = ap is_accepted h in
    let (sealed, found, conclusive) = from input.evidence refl (ground arith) in
    (is_ok-eq-true (validate_task platform input.task) (ground arith), sealed, found, conclusive)
  where
    from :
        (found : Option SealedDeliveryEvidence)
        → input.evidence ≡ found
        → is_accepted (judge_evidence input found).outcome ≡ true
        → (sealed : SealedDeliveryEvidence) × (found ≡ some sealed)
          × IsConclusive input sealed.bundle
    from none e t = unfold judge_evidence in cc
    from (some sealed) e t =
        (sealed, refl, accepted_bundle input sealed.bundle (unfold judge_evidence in ground arith))
