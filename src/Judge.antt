-- ===== src/Judge.antt =====
-- The judge of internal/domain/candidate_judge.go: whether a candidate is accepted, from the task,
-- its sealed evidence and the checks that the reviewed profile requires.
pub mod Checks
pub mod Laws
use comis_dev_crew.Base.{
  Bool, true, false, not, ◌&&◌, ◌||◌, List, [], ◌∷◌, Option, none, some, is_ok, is_empty,
  if◌then◌else◌, Time, before, after, not_utc_time, is_number,
}
use comis_dev_crew.Text.{Text, text_eq, member}
use comis_dev_crew.Platform.{Platform}
use comis_dev_crew.Lifecycle.{is_ship, is_scout}
use comis_dev_crew.Task.{Task}
use comis_dev_crew.Task.Validate.{validate_task}
use comis_dev_crew.Evidence.{
  CheckConclusion, DeliveryEvidenceBundle, ForgeCheckEvidence, ForgeEvidence,
  ReportArtifactEvidence, ValidationEvidenceReceipt, has_reason, is_clean,
}
use comis_dev_crew.Evidence.Seal.{SealedDeliveryEvidence}

pub data CandidateOutcome : Type 0 where
  accepted rejected unknown : CandidateOutcome

abbrev pub is_accepted : CandidateOutcome → Bool
is_accepted CandidateOutcome.accepted = true
is_accepted _ = false

abbrev pub is_rejected : CandidateOutcome → Bool
is_rejected CandidateOutcome.rejected = true
is_rejected _ = false

pub data CandidateReason : Type 0 where
  evidence_accepted evidence_invalid evidence_stale evidence_conflicting worktree_unverified :
      CandidateReason
  decision_unresolved validation_missing validation_failed validation_unknown : CandidateReason
  forge_missing forge_failed forge_unknown report_missing : CandidateReason

pub record CandidateJudgeInput : Type 0 where
  pub task : Task
  pub evidence : Option SealedDeliveryEvidence
  pub required_local_checks : List Text
  pub required_forge_checks : List Text
  pub now : Time

pub record CandidateJudgment : Type 0 where
  pub outcome : CandidateOutcome
  pub reason : CandidateReason

abbrev pub candidate_judgment : CandidateOutcome → CandidateReason → CandidateJudgment
candidate_judgment outcome reason = record { outcome = outcome; reason = reason }

abbrev pub judged_unknown : CandidateReason → CandidateJudgment
judged_unknown = candidate_judgment CandidateOutcome.unknown

abbrev pub judged_accepted : CandidateJudgment
judged_accepted = candidate_judgment CandidateOutcome.accepted CandidateReason.evidence_accepted

-- The loop of hasDuplicateNames, with the names that it has seen.
unfoldable pub duplicates_loop : List Text → List Text → Bool
duplicates_loop seen [] = false
duplicates_loop seen (value ∷ rest) =
    is_empty value || member value seen || duplicates_loop (value ∷ seen) rest

unfoldable pub has_duplicate_names : List Text → Bool
unfolding duplicates_loop
has_duplicate_names values = duplicates_loop [] values

-- `receipts[checkID]`, of the map in which a later receipt replaces an earlier one.
unfoldable pub receipt_of : Text → List ValidationEvidenceReceipt → Option ValidationEvidenceReceipt
receipt_of check_id [] = none
receipt_of check_id (receipt ∷ rest) = elim (receipt_of check_id rest) [
  | some later ↦ some later
  | none ↦ if text_eq receipt.check_id check_id then some receipt else none
]

-- `checks[required]`, likewise.
unfoldable pub conclusion_of : Text → List ForgeCheckEvidence → Option CheckConclusion
conclusion_of name [] = none
conclusion_of name (check ∷ rest) = elim (conclusion_of name rest) [
  | some later ↦ some later
  | none ↦ if text_eq check.name name then some check.conclusion else none
]

-- The switch on a local conclusion: none goes on.
unfoldable pub judge_local : CheckConclusion → Option CandidateJudgment
judge_local CheckConclusion.passed = none
judge_local CheckConclusion.failed =
    some (candidate_judgment CandidateOutcome.rejected CandidateReason.validation_failed)
judge_local CheckConclusion.pending = some (judged_unknown CandidateReason.validation_unknown)
judge_local CheckConclusion.unknown = some (judged_unknown CandidateReason.validation_unknown)
judge_local (CheckConclusion.other t) = some (judged_unknown CandidateReason.evidence_invalid)

-- One turn of the loop over the required checks.
unfoldable pub judge_receipt : Text → Option ValidationEvidenceReceipt → Option CandidateJudgment
unfolding judge_local
judge_receipt head none = some (judged_unknown CandidateReason.validation_missing)
judge_receipt head (some receipt) =
    if not receipt.required || not (text_eq receipt.head_revision head)
    then some (judged_unknown CandidateReason.validation_missing)
    else judge_local receipt.conclusion

abbrev pub or_else : Option CandidateJudgment → Option CandidateJudgment → Option CandidateJudgment
or_else none later = later
or_else (some judgment) later = some judgment

unfoldable pub local_loop : DeliveryEvidenceBundle → List Text → Option CandidateJudgment
local_loop bundle [] = none
local_loop bundle (check_id ∷ rest) =
    or_else (judge_receipt bundle.head_revision (receipt_of check_id bundle.validation_receipts))
      (local_loop bundle rest)

unfoldable pub required_validation_judgment :
    DeliveryEvidenceBundle → List Text → Option CandidateJudgment
required_validation_judgment bundle required =
    if is_empty required || has_duplicate_names required
    then some (judged_unknown CandidateReason.validation_missing)
    else local_loop bundle required

unfoldable pub judge_forge_check : Option CheckConclusion → Option CandidateJudgment
judge_forge_check none = some (judged_unknown CandidateReason.forge_missing)
judge_forge_check (some CheckConclusion.passed) = none
judge_forge_check (some CheckConclusion.failed) =
    some (candidate_judgment CandidateOutcome.rejected CandidateReason.forge_failed)
judge_forge_check (some CheckConclusion.pending) =
    some (judged_unknown CandidateReason.forge_unknown)
judge_forge_check (some CheckConclusion.unknown) =
    some (judged_unknown CandidateReason.forge_unknown)
judge_forge_check (some (CheckConclusion.other t)) =
    some (judged_unknown CandidateReason.evidence_invalid)

unfoldable pub forge_loop : ForgeEvidence → List Text → Option CandidateJudgment
forge_loop forge [] = none
forge_loop forge (required ∷ rest) =
    or_else (judge_forge_check (conclusion_of required forge.check_conclusions))
      (forge_loop forge rest)

abbrev pub otherwise : Option CandidateJudgment → CandidateJudgment → CandidateJudgment
otherwise none judgment = judgment
otherwise (some judgment) _ = judgment

unfoldable pub judge_forge :
    CandidateJudgeInput → DeliveryEvidenceBundle → Option ForgeEvidence → CandidateJudgment
judge_forge input bundle none = judged_unknown CandidateReason.forge_missing
judge_forge input bundle (some forge) =
    if is_empty input.required_forge_checks || has_duplicate_names input.required_forge_checks
    then judged_unknown CandidateReason.forge_missing
    else if not (text_eq forge.repository input.task.repository_id)
        || not (text_eq forge.head_revision bundle.head_revision)
    then judged_unknown CandidateReason.evidence_conflicting
    else otherwise (forge_loop forge input.required_forge_checks) judged_accepted

unfoldable pub judge_ship_candidate :
    CandidateJudgeInput → DeliveryEvidenceBundle → CandidateJudgment
judge_ship_candidate input bundle = judge_forge input bundle bundle.forge_evidence

unfoldable pub judge_report : Option ReportArtifactEvidence → CandidateJudgment
judge_report none = judged_unknown CandidateReason.report_missing
judge_report (some report) = judged_accepted

-- What JudgeCandidate does once no required local check speaks against the candidate.
unfoldable pub judge_shape : CandidateJudgeInput → DeliveryEvidenceBundle → CandidateJudgment
unfolding judge_ship_candidate
judge_shape input bundle =
    if is_ship input.task.shape
    then judge_ship_candidate input bundle
    else if is_scout input.task.shape
    then judge_report bundle.report_artifact
    else judged_unknown CandidateReason.evidence_invalid

unfoldable pub judge_bundle : CandidateJudgeInput → DeliveryEvidenceBundle → CandidateJudgment
judge_bundle input bundle =
    if not (text_eq bundle.task_handle input.task.handle)
      || not (text_eq bundle.repository_identity input.task.repository_id)
      || not (text_eq bundle.base_revision input.task.base_revision)
      || after bundle.produced_at input.now
    then judged_unknown CandidateReason.evidence_conflicting
    else if not (before input.now bundle.expires_at)
    then judged_unknown CandidateReason.evidence_stale
    else if has_reason bundle.unverified_reason
    then judged_unknown CandidateReason.worktree_unverified
    else if not (is_clean bundle.worktree_cleanliness)
    then judged_unknown CandidateReason.worktree_unverified
    else if text_eq bundle.head_revision input.task.base_revision
    then judged_unknown CandidateReason.worktree_unverified
    else if not (is_number bundle.unresolved_decision_count 0)
    then judged_unknown CandidateReason.decision_unresolved
    else otherwise (required_validation_judgment bundle input.required_local_checks)
        (judge_shape input bundle)

unfoldable pub judge_evidence :
    CandidateJudgeInput → Option SealedDeliveryEvidence → CandidateJudgment
judge_evidence input none = judged_unknown CandidateReason.evidence_invalid
judge_evidence input (some sealed) =
    if not_utc_time input.now
    then judged_unknown CandidateReason.evidence_invalid
    else judge_bundle input sealed.bundle

unfoldable pub judge_candidate : Platform → CandidateJudgeInput → CandidateJudgment
judge_candidate platform input =
    if not (is_ok (validate_task platform input.task))
    then judged_unknown CandidateReason.evidence_invalid
    else judge_evidence input input.evidence
