-- ===== src/Evidence/Validate.antt =====
-- The validator of delivery evidence, of internal/domain/evidence.go. An error made by errors.New
-- is its text.
use comis_dev_crew.Base.{
  ℕ, Bool, true, false, not, ◌&&◌, ◌||◌, List, [], ◌∷◌, Option, none, some, Result, ok, ◌>>◌,
  refuse, require, is_negative, not_positive, is_number, exceeds, Time, is_zero, before, after,
  is_ok, is_empty, length, ltb, String, ◌==◌,
}
use comis_dev_crew.Text.{Text, text_eq, member, contains_any}
use comis_dev_crew.Text.Utf8.{is_trimmed}
use comis_dev_crew.Field.{
  validate_opaque_id, validate_authority_reference, validate_sha256, revision_pattern,
  media_type_pattern,
}
use comis_dev_crew.Evidence.{
  is_clean, is_unknown_posture, valid_posture, has_reason, is_unverified, valid_conclusion,
  ValidationEvidenceReceipt, ForgeCheckEvidence, ForgeEvidence, ReportArtifactEvidence,
  DeliveryEvidenceBundle,
}

abbrev pub Sealing : Type 0
Sealing = Result String (Unit {0})

unfoldable pub validate_validation_receipt : ValidationEvidenceReceipt → Time → Sealing
unfolding valid_conclusion
validate_validation_receipt receipt produced_at =
    refuse
      (not (is_ok (validate_opaque_id "checkId" receipt.check_id))
        || not (is_ok (validate_opaque_id "programId" receipt.program_id))
        || not (revision_pattern receipt.head_revision)
        || not (valid_conclusion receipt.conclusion)
        || not (is_ok (validate_sha256 "outputHash" receipt.output_hash))
        || is_zero receipt.started_at
        || is_zero receipt.completed_at
        || not receipt.started_at.utc
        || not receipt.completed_at.utc
        || before receipt.completed_at receipt.started_at
        || after receipt.completed_at produced_at)
      "seal delivery evidence: validation receipt is invalid"

-- The loop over the receipts, with the checks that it has seen.
unfoldable pub receipts_loop : Time → List Text → List ValidationEvidenceReceipt → Sealing
unfolding validate_validation_receipt
receipts_loop produced_at seen [] = ok tt
receipts_loop produced_at seen (receipt ∷ rest) =
    let later = receipts_loop produced_at (receipt.check_id ∷ seen) rest in
    do
      validate_validation_receipt receipt produced_at
      refuse (member receipt.check_id seen)
          "seal delivery evidence: validation receipt is duplicated"
      later

-- "\x00\r\n" and "\x00\r\n\t "
abbrev name_breaks : ℕ → Bool
name_breaks c = c == 0 || c == 13 || c == 10

abbrev branch_breaks : ℕ → Bool
branch_breaks c = name_breaks c || c == 9 || c == 32

-- The loop over the forge checks, with the names that it has seen.
unfoldable pub forge_checks_loop : List Text → List ForgeCheckEvidence → Sealing
unfolding valid_conclusion
forge_checks_loop seen [] = ok tt
forge_checks_loop seen (check ∷ rest) =
    let later = forge_checks_loop (check.name ∷ seen) rest in
    do
      refuse
          (is_empty check.name
            || ltb 128 (length check.name)
            || not (is_trimmed check.name)
            || contains_any name_breaks check.name
            || not (valid_conclusion check.conclusion))
          "seal delivery evidence: forge check is invalid"
      refuse (member check.name seen) "seal delivery evidence: forge check is duplicated"
      later

unfoldable pub validate_forge_evidence : ForgeEvidence → Sealing
unfolding forge_checks_loop
validate_forge_evidence evidence = do
  refuse
      (not (is_ok (validate_opaque_id "forgeRepository" evidence.repository))
        || not (is_ok (validate_authority_reference "pullRequestId" evidence.pull_request_id))
        || is_empty evidence.branch
        || ltb 256 (length evidence.branch)
        || not (is_trimmed evidence.branch)
        || contains_any branch_breaks evidence.branch
        || not (revision_pattern evidence.head_revision)
        || is_empty evidence.check_conclusions
        || ltb 64 (length evidence.check_conclusions))
      "seal delivery evidence: forge evidence is invalid"
  forge_checks_loop [] evidence.check_conclusions

abbrev is_some : {A : Type 0} → Option A → Bool
is_some none = false
is_some (some a) = true

unfoldable pub validate_forge : Option ForgeEvidence → Sealing
unfolding validate_forge_evidence
validate_forge none = ok tt
validate_forge (some forge) = validate_forge_evidence forge

-- `1 << 30`
abbrev max_report_bytes : ℕ
max_report_bytes = 1073741824

unfoldable pub validate_report_artifact : Option ReportArtifactEvidence → Sealing
validate_report_artifact none = ok tt
validate_report_artifact (some report) =
    refuse
      (not (is_ok (validate_sha256 "reportContentHash" report.content_hash))
        || not_positive report.size
        || exceeds report.size max_report_bytes
        || not (media_type_pattern report.media_type))
      "seal delivery evidence: report artifact is invalid"

unfoldable pub valid_head : DeliveryEvidenceBundle → Bool
valid_head bundle =
    revision_pattern bundle.head_revision
    || (is_unknown_posture bundle.worktree_cleanliness && is_empty bundle.head_revision)

unfoldable pub validate_evidence : DeliveryEvidenceBundle → Sealing
unfolding valid_head receipts_loop validate_forge validate_report_artifact
validate_evidence bundle = do
  refuse
      (not (is_number bundle.schema_version 1)
        || not (is_ok (validate_opaque_id "taskHandle" bundle.task_handle))
        || not (is_ok (validate_opaque_id "repositoryIdentity" bundle.repository_identity))
        || not (revision_pattern bundle.base_revision)
        || not (valid_head bundle))
      "seal delivery evidence: bundle identity is invalid"
  require (valid_posture bundle.worktree_cleanliness)
      "seal delivery evidence: worktree posture is invalid"
  refuse (has_reason bundle.unverified_reason && not (is_unverified bundle.unverified_reason))
      "seal delivery evidence: unverified reason is invalid"
  refuse
      (is_unverified bundle.unverified_reason
        && (not (is_clean bundle.worktree_cleanliness)
            || text_eq bundle.head_revision bundle.base_revision
            || not (is_empty bundle.validation_receipts)
            || is_some bundle.forge_evidence
            || is_some bundle.report_artifact))
      "seal delivery evidence: unverified authority is contradictory"
  refuse
      (ltb 64 (length bundle.validation_receipts)
        || (is_empty bundle.validation_receipts
            && is_clean bundle.worktree_cleanliness
            && not (text_eq bundle.head_revision bundle.base_revision)
            && not (is_unverified bundle.unverified_reason)))
      "seal delivery evidence: validation receipts are invalid"
  receipts_loop bundle.produced_at [] bundle.validation_receipts
  refuse (is_some bundle.forge_evidence && is_some bundle.report_artifact)
      "seal delivery evidence: delivery artifact is ambiguous"
  validate_forge bundle.forge_evidence
  validate_report_artifact bundle.report_artifact
  refuse
      (is_negative bundle.unresolved_decision_count
        || exceeds bundle.unresolved_decision_count 1024
        || is_zero bundle.produced_at
        || is_zero bundle.expires_at
        || not bundle.produced_at.utc
        || not bundle.expires_at.utc
        || not (after bundle.expires_at bundle.produced_at))
      "seal delivery evidence: lifetime or decision count is invalid"
