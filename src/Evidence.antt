-- ===== src/Evidence.antt =====
-- The delivery evidence of internal/domain/evidence.go: the bundle and its closed vocabularies.
pub mod Validate
pub mod Seal
use comis_dev_crew.Base.{Bool, true, false, List, Option, ℤ, Time}
use comis_dev_crew.Text.{Text}

pub data WorktreeCleanliness : Type 0 where
  clean dirty unknown : WorktreeCleanliness
  other : Text → WorktreeCleanliness

abbrev pub is_clean : WorktreeCleanliness → Bool
is_clean WorktreeCleanliness.clean = true
is_clean _ = false

abbrev pub is_unknown_posture : WorktreeCleanliness → Bool
is_unknown_posture WorktreeCleanliness.unknown = true
is_unknown_posture _ = false

abbrev pub valid_posture : WorktreeCleanliness → Bool
valid_posture (WorktreeCleanliness.other t) = false
valid_posture _ = true

-- The empty reason is `no_reason`.
pub data CandidateUnverifiedReason : Type 0 where
  no_reason reconciliation_mismatch validation_drift : CandidateUnverifiedReason
  other : Text → CandidateUnverifiedReason

abbrev pub has_reason : CandidateUnverifiedReason → Bool
has_reason CandidateUnverifiedReason.no_reason = false
has_reason _ = true

abbrev pub is_unverified : CandidateUnverifiedReason → Bool
is_unverified CandidateUnverifiedReason.reconciliation_mismatch = true
is_unverified CandidateUnverifiedReason.validation_drift = true
is_unverified _ = false

pub data CheckConclusion : Type 0 where
  passed failed pending unknown : CheckConclusion
  other : Text → CheckConclusion

unfoldable pub valid_conclusion : CheckConclusion → Bool
valid_conclusion (CheckConclusion.other t) = false
valid_conclusion _ = true

pub record ValidationEvidenceReceipt : Type 0 where
  pub check_id : Text
  pub program_id : Text
  pub head_revision : Text
  pub conclusion : CheckConclusion
  pub required : Bool
  pub output_hash : Text
  pub started_at : Time
  pub completed_at : Time

pub record ForgeCheckEvidence : Type 0 where
  pub name : Text
  pub conclusion : CheckConclusion

pub record ForgeEvidence : Type 0 where
  pub repository : Text
  pub pull_request_id : Text
  pub branch : Text
  pub head_revision : Text
  pub check_conclusions : List ForgeCheckEvidence

pub record ReportArtifactEvidence : Type 0 where
  pub content_hash : Text
  pub size : ℤ
  pub media_type : Text

pub record DeliveryEvidenceBundle : Type 0 where
  pub schema_version : ℤ
  pub task_handle : Text
  pub repository_identity : Text
  pub base_revision : Text
  pub head_revision : Text
  pub worktree_cleanliness : WorktreeCleanliness
  pub unverified_reason : CandidateUnverifiedReason
  pub validation_receipts : List ValidationEvidenceReceipt
  pub forge_evidence : Option ForgeEvidence
  pub report_artifact : Option ReportArtifactEvidence
  pub unresolved_decision_count : ℤ
  pub produced_at : Time
  pub expires_at : Time
