-- ===== src/Contract.antt =====
-- Contract artifacts: internal/domain/contract_artifact.go and contract_artifact_content.go, with
-- the artifact kinds of internal/domain/initiative.go.
use comis_dev_crew.Base.{
  ℕ, Bool, true, false, not, ◌||◌, ◌>>◌, refuse, require, when, ℤ, pos, not_positive, exceeds,
  int_eq, Time, not_utc_time, is_empty, length,
}
use comis_dev_crew.Text.{Text, ascii, text_eq}
use comis_dev_crew.Platform.{Platform}
use comis_dev_crew.Field.{
  invalid, Checked, validate_opaque_id, validate_task_handle, validate_sha256, validate_revision,
  media_type_pattern,
}

pub data ContractArtifactKind : Type 0 where
  api_schema generated_client fixture migration_contract integration_note : ContractArtifactKind
  other : Text → ContractArtifactKind

unfoldable pub valid_artifact_kind : ContractArtifactKind → Bool
valid_artifact_kind (ContractArtifactKind.other t) = false
valid_artifact_kind _ = true

unfoldable pub artifact_kind_text : ContractArtifactKind → Text
artifact_kind_text ContractArtifactKind.api_schema = ascii "api_schema"
artifact_kind_text ContractArtifactKind.generated_client = ascii "generated_client"
artifact_kind_text ContractArtifactKind.fixture = ascii "fixture"
artifact_kind_text ContractArtifactKind.migration_contract = ascii "migration_contract"
artifact_kind_text ContractArtifactKind.integration_note = ascii "integration_note"
artifact_kind_text (ContractArtifactKind.other t) = t

-- `kind == ""`: the field of an edge that names no artifact.
unfoldable pub is_no_kind : ContractArtifactKind → Bool
is_no_kind (ContractArtifactKind.other t) = is_empty t
is_no_kind _ = false

-- `a == b`
unfoldable pub same_kind : ContractArtifactKind → ContractArtifactKind → Bool
unfolding artifact_kind_text text_eq
same_kind a b = text_eq (artifact_kind_text a) (artifact_kind_text b)

pub record ComponentContractArtifact : Type 0 where
  pub artifact_handle : Text
  pub initiative_handle : Text
  pub producer_task_handle : Text
  pub kind : ContractArtifactKind
  pub content_hash : Text
  pub source_revision : Text
  pub media_type : Text
  pub size : ℤ
  pub produced_at : Time
  pub supersedes_artifact_handle : Text

-- 1 << 20
abbrev max_contract_artifact_bytes : ℕ
max_contract_artifact_bytes = 1048576

unfoldable pub validate_contract_artifact_handle : Text → Checked
unfolding validate_opaque_id
validate_contract_artifact_handle = validate_opaque_id "artifactHandle"

unfoldable pub validate_artifact : ComponentContractArtifact → Checked
unfolding validate_contract_artifact_handle
validate_artifact artifact = do
  validate_contract_artifact_handle artifact.artifact_handle
  validate_opaque_id "initiativeHandle" artifact.initiative_handle
  validate_task_handle artifact.producer_task_handle
  require (valid_artifact_kind artifact.kind)
      (invalid "kind" "must be a closed contract artifact kind")
  validate_sha256 "contentHash" artifact.content_hash
  validate_revision artifact.source_revision
  require (media_type_pattern artifact.media_type)
      (invalid "mediaType" "must be a bounded media type")
  refuse (not_positive artifact.size || exceeds artifact.size max_contract_artifact_bytes)
      (invalid "size" "must be a positive bounded artifact size")
  refuse (not_utc_time artifact.produced_at) (invalid "producedAt" "must be a non-zero UTC time")
  when (not (is_empty artifact.supersedes_artifact_handle)) do
    validate_opaque_id "supersedesArtifactHandle" artifact.supersedes_artifact_handle
    refuse (text_eq artifact.supersedes_artifact_handle artifact.artifact_handle)
        (invalid "supersedesArtifactHandle" "an artifact cannot supersede itself")

pub record PinnedContract : Type 0 where
  pub artifact_handle : Text
  pub kind : ContractArtifactKind
  pub content_hash : Text

unfoldable pub validate_pin : PinnedContract → Checked
validate_pin pin = do
  validate_opaque_id "consumedContracts.artifactHandle" pin.artifact_handle
  require (valid_artifact_kind pin.kind)
      (invalid "consumedContracts.kind" "must be a closed contract artifact kind")
  validate_sha256 "consumedContracts.contentHash" pin.content_hash

pub record ContractArtifactContent : Type 0 where
  pub artifact : ComponentContractArtifact
  pub content : Text

-- ContractArtifactContent.Validate. Its two own errors are plain; they keep their text as the
-- reason, with no field.
unfoldable pub validate_artifact_content : Platform → ContractArtifactContent → Checked
validate_artifact_content platform content = do
  validate_artifact content.artifact
  require (int_eq (pos (length content.content)) content.artifact.size)
      (invalid "" "contract artifact content size differs")
  require (text_eq (platform.sha256_hex content.content) content.artifact.content_hash)
      (invalid "" "contract artifact content digest differs")
