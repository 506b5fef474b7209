-- ===== src/Operation.antt =====
-- The replay ledger entry of internal/domain/operation.go, and the error codes and the safe
-- failure of internal/domain/error.go.
pub mod Laws
use comis_dev_crew.Base.{
  Bool, true, false, not, Result, ok, err, ◌>>◌, refuse, require, when, is_empty, is_number,
  not_positive, ℤ, Time, if◌then◌else◌,
}
use comis_dev_crew.Text.{Text}
use comis_dev_crew.Field.{
  ValidationError, invalid, Checked, validate_opaque_id, validate_command, validate_sha256,
  validate_times, validate_safe_text,
}

pub data ErrorCode : Type 0 where
  invalid_argument not_found conflict unauthorized unavailable deadline_exceeded : ErrorCode
  precondition internal unknown : ErrorCode
  other : Text → ErrorCode

unfoldable pub valid_error_code : ErrorCode → Bool
valid_error_code (ErrorCode.other t) = false
valid_error_code _ = true

-- `code == ""`
abbrev pub is_no_code : ErrorCode → Bool
is_no_code (ErrorCode.other t) = is_empty t
is_no_code _ = false

-- A Failure without the private cause that it wraps.
pub record Failure : Type 0 where
  pub code : ErrorCode
  pub retryable : Bool
  pub message : Text
  pub hint : Text

unfoldable pub new_failure : ErrorCode → Bool → Text → Text → Result ValidationError Failure
new_failure code retryable message hint = do
  require (valid_error_code code) (invalid "code" "must be a known error code")
  validate_safe_text "message" message
  validate_safe_text "hint" hint
  ok (record { code = code; retryable = retryable; message = message; hint = hint })

pub data OperationStatus : Type 0 where
  accepted completed rejected unknown : OperationStatus
  other : Text → OperationStatus

unfoldable pub valid_status : OperationStatus → Bool
valid_status (OperationStatus.other t) = false
valid_status _ = true

abbrev pub is_rejected : OperationStatus → Bool
is_rejected OperationStatus.rejected = true
is_rejected _ = false

pub record OperationRecord : Type 0 where
  pub schema_version : ℤ
  pub id : Text
  pub command : Text
  pub subject_digest : Text
  pub status : OperationStatus
  pub error_code : ErrorCode
  pub result_ref : Text
  pub state_version : ℤ
  pub created_at : Time
  pub updated_at : Time

unfoldable pub validate_operation : OperationRecord → Checked
validate_operation operation = do
  require (is_number operation.schema_version 1) (invalid "schemaVersion" "must equal 1")
  validate_opaque_id "operationId" operation.id
  validate_command operation.command
  validate_sha256 "subjectDigest" operation.subject_digest
  require (valid_status operation.status) (invalid "status" "must be a known operation status")
  if is_rejected operation.status
      then require (valid_error_code operation.error_code)
          (invalid "errorCode" "rejected operations require a known code")
      else require (is_no_code operation.error_code)
          (invalid "errorCode" "only rejected operations carry an error code")
  when (not (is_empty operation.result_ref)) (validate_opaque_id "resultRef" operation.result_ref)
  refuse (not_positive operation.state_version) (invalid "stateVersion" "must be positive")
  validate_times operation.created_at operation.updated_at
