-- ===== src/Operation/Laws.antt =====
-- Lemmas on the ledger entry of internal/domain/operation.go.
use comis_dev_crew.Base.{◌≡◌, ◌↔◌, true, ok, arith}
use comis_dev_crew.Operation.{
  OperationStatus, OperationRecord, validate_operation, valid_error_code,
}

-- In a valid ledger entry the error code is a known one exactly if the operation was rejected.
valid_operation_error_code :
    (operation : OperationRecord)
    → validate_operation operation ≡ ok tt
    → (operation.status ≡ OperationStatus.rejected) ↔ (valid_error_code operation.error_code ≡ true)
unfolding validate_operation valid_error_code
valid_operation_error_code operation h = (λ r. ground arith, λ v. ground arith)
