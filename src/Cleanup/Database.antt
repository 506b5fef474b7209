-- ===== src/Cleanup/Database.antt =====
-- The steps that the transactions of internal/store/sqlite share: reads by key, the global state
-- version and the replay ledger. An operation that fails changes nothing but the audit of an
-- altered replay.
use comis_dev_crew.Base.{
  Bool, ◌&&◌, List, [], ◌∷◌, ◌++◌, map, Option, none, some, Result, ok, err, ◌>>◌, refuse, require,
  ℤ, pos, increment, int_less, is_number, max_int64, Time, if◌then◌else◌, is_empty, is_ok,
}
use comis_dev_crew.Text.{Text, text_eq}
use comis_dev_crew.Task.{Task}
use comis_dev_crew.Operation.{OperationRecord, OperationStatus, ErrorCode, validate_operation}
use comis_dev_crew.Initiative.{DevelopmentInitiative}
use comis_dev_crew.Cleanup.{CleanupError, TaskCleanupRecord}
use comis_dev_crew.Cleanup.Rows.{row_where, some_row}
use comis_dev_crew.Cleanup.Tables.{StoredReport, StoredEvidence, ReplayConflict, Database}

-- Why a transaction is not committed, and the rows of the conflict audit that are.
pub record Refusal : Type 0 where
  pub error : CleanupError
  pub audited : List ReplayConflict

abbrev pub rolled_back : CleanupError → Refusal
rolled_back e = record { error = e; audited = [] }

abbrev pub Stored : Type 0 → Type 0
Stored A = Result Refusal A

abbrev pub greatest : ℤ → List ℤ → ℤ
greatest most [] = most
greatest most (v ∷ vs) = greatest (if int_less most v then v else most) vs

unfoldable pub current_state_version : Database → ℤ
current_state_version db = greatest (pos 0) (
    map (λ (t : Task). t.state_version) db.tasks
    ++ map (λ (o : OperationRecord). o.state_version) db.operations
    ++ map (λ (i : DevelopmentInitiative). i.state_version) db.initiatives
    ++ map (λ (r : StoredReport). r.state_version) db.reports
    ++ map (λ (e : StoredEvidence). e.state_version) db.evidence)

unfoldable pub next_mutation_state_version : Database → Stored ℤ
next_mutation_state_version db =
    if is_number (current_state_version db) max_int64
    then err (rolled_back (CleanupError.plain "state version is exhausted"))
    else ok (increment (current_state_version db))

-- `SELECT ... FROM tasks WHERE handle = ?`
unfoldable pub task_row : Database → Text → Option Task
unfolding row_where
task_row db handle = row_where (λ (t : Task). text_eq t.handle handle) db.tasks

unfoldable pub operation_row : Database → Text → Option OperationRecord
unfolding row_where
operation_row db id = row_where (λ (o : OperationRecord). text_eq o.id id) db.operations

unfoldable pub find_task_cleanup_record : Database → Text → Option TaskCleanupRecord
unfolding row_where
find_task_cleanup_record db operation =
    row_where (λ (r : TaskCleanupRecord). text_eq r.operation_id operation) db.cleanups

unfoldable pub find_task_cleanup_record_by_task : Database → Text → Option TaskCleanupRecord
unfolding row_where
find_task_cleanup_record_by_task db task =
    row_where (λ (r : TaskCleanupRecord). text_eq r.task_handle task) db.cleanups

unfoldable pub commands_agree : OperationRecord → Text → Text → Bool
commands_agree existing command digest =
    text_eq existing.command command && text_eq existing.subject_digest digest

-- mutationReplay, for the operation that the ledger has, which getOperation validates. The audit of
-- an altered replay is committed
-- by commitReplayConflict.
unfoldable pub replay_of : Text → Text → Option OperationRecord → Stored (Option OperationRecord)
unfolding commands_agree
replay_of command digest none = ok none
replay_of command digest (some existing) = do
  require (is_ok (validate_operation existing))
      (rolled_back (CleanupError.plain "validate stored operation"))
  require (commands_agree existing command digest) (record {
    error = CleanupError.conflict;
    audited =
        record { original = existing; presented_command = command; presented_digest = digest } ∷ [];
  })
  refuse (is_empty existing.result_ref)
      (rolled_back (CleanupError.plain "operation replay has no result reference"))
  ok (some existing)

unfoldable pub mutation_replay : Database → Text → Text → Text → Stored (Option OperationRecord)
unfolding replay_of
mutation_replay db operation command digest = replay_of command digest (operation_row db operation)

unfoldable pub completed_mutation_operation : Text → Text → Text → Text → ℤ → Time → OperationRecord
completed_mutation_operation id command digest result version at = record {
  schema_version = pos 1;
  id = id;
  command = command;
  subject_digest = digest;
  status = OperationStatus.completed;
  error_code = ErrorCode.other [];
  result_ref = result;
  state_version = version;
  created_at = at;
  updated_at = at;
}

-- The INSERT fails where the ledger has the identity, its primary key.
unfoldable pub insert_operation : Database → OperationRecord → Stored Database
insert_operation db operation = do
  require (is_ok (validate_operation operation))
      (rolled_back (CleanupError.plain "the operation is invalid"))
  refuse (some_row (λ (o : OperationRecord). text_eq o.id operation.id) db.operations)
      (rolled_back (CleanupError.plain "UNIQUE constraint failed: operations.id"))
  ok (record db { operations = db.operations ++ (operation ∷ []) })
