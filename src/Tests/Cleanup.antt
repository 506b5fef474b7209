-- ===== src/Tests/Cleanup.antt =====
-- A delivered task, its rows in the database, and ports that answer as asked.
mod Runs
mod Settled
mod Stops
use comis_dev_crew.Base.{
  Bool, true, false, List, [], ◌∷◌, Option, none, some, ok, err, pos, ℤ, Time,
}
use comis_dev_crew.Text.{Text, ascii}
use comis_dev_crew.Lifecycle.{TaskState}
use comis_dev_crew.Task.{Task}
use comis_dev_crew.Evidence.{CheckConclusion}
use comis_dev_crew.Operation.{OperationRecord}
use comis_dev_crew.Cleanup.{
  CleanupStage, TaskCleanupRecord, WorkspaceSnapshot, WorkspaceCleanliness,
  PullRequestDeliveryTruth, ManagedRunReleaseReceipt, ManagedRunReleaseState, CleanupTaskCommand,
  DiscardTaskCommand,
}
use comis_dev_crew.Cleanup.Tables.{
  Database, StoredReport, ReportKind, TerminalBinding, TerminalTransition, StoredEvidence,
}
use comis_dev_crew.Cleanup.Database.{completed_mutation_operation}
use comis_dev_crew.Cleanup.Write.{StoreContext}
use comis_dev_crew.Cleanup.Ports.{CleanupPorts, World}
use comis_dev_crew.Tests.Samples.{sample_platform, sample_digest, sample_head, bound_task, at_time}
use comis_dev_crew.Tests.Evidence.{sample_codec}

abbrev pub sample_context : StoreContext
sample_context = record {
  platform = sample_platform;
  codec = sample_codec;
  is_abs = λ path. true;
  clean_path = λ path. path;
  refresh_initiative_aggregate = λ db handle version at. ok db.initiatives;
}

abbrev pub prepared_by : OperationRecord
prepared_by =
    completed_mutation_operation (ascii "prepare-one") (ascii "PrepareTask") sample_digest
      (ascii "task-one") (pos 1) (at_time 1)

abbrev pub delivered_database : Database
delivered_database = record {
  tasks = bound_task TaskState.delivered ∷ [];
  cleanups = [];
  operations = prepared_by ∷ [];
  conflicts = [];
  events = [];
  audits = [];
  holds = [];
  processes = [];
  reports =
      record {
        task_handle = ascii "task-one";
        kind = ReportKind.candidate_complete;
        external_key = [];
        outbox = true ∷ [];
        state_version = pos 1;
      }
      ∷ [];
  cancellations = [];
  attestations = [];
  terminals =
      record {
        task_handle = ascii "task-one";
        managed_run_id = ascii "run-1";
        workspace_lease_id = ascii "lease-1";
        terminal_session_id = ascii "session-1";
        latest_transition = TerminalTransition.exited;
        updated_at = at_time 5;
      }
      ∷ [];
  evidence_outbox =
      record { task_handle = ascii "task-one"; delivered = true }
      ∷ record { task_handle = ascii "task-one"; delivered = true }
      ∷ [];
  preparations =
      record { task_handle = ascii "task-one"; requested_workspace_root = ascii "/work/one" } ∷ [];
  evidence =
      record {
        task_handle = ascii "task-one";
        digest = sample_digest;
        canonical = ascii "{}";
        required_forge_checks = ascii "ci" ∷ [];
        accepted = true;
        state_version = pos 1;
      }
      ∷ [];
  reconciliations = [];
  members = [];
  initiatives = [];
  applications = [];
  pauses = [];
}

abbrev pub sample_snapshot : WorkspaceSnapshot
sample_snapshot = record {
  task_handle = ascii "task-one";
  repository_id = ascii "repo-one";
  worktree_path = ascii "/work/one";
  branch = ascii "work";
  head_revision = sample_head;
  cleanliness = WorkspaceCleanliness.clean;
}

abbrev pub sample_truth : PullRequestDeliveryTruth
sample_truth = record {
  repository_id = ascii "repo-one";
  pull_request_id = ascii "pull-7";
  head_revision = sample_head;
  checks = record { name = ascii "ci"; conclusion = CheckConclusion.passed } ∷ [];
}

abbrev pub sample_ports : CleanupPorts (Unit {0})
sample_ports = record {
  inspect_workspace = λ request e. (ok sample_snapshot, e);
  verify_pull_request_delivery = λ request e. (ok sample_truth, e);
  gather_landed_evidence = none;
  release_managed_run = λ request e. (
    ok (record {
      managed_run_id = request.managed_run_id;
      workspace_lease_id = request.workspace_lease_id;
      disposition = request.disposition;
      released_at = request.released_at;
      state = ManagedRunReleaseState.released;
    }),
    e,
  );
  release_runtime_attachment = λ handle e. (ok tt, e);
  remove_delivered_workspace = λ removal e. (ok tt, e);
  remove_discarded_workspace = λ removal e. (ok tt, e);
  clock = λ e. (at_time 2000000, e);
  encode_cleanup = λ command. some (ascii "{}");
  encode_discard = λ command. some (ascii "{}");
}

abbrev pub delivered_world : World (Unit {0})
delivered_world = record { environment = tt; database = delivered_database; log = [] }

abbrev pub sample_cleanup : CleanupTaskCommand
sample_cleanup = record { operation_id = ascii "cleanup-one"; task_handle = ascii "task-one" }

abbrev pub sample_discard : DiscardTaskCommand
sample_discard = record {
  operation_id = ascii "discard-one";
  task_handle = ascii "task-one";
  acknowledged = false;
}

abbrev pub authorized_row : TaskCleanupRecord
authorized_row = record {
  operation_id = ascii "cleanup-one";
  subject_digest = sample_digest;
  task_handle = ascii "task-one";
  preparation_operation_id = ascii "prepare-one";
  managed_run_id = ascii "run-1";
  workspace_lease_id = ascii "lease-1";
  repository_id = ascii "repo-one";
  worktree_path = ascii "/work/one";
  head_revision = sample_head;
  evidence_digest = sample_digest;
  pull_request_id = ascii "pull-7";
  required_forge_checks = ascii "ci" ∷ [];
  report_artifact_hash = [];
  stage = CleanupStage.removal_authorized;
  release_operation_id = ascii "release-one";
  released_at = at_time 6;
  snapshot = sample_snapshot;
  discard = false;
}
