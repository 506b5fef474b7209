-- ===== src/Tests/Samples.antt =====
-- A platform whose digest is constant, a task and an initiative.
pub mod Valid
use comis_dev_crew.Base.{
  ℕ, zero, suc, Bool, true, false, List, [], ◌∷◌, ◌++◌, Option, none, some, ℤ, pos, Time,
}
use comis_dev_crew.Text.{Text, ascii}
use comis_dev_crew.Platform.{Platform}
use comis_dev_crew.Contract.{ContractArtifactKind}
use comis_dev_crew.Lifecycle.{TaskShape, DeliveryMode, TaskState}
use comis_dev_crew.Task.{Task}
use comis_dev_crew.Initiative.{
  InitiativeBaseRevision, InitiativeComponent, InitiativeEdge, InitiativeEdgeKind, InitiativeState,
  DevelopmentInitiative,
}

abbrev pub letters : ℕ → ℕ → Text
letters zero c = []
letters (suc n) c = c ∷ letters n c

abbrev pub sample_digest : Text
sample_digest = letters 64 b'a'

abbrev pub sample_base : Text
sample_base = letters 40 b'1'

abbrev pub sample_head : Text
sample_head = letters 40 b'2'

abbrev pub sample_platform : Platform
sample_platform = record { sha256_hex = λ t. sample_digest; is_print = λ r. true }

abbrev pub at_time : ℕ → Time
at_time n = record { instant = n; utc = true }

abbrev pub prepared_task : Task
prepared_task = record {
  schema_version = pos 1;
  handle = ascii "task-one";
  service_instance_id = ascii "service-1";
  managed_run_id = [];
  workspace_lease_id = [];
  execution_attachment_id = [];
  attachment_target_name = [];
  state = TaskState.prepared;
  shape = TaskShape.ship;
  repository_id = ascii "repo-one";
  base_revision = sample_base;
  brief_revision = pos 1;
  brief_revision_hash = sample_digest;
  acceptance_criteria = ascii "it works" ∷ [];
  constraints = [];
  consumed_contracts = [];
  validation_profile = ascii "default";
  delivery_mode = DeliveryMode.pull_request;
  worker_profile_id = ascii "worker-one";
  report_cursor = pos 0;
  state_version = pos 1;
  created_at = at_time 1;
  updated_at = at_time 5;
}

abbrev pub bound_task : TaskState → Task
bound_task state = record prepared_task {
  managed_run_id = ascii "run-1";
  workspace_lease_id = ascii "lease-1";
  state = state;
}

abbrev pub task_a : Text
task_a = ascii "task-a"

abbrev pub task_b : Text
task_b = ascii "task-b"

abbrev pub edge_a_b : InitiativeEdge
edge_a_b = record {
  from_task_handle = task_a;
  to_task_handle = task_b;
  kind = InitiativeEdgeKind.consumes_artifact;
  required_artifact_kind = ContractArtifactKind.api_schema;
}

abbrev pub sample_initiative : DevelopmentInitiative
sample_initiative = record {
  schema_version = pos 1;
  handle = ascii "initiative-one";
  managed_run_group_id = ascii "group-1";
  title_ref = ascii "two parts";
  state = InitiativeState.active;
  base_revision_set = record { repository_id = ascii "repo-one"; revision = sample_base } ∷ [];
  components =
      record {
        component_handle = ascii "component-one";
        repository_id = ascii "repo-one";
        responsibility_ref = ascii "all";
        task_handles = task_a ∷ task_b ∷ [];
      }
      ∷ [];
  edges = edge_a_b ∷ [];
  contract_artifacts = [];
  integration_policy_id = ascii "policy-one";
  integration_owner_task = task_b;
  state_version = pos 1;
  created_at = at_time 1;
  updated_at = at_time 1;
}
