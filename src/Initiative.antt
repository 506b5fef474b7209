-- ===== src/Initiative.antt =====
-- The development initiative of internal/domain/initiative.go: its vocabularies and its record.
pub mod Cycle
pub mod Validate
pub mod Ready
pub mod Stale
pub mod Authority
use comis_dev_crew.Base.{ℕ, Bool, true, false, not, ◌&&◌, ◌||◌, List, [], ◌∷◌, ◌++◌, ℤ, Time, ◌==◌}
use comis_dev_crew.Text.{Text, text_eq}
use comis_dev_crew.Contract.{ContractArtifactKind}

abbrev pub maximum_initiative_members : ℕ
maximum_initiative_members = 16

pub data InitiativeState : Type 0 where
  preparing active blocked integrating validating candidate_complete delivered : InitiativeState
  failed cancelled unknown : InitiativeState
  other : Text → InitiativeState

unfoldable pub valid_initiative_state : InitiativeState → Bool
valid_initiative_state (InitiativeState.other t) = false
valid_initiative_state _ = true

pub data InitiativeEdgeKind : Type 0 where
  blocks_start blocks_validation consumes_artifact integrates_after : InitiativeEdgeKind
  other : Text → InitiativeEdgeKind

unfoldable pub valid_edge_kind : InitiativeEdgeKind → Bool
valid_edge_kind (InitiativeEdgeKind.other t) = false
valid_edge_kind _ = true

unfoldable pub kind_blocks_start : InitiativeEdgeKind → Bool
kind_blocks_start InitiativeEdgeKind.blocks_start = true
kind_blocks_start InitiativeEdgeKind.consumes_artifact = true
kind_blocks_start InitiativeEdgeKind.integrates_after = true
kind_blocks_start _ = false

abbrev pub is_consumes_artifact : InitiativeEdgeKind → Bool
is_consumes_artifact InitiativeEdgeKind.consumes_artifact = true
is_consumes_artifact _ = false

abbrev pub is_blocks_validation : InitiativeEdgeKind → Bool
is_blocks_validation InitiativeEdgeKind.blocks_validation = true
is_blocks_validation _ = false

abbrev pub is_integrates_after : InitiativeEdgeKind → Bool
is_integrates_after InitiativeEdgeKind.integrates_after = true
is_integrates_after _ = false

abbrev edge_code : InitiativeEdgeKind → ℕ
edge_code InitiativeEdgeKind.blocks_start = 0
edge_code InitiativeEdgeKind.blocks_validation = 1
edge_code InitiativeEdgeKind.consumes_artifact = 2
edge_code InitiativeEdgeKind.integrates_after = 3
edge_code (InitiativeEdgeKind.other t) = 4

abbrev edge_other : InitiativeEdgeKind → Text
edge_other (InitiativeEdgeKind.other t) = t
edge_other _ = []

-- `a == b`
abbrev pub same_edge_kind : InitiativeEdgeKind → InitiativeEdgeKind → Bool
same_edge_kind a b = edge_code a == edge_code b && text_eq (edge_other a) (edge_other b)

pub record InitiativeBaseRevision : Type 0 where
  pub repository_id : Text
  pub revision : Text

pub record InitiativeComponent : Type 0 where
  pub component_handle : Text
  pub repository_id : Text
  pub responsibility_ref : Text
  pub task_handles : List Text

pub record InitiativeEdge : Type 0 where
  pub from_task_handle : Text
  pub to_task_handle : Text
  pub kind : InitiativeEdgeKind
  pub required_artifact_kind : ContractArtifactKind

pub record DevelopmentInitiative : Type 0 where
  pub schema_version : ℤ
  pub handle : Text
  pub managed_run_group_id : Text
  pub title_ref : Text
  pub state : InitiativeState
  pub base_revision_set : List InitiativeBaseRevision
  pub components : List InitiativeComponent
  pub edges : List InitiativeEdge
  pub contract_artifacts : List Text
  pub integration_policy_id : Text
  pub integration_owner_task : Text
  pub state_version : ℤ
  pub created_at : Time
  pub updated_at : Time

-- The task handles of all components, in their order.
unfoldable pub task_handles_of : List InitiativeComponent → List Text
task_handles_of [] = []
task_handles_of (component ∷ components) = component.task_handles ++ task_handles_of components
