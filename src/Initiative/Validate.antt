-- ===== src/Initiative/Validate.antt =====
-- DevelopmentInitiative.Validate of internal/domain/initiative.go. The Go sets are lists of what
-- was put in; a loop returns the set that it built.
pub mod Laws
use comis_dev_crew.Base.{
  ℕ, Bool, true, false, not, ◌&&◌, ◌||◌, List, [], ◌∷◌, Result, ok, err, ◌>>◌, ◌>>=◌, refuse,
  require, is_empty, length, ltb, is_number, not_positive, before, any, if◌then◌else◌,
}
use comis_dev_crew.Text.{Text, text_eq, member}
use comis_dev_crew.Field.{
  ValidationError, invalid, Checked, validate_opaque_id, validate_repository_id, validate_revision,
  validate_bounded_safe_text, validate_authority_reference, validate_task_handle,
}
use comis_dev_crew.Contract.{valid_artifact_kind, is_no_kind}
use comis_dev_crew.Initiative.{
  InitiativeState, InitiativeBaseRevision, InitiativeComponent, InitiativeEdge,
  DevelopmentInitiative, valid_initiative_state, valid_edge_kind, is_consumes_artifact,
  same_edge_kind,
}
use comis_dev_crew.Initiative.Cycle.{has_cycle}

abbrev may_be_unbound : InitiativeState → Bool
may_be_unbound InitiativeState.preparing = true
may_be_unbound InitiativeState.unknown = true
may_be_unbound _ = false

unfoldable pub artifacts_loop : List Text → List Text → Checked
artifacts_loop seen [] = ok tt
artifacts_loop seen (handle ∷ handles) =
    let rest = artifacts_loop (handle ∷ seen) handles in
    do
      validate_opaque_id "contractArtifacts" handle
      refuse (member handle seen) (invalid "contractArtifacts" "artifact handles must be unique")
      rest

unfoldable pub validate_contract_artifacts : DevelopmentInitiative → Checked
unfolding artifacts_loop
validate_contract_artifacts initiative = do
  refuse (ltb 128 (length initiative.contract_artifacts))
      (invalid "contractArtifacts" "must hold at most 128 artifacts")
  artifacts_loop [] initiative.contract_artifacts

unfoldable pub bases_loop :
    List Text → List InitiativeBaseRevision → Result ValidationError (List Text)
bases_loop bases [] = ok bases
bases_loop bases (base ∷ rest) =
    let later = bases_loop (base.repository_id ∷ bases) rest in
    do
      validate_repository_id base.repository_id
      validate_revision base.revision
      refuse (member base.repository_id bases)
          (invalid "baseRevisionSet" "must freeze exactly one revision per repository")
      later

unfoldable pub validate_base_revisions : DevelopmentInitiative → Result ValidationError (List Text)
unfolding bases_loop
validate_base_revisions initiative = do
  refuse (is_empty initiative.base_revision_set || ltb 32 (length initiative.base_revision_set))
      (invalid "baseRevisionSet" "must freeze between one and 32 repositories")
  bases_loop [] initiative.base_revision_set

-- The inner loop of validateComponents: the tasks of one component join the members.
unfoldable pub members_loop : List Text → List Text → Result ValidationError (List Text)
members_loop members [] = ok members
members_loop members (handle ∷ handles) =
    let rest = members_loop (handle ∷ members) handles in
    do
      validate_task_handle handle
      refuse (member handle members)
          (invalid "components.taskHandles" "a task belongs to exactly one component")
      rest

-- One round of validateComponents, up to its tasks.
unfoldable pub check_component : List Text → List Text → InitiativeComponent → Checked
check_component bases handles component = do
  validate_opaque_id "componentHandle" component.component_handle
  validate_repository_id component.repository_id
  require (member component.repository_id bases) (
      invalid "components.repositoryId"
        "every component repository must have a frozen base revision")
  refuse (member component.component_handle handles)
      (invalid "components" "component handles must be unique")
  refuse (is_empty component.task_handles || ltb 64 (length component.task_handles))
      (invalid "components.taskHandles" "must hold between one and 64 tasks")

unfoldable pub components_loop :
    List Text
    → List Text
    → List Text
    → List InitiativeComponent
    → Result ValidationError (List Text)
components_loop bases handles members [] = ok members
components_loop bases handles members (component ∷ components) = do
  check_component bases handles component
  members' ← members_loop members component.task_handles
  components_loop bases (component.component_handle ∷ handles) members' components

unfoldable pub validate_components :
    DevelopmentInitiative → List Text → Result ValidationError (List Text)
unfolding components_loop
validate_components initiative bases = do
  refuse (is_empty initiative.components || ltb 64 (length initiative.components))
      (invalid "components" "must hold between one and 64 components")
  components_loop bases [] [] initiative.components

-- Equality of the keys by which validateEdges knows an edge.
abbrev pub same_edge : InitiativeEdge → InitiativeEdge → Bool
same_edge a b =
    text_eq a.from_task_handle b.from_task_handle
    && (text_eq a.to_task_handle b.to_task_handle && same_edge_kind a.kind b.kind)

unfoldable pub check_edge : List Text → List InitiativeEdge → InitiativeEdge → Checked
check_edge members seen edge = do
  require (valid_edge_kind edge.kind) (invalid "edges.kind" "must be a closed edge kind")
  refuse (not (member edge.from_task_handle members) || not (member edge.to_task_handle members))
      (invalid "edges" "both endpoints must be tasks this initiative contains")
  refuse (text_eq edge.from_task_handle edge.to_task_handle)
      (invalid "edges" "a task cannot depend on itself")
  if is_consumes_artifact edge.kind
      then require (valid_artifact_kind edge.required_artifact_kind) (
          invalid "edges.requiredArtifactKind"
            "an artifact edge must name the artifact kind it consumes")
      else require (is_no_kind edge.required_artifact_kind) (
          invalid "edges.requiredArtifactKind"
            "only an artifact edge may name a required artifact kind")
  refuse (any (same_edge edge) seen) (invalid "edges" "edges must be unique")

unfoldable pub edges_loop : List Text → List InitiativeEdge → List InitiativeEdge → Checked
edges_loop members seen [] = ok tt
edges_loop members seen (edge ∷ edges) =
    let rest = edges_loop members (edge ∷ seen) edges in do check_edge members seen edge; rest

unfoldable pub validate_edges : DevelopmentInitiative → List Text → Checked
validate_edges initiative members = do
  refuse (ltb 512 (length initiative.edges)) (invalid "edges" "must hold at most 512 edges")
  edges_loop members [] initiative.edges
  refuse (has_cycle initiative.edges members) (invalid "edges" "must form an acyclic graph")

-- The checks of Validate that read single fields.
unfoldable pub validate_initiative_fields : DevelopmentInitiative → Checked
validate_initiative_fields initiative = do
  require (is_number initiative.schema_version 1) (invalid "schemaVersion" "must equal 1")
  validate_opaque_id "initiativeHandle" initiative.handle
  validate_opaque_id "integrationPolicyId" initiative.integration_policy_id
  validate_bounded_safe_text "titleRef" initiative.title_ref 256
  if is_empty initiative.managed_run_group_id
      then require (may_be_unbound initiative.state) (
          invalid "managedRunGroupId"
            "must be bound before an initiative becomes active or terminal")
      else validate_authority_reference "managedRunGroupId" initiative.managed_run_group_id
  require (valid_initiative_state initiative.state)
      (invalid "state" "must be a closed initiative state")
  refuse (not_positive initiative.state_version) (invalid "stateVersion" "must be positive")
  refuse (before initiative.updated_at initiative.created_at)
      (invalid "updatedAt" "cannot precede creation")

unfoldable pub validate_initiative : DevelopmentInitiative → Checked
validate_initiative initiative = do
  validate_initiative_fields initiative
  bases ← validate_base_revisions initiative
  members ← validate_components initiative bases
  validate_edges initiative members
  validate_contract_artifacts initiative
  refuse
      (not (is_empty initiative.integration_owner_task)
        && not (member initiative.integration_owner_task members))
      (invalid "integrationOwnerTask" "must name a task this initiative contains")
