-- ===== src/Tests/Initiatives.antt =====
-- Initiatives: the dependency graph, ready and stale tasks, and the integration lane.
use comis_dev_crew.Base.{
  ◌≡◌, ◌≢◌, ◌↔◌, refl, ok, none, some, List, [], ◌∷◌, true, false, Bool, In, ◌⊎◌, inl, inr, In-cons,
  ◌&&◌,
}
use comis_dev_crew.Text.{
  Text, text_eq, ascii, has_shape, is_lower, is_upper, is_digit, has_class, is_lower_hex, member,
}
use comis_dev_crew.Text.Utf8.{is_blank, is_control, is_space, runes, valid_utf8}
use comis_dev_crew.Field.{
  validate_opaque_id, opaque_id_pattern, validate_authority_reference, authority_pattern,
  validate_revision, revision_pattern, validate_bounded_safe_text, validate_repository_id,
  validate_task_handle,
}
use comis_dev_crew.Contract.{
  ContractArtifactKind, valid_artifact_kind, artifact_kind_text, is_no_kind, same_kind,
}
use comis_dev_crew.Initiative.{
  InitiativeEdge, task_handles_of, valid_initiative_state, valid_edge_kind,
}
use comis_dev_crew.Initiative.Cycle.{
  search_cycle, has_cycle, visit_roots, visit, scan, successors, set_mark,
}
use comis_dev_crew.Initiative.Cycle.Search.{Cycle}
use comis_dev_crew.Initiative.Cycle.Total.{search_cycle_total, IsClosed}
use comis_dev_crew.Initiative.Cycle.Correct.{Covers, has_cycle_iff}
use comis_dev_crew.Initiative.Validate.{
  validate_initiative, validate_initiative_fields, validate_base_revisions, validate_components,
  validate_edges, validate_contract_artifacts, bases_loop, components_loop, members_loop,
  check_component, edges_loop, check_edge, artifacts_loop,
}
use comis_dev_crew.Initiative.Validate.Laws.{valid_initiative-IsSoundGraph, IsSoundGraph}
use comis_dev_crew.Initiative.Ready.{dependency_ready_tasks}
use comis_dev_crew.Initiative.Ready.Laws.{ready_task_iff, DependenciesMet}
use comis_dev_crew.Initiative.Stale.{
  tasks_stale_after_supersession, tasks_stale_after_head_change, consumes_from, contains_task,
}
use comis_dev_crew.Initiative.Stale.Laws.{
  stale_after_supersession_iff, stale_after_head_change_iff, IsTarget,
}
use comis_dev_crew.Initiative.Authority.{
  authorize_integration_write, authorize_integration_worktree, HeldWorktree, worktree_of, is_shared,
  check_worktree,
}
use comis_dev_crew.Initiative.Authority.Laws.{integration_worktree_unshared}
use comis_dev_crew.Tests.Samples.{sample_initiative, task_a, task_b, edge_a_b}

abbrev edge_b_a : InitiativeEdge
edge_b_a = record edge_a_b { from_task_handle = task_b; to_task_handle = task_a }

-- Two tasks that wait for each other.
abbrev ring : List InitiativeEdge
ring = edge_a_b ∷ edge_b_a ∷ []

abbrev both : List Text
both = task_a ∷ task_b ∷ []

ring_covered : Covers both ring
ring_covered = ((In.here, In.there In.here), ((In.there In.here, In.here), tt))

has_cycle_iff_example : (has_cycle ring both ≡ true) ↔ Cycle ring
has_cycle_iff_example = has_cycle_iff ring both ring_covered

ring-has_cycle : has_cycle ring both ≡ true
unfolding has_cycle search_cycle visit_roots visit scan successors set_mark text_eq
ring-has_cycle = refl

edge-IsClosed : IsClosed (edge_a_b ∷ []) both
unfolding successors text_eq
edge-IsClosed n t i j = elim (In-cons i) [
  | inl a ↦ elim (In-cons (rw a at j)) [ inl b ↦ rw b (In.there In.here) | inr k ↦ elim k [ ] ]
  | inr l ↦ elim (In-cons l) [ inl b ↦ elim (rw b at j) [ ] | inr k ↦ elim k [ ] ]
]

search_cycle_total_example : search_cycle (edge_a_b ∷ []) both ≢ none
search_cycle_total_example = search_cycle_total (edge_a_b ∷ []) both edge-IsClosed

sample_valid : validate_initiative sample_initiative ≡ ok tt
unfolding validate_initiative validate_initiative_fields validate_base_revisions validate_components
    validate_edges validate_contract_artifacts bases_loop components_loop members_loop
    check_component edges_loop check_edge artifacts_loop valid_initiative_state valid_edge_kind
    valid_artifact_kind artifact_kind_text is_no_kind same_kind validate_opaque_id opaque_id_pattern
    validate_authority_reference authority_pattern validate_revision revision_pattern
    validate_bounded_safe_text validate_repository_id validate_task_handle has_shape is_lower
    is_upper is_digit has_class is_lower_hex member text_eq is_blank is_control is_space runes
    valid_utf8 has_cycle search_cycle visit_roots visit scan successors set_mark task_handles_of
sample_valid = refl

valid_initiative-IsSoundGraph_example : IsSoundGraph sample_initiative
valid_initiative-IsSoundGraph_example = valid_initiative-IsSoundGraph sample_initiative sample_valid

abbrev a_satisfied : Text → Bool
unfolding text_eq
a_satisfied t = text_eq t task_a

ready_task_iff_example : In task_b (dependency_ready_tasks sample_initiative a_satisfied) ↔ (
    In task_b (task_handles_of sample_initiative.components)
    × (a_satisfied task_b ≡ false)
    × DependenciesMet a_satisfied sample_initiative.edges task_b)
ready_task_iff_example = ready_task_iff sample_initiative a_satisfied task_b

stale_after_supersession_iff_example :
    In task_b
      (tasks_stale_after_supersession sample_initiative ContractArtifactKind.api_schema task_a)
    ↔ IsTarget
        (λ edge.
          consumes_from task_a edge
          && same_kind edge.required_artifact_kind ContractArtifactKind.api_schema)
        sample_initiative.edges
        task_b
stale_after_supersession_iff_example =
    stale_after_supersession_iff sample_initiative ContractArtifactKind.api_schema task_a task_b

stale_after_head_change_iff_example :
    In task_b (tasks_stale_after_head_change sample_initiative task_a) ↔ (
      (contains_task sample_initiative.components task_a ≡ true)
      × ((task_b ≡ task_a) ⊎ IsTarget (consumes_from task_a) sample_initiative.edges task_b))
stale_after_head_change_iff_example = stale_after_head_change_iff sample_initiative task_a task_b

abbrev worktrees : List HeldWorktree
worktrees =
    record { task = task_a; path = ascii "/work/a" }
    ∷ record { task = task_b; path = ascii "/work/b" }
    ∷ []

owner_works : authorize_integration_worktree sample_initiative task_b worktrees ≡ ok tt
unfolding authorize_integration_worktree authorize_integration_write worktree_of is_shared
    check_worktree text_eq
owner_works = refl

integration_worktree_unshared_example :
    (own : Text) × (worktree_of task_b worktrees ≡ some own)
    × (own ≢ [])
    × (task_b ≡ sample_initiative.integration_owner_task)
    × ((held : HeldWorktree) → In held worktrees → held.path ≡ own → held.task ≡ task_b)
integration_worktree_unshared_example =
    integration_worktree_unshared sample_initiative task_b worktrees owner_works
