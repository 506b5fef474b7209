-- ===== src/Initiative/Stale.antt =====
-- The stale sets of internal/domain/contract_artifact.go: whose evidence a superseded contract, or
-- a moved head, takes away.
pub mod Laws
use comis_dev_crew.Base.{Bool, true, false, not, ◌&&◌, ◌||◌, List, [], ◌∷◌, if◌then◌else◌, any}
use comis_dev_crew.Text.{Text, text_eq, member}
use comis_dev_crew.Contract.{ContractArtifactKind, same_kind}
use comis_dev_crew.Initiative.{
  InitiativeEdge, InitiativeComponent, DevelopmentInitiative, is_consumes_artifact,
}
use comis_dev_crew.Initiative.Ready.{sort_strings}

-- Both loops: the targets of the edges that pass a test, each once, in the order of the edges.
unfoldable pub collect_targets :
    (InitiativeEdge → Bool) → List Text → List InitiativeEdge → List Text
collect_targets test seen [] = []
collect_targets test seen (edge ∷ edges) =
    let skipped = collect_targets test seen edges in
    let added = edge.to_task_handle ∷ collect_targets test (edge.to_task_handle ∷ seen) edges in
    if test edge && not (member edge.to_task_handle seen) then added else skipped

unfoldable pub consumes_from : Text → InitiativeEdge → Bool
consumes_from producer edge =
    is_consumes_artifact edge.kind && text_eq edge.from_task_handle producer

unfoldable pub tasks_stale_after_supersession :
    DevelopmentInitiative → ContractArtifactKind → Text → List Text
unfolding consumes_from
tasks_stale_after_supersession initiative kind producer = sort_strings (
    collect_targets
      (λ edge. consumes_from producer edge && same_kind edge.required_artifact_kind kind) []
      initiative.edges)

unfoldable pub contains_task : List InitiativeComponent → Text → Bool
contains_task components task = any (λ component. member task component.task_handles) components

unfoldable pub tasks_stale_after_head_change : DevelopmentInitiative → Text → List Text
unfolding contains_task consumes_from
tasks_stale_after_head_change initiative task =
    if not (contains_task initiative.components task)
    then []
    else task ∷ sort_strings (collect_targets (consumes_from task) (task ∷ []) initiative.edges)
