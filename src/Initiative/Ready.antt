-- ===== src/Initiative/Ready.antt =====
-- DependencyReadyTasks of internal/domain/initiative.go. The Go sets of members and of blocked
-- tasks are lists and a test; sorting makes the order of the map iteration irrelevant.
pub mod Laws
use comis_dev_crew.Base.{
  Bool, true, false, not, ◌&&◌, ◌||◌, List, [], ◌∷◌, any, keep, sort_by, if◌then◌else◌,
}
use comis_dev_crew.Text.{Text, text_eq, text_less, member}
use comis_dev_crew.Initiative.{
  InitiativeEdge, DevelopmentInitiative, task_handles_of, kind_blocks_start,
}

-- The keys of a Go set that is filled from a list.
unfoldable pub dedupe : List Text → List Text
dedupe [] = []
dedupe (t ∷ ts) = let rest = dedupe ts in if member t rest then rest else t ∷ rest

-- `blocked[task]`, after the loop over the edges.
unfoldable pub is_blocked : (Text → Bool) → List InitiativeEdge → Text → Bool
is_blocked satisfied edges task =
    any
      (λ edge.
        kind_blocks_start edge.kind
        && (not (satisfied edge.from_task_handle) && text_eq edge.to_task_handle task))
      edges

unfoldable pub sort_strings : List Text → List Text
sort_strings = sort_by text_less

unfoldable pub dependency_ready_tasks : DevelopmentInitiative → (Text → Bool) → List Text
unfolding sort_strings
dependency_ready_tasks initiative satisfied = sort_strings (
    keep (λ task. not (is_blocked satisfied initiative.edges task) && not (satisfied task))
      (dedupe (task_handles_of initiative.components)))
