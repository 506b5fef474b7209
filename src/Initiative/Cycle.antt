-- ===== src/Initiative/Cycle.antt =====
-- hasCycle of internal/domain/initiative.go: a depth-first search with three marks. The Go map of
-- marks is a function, a map that is only read with a default; the fuel bounds the depth of the
-- recursion, and the order in which Go visits the members is the order of the list.
pub mod Search
pub mod Visit
pub mod Total
pub mod Correct
use comis_dev_crew.Base.{
  ℕ, zero, suc, Bool, true, false, List, [], ◌∷◌, Option, none, some, length, if◌then◌else◌,
}
use comis_dev_crew.Text.{Text, text_eq}
use comis_dev_crew.Initiative.{InitiativeEdge}

pub data Mark : Type 0 where
  unvisited on_stack done : Mark

abbrev pub Marks : Type 0
Marks = Text → Mark

-- `mark[node] = m`
unfoldable pub set_mark : Marks → Text → Mark → Marks
set_mark marks node m t = if text_eq t node then m else marks t

-- `adjacency[node]`
unfoldable pub successors : List InitiativeEdge → Text → List Text
successors [] node = []
successors (edge ∷ edges) node =
    let rest = successors edges node in
    if text_eq edge.from_task_handle node then edge.to_task_handle ∷ rest else rest

-- The outcome of a search: whether it met a cycle, and the marks; none if the fuel ran out.
abbrev pub Found : Type 0
Found = Option (Bool × Marks)

-- Goes on with the marks unless a cycle was met.
abbrev pub unless_found : Found → (Marks → Found) → Found
unless_found none next = none
unless_found (some (true, marks)) next = some (true, marks)
unless_found (some (false, marks)) next = next marks

-- The loop over the successors of a node; `go` visits one of them.
unfoldable pub scan : (Text → Marks → Found) → List Text → Marks → Found
scan go [] marks = some (false, marks)
scan go (next ∷ nexts) marks = elim (marks next) [
  | on_stack ↦ some (true, marks)
  | unvisited ↦ unless_found (go next marks) (scan go nexts)
  | done ↦ scan go nexts marks
]

-- `mark[node] = done; return false`
abbrev pub close : Text → Found → Found
close node r = unless_found r (λ marks. some (false, set_mark marks node Mark.done))

unfoldable pub visit : List InitiativeEdge → ℕ → Text → Marks → Found
visit edges zero node marks = none
visit edges (suc fuel) node marks =
    close node (scan (visit edges fuel) (successors edges node) (set_mark marks node Mark.on_stack))

-- The loop over the members.
unfoldable pub visit_roots : (Text → Marks → Found) → List Text → Marks → Found
visit_roots go [] marks = some (false, marks)
visit_roots go (member ∷ members) marks = elim (marks member) [
  | unvisited ↦ unless_found (go member marks) (visit_roots go members)
  | _ ↦ visit_roots go members marks
]

abbrev pub no_marks : Marks
no_marks t = Mark.unvisited

unfoldable pub search_cycle : List InitiativeEdge → List Text → Found
search_cycle edges members = visit_roots (visit edges (length members)) members no_marks

-- The Boolean that hasCycle returns.
unfoldable pub has_cycle : List InitiativeEdge → List Text → Bool
has_cycle edges members = elim (search_cycle edges members) [
  | none ↦ true
  | some (found, marks) ↦ found
]
