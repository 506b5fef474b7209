-- ===== src/Initiative/Ready/Laws.antt =====
-- Lemmas on DependencyReadyTasks of internal/domain/initiative.go.
use mathlib.Core.Path.{subst}
use comis_dev_crew.Base.{
  sym, ◌≡◌, refl, ◌↔◌, inl, inr, Bool, true, false, not, ◌&&◌, List, [], ◌∷◌, arith, keep, In,
  In-cons, In-cons_eq, In-keep, In-sort_by, sort_by-IsSorted, IsSorted, Bool-cases,
}
use comis_dev_crew.Text.{Text, text_eq, text_less, member}
use comis_dev_crew.Text.Laws.{text_eq_iff, member-In, text_less_trans, text_less_irrefl}
use comis_dev_crew.Initiative.{
  InitiativeEdge, DevelopmentInitiative, task_handles_of, kind_blocks_start,
}
use comis_dev_crew.Initiative.Ready.{dedupe, is_blocked, dependency_ready_tasks}

pub In-dedupe : (t : Text) (ts : List Text) → In t (dedupe ts) ↔ In t ts
unfolding dedupe
In-dedupe t [] = (λ m. m, λ m. m)
In-dedupe t (x ∷ xs) = elim (Bool-cases (member x (dedupe xs))) [
  | inl seen ↦
      rw (seen, dedupe)
        (
          λ m. In.there ((In-dedupe t xs).0 m),
          λ m. elim (In-cons m) [
            | inl e ↦ rw e (member-In x (dedupe xs) seen)
            | inr k ↦ (In-dedupe t xs).1 k
          ],
        )
  | inr new ↦
      rw (new, dedupe)
        (
          λ m. elim (In-cons m) [ inl e ↦ In-cons_eq e | inr k ↦ In.there ((In-dedupe t xs).0 k) ],
          λ m. elim (In-cons m) [ inl e ↦ In-cons_eq e | inr k ↦ In.there ((In-dedupe t xs).1 k) ],
        )
]

-- Every dependency that gates the start of the task is satisfied.
abbrev pub DependenciesMet : (Text → Bool) → List InitiativeEdge → Text → Type 0
DependenciesMet satisfied edges task =
    (edge : InitiativeEdge)
    → In edge edges
    → kind_blocks_start edge.kind ≡ true
    → edge.to_task_handle ≡ task
    → satisfied edge.from_task_handle ≡ true

module _ (satisfied : Text → Bool) (task : Text) where
  abbrev gates : InitiativeEdge → Bool
  gates edge =
      kind_blocks_start edge.kind
      && (not (satisfied edge.from_task_handle) && text_eq edge.to_task_handle task)

  gate_met :
      (e : InitiativeEdge)
      → gates e ≡ false
      → kind_blocks_start e.kind ≡ true
      → e.to_task_handle ≡ task
      → satisfied e.from_task_handle ≡ true
  gate_met e h k to = ground (arith, text_eq_iff e.to_task_handle task)

  unblocked-met :
      (edges : List InitiativeEdge)
      → is_blocked satisfied edges task ≡ false
      → DependenciesMet satisfied edges task
  unfolding is_blocked
  unblocked-met [] h edge m k to = elim m [ ]
  unblocked-met (e ∷ es) h edge m k to = elim (In-cons m) [
    | inl same ↦
        subst (λ x. satisfied x.from_task_handle ≡ true) (sym same)
          (gate_met e (ground (arith, h)) (rw same at k) (rw same at to))
    | inr later ↦ unblocked-met es (ground (arith, h)) edge later k to
  ]

  met-unblocked :
      (edges : List InitiativeEdge)
      → DependenciesMet satisfied edges task
      → is_blocked satisfied edges task ≡ false
  unfolding is_blocked
  met-unblocked [] h = refl
  met-unblocked (e ∷ es) h = ground (
    arith,
    h e In.here,
    met-unblocked es (λ edge m. h edge (In.there m)),
    text_eq_iff e.to_task_handle task,
  )

-- A task may start exactly if it is a member that is not satisfied yet and all dependencies that
-- gate its start are satisfied.
pub ready_task_iff :
    (initiative : DevelopmentInitiative) (satisfied : Text → Bool) (task : Text)
    → In task (dependency_ready_tasks initiative satisfied) ↔ (
        In task (task_handles_of initiative.components)
        × (satisfied task ≡ false)
        × DependenciesMet satisfied initiative.edges task)
unfolding dependency_ready_tasks
ready_task_iff initiative satisfied task =
    let free = λ (t : Text). not (is_blocked satisfied initiative.edges t) && not (satisfied t) in
    let members = task_handles_of initiative.components in
    (
      λ m.
          let (listed, open') =
            (In-keep free task (dedupe members)).0
              ((In-sort_by text_less task (keep free (dedupe members))).0 m) in
          (
            (In-dedupe task members).0 listed,
            ground (arith, open'),
            unblocked-met satisfied task initiative.edges (ground (arith, open')),
          ),
      λ (listed, todo, met). (In-sort_by text_less task (keep free (dedupe members))).1 (
          (In-keep free task (dedupe members)).1 (
            (In-dedupe task members).1 listed,
            rw (met-unblocked satisfied task initiative.edges met, todo),
          )),
    )

-- The tasks that may start are listed in byte order.
ready_tasks-IsSorted :
    (initiative : DevelopmentInitiative) (satisfied : Text → Bool)
    → IsSorted text_less (dependency_ready_tasks initiative satisfied)
unfolding dependency_ready_tasks
ready_tasks-IsSorted initiative satisfied =
    sort_by-IsSorted text_less text_less_trans text_less_irrefl _
