-- ===== src/Initiative/Cycle/Correct.antt =====
-- Cycles of the dependency graph, and hasCycle of internal/domain/initiative.go.
use mathlib.Core.Path.{subst}
use comis_dev_crew.Base.{
  All, ℕ, ◌≡◌, ◌≢◌, refl, sym, ◌↔◌, ◌⊎◌, inl, inr, true, false, List, [], ◌∷◌, some, In, In-cons,
  Bool-cases, length, Option-cases,
}
use comis_dev_crew.Text.{Text, text_eq}
use comis_dev_crew.Initiative.{InitiativeEdge}
use comis_dev_crew.Initiative.Cycle.{
  Mark, Marks, successors, visit, visit_roots, no_marks, search_cycle, has_cycle,
}
use comis_dev_crew.Initiative.Cycle.Search.{
  Reaches, Cycle, IsGrounded, Progress, Progress-refl, IsFit, Verdict, Finishes,
  unless_found-Verdict, Mark-cases, unless_found_inv, some-true_ne_false, found_marks,
}
use comis_dev_crew.Initiative.Cycle.Visit.{visit-Verdict}
use comis_dev_crew.Initiative.Cycle.Total.{search_cycle_total}

module _ (edges : List InitiativeEdge) where
  -- The first edge of a path that is not empty.
  first_edge :
      {a b : Text}
      → Reaches edges a b
      → (a ≡ b) ⊎ ((c : Text) × In c (successors edges a) × Reaches edges c b)
  first_edge Reaches.arrived = inl refl
  first_edge (Reaches.onward {b = b} {c = c} p i) = elim (first_edge p) [
    | inl same ↦ inr (c, rw same i, Reaches.arrived)
    | inr (d, j, q) ↦ inr (d, j, Reaches.onward q i)
  ]

  grounded_no_cycle :
      {a b : Text} → IsGrounded edges a → Reaches edges a b → ¬ In a (successors edges b)
  grounded_no_cycle {a} {b} (IsGrounded.grounded f) p i = elim (first_edge p) [
    | inl same ↦
        let j : In a (successors edges a) = subst (λ x. In a (successors edges x)) (sym same) i in
        grounded_no_cycle (f a j) Reaches.arrived j
    | inr (c, j, q) ↦ grounded_no_cycle (f c j) (Reaches.onward q i) j
  ]

  visit_roots-Verdict :
      (fuel : ℕ) (members : List Text) (marks : Marks)
      → ((t : Text) → marks t ≡ Mark.done → IsGrounded edges t)
      → ((t : Text) → marks t ≢ Mark.on_stack)
      → Verdict edges marks (visit_roots (visit edges fuel) members marks)
        × ((t : Text)
            → In t members
            → Finishes edges t (visit_roots (visit edges fuel) members marks))
  unfolding visit_roots
  visit_roots-Verdict fuel [] marks grounded empty = (
    record {
      cycle = λ after h. absurd (some-true_ne_false (sym h));
      progress = λ after h.
          subst (Progress edges marks) (found_marks h) (Progress-refl edges marks grounded);
    },
    λ t i. elim i [ ],
  )
  visit_roots-Verdict fuel (n ∷ ns) marks grounded empty = elim (Mark-cases (marks n)) [
    | inl fresh ↦
        let fit : IsFit edges n marks = record {
          done_grounded = grounded;
          stack_leads = λ t h. absurd (empty t h);
        } in
        let (v, finished) = visit-Verdict edges fuel n marks fresh fit in
        let go_on = λ (m : Marks) (p : Progress edges marks m).
          visit_roots-Verdict fuel ns m p.done_grounded (λ t h. empty t (p.old_stack t h)) in
        (
          rw (fresh, visit_roots)
              (unless_found-Verdict edges marks (visit edges fuel n marks)
                (visit_roots (visit edges fuel) ns) v (λ m e. (go_on m (v.progress m e)).0)),
          λ t i after h.
              elim (unless_found_inv (visit edges fuel n marks) (visit_roots (visit edges fuel) ns)
                (rw (fresh, visit_roots) at h)) [
                  | inl (_, odd) ↦ cc
                  | inr (m, first, rest) ↦
                      let (w, all_done) = go_on m (v.progress m first) in
                      elim (In-cons i) [
                        | inl same ↦
                            rw same ((w.progress after rest).keeps_done n (finished m first))
                        | inr later ↦ all_done t later after rest
                      ]
                ],
        )
    | inr (inl stacked) ↦ absurd (empty n stacked)
    | inr (inr closed) ↦
        let (w, all_done) = visit_roots-Verdict fuel ns marks grounded empty in
        (
          rw (closed, visit_roots) w,
          λ t i after h.
              let h' : visit_roots (visit edges fuel) ns marks ≡ some (false, after) =
                rw (closed, visit_roots) at h in
              elim (In-cons i) [
                | inl same ↦ rw same ((w.progress after h').keeps_done n closed)
                | inr later ↦ all_done t later after h'
              ],
        )
  ]

-- Both ends of every edge are members.
abbrev pub Covers : List Text → List InitiativeEdge → Type 0
Covers members edges =
    All (λ edge. In edge.from_task_handle members × In edge.to_task_handle members) edges

successor-In :
    (members : List Text) (edges : List InitiativeEdge) (n t : Text)
    → Covers members edges
    → In t (successors edges n)
    → In t members
unfolding successors
successor-In members [] n t c i = elim i [ ]
successor-In members (edge ∷ edges) n t c i = elim (Bool-cases (text_eq edge.from_task_handle n)) [
  | inl same ↦ elim (In-cons (rw (same, successors) at i)) [
    | inl e ↦ rw e c.0.1
    | inr j ↦ successor-In members edges n t c.1 j
  ]
  | inr other ↦ successor-In members edges n t c.1 (rw (other, successors) at i)
]

module _ (edges : List InitiativeEdge) (members : List Text) where
  has_cycle_cases :
      Covers members edges
      → (after : Marks) × (search_cycle edges members ≡ some (has_cycle edges members, after))
  unfolding has_cycle
  has_cycle_cases c = elim (Option-cases (search_cycle edges members)) [
    | inl stuck ↦
        absurd (search_cycle_total edges members (λ n t m. successor-In members edges n t c) stuck)
    | inr (r, e) ↦ (r.1, rw (e, has_cycle))
  ]

  -- Where both ends of every edge are members, hasCycle returns true exactly if some path along
  -- the edges returns to the node that it left.
  pub has_cycle_iff : Covers members edges → (has_cycle edges members ≡ true) ↔ Cycle edges
  unfolding search_cycle
  has_cycle_iff c =
      let (after, e) = has_cycle_cases c in
      let (v, all_done) =
        visit_roots-Verdict edges (length members) members no_marks (λ t h. cc) (λ t h. cc) in
      (
        λ h. v.cycle after (rw h at e),
        λ y. elim (Bool-cases (has_cycle edges members)) [
          | inl found ↦ found
          | inr missed ↦
              let e' : search_cycle edges members ≡ some (false, after) = rw missed at e in
              absurd (
                grounded_no_cycle edges
                  ((v.progress after e').done_grounded y.node (
                    all_done y.node (successor-In members edges y.before y.node c y.closes) after
                      e'))
                  y.path y.closes)
        ],
      )
