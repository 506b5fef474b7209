-- ===== src/Initiative/Cycle/Visit.antt =====
-- A visit of hasCycle, from the scans that it makes.
use mathlib.Core.Path.{subst}
use comis_dev_crew.Base.{ℕ, zero, suc, ◌≡◌, ◌≢◌, sym, ap, ◌∙◌, inl, inr, false, List, some}
use comis_dev_crew.Text.{Text}
use comis_dev_crew.Initiative.{InitiativeEdge}
use comis_dev_crew.Initiative.Cycle.{Mark, Marks, set_mark, successors, scan, visit}
use comis_dev_crew.Initiative.Cycle.Search.{
  Reaches, IsGrounded, Progress, IsFit, Verdict, Finishes, set_mark_self, set_mark_cases,
  unless_found_inv, some-true_ne_false, found_marks, scan-Verdict,
}

module _ (edges : List InitiativeEdge) where
  -- Closing a node after a scan of all of its successors.
  close-Progress :
      (node : Text) (marks m : Marks)
      → marks node ≡ Mark.unvisited
      → Progress edges (set_mark marks node Mark.on_stack) m
      → IsGrounded edges node
      → Progress edges marks (set_mark m node Mark.done)
  close-Progress node marks m fresh p g = record {
    keeps_done = λ t h. elim (set_mark_cases m node Mark.done t) [
      | inl (_, now) ↦ now
      | inr (other, old) ↦ old ∙ p.keeps_done t (opened_other t other ∙ h)
    ];
    old_stack = λ t h. elim (set_mark_cases m node Mark.done t) [
      | inl (_, now) ↦ cc
      | inr (other, old) ↦ sym (opened_other t other) ∙ p.old_stack t (sym old ∙ h)
    ];
    old_unvisited = λ t h. elim (set_mark_cases m node Mark.done t) [
      | inl (_, now) ↦ cc
      | inr (other, old) ↦ sym (opened_other t other) ∙ p.old_unvisited t (sym old ∙ h)
    ];
    done_grounded = λ t h. elim (set_mark_cases m node Mark.done t) [
      | inl (same, _) ↦ rw same g
      | inr (_, old) ↦ p.done_grounded t (sym old ∙ h)
    ];
  }
    where
      opened_other : (t : Text) → t ≢ node → set_mark marks node Mark.on_stack t ≡ marks t
      opened_other t other = elim (set_mark_cases marks node Mark.on_stack t) [
        | inl (same, _) ↦ absurd (other same)
        | inr (_, old) ↦ old
      ]

  opened-IsFit :
      (node : Text) (marks : Marks)
      → IsFit edges node marks
      → IsFit edges node (set_mark marks node Mark.on_stack)
  opened-IsFit node marks fit = record {
    done_grounded = λ t h. elim (set_mark_cases marks node Mark.on_stack t) [
      | inl (_, now) ↦ cc
      | inr (_, old) ↦ fit.done_grounded t (sym old ∙ h)
    ];
    stack_leads = λ t h. elim (set_mark_cases marks node Mark.on_stack t) [
      | inl (same, _) ↦ rw same Reaches.arrived
      | inr (_, old) ↦ fit.stack_leads t (sym old ∙ h)
    ];
  }

  -- A visit of an unvisited node, with any fuel: a cycle that it meets is one, and otherwise the
  -- node ends done and everything done has only paths that end.
  pub visit-Verdict :
      (fuel : ℕ) (node : Text) (marks : Marks)
      → marks node ≡ Mark.unvisited
      → IsFit edges node marks
      → Verdict edges marks (visit edges fuel node marks)
        × Finishes edges node (visit edges fuel node marks)
  unfolding visit
  visit-Verdict zero node marks fresh fit =
      (record { cycle = λ after h. cc; progress = λ after h. cc }, λ after h. cc)
  visit-Verdict (suc fuel) node marks fresh fit =
      let opened = set_mark marks node Mark.on_stack in
      let r = scan (visit edges fuel) (successors edges node) opened in
      let (v, all_done) =
        scan-Verdict edges (visit edges fuel) (visit-Verdict fuel) node (successors edges node)
          opened (λ t i. i) (opened-IsFit node marks fit) in
      (
        record {
          cycle = λ after h.
              elim (unless_found_inv r (λ m. some (false, set_mark m node Mark.done)) h) [
                | inl (first, _) ↦ v.cycle after first
                | inr (m, _, odd) ↦ absurd (some-true_ne_false (sym odd))
              ];
          progress = λ after h.
              elim (unless_found_inv r (λ m. some (false, set_mark m node Mark.done)) h) [
                | inl (_, odd) ↦ cc
                | inr (m, first, rest) ↦ subst (Progress edges marks) (found_marks rest) (
                    close-Progress node marks m fresh (v.progress m first) (
                      IsGrounded.grounded
                        (λ b i. (v.progress m first).done_grounded b (all_done b i m first))))
              ];
        },
        λ after h. elim (unless_found_inv r (λ m. some (false, set_mark m node Mark.done)) h) [
          | inl (_, odd) ↦ cc
          | inr (m, first, rest) ↦
              ap (λ (f : Marks). f node) (sym (found_marks rest)) ∙ set_mark_self m node Mark.done
        ],
      )
