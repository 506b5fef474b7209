-- ===== src/Initiative/Cycle/Search.antt =====
-- One search of hasCycle: what it does to the marks, and what its verdict means.
use mathlib.Core.Path.{subst}
use comis_dev_crew.Base.{
  ◌≡◌, ◌≢◌, refl, sym, ap, ◌⊎◌, inl, inr, Bool, true, false, List, [], ◌∷◌, none, some, arith, In,
  In-cons, Bool-cases,
}
use comis_dev_crew.Text.{Text, text_eq}
use comis_dev_crew.Text.Laws.{text_eq_iff, text_eq_refl, text_eq_sound}
use comis_dev_crew.Initiative.{InitiativeEdge}
use comis_dev_crew.Initiative.Cycle.{Mark, Marks, set_mark, successors, Found, unless_found, scan}

module _ (edges : List InitiativeEdge) where
  -- A path along the edges, possibly empty, and a path that returns to its start.
  pub data Reaches (a : Text) : Text → Type 0 where
    arrived : Reaches a a
    onward : {b c : Text} → Reaches a b → In c (successors edges b) → Reaches a c

  pub record Cycle : Type 0 where
    pub node : Text
    pub before : Text
    pub path : Reaches node before
    pub closes : In node (successors edges before)

  -- All paths from the node end.
  pub data IsGrounded : Text → Type 0 where
    grounded : {a : Text} → ((b : Text) → In b (successors edges a) → IsGrounded b) → IsGrounded a

  -- What a search that met no cycle does to the marks.
  pub record Progress (before after : Marks) : Type 0 where
    pub keeps_done : (t : Text) → before t ≡ Mark.done → after t ≡ Mark.done
    pub old_stack : (t : Text) → after t ≡ Mark.on_stack → before t ≡ Mark.on_stack
    pub old_unvisited : (t : Text) → after t ≡ Mark.unvisited → before t ≡ Mark.unvisited
    pub done_grounded : (t : Text) → after t ≡ Mark.done → IsGrounded t

  -- The marks are fit for a visit of the node: what is done is grounded, and the stack leads to it.
  pub record IsFit (node : Text) (marks : Marks) : Type 0 where
    pub done_grounded : (t : Text) → marks t ≡ Mark.done → IsGrounded t
    pub stack_leads : (t : Text) → marks t ≡ Mark.on_stack → Reaches t node

  -- What an outcome means, whichever it is.
  pub record Verdict (before : Marks) (r : Found) : Type 0 where
    pub cycle : (after : Marks) → r ≡ some (true, after) → Cycle
    pub progress : (after : Marks) → r ≡ some (false, after) → Progress before after

pub Mark-cases : (m : Mark) → (m ≡ Mark.unvisited) ⊎ ((m ≡ Mark.on_stack) ⊎ (m ≡ Mark.done))
Mark-cases Mark.unvisited = inl refl
Mark-cases Mark.on_stack = inr (inl refl)
Mark-cases Mark.done = inr (inr refl)

pub set_mark_self : (marks : Marks) (node : Text) (m : Mark) → set_mark marks node m node ≡ m
unfolding set_mark
set_mark_self marks node m = rw (text_eq_refl node)

pub set_mark_cases :
    (marks : Marks) (node : Text) (m : Mark) (t : Text)
    → (t ≡ node) × (set_mark marks node m t ≡ m) ⊎ (t ≢ node) × (set_mark marks node m t ≡ marks t)
unfolding set_mark
set_mark_cases marks node m t = elim (Bool-cases (text_eq t node)) [
  | inl same ↦ inl (text_eq_sound t node same, rw same)
  | inr other ↦ inr (λ e. ground (arith, text_eq_iff t node), rw other)
]

pub unless_found_inv :
    (r : Found) (next : Marks → Found) {found : Bool} {after : Marks}
    → unless_found r next ≡ some (found, after)
    → (r ≡ some (true, after)) × (found ≡ true)
      ⊎ ((m : Marks) × (r ≡ some (false, m)) × (next m ≡ some (found, after)))
unless_found_inv none next h = cc
unless_found_inv (some (true, m)) next h = inl (ground arith, ground arith)
unless_found_inv (some (false, m)) next h = inr (m, refl, h)

pub some-true_ne_false : {a b : Marks} → ◌≡◌ {A = Found} (some (true, a)) (some (false, b)) → ⊥
some-true_ne_false h = ground arith

abbrev pub marks_of : Found → Marks → Marks
marks_of none d = d
marks_of (some (found, m)) d = m

pub found_marks : {a b : Marks} {f g : Bool} → ◌≡◌ {A = Found} (some (f, a)) (some (g, b)) → a ≡ b
found_marks {a = a} h = ap (λ r. marks_of r a) h

module _ (edges : List InitiativeEdge) where
  pub Progress-refl :
      (m : Marks) → ((t : Text) → m t ≡ Mark.done → IsGrounded edges t) → Progress edges m m
  Progress-refl m g = record {
    keeps_done = λ t h. h;
    old_stack = λ t h. h;
    old_unvisited = λ t h. h;
    done_grounded = g;
  }

  pub Progress-trans :
      {a b c : Marks} → Progress edges a b → Progress edges b c → Progress edges a c
  Progress-trans p q = record {
    keeps_done = λ t h. q.keeps_done t (p.keeps_done t h);
    old_stack = λ t h. p.old_stack t (q.old_stack t h);
    old_unvisited = λ t h. p.old_unvisited t (q.old_unvisited t h);
    done_grounded = q.done_grounded;
  }

  -- A search that goes on with the marks of another.
  pub unless_found-Verdict :
      (before : Marks) (r : Found) (next : Marks → Found)
      → Verdict edges before r
      → ((m : Marks) → r ≡ some (false, m) → Verdict edges m (next m))
      → Verdict edges before (unless_found r next)
  unless_found-Verdict before r next v w = record {
    cycle = λ after h. elim (unless_found_inv r next h) [
      | inl (first, _) ↦ v.cycle after first
      | inr (m, first, rest) ↦ (w m first).cycle after rest
    ];
    progress = λ after h. elim (unless_found_inv r next h) [
      | inl (_, odd) ↦ cc
      | inr (m, first, rest) ↦ Progress-trans (v.progress m first) ((w m first).progress after rest)
    ];
  }

  -- A visit that met no cycle leaves its node done.
  abbrev pub Finishes : Text → Found → Type 0
  Finishes n r = (after : Marks) → r ≡ some (false, after) → after n ≡ Mark.done

  module _ (go : Text → Marks → Found)
      (visits : (n : Text) (m : Marks)
        → m n ≡ Mark.unvisited
        → IsFit edges n m
        → Verdict edges m (go n m) × Finishes n (go n m)) where
    -- A scan of some successors of a node that is on the stack: a cycle that it meets is one, and
    -- otherwise it leaves them all done.
    pub scan-Verdict :
        (node : Text) (nexts : List Text) (marks : Marks)
        → ((t : Text) → In t nexts → In t (successors edges node))
        → IsFit edges node marks
        → Verdict edges marks (scan go nexts marks)
          × ((t : Text) → In t nexts → Finishes t (scan go nexts marks))
    unfolding scan
    scan-Verdict node [] marks sub fit = (
      record {
        cycle = λ after h. absurd (some-true_ne_false (sym h));
        progress = λ after h.
            subst (Progress edges marks) (found_marks h) (Progress-refl marks fit.done_grounded);
      },
      λ t m. elim m [ ],
    )
    scan-Verdict node (next ∷ nexts) marks sub fit = elim (Mark-cases (marks next)) [
      | inl fresh ↦
          let fit_next : IsFit edges next marks = record {
            done_grounded = fit.done_grounded;
            stack_leads = λ t h. Reaches.onward (fit.stack_leads t h) (sub next In.here);
          } in
          let (v, finished) = visits next marks fresh fit_next in
          let go_on = λ (m : Marks) (p : Progress edges marks m).
            scan-Verdict node nexts m (λ t i. sub t (In.there i))
              (record {
                done_grounded = p.done_grounded;
                stack_leads = λ t h. fit.stack_leads t (p.old_stack t h);
              }) in
          (
            rw (fresh, scan)
                (unless_found-Verdict marks (go next marks) (scan go nexts) v
                  (λ m e. (go_on m (v.progress m e)).0)),
            λ t i after h.
                elim (unless_found_inv (go next marks) (scan go nexts) (rw (fresh, scan) at h)) [
                  | inl (_, odd) ↦ cc
                  | inr (m, first, rest) ↦
                      let (w, all_done) = go_on m (v.progress m first) in
                      elim (In-cons i) [
                        | inl same ↦
                            rw same ((w.progress after rest).keeps_done next (finished m first))
                        | inr later ↦ all_done t later after rest
                      ]
                ],
          )
      | inr (inl stacked) ↦ (
        record {
          cycle = λ after h. record {
            node = next;
            before = node;
            path = fit.stack_leads next stacked;
            closes = sub next In.here;
          };
          progress = λ after h. absurd (some-true_ne_false (rw (stacked, scan) at h));
        },
        λ t i after h. absurd (some-true_ne_false (rw (stacked, scan) at h)),
      )
      | inr (inr closed) ↦
          let (w, all_done) = scan-Verdict node nexts marks (λ t i. sub t (In.there i)) fit in
          (
            rw (closed, scan) w,
            λ t i after h.
                let h' : scan go nexts marks ≡ some (false, after) = rw (closed, scan) at h in
                elim (In-cons i) [
                  | inl same ↦ rw same ((w.progress after h').keeps_done next closed)
                  | inr later ↦ all_done t later after h'
                ],
          )
    ]
