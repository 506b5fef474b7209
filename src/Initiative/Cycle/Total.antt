-- ===== src/Initiative/Cycle/Total.antt =====
-- The fuel of hasCycle of internal/domain/initiative.go, against the unvisited nodes.
use comis_dev_crew.Base.{
  ℕ, zero, suc, ◌≤◌, ◌<◌, ◌≡◌, ◌≢◌, refl, sym, ap, ◌∙◌, inl, inr, Bool, true, false, List, [], ◌∷◌,
  none, some, arith, In, length, if◌then◌else◌,
}
use comis_dev_crew.Text.{Text}
use comis_dev_crew.Initiative.{InitiativeEdge}
use comis_dev_crew.Initiative.Cycle.{
  Mark, Marks, set_mark, successors, Found, unless_found, scan, visit, visit_roots, no_marks,
  search_cycle,
}
use comis_dev_crew.Initiative.Cycle.Search.{
  set_mark_self, set_mark_cases, unless_found_inv, Mark-cases,
}

abbrev is_unvisited : Mark → Bool
is_unvisited Mark.unvisited = true
is_unvisited _ = false

-- How many of the nodes are unvisited.
count_unvisited : Marks → List Text → ℕ
count_unvisited marks [] = 0
count_unvisited marks (t ∷ ts) =
    let rest = count_unvisited marks ts in if is_unvisited (marks t) then suc rest else rest

-- No node becomes unvisited.
abbrev Shrinks : Marks → Marks → Type 0
Shrinks before after = (t : Text) → after t ≡ Mark.unvisited → before t ≡ Mark.unvisited

count_mono :
    (a b : Marks) (ts : List Text) → Shrinks a b → count_unvisited b ts ≤ count_unvisited a ts
unfolding count_unvisited
count_mono a b [] h = omega arith
count_mono a b (t ∷ ts) h = ground (arith, h t, count_mono a b ts h)

count_drops :
    (a b : Marks) (ts : List Text) (node : Text)
    → Shrinks a b
    → In node ts
    → a node ≡ Mark.unvisited
    → b node ≢ Mark.unvisited
    → count_unvisited b ts < count_unvisited a ts
unfolding count_unvisited
count_drops a b (t ∷ ts) node h In.here u v = ground (arith, h t, count_mono a b ts h)
count_drops a b (t ∷ ts) node h (In.there i) u v =
    ground (arith, h t, count_drops a b ts node h i u v)
count_drops a b [] node h i u v = elim i [ ]

count_le_length : (a : Marks) (ts : List Text) → count_unvisited a ts ≤ length ts
unfolding count_unvisited
count_le_length a [] = omega arith
count_le_length a (t ∷ ts) = ground (arith, count_le_length a ts)

-- Every outcome has marks with no new unvisited node.
abbrev AllShrinks : Marks → Found → Type 0
AllShrinks before r =
    (found : Bool) (after : Marks) → r ≡ some (found, after) → Shrinks before after

marks_eq : {a b : Marks} {f g : Bool} → ◌≡◌ {A = Found} (some (f, a)) (some (g, b)) → a ≡ b
marks_eq h = ground arith

opened-Shrinks :
    (marks : Marks) (node : Text) (m : Mark)
    → m ≢ Mark.unvisited
    → Shrinks marks (set_mark marks node m)
opened-Shrinks marks node m other t h = elim (set_mark_cases marks node m t) [
  | inl (_, now) ↦ absurd (other (sym now ∙ h))
  | inr (_, old) ↦ sym old ∙ h
]

unless-AllShrinks :
    (before : Marks) (r : Found) (next : Marks → Found)
    → AllShrinks before r
    → ((m : Marks) → AllShrinks m (next m))
    → AllShrinks before (unless_found r next)
unless-AllShrinks before r next v w found after h = elim (unless_found_inv r next h) [
  | inl (first, _) ↦ v true after first
  | inr (m, first, rest) ↦ λ t u. v false m first t (w m found after rest t u)
]

scan-AllShrinks :
    (go : Text → Marks → Found)
    → ((n : Text) (m : Marks) → AllShrinks m (go n m))
    → (nexts : List Text) (marks : Marks) → AllShrinks marks (scan go nexts marks)
unfolding scan
scan-AllShrinks go all [] marks = λ found after h t u. rw (ap (λ (f : Marks). f t) (marks_eq h)) u
scan-AllShrinks go all (n ∷ ns) marks = elim (Mark-cases (marks n)) [
  | inl fresh ↦
      rw (fresh, scan)
        (unless-AllShrinks marks (go n marks) (scan go ns) (all n marks)
          (scan-AllShrinks go all ns))
  | inr (inl stacked) ↦
      rw (stacked, scan) (λ found after h t u. rw (ap (λ (f : Marks). f t) (marks_eq h)) u)
  | inr (inr closed) ↦ rw (closed, scan) (scan-AllShrinks go all ns marks)
]

visit-AllShrinks :
    (edges : List InitiativeEdge) (fuel : ℕ) (n : Text) (m : Marks)
    → AllShrinks m (visit edges fuel n m)
unfolding visit
visit-AllShrinks edges zero n m = λ found after h. cc
visit-AllShrinks edges (suc fuel) n m = λ found after h t u.
    let opened = set_mark m n Mark.on_stack in
    opened-Shrinks m n Mark.on_stack (λ e. cc) t
      (unless-AllShrinks opened (scan (visit edges fuel) (successors edges n) opened)
        (λ k. some (false, set_mark k n Mark.done))
        (scan-AllShrinks (visit edges fuel) (visit-AllShrinks edges fuel) (successors edges n)
          opened)
        (λ k found' after' h' t' u'.
          opened-Shrinks k n Mark.done (λ e. cc) t'
            (rw (ap (λ (f : Marks). f t') (marks_eq h')) u'))
        found after h t u)

unless-total :
    (r : Found) (next : Marks → Found)
    → r ≢ none
    → ((m : Marks) → r ≡ some (false, m) → next m ≢ none)
    → unless_found r next ≢ none
unless-total none next v w h = v refl
unless-total (some (true, m)) next v w h = cc
unless-total (some (false, m)) next v w h = w m refl h

module _ (go : Text → Marks → Found) (nodes : List Text) (k : ℕ)
    (shrinks : (n : Text) (m : Marks) → AllShrinks m (go n m))
    (total : (n : Text) (m : Marks)
      → In n nodes
      → m n ≡ Mark.unvisited
      → count_unvisited m nodes ≤ k
      → go n m ≢ none) where
  scan-total :
      (nexts : List Text) (marks : Marks)
      → ((t : Text) → In t nexts → In t nodes)
      → count_unvisited marks nodes ≤ k
      → scan go nexts marks ≢ none
  unfolding scan
  scan-total [] marks sub h = λ e. cc
  scan-total (n ∷ ns) marks sub h = elim (Mark-cases (marks n)) [
    | inl fresh ↦
        rw (fresh, scan)
          (unless-total (go n marks) (scan go ns) (total n marks (sub n In.here) fresh h) (λ m e.
            scan-total ns m (λ t i. sub t (In.there i))
              (omega (arith, count_mono marks m nodes (shrinks n marks false m e)))))
    | inr (inl stacked) ↦ rw (stacked, scan) (λ e. cc)
    | inr (inr closed) ↦ rw (closed, scan) (scan-total ns marks (λ t i. sub t (In.there i)) h)
  ]

  visit_roots-total :
      (members : List Text) (marks : Marks)
      → ((t : Text) → In t members → In t nodes)
      → count_unvisited marks nodes ≤ k
      → visit_roots go members marks ≢ none
  unfolding visit_roots
  visit_roots-total [] marks sub h = λ e. cc
  visit_roots-total (n ∷ ns) marks sub h = elim (Mark-cases (marks n)) [
    | inl fresh ↦
        rw (fresh, visit_roots)
          (unless-total (go n marks) (visit_roots go ns) (total n marks (sub n In.here) fresh h)
            (λ m e.
              visit_roots-total ns m (λ t i. sub t (In.there i))
                (omega (arith, count_mono marks m nodes (shrinks n marks false m e)))))
    | inr (inl stacked) ↦
        rw (stacked, visit_roots) (visit_roots-total ns marks (λ t i. sub t (In.there i)) h)
    | inr (inr closed) ↦
        rw (closed, visit_roots) (visit_roots-total ns marks (λ t i. sub t (In.there i)) h)
  ]

-- All edges from the nodes lead to the nodes.
abbrev pub IsClosed : List InitiativeEdge → List Text → Type 0
IsClosed edges nodes = (n t : Text) → In n nodes → In t (successors edges n) → In t nodes

visit-total :
    (edges : List InitiativeEdge) (nodes : List Text) (fuel : ℕ)
    → IsClosed edges nodes
    → (n : Text) (m : Marks) → In n nodes
    → m n ≡ Mark.unvisited
    → count_unvisited m nodes ≤ fuel
    → visit edges fuel n m ≢ none
unfolding visit
visit-total edges nodes zero closed n m i u h = absurd (
    omega (
      arith,
      count_drops m (set_mark m n Mark.done) nodes n (opened-Shrinks m n Mark.done (λ e. cc)) i u
          (λ e. cc (set_mark_self m n Mark.done)),
    ))
visit-total edges nodes (suc fuel) closed n m i u h =
    let opened = set_mark m n Mark.on_stack in
    let fewer =
      count_drops m opened nodes n (opened-Shrinks m n Mark.on_stack (λ e. cc)) i u
        (λ e. cc (set_mark_self m n Mark.on_stack)) in
    unless-total (scan (visit edges fuel) (successors edges n) opened)
      (λ k. some (false, set_mark k n Mark.done))
      (scan-total (visit edges fuel) nodes fuel (visit-AllShrinks edges fuel)
        (visit-total edges nodes fuel closed) (successors edges n) opened (λ t j. closed n t i j)
        (omega (arith, fewer)))
      (λ k e f. cc)

-- As many units of fuel as there are members are enough for every graph on the members.
pub search_cycle_total :
    (edges : List InitiativeEdge) (members : List Text)
    → IsClosed edges members
    → search_cycle edges members ≢ none
unfolding search_cycle
search_cycle_total edges members closed =
    visit_roots-total (visit edges (length members)) members (length members)
      (visit-AllShrinks edges (length members)) (visit-total edges members (length members) closed)
      members no_marks (λ t i. i) (count_le_length no_marks members)
