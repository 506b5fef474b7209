-- ===== src/Initiative/Stale/Laws.antt =====
-- Lemmas on the stale sets of internal/domain/contract_artifact.go.
use comis_dev_crew.Base.{
  ◌≡◌, ◌≢◌, refl, sym, ap, ◌∙◌, ◌↔◌, ◌⊎◌, inl, inr, Bool, true, false, not, ◌&&◌, List, [], ◌∷◌,
  arith, In, In-cons, In-cons_eq, Bool-cases, ||-eq-false, In-sort_by,
}
use comis_dev_crew.Text.{Text, text_eq, member, text_less}
use comis_dev_crew.Text.Laws.{text_eq_sound, text_eq_iff}
use comis_dev_crew.Contract.{ContractArtifactKind, same_kind}
use comis_dev_crew.Initiative.{InitiativeEdge, DevelopmentInitiative}
use comis_dev_crew.Initiative.Ready.{sort_strings}
use comis_dev_crew.Initiative.Stale.{
  collect_targets, consumes_from, tasks_stale_after_supersession, tasks_stale_after_head_change,
  contains_task,
}

-- Some edge that passes the test leads to the task.
pub record IsTarget (test : InitiativeEdge → Bool) (edges : List InitiativeEdge) (task : Text)
    : Type 0 where
  pub edge : InitiativeEdge
  pub recorded : In edge edges
  pub passes : test edge ≡ true
  pub leads : edge.to_task_handle ≡ task

not_member_cons :
    (t x : Text) (xs : List Text)
    → member t (x ∷ xs) ≡ false
    → (text_eq t x ≡ false) × (member t xs ≡ false)
unfolding member
not_member_cons t x xs h = ||-eq-false (text_eq t x) (member t xs) h

module _ (test : InitiativeEdge → Bool) (task : Text) where
  IsTarget-there :
      (e : InitiativeEdge) {es : List InitiativeEdge}
      → IsTarget test es task
      → IsTarget test (e ∷ es) task
  IsTarget-there e t = record {
    edge = t.edge;
    recorded = In.there t.recorded;
    passes = t.passes;
    leads = t.leads;
  }

  collected-IsTarget :
      (seen : List Text) (edges : List InitiativeEdge)
      → In task (collect_targets test seen edges)
      → IsTarget test edges task × (member task seen ≡ false)
  unfolding collect_targets
  collected-IsTarget seen [] m = elim m [ ]
  collected-IsTarget seen (e ∷ es) m =
      elim (Bool-cases (test e && not (member e.to_task_handle seen))) [
        | inl taken ↦ elim (In-cons (rw (taken, collect_targets) at m)) [
          | inl here' ↦ (
            record {
              edge = e;
              recorded = In.here;
              passes = ground (arith, taken);
              leads = sym here';
            },
            rw here' (ground (arith, taken)),
          )
          | inr later ↦
              let (t, new) = collected-IsTarget (e.to_task_handle ∷ seen) es later in
              (IsTarget-there e t, (not_member_cons task e.to_task_handle seen new).1)
        ]
        | inr skipped ↦
            let (t, new) = collected-IsTarget seen es (rw (skipped, collect_targets) at m) in
            (IsTarget-there e t, new)
      ]

  IsTarget-collected :
      (seen : List Text) (edges : List InitiativeEdge)
      → IsTarget test edges task
      → member task seen ≡ false
      → In task (collect_targets test seen edges)
  unfolding collect_targets
  IsTarget-collected seen [] t new = elim t.recorded [ ]
  IsTarget-collected seen (e ∷ es) t new =
      elim (Bool-cases (test e && not (member e.to_task_handle seen))) [
        | inl taken ↦
            rw (taken, collect_targets)
              (elim (Bool-cases (text_eq task e.to_task_handle)) [
                | inl same ↦ In-cons_eq (text_eq_sound task e.to_task_handle same)
                | inr other ↦ In.there (
                    IsTarget-collected (e.to_task_handle ∷ seen) es (later other)
                      (unfold member in rw (other, new)))
              ])
        | inr skipped ↦
            rw (skipped, collect_targets) (IsTarget-collected seen es (behind skipped) new)
      ]
    where
      target_of : t.edge ≡ e → task ≡ e.to_task_handle
      target_of same = sym t.leads ∙ ap (λ (x : InitiativeEdge). x.to_task_handle) same

      tail_target : t.edge ≢ e → IsTarget test es task
      tail_target ne = elim (In-cons t.recorded) [
        | inl same ↦ absurd (ne same)
        | inr k ↦ record { edge = t.edge; recorded = k; passes = t.passes; leads = t.leads }
      ]

      later : text_eq task e.to_task_handle ≡ false → IsTarget test es task
      later other =
          tail_target (λ same. cc ((text_eq_iff task e.to_task_handle).1 (target_of same)))

      behind : (test e && not (member e.to_task_handle seen)) ≡ false → IsTarget test es task
      behind skipped = tail_target (λ same.
          let passes : test e ≡ true = ap test (sym same) ∙ t.passes in
          let fresh : member e.to_task_handle seen ≡ false =
            ap (λ x. member x seen) (sym (target_of same)) ∙ new in
          ground (arith, passes, fresh, skipped))

  -- The collected tasks are exactly the targets of edges that pass the test, unless seen before.
  collect_targets_iff :
      (seen : List Text) (edges : List InitiativeEdge)
      → In task (collect_targets test seen edges)
        ↔ (IsTarget test edges task × (member task seen ≡ false))
  collect_targets_iff seen edges =
      (collected-IsTarget seen edges, λ (t, new). IsTarget-collected seen edges t new)

-- Superseding a contract stales exactly the members that consume an artifact of this kind from
-- this producer.
pub stale_after_supersession_iff :
    (initiative : DevelopmentInitiative) (kind : ContractArtifactKind) (producer task : Text)
    → In task (tasks_stale_after_supersession initiative kind producer)
      ↔ IsTarget
          (λ edge. consumes_from producer edge && same_kind edge.required_artifact_kind kind)
          initiative.edges
          task
unfolding tasks_stale_after_supersession sort_strings
stale_after_supersession_iff initiative kind producer task =
    let test = λ (edge : InitiativeEdge).
      consumes_from producer edge && same_kind edge.required_artifact_kind kind in
    let targets = collect_targets test [] initiative.edges in
    let exact = collect_targets_iff test task [] initiative.edges in
    (
      λ m. (exact.0 ((In-sort_by text_less task targets).0 m)).0,
      λ t. (In-sort_by text_less task targets).1 (exact.1 (t, unfold member in refl)),
    )

-- A moved head stales exactly the task itself and the members that consume an artifact of it, and
-- nothing at all where the task is not a member.
pub stale_after_head_change_iff :
    (initiative : DevelopmentInitiative) (moved task : Text)
    → In task (tasks_stale_after_head_change initiative moved) ↔ (
        (contains_task initiative.components moved ≡ true)
        × ((task ≡ moved) ⊎ IsTarget (consumes_from moved) initiative.edges task))
unfolding tasks_stale_after_head_change sort_strings
stale_after_head_change_iff initiative moved task =
    let targets = collect_targets (consumes_from moved) (moved ∷ []) initiative.edges in
    let exact = collect_targets_iff (consumes_from moved) task (moved ∷ []) initiative.edges in
    elim (Bool-cases (contains_task initiative.components moved)) [
      | inl found ↦ (
        λ m. (
          found,
          elim (In-cons (rw (found, tasks_stale_after_head_change) at m)) [
            | inl same ↦ inl same
            | inr later ↦ inr (exact.0 ((In-sort_by text_less task targets).0 later)).0
          ],
        ),
        λ (_, h).
            rw (found, tasks_stale_after_head_change)
              (elim (Bool-cases (text_eq task moved)) [
                | inl same ↦ In-cons_eq (text_eq_sound task moved same)
                | inr other ↦ elim h [
                  | inl same ↦ cc ((text_eq_iff task moved).1 same)
                  | inr t ↦ In.there (
                      (In-sort_by text_less task targets).1
                        (exact.1 (t, unfold member in rw other refl)))
                ]
              ]),
      )
      | inr missing ↦
          (λ m. elim (rw (missing, tasks_stale_after_head_change) at m) [ ], λ (found, _). cc)
    ]
