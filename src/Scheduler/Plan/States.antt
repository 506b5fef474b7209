-- ===== src/Scheduler/Plan/States.antt =====
-- Where the candidates of scheduleOneInitiative of internal/application/initiative_scheduler.go
-- point.
use mathlib.Core.Path.{subst}
use comis_dev_crew.Base.{
  some-injective, ℕ, suc, ◌+◌, ◌≡◌, refl, sym, ap, ◌∙◌, ◌⊎◌, inl, inr, Bool, false, not, ◌||◌, List,
  [], ◌∷◌, Option, none, some, arith, In, In-cons, In-sort_by, Bool-cases, ok, >>=-eq-ok,
  ok-injective, get_elem?,
}
use comis_dev_crew.Text.{Text, text_eq, text_less}
use comis_dev_crew.Lifecycle.{TaskState, same_state}
use comis_dev_crew.Contract.{ComponentContractArtifact}
use comis_dev_crew.Task.{Task}
use comis_dev_crew.Initiative.{DevelopmentInitiative}
use comis_dev_crew.Scheduler.{InitiativeSchedule, InitiativeTaskSchedule}
use comis_dev_crew.Scheduler.Launch.{launch_dependency_reason, task_of}
use comis_dev_crew.Scheduler.Allocate.{SchedulingCandidate}
use comis_dev_crew.Scheduler.Plan.{
  Offers, component_loop, sorted_decisions, decide_member, decide_loop, schedule_one_initiative,
  is_active, is_no_reason,
}
use comis_dev_crew.Scheduler.Plan.Laws.{ready_state}
use comis_dev_crew.Scheduler.Plan.Fresh.{IsFresh, component_loop-AreFresh}

module _ (initiative : DevelopmentInitiative) (tasks : List Task)
    (artifacts : List ComponentContractArtifact) (schedule_index : ℕ) where
  -- A turn puts one decision in front, in the state it had.
  member-front :
      (index : ℕ) (decision : InitiativeTaskSchedule) (found : Option Task) (later : Offers)
      → (front : InitiativeTaskSchedule) × ((decide_member initiative tasks artifacts schedule_index
            index decision found later).decisions
          ≡ front ∷ later.decisions)
        × (front.state ≡ decision.state)
        × (front.launchable ≡ decision.launchable)
  unfolding decide_member text_eq
  member-front index decision none later = (decision, refl, refl, refl)
  member-front index decision (some task) later =
      let reason =
        launch_dependency_reason initiative task tasks artifacts initiative.contract_artifacts in
      elim (Bool-cases
        (not (same_state task.state TaskState.ready) || not (is_active initiative.state))) [
          | inl skipped ↦ (decision, rw (skipped, decide_member), refl, refl)
          | inr due ↦ elim (Bool-cases (is_no_reason reason)) [
            | inr waits ↦
                (record decision { reason = reason }, rw (due, waits, decide_member), refl, refl)
            | inl free ↦
                (record decision { reason = reason }, rw (due, free, decide_member), refl, refl)
          ]
        ]

  -- A turn adds at most the candidate of its own decision.
  member-candidate :
      (index : ℕ) (decision : InitiativeTaskSchedule) (found : Option Task) (later : Offers)
      → (candidate : SchedulingCandidate)
      → In candidate
          (decide_member initiative tasks artifacts schedule_index index decision found
            later).candidates
      → In candidate later.candidates
        ⊎ ((candidate.schedule_index ≡ schedule_index)
            × (candidate.decision_index ≡ index)
            × (found ≡ some candidate.task)
            × (candidate.task.state ≡ TaskState.ready))
  unfolding decide_member text_eq
  member-candidate index decision none later candidate m = inl m
  member-candidate index decision (some task) later candidate m =
      let reason =
        launch_dependency_reason initiative task tasks artifacts initiative.contract_artifacts in
      elim (Bool-cases
        (not (same_state task.state TaskState.ready) || not (is_active initiative.state))) [
          | inl skipped ↦ inl (rw (skipped, decide_member) at m)
          | inr due ↦ elim (Bool-cases (is_no_reason reason)) [
            | inr waits ↦ inl (rw (due, waits, decide_member) at m)
            | inl free ↦ elim (In-cons (rw (due, free, decide_member) at m)) [
              | inr k ↦ inl k
              | inl same ↦
                  let task_same = ap (λ (c : SchedulingCandidate). c.task) same in
                  inr (
                    ap (λ (c : SchedulingCandidate). c.schedule_index) same,
                    ap (λ (c : SchedulingCandidate). c.decision_index) same,
                    ap some (sym task_same),
                    ap (λ (t : Task). t.state) task_same ∙ ready_state task.state (ground arith),
                  )
            ]
          ]
        ]

  loop-unmarked :
      (index : ℕ) (decisions : List InitiativeTaskSchedule)
      → ((d : InitiativeTaskSchedule) → In d decisions → IsFresh tasks d)
      → (decision : InitiativeTaskSchedule)
      → In decision
          (decide_loop initiative tasks artifacts schedule_index index decisions).decisions
      → decision.launchable ≡ false
  unfolding decide_loop
  loop-unmarked index [] fresh decision m = elim m [ ]
  loop-unmarked index (first ∷ more) fresh decision m =
      let later = decide_loop initiative tasks artifacts schedule_index (index + 1) more in
      let (front, shape, _, kept) =
        member-front index first (task_of first.task_handle tasks) later in
      elim (In-cons (subst (In decision) shape m)) [
        | inl same ↦
            ap (λ (d : InitiativeTaskSchedule). d.launchable) same
            ∙ (kept ∙ (fresh first In.here).unmarked)
        | inr k ↦ loop-unmarked (index + 1) more (λ d n. fresh d (In.there n)) decision k
      ]

  -- A candidate points to a decision of a ready member.
  loop-points :
      (index : ℕ) (decisions : List InitiativeTaskSchedule)
      → ((d : InitiativeTaskSchedule) → In d decisions → IsFresh tasks d)
      → (candidate : SchedulingCandidate)
      → In candidate
          (decide_loop initiative tasks artifacts schedule_index index decisions).candidates
      → (candidate.schedule_index ≡ schedule_index)
        × (j : ℕ) × (candidate.decision_index ≡ index + j)
        × ((decision : InitiativeTaskSchedule)
            → get_elem?
                (decide_loop initiative tasks artifacts schedule_index index decisions).decisions
                j
              ≡ some decision
            → decision.state ≡ TaskState.ready)
  unfolding decide_loop
  loop-points index [] fresh candidate m = elim m [ ]
  loop-points index (first ∷ more) fresh candidate m =
      let later = decide_loop initiative tasks artifacts schedule_index (index + 1) more in
      let found = task_of first.task_handle tasks in
      let (front, shape, kept, _) = member-front index first found later in
      elim (member-candidate index first found later candidate m) [
        | inl k ↦
            let (s, j, at', ready) =
              loop-points (index + 1) more (λ d n. fresh d (In.there n)) candidate k in
            (
              s,
              suc j,
              omega (arith, at'),
              λ decision h. ready decision (
                  subst (λ (ds : List InitiativeTaskSchedule). get_elem? ds (suc j) ≡ some decision)
                    shape h),
            )
        | inr (s, at', task_found, ready) ↦ (
          s,
          0,
          omega (arith, at'),
          λ decision h.
              let first' = some-injective (
                subst (λ (ds : List InitiativeTaskSchedule). get_elem? ds 0 ≡ some decision) shape
                  h) in
              ap (λ (d : InitiativeTaskSchedule). d.state) (sym first')
              ∙ (kept ∙ ((fresh first In.here).follows candidate.task task_found ∙ ready)),
        )
      ]

  -- The plan of one initiative has no launchable decision, and its candidates point to ready members.
  pub plan-points :
      (owned after : List Text) (schedule : InitiativeSchedule)
      (candidates : List SchedulingCandidate)
      → schedule_one_initiative initiative tasks artifacts schedule_index owned
        ≡ ok (schedule, candidates, after)
      → ((decision : InitiativeTaskSchedule)
          → In decision schedule.tasks
          → decision.launchable ≡ false)
        × ((candidate : SchedulingCandidate)
            → In candidate candidates
            → (candidate.schedule_index ≡ schedule_index)
              × ((decision : InitiativeTaskSchedule)
                  → get_elem? schedule.tasks candidate.decision_index ≡ some decision
                  → decision.state ≡ TaskState.ready))
  unfolding schedule_one_initiative sorted_decisions
  plan-points owned after schedule candidates h =
      let (members, found, done) =
        >>=-eq-ok
          (component_loop tasks initiative.components (record { owned = owned; decisions = [] })) _
          h in
      let sorted = sorted_decisions members.decisions in
      let offered = decide_loop initiative tasks artifacts schedule_index 0 sorted in
      let fresh : (d : InitiativeTaskSchedule) → In d sorted → IsFresh tasks d = λ d m.
        component_loop-AreFresh tasks initiative.components
          (record { owned = owned; decisions = [] }) members (λ x n. elim n [ ]) found d
          ((In-sort_by by_handle d members.decisions).0 m) in
      let same = ok-injective done in
      let same_tasks : offered.decisions ≡ schedule.tasks =
        ap (λ (p : InitiativeSchedule × List SchedulingCandidate × List Text). p.0.tasks) same in
      let same_candidates : offered.candidates ≡ candidates =
        ap (λ (p : InitiativeSchedule × List SchedulingCandidate × List Text). p.1) same in
      (
        λ decision m.
            loop-unmarked 0 sorted fresh decision (subst (In decision) (sym same_tasks) m),
        λ candidate m.
            let (s, j, at', ready) =
              loop-points 0 sorted fresh candidate (subst (In candidate) (sym same_candidates) m) in
            (
              s,
              λ decision e. ready decision (
                  subst (λ (i : ℕ). get_elem? offered.decisions i ≡ some decision)
                    (index_from_zero at')
                    (subst
                      (λ (ds : List InitiativeTaskSchedule).
                        get_elem? ds candidate.decision_index ≡ some decision)
                      (sym same_tasks) e)),
            ),
      )
    where
      by_handle : InitiativeTaskSchedule → InitiativeTaskSchedule → Bool
      by_handle left right = text_less left.task_handle right.task_handle

      index_from_zero : {i j : ℕ} → i ≡ 0 + j → i ≡ j
      index_from_zero e = omega (arith, e)
