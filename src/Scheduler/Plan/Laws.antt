-- ===== src/Scheduler/Plan/Laws.antt =====
-- Lemmas on scheduleOneInitiative of internal/application/initiative_scheduler.go.
use mathlib.Core.Path.{subst}
use comis_dev_crew.Base.{
  ℕ, ◌+◌, ◌≡◌, refl, sym, ◌⊎◌, inl, inr, true, not, ◌||◌, List, [], ◌∷◌, Option, none, some, arith,
  In, In-cons, Bool-cases, ok, >>=-eq-ok, ok-injective, ap,
}
use comis_dev_crew.Text.{Text, text_eq}
use comis_dev_crew.Lifecycle.{TaskState, same_state}
use comis_dev_crew.Contract.{ComponentContractArtifact}
use comis_dev_crew.Task.{Task}
use comis_dev_crew.Initiative.{DevelopmentInitiative, InitiativeState}
use comis_dev_crew.Scheduler.{InitiativeSchedule, InitiativeTaskSchedule, InitiativeScheduleReason}
use comis_dev_crew.Scheduler.Launch.{launch_dependency_reason, task_of}
use comis_dev_crew.Scheduler.Allocate.{SchedulingCandidate}
use comis_dev_crew.Scheduler.Plan.{
  Offers, decide_member, decide_loop, schedule_one_initiative, is_active, is_no_reason,
  sorted_decisions, component_loop,
}

pub ready_state : (s : TaskState) → same_state s TaskState.ready ≡ true → s ≡ TaskState.ready
unfolding text_eq
ready_state s h = ground arith

active_state : (s : InitiativeState) → is_active s ≡ true → s ≡ InitiativeState.active
active_state InitiativeState.active h = refl
active_state _ h = cc

unreasoned :
    (r : InitiativeScheduleReason) → is_no_reason r ≡ true → r ≡ InitiativeScheduleReason.no_reason
unreasoned InitiativeScheduleReason.no_reason h = refl
unreasoned _ h = cc

module _ (initiative : DevelopmentInitiative) (tasks : List Task)
    (artifacts : List ComponentContractArtifact) (schedule_index : ℕ) where
  -- A candidate is a ready task of the active initiative that has no reason to wait.
  pub record IsCandidate (candidate : SchedulingCandidate) : Type 0 where
    pub of_schedule : candidate.schedule_index ≡ schedule_index
    pub indexed : (handle : Text) × (task_of handle tasks ≡ some candidate.task)
    pub ready : candidate.task.state ≡ TaskState.ready
    pub active : initiative.state ≡ InitiativeState.active
    pub launchable :
        launch_dependency_reason initiative candidate.task tasks artifacts
          initiative.contract_artifacts
        ≡ InitiativeScheduleReason.no_reason

  member-IsCandidate :
      (index : ℕ) (decision : InitiativeTaskSchedule) (found : Option Task) (later : Offers)
      → task_of decision.task_handle tasks ≡ found
      → (candidate : SchedulingCandidate)
      → In candidate
          (decide_member initiative tasks artifacts schedule_index index decision found
            later).candidates
      → IsCandidate candidate ⊎ In candidate later.candidates
  unfolding decide_member text_eq
  member-IsCandidate index decision none later e candidate m = inr m
  member-IsCandidate index decision (some task) later e candidate m =
      let reason =
        launch_dependency_reason initiative task tasks artifacts initiative.contract_artifacts in
      elim (Bool-cases
        (not (same_state task.state TaskState.ready) || not (is_active initiative.state))) [
          | inl skipped ↦ inr (rw (skipped, decide_member) at m)
          | inr due ↦ elim (Bool-cases (is_no_reason reason)) [
            | inr waits ↦ inr (rw (due, waits, decide_member) at m)
            | inl free ↦ elim (In-cons (rw (due, free, decide_member) at m)) [
              | inr k ↦ inr k
              | inl same ↦
                  let is_candidate : IsCandidate (record {
                    schedule_index = schedule_index;
                    decision_index = index;
                    task = task;
                  }) =
                    record {
                      of_schedule = refl;
                      indexed = (decision.task_handle, e);
                      ready = ready_state task.state (ground arith);
                      active = active_state initiative.state (ground arith);
                      launchable = unreasoned reason free;
                    } in
                  inl (subst IsCandidate (sym same) is_candidate)
            ]
          ]
        ]

  loop-IsCandidate :
      (index : ℕ) (decisions : List InitiativeTaskSchedule) (candidate : SchedulingCandidate)
      → In candidate
          (decide_loop initiative tasks artifacts schedule_index index decisions).candidates
      → IsCandidate candidate
  unfolding decide_loop
  loop-IsCandidate index [] candidate m = elim m [ ]
  loop-IsCandidate index (decision ∷ decisions) candidate m =
      let later = decide_loop initiative tasks artifacts schedule_index (index + 1) decisions in
      elim (member-IsCandidate index decision (task_of decision.task_handle tasks) later refl
        candidate m) [
          | inl is_candidate ↦ is_candidate
          | inr k ↦ loop-IsCandidate (index + 1) decisions candidate k
        ]

  -- Every candidate that the plan of an initiative offers is an indexed task in the ready state, the
  -- initiative is active, and no dependency gives the task a reason to wait.
  planned-IsCandidate :
      (owned after : List Text) (schedule : InitiativeSchedule)
      (candidates : List SchedulingCandidate)
      → schedule_one_initiative initiative tasks artifacts schedule_index owned
        ≡ ok (schedule, candidates, after)
      → (candidate : SchedulingCandidate) → In candidate candidates
      → IsCandidate candidate
  unfolding schedule_one_initiative
  planned-IsCandidate owned after schedule candidates h candidate m =
      let (members, found, done) =
        >>=-eq-ok
          (component_loop tasks initiative.components (record { owned = owned; decisions = [] })) _
          h in
      let offered =
        decide_loop initiative tasks artifacts schedule_index 0
          (sorted_decisions members.decisions) in
      let same : offered.candidates ≡ candidates =
        ap (λ (p : InitiativeSchedule × List SchedulingCandidate × List Text). p.1)
          (ok-injective done) in
      loop-IsCandidate 0 (sorted_decisions members.decisions) candidate
        (subst (In candidate) (sym same) m)
