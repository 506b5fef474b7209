-- ===== src/Scheduler/Fleet/Laws.antt =====
-- Lemmas on ScheduleInitiatives of internal/application/initiative_scheduler.go.
use mathlib.Core.Path.{subst}
use comis_dev_crew.Base.{
  some-injective, ℕ, suc, ◌+◌, ◌≡◌, sym, ap, ◌∙◌, inl, inr, true, false, List, [], ◌∷◌, some, arith,
  In, In-cons, ok, require, is_ok, >>-eq-ok, >>=-eq-ok, ok-injective, get_elem?,
}
use comis_dev_crew.Text.{Text}
use comis_dev_crew.Platform.{Platform}
use comis_dev_crew.Lifecycle.{TaskState}
use comis_dev_crew.Contract.{ComponentContractArtifact}
use comis_dev_crew.Task.{Task}
use comis_dev_crew.Initiative.{DevelopmentInitiative}
use comis_dev_crew.Initiative.Validate.{validate_initiative}
use comis_dev_crew.Scheduler.{
  InitiativeSchedule, InitiativeTaskSchedule, InitiativeSchedulingLimits, SchedulingUsage,
  validate_scheduling_limits, index_scheduling_tasks,
}
use comis_dev_crew.Scheduler.Allocate.{
  SchedulingCandidate, Lane, lanes_of, maximum_round, run_rounds, allocate_initiative_candidates,
}
use comis_dev_crew.Scheduler.Plan.{schedule_one_initiative}
use comis_dev_crew.Scheduler.Plan.States.{plan-points}
use comis_dev_crew.Scheduler.Fleet.{
  FleetPlan, plan_loop, artifacts_of, in_creation_order, index_scheduling_artifacts, derive_states,
  plan_fleet, schedule_initiatives,
}
use comis_dev_crew.Scheduler.Fleet.Marks.{MarksReady, IsMarked, rounds-IsMarked}

-- Where a candidate points in the schedules from an index on.
abbrev PointsFrom : ℕ → List InitiativeSchedule → SchedulingCandidate → Type 0
PointsFrom index schedules candidate =
    (j : ℕ) × (candidate.schedule_index ≡ index + j)
    × ((schedule : InitiativeSchedule) (decision : InitiativeTaskSchedule)
        → get_elem? schedules j ≡ some schedule
        → get_elem? schedule.tasks candidate.decision_index ≡ some decision
        → decision.state ≡ TaskState.ready)

-- A plan without launchable decisions whose candidates point to ready members.
record IsPlan (index : ℕ) (plan : FleetPlan) : Type 0 where
  unmarked :
      (schedule : InitiativeSchedule)
      → In schedule plan.schedules
      → (decision : InitiativeTaskSchedule) → In decision schedule.tasks
      → decision.launchable ≡ false
  points :
      (candidates : List SchedulingCandidate)
      → In candidates plan.candidates
      → (candidate : SchedulingCandidate) → In candidate candidates
      → PointsFrom index plan.schedules candidate

module _ (tasks : List Task) (artifacts : List ComponentContractArtifact) where
  plan_loop-IsPlan :
      (index : ℕ) (owned : List Text) (initiatives : List DevelopmentInitiative) (plan : FleetPlan)
      → plan_loop tasks artifacts index owned initiatives ≡ ok plan
      → IsPlan index plan
  unfolding plan_loop
  plan_loop-IsPlan index owned [] plan h =
      subst (IsPlan index) (ok-injective h)
        (record { unmarked = λ s m. elim m [ ]; points = λ cs m. elim m [ ] })
  plan_loop-IsPlan index owned (initiative ∷ initiatives) plan h =
      let (valid, h1) = >>-eq-ok (require (is_ok (validate_initiative initiative)) _) _ h in
      let (one, planned, h2) =
        >>=-eq-ok
          (schedule_one_initiative initiative tasks (artifacts_of initiative.handle artifacts) index
            owned)
          _ h1 in
      let (rest, looped, h3) =
        >>=-eq-ok (plan_loop tasks artifacts (index + 1) one.2 initiatives) _ h2 in
      let later = plan_loop-IsPlan (index + 1) one.2 initiatives rest looped in
      let (unmarked, points) =
        plan-points initiative tasks (artifacts_of initiative.handle artifacts) index owned one.2
          one.0 one.1 planned in
      let whole : IsPlan index
          (record { schedules = one.0 ∷ rest.schedules; candidates = one.1 ∷ rest.candidates }) =
        record {
          unmarked = λ s m. elim (In-cons m) [
            | inl same ↦ λ d n. unmarked d (subst (λ (x : InitiativeSchedule). In d x.tasks) same n)
            | inr k ↦ later.unmarked s k
          ];
          points = λ cs m. elim (In-cons m) [
            | inl same ↦ λ c n.
                let (at', ready) = points c (subst (In c) same n) in
                (
                  0,
                  omega (arith, at'),
                  λ s d e f. ready d (
                      subst
                        (λ (x : InitiativeSchedule). get_elem? x.tasks c.decision_index ≡ some d)
                        (sym (some-injective e)) f),
                )
            | inr k ↦ λ c n.
                let (j, at', ready) = later.points cs k c n in (suc j, omega (arith, at'), ready)
          ];
        } in
      subst (IsPlan index) (ok-injective h3) whole

lane_candidates-In :
    (schedules : List InitiativeSchedule) (candidates : List (List SchedulingCandidate))
    (lane : Lane)
    → In lane (lanes_of schedules candidates)
    → In lane.candidates candidates
unfolding lanes_of
lane_candidates-In [] candidates lane m = elim m [ ]
lane_candidates-In (s ∷ ss) [] lane m = elim m [ ]
lane_candidates-In (s ∷ ss) (cs ∷ more) lane m = elim (In-cons m) [
  | inl same ↦ rw same In.here
  | inr k ↦ In.there (lane_candidates-In ss more lane k)
]

plan-IsMarked :
    (plan : FleetPlan)
    → IsPlan 0 plan
    → IsMarked (lanes_of plan.schedules plan.candidates) plan.schedules
plan-IsMarked plan p = record {
  marks = λ s m d n l. absurd (cc (sym (p.unmarked s m d n) ∙ l));
  points = λ lane m c n s d e f.
      let (j, at', ready) =
        p.points lane.candidates (lane_candidates-In plan.schedules plan.candidates lane m) c n in
      ready s d (subst (λ (i : ℕ). get_elem? plan.schedules i ≡ some s) (from_zero at') e) f;
}
  where
    from_zero : {i j : ℕ} → i ≡ 0 + j → i ≡ j
    from_zero e = omega (arith, e)

-- Deriving the states leaves the decisions.
derived-In :
    (initiatives : List DevelopmentInitiative) (schedules : List InitiativeSchedule)
    (schedule : InitiativeSchedule)
    → In schedule (derive_states initiatives schedules)
    → (before : InitiativeSchedule) × In before schedules × (schedule.tasks ≡ before.tasks)
unfolding derive_states
derived-In [] schedules schedule m = elim m [ ]
derived-In (i ∷ is) [] schedule m = elim m [ ]
derived-In (i ∷ is) (s ∷ ss) schedule m = elim (In-cons m) [
  | inl same ↦ (s, In.here, ap (λ (x : InitiativeSchedule). x.tasks) same)
  | inr k ↦
      let (before, found, same) = derived-In is ss schedule k in (before, In.there found, same)
]

fleet-MarksReady :
    (initiatives : List DevelopmentInitiative) (tasks : List Task)
    (artifacts : List ComponentContractArtifact) (limits : InitiativeSchedulingLimits)
    (usage : SchedulingUsage) (schedules : List InitiativeSchedule)
    → plan_fleet initiatives tasks artifacts limits usage ≡ ok schedules
    → MarksReady schedules
unfolding plan_fleet allocate_initiative_candidates
fleet-MarksReady initiatives tasks artifacts limits usage schedules h schedule m decision n l =
    let ordered = in_creation_order initiatives in
    let (indexed, h1) = >>-eq-ok (index_scheduling_artifacts ordered artifacts) _ h in
    let (plan, looped, h2) = >>=-eq-ok (plan_loop tasks artifacts 0 [] ordered) _ h1 in
    let lanes = lanes_of plan.schedules plan.candidates in
    let marked =
      rounds-IsMarked limits lanes 0 (maximum_round lanes)
        (record { schedules = plan.schedules; usage = usage })
        (plan-IsMarked plan (plan_loop-IsPlan tasks artifacts 0 [] ordered plan looped)) in
    let allocated =
      run_rounds limits lanes 0 (maximum_round lanes)
        (record { schedules = plan.schedules; usage = usage }) in
    let (before, found, same) =
      derived-In ordered allocated.schedules schedule
        (subst (In schedule) (sym (ok-injective h2)) m) in
    marked.marks before found decision (subst (In decision) same n) l

-- In the schedules that ScheduleInitiatives returns, every launchable decision is of a member in the
-- ready state.
pub launchable_member_is_ready :
    (platform : Platform) (initiatives : List DevelopmentInitiative) (tasks : List Task)
    (artifacts : List ComponentContractArtifact) (limits : InitiativeSchedulingLimits)
    (schedules : List InitiativeSchedule)
    → schedule_initiatives platform initiatives tasks artifacts limits ≡ ok schedules
    → (schedule : InitiativeSchedule) → In schedule schedules
    → (decision : InitiativeTaskSchedule) → In decision schedule.tasks
    → decision.launchable ≡ true
    → decision.state ≡ TaskState.ready
unfolding schedule_initiatives
launchable_member_is_ready platform initiatives tasks artifacts limits schedules h =
    let (valid, h1) = >>-eq-ok (validate_scheduling_limits limits) _ h in
    let (indexed, found, h2) = >>=-eq-ok (index_scheduling_tasks platform tasks limits) _ h1 in
    fleet-MarksReady initiatives indexed.0 artifacts limits indexed.1 schedules h2
