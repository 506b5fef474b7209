-- ===== src/Scheduler/Fleet/Marks.antt =====
-- The launchable marks during the rounds of internal/application/initiative_scheduler.go.
use mathlib.Core.Path.{subst}
use comis_dev_crew.Base.{
  ℕ, zero, suc, ◌+◌, ◌-◌, ◌≡◌, refl, ap, ◌∙◌, inl, inr, true, List, [], ◌∷◌, Option, none, some, In,
  Bool-cases, get_elem?, ltb,
}
use comis_dev_crew.Lifecycle.{TaskState}
use comis_dev_crew.Scheduler.{
  InitiativeSchedule, InitiativeTaskSchedule, InitiativeSchedulingLimits, InitiativeScheduleReason,
}
use comis_dev_crew.Scheduler.Allocate.{
  SchedulingCandidate, scheduling_capacity_available, update_at, decide, Allocation, offer, Lane,
  candidate_of_round, offer_if, allocate_round, run_rounds,
}
use comis_dev_crew.Scheduler.Fleet.Updates.{get_elem?-In, In-update_at, get_elem?-update_at}

-- Every launchable decision is of a ready member.
abbrev pub MarksReady : List InitiativeSchedule → Type 0
MarksReady schedules =
    (schedule : InitiativeSchedule)
    → In schedule schedules
    → (decision : InitiativeTaskSchedule) → In decision schedule.tasks
    → decision.launchable ≡ true
    → decision.state ≡ TaskState.ready

-- The decision at the two indices of a candidate is of a ready member.
abbrev pub PointsReady : SchedulingCandidate → List InitiativeSchedule → Type 0
PointsReady candidate schedules =
    (schedule : InitiativeSchedule) (decision : InitiativeTaskSchedule)
    → get_elem? schedules candidate.schedule_index ≡ some schedule
    → get_elem? schedule.tasks candidate.decision_index ≡ some decision
    → decision.state ≡ TaskState.ready

-- A change that leaves the state of a decision.
abbrev KeepsState : (InitiativeTaskSchedule → InitiativeTaskSchedule) → Type 0
KeepsState change = (decision : InitiativeTaskSchedule) → (change decision).state ≡ decision.state

module _ (candidate : SchedulingCandidate)
    (change : InitiativeTaskSchedule → InitiativeTaskSchedule) (keeps : KeepsState change)
    (schedules : List InitiativeSchedule) where
  abbrev rewrite_schedule : InitiativeSchedule → InitiativeSchedule
  rewrite_schedule schedule = record schedule {
    tasks = update_at candidate.decision_index change schedule.tasks;
  }

  decide-MarksReady :
      MarksReady schedules
      → PointsReady candidate schedules
      → MarksReady (decide candidate change schedules)
  unfolding decide
  decide-MarksReady marks points schedule m decision n l =
      elim (In-update_at candidate.schedule_index rewrite_schedule schedules m) [
        | inl old ↦ marks schedule old decision n l
        | inr (before, found, same) ↦
            elim (In-update_at candidate.decision_index change before.tasks
              (in_tasks before same n)) [
                | inl old ↦
                    marks before (get_elem?-In candidate.schedule_index schedules found) decision
                      old l
                | inr (first, at', same') ↦
                    ap (λ (d : InitiativeTaskSchedule). d.state) same'
                    ∙ (keeps first ∙ points before first found at')
              ]
      ]
    where
      in_tasks :
          (before : InitiativeSchedule)
          → schedule ≡ rewrite_schedule before
          → In decision schedule.tasks
          → In decision (update_at candidate.decision_index change before.tasks)
      in_tasks before same k = subst (λ (s : InitiativeSchedule). In decision s.tasks) same k

  decide-PointsReady :
      (other : SchedulingCandidate)
      → PointsReady other schedules
      → PointsReady other (decide candidate change schedules)
  unfolding decide
  decide-PointsReady other points schedule decision s d =
      let (before, found, kept) =
        get_elem?-update_at candidate.schedule_index other.schedule_index rewrite_schedule schedules
          s in
      elim kept [
        | inl same ↦ points before decision found (
            subst
              (λ (s : InitiativeSchedule). get_elem? s.tasks other.decision_index ≡ some decision)
              same d)
        | inr same ↦
            let (first, at', kept') =
              get_elem?-update_at candidate.decision_index other.decision_index change before.tasks
                (subst
                  (λ (s : InitiativeSchedule).
                    get_elem? s.tasks other.decision_index ≡ some decision)
                  same d) in
            let ready = points before first found at' in
            elim kept' [
              | inl same' ↦ ap (λ (d : InitiativeTaskSchedule). d.state) same' ∙ ready
              | inr same' ↦
                  ap (λ (d : InitiativeTaskSchedule). d.state) same' ∙ (keeps first ∙ ready)
            ]
      ]

-- Every candidate of every lane points to a ready member.
abbrev pub LanesReady : List Lane → List InitiativeSchedule → Type 0
LanesReady lanes schedules =
    (lane : Lane)
    → In lane lanes
    → (candidate : SchedulingCandidate) → In candidate lane.candidates
    → PointsReady candidate schedules

-- The two facts that every step of the rounds keeps.
pub record IsMarked (lanes : List Lane) (schedules : List InitiativeSchedule) : Type 0 where
  pub marks : MarksReady schedules
  pub points : LanesReady lanes schedules

decide-IsMarked :
    (candidate : SchedulingCandidate) (change : InitiativeTaskSchedule → InitiativeTaskSchedule)
    → KeepsState change
    → (lanes : List Lane) (schedules : List InitiativeSchedule) → PointsReady candidate schedules
    → IsMarked lanes schedules
    → IsMarked lanes (decide candidate change schedules)
decide-IsMarked candidate change keeps lanes schedules ready marked = record {
  marks = decide-MarksReady candidate change keeps schedules marked.marks ready;
  points = λ lane m other n.
      decide-PointsReady candidate change keeps schedules other (marked.points lane m other n);
}

module _ (limits : InitiativeSchedulingLimits) (lanes : List Lane) where
  offer-IsMarked :
      (candidate : SchedulingCandidate) (allocation : Allocation)
      → PointsReady candidate allocation.schedules
      → IsMarked lanes allocation.schedules
      → IsMarked lanes (offer limits candidate allocation).schedules
  unfolding offer
  offer-IsMarked candidate allocation ready marked =
      elim (Bool-cases (scheduling_capacity_available candidate.task limits allocation.usage)) [
        | inl room ↦
            rw (room, offer)
              (decide-IsMarked candidate (λ decision. record decision { launchable = true })
                (λ d. refl) lanes allocation.schedules ready marked)
        | inr full ↦
            rw (full, offer)
              (decide-IsMarked candidate
                (λ decision. record decision { reason = InitiativeScheduleReason.resource_queued })
                (λ d. refl) lanes allocation.schedules ready marked)
      ]

  candidate_of_round-In :
      (lane : Lane) (round : ℕ) (candidate : SchedulingCandidate)
      → candidate_of_round lane round ≡ some candidate
      → In candidate lane.candidates
  unfolding candidate_of_round
  candidate_of_round-In lane round candidate h = elim (Bool-cases (ltb round lane.offset)) [
    | inl early ↦ absurd (cc (rw (early, candidate_of_round) at h))
    | inr due ↦
        get_elem?-In (round - lane.offset) lane.candidates (rw (due, candidate_of_round) at h)
  ]

  offer_if-IsMarked :
      (lane : Lane) (round : ℕ) (found : Option SchedulingCandidate) (allocation : Allocation)
      → In lane lanes
      → candidate_of_round lane round ≡ found
      → IsMarked lanes allocation.schedules
      → IsMarked lanes (offer_if limits found allocation).schedules
  offer_if-IsMarked lane round none allocation m e marked = marked
  offer_if-IsMarked lane round (some candidate) allocation m e marked =
      offer-IsMarked candidate allocation
        (marked.points lane m candidate (candidate_of_round-In lane round candidate e)) marked

  round-IsMarked :
      (round : ℕ) (some_lanes : List Lane) (allocation : Allocation)
      → ((lane : Lane) → In lane some_lanes → In lane lanes)
      → IsMarked lanes allocation.schedules
      → IsMarked lanes (allocate_round limits round some_lanes allocation).schedules
  unfolding allocate_round
  round-IsMarked round [] allocation inside marked = marked
  round-IsMarked round (lane ∷ more) allocation inside marked =
      let found = candidate_of_round lane round in
      round-IsMarked round more (offer_if limits found allocation) (λ l m. inside l (In.there m))
        (offer_if-IsMarked lane round found allocation (inside lane In.here) refl marked)

  -- The rounds keep the marks on ready members.
  pub rounds-IsMarked :
      (round count : ℕ) (allocation : Allocation)
      → IsMarked lanes allocation.schedules
      → IsMarked lanes (run_rounds limits lanes round count allocation).schedules
  unfolding run_rounds
  rounds-IsMarked round zero allocation marked = marked
  rounds-IsMarked round (suc count) allocation marked =
      rounds-IsMarked (round + 1) count (allocate_round limits round lanes allocation)
        (round-IsMarked round lanes allocation (λ lane m. m) marked)
