-- ===== src/Scheduler/Allocate/Turns.antt =====
-- The turns of candidates in allocateInitiativeCandidates of
-- internal/application/initiative_scheduler.go.
use mathlib.Core.Path.{subst}
use comis_dev_crew.Base.{
  ℕ, zero, suc, ◌+◌, ◌-◌, ◌≤◌, ◌<◌, ◌≡◌, refl, sym, ap, ◌∙◌, inl, inr, true, false, List, [], ◌∷◌,
  Option, none, some, some-injective, arith, length, get_elem?, ltb, In, In-cons, here, there,
  Bool-cases,
}
use comis_dev_crew.Text.{Text}
use comis_dev_crew.Scheduler.{
  InitiativeSchedule, InitiativeTaskSchedule, InitiativeScheduleReason, InitiativeSchedulingLimits,
  SchedulingUsage,
}
use comis_dev_crew.Scheduler.Allocate.{
  SchedulingCandidate, Lane, scheduling_capacity_available, candidate_of_round, maximum_round,
  Allocation, offer, offer_if, allocate_round, run_rounds, lanes_of, initiative_round_offset,
  allocate_initiative_candidates,
}
use comis_dev_crew.Scheduler.Allocate.Decisions.{
  DecisionAt, IsOn, IsDecided, IsStable, decide-keeps, decide-own, IsOn-IsStable,
  IsDecided-IsStable,
}

get_elem?-lt-length :
    {A : Type 0} (xs : List A) (i : ℕ) {x : A} → get_elem? xs i ≡ some x → i < length xs
get_elem?-lt-length [] i h = cc
get_elem?-lt-length (y ∷ ys) zero h = omega arith
get_elem?-lt-length (y ∷ ys) (suc i) h = omega (arith, get_elem?-lt-length ys i h)

lane_end-le-maximum :
    (lanes : List Lane) (lane : Lane)
    → In lane lanes
    → lane.offset + length lane.candidates ≤ maximum_round lanes
unfolding maximum_round
lane_end-le-maximum [] lane m = elim m [ ]
lane_end-le-maximum (first ∷ lanes) lane m = elim (In-cons m) [
  | inl same ↦ rw same (ground arith)
  | inr k ↦ ground (arith, lane_end-le-maximum lanes lane k)
]

turn_of_candidate :
    (lane : Lane) (i : ℕ) → candidate_of_round lane (lane.offset + i) ≡ get_elem? lane.candidates i
unfolding candidate_of_round
turn_of_candidate lane i =
    let not_before : ltb (lane.offset + i) lane.offset ≡ false = ground arith in
    let index : (lane.offset + i) - lane.offset ≡ i = omega arith in rw (not_before, index)

In-get_elem? : {A : Type 0} (xs : List A) (x : A) → In x xs → (i : ℕ) × (get_elem? xs i ≡ some x)
In-get_elem? [] x m = elim m [ ]
In-get_elem? (y ∷ ys) x m = elim (In-cons m) [
  | inl same ↦ (0, ap some (sym same))
  | inr later ↦ let (i, h) = In-get_elem? ys x later in (suc i, h)
]

-- Each schedule has a lane with its candidates.
lanes_of-In :
    (schedules : List InitiativeSchedule) (candidates : List (List SchedulingCandidate)) (n : ℕ)
    (schedule : InitiativeSchedule) (row : List SchedulingCandidate)
    → get_elem? schedules n ≡ some schedule
    → get_elem? candidates n ≡ some row
    → In
        (record { offset = initiative_round_offset schedule.tasks; candidates = row })
        (lanes_of schedules candidates)
unfolding lanes_of
lanes_of-In [] candidates n schedule row h k = cc
lanes_of-In (s ∷ ss) [] n schedule row h k = cc
lanes_of-In (s ∷ ss) (c ∷ cs) zero schedule row h k =
    subst
      (λ (s' : InitiativeSchedule).
        In (record { offset = initiative_round_offset s'.tasks; candidates = row })
          (lanes_of (s ∷ ss) (c ∷ cs)))
      (some-injective h)
      (subst
        (λ c'.
          In (record { offset = initiative_round_offset s.tasks; candidates = c' })
            (lanes_of (s ∷ ss) (c ∷ cs)))
        (some-injective k) here)
lanes_of-In (s ∷ ss) (c ∷ cs) (suc n) schedule row h k =
    there (lanes_of-In ss cs n schedule row h k)

module _ (limits : InitiativeSchedulingLimits) where
  module _ (P : InitiativeTaskSchedule → Type 0) (stable : IsStable P) (i j : ℕ) where
    offer-keeps :
        (candidate : SchedulingCandidate) (allocation : Allocation)
        → DecisionAt P i j allocation.schedules
        → DecisionAt P i j (offer limits candidate allocation).schedules
    unfolding offer
    offer-keeps candidate allocation at =
        elim (Bool-cases (scheduling_capacity_available candidate.task limits allocation.usage)) [
          | inl free ↦ rw free (
              decide-keeps P P candidate (λ d. record d { launchable = true }) i j
                allocation.schedules stable.granted at)
          | inr full ↦ rw full (
              decide-keeps P P candidate
                (λ d. record d { reason = InitiativeScheduleReason.resource_queued }) i j
                allocation.schedules stable.queued at)
        ]

    allocate_round-keeps :
        (round : ℕ) (lanes : List Lane) (allocation : Allocation)
        → DecisionAt P i j allocation.schedules
        → DecisionAt P i j (allocate_round limits round lanes allocation).schedules
    unfolding allocate_round
    allocate_round-keeps round [] allocation at = at
    allocate_round-keeps round (lane ∷ lanes) allocation at =
        allocate_round-keeps round lanes
          (offer_if limits (candidate_of_round lane round) allocation)
          (offered (candidate_of_round lane round))
      where
        offered :
            (turn : Option SchedulingCandidate)
            → DecisionAt P i j (offer_if limits turn allocation).schedules
        offered none = at
        offered (some candidate) = offer-keeps candidate allocation at

    run_rounds-keeps :
        (lanes : List Lane) (start rounds : ℕ) (allocation : Allocation)
        → DecisionAt P i j allocation.schedules
        → DecisionAt P i j (run_rounds limits lanes start rounds allocation).schedules
    unfolding run_rounds
    run_rounds-keeps lanes start zero allocation at = at
    run_rounds-keeps lanes start (suc rounds) allocation at =
        run_rounds-keeps lanes (start + 1) rounds (allocate_round limits start lanes allocation)
          (allocate_round-keeps start lanes allocation at)

  module _ (handle : Text) (candidate : SchedulingCandidate) where
    -- The decision of the candidate, before its turn and after.
    abbrev Open : List InitiativeSchedule → Type 0
    Open = DecisionAt (IsOn handle) candidate.schedule_index candidate.decision_index

    abbrev Decided : List InitiativeSchedule → Type 0
    Decided = DecisionAt (IsDecided handle) candidate.schedule_index candidate.decision_index

    offer-decides :
        (allocation : Allocation)
        → Open allocation.schedules
        → Decided (offer limits candidate allocation).schedules
    unfolding offer
    offer-decides allocation at =
        elim (Bool-cases (scheduling_capacity_available candidate.task limits allocation.usage)) [
          | inl free ↦ rw free (
              decide-own (IsOn handle) (IsDecided handle) candidate
                (λ d. record d { launchable = true }) allocation.schedules
                (λ d on. record { on = on; outcome = inl refl }) at)
          | inr full ↦ rw full (
              decide-own (IsOn handle) (IsDecided handle) candidate
                (λ d. record d { reason = InitiativeScheduleReason.resource_queued })
                allocation.schedules (λ d on. record { on = on; outcome = inr refl }) at)
        ]

    allocate_round-decides :
        (round : ℕ) (lanes : List Lane) (lane : Lane) (allocation : Allocation)
        → In lane lanes
        → candidate_of_round lane round ≡ some candidate
        → Open allocation.schedules
        → Decided (allocate_round limits round lanes allocation).schedules
    unfolding allocate_round
    allocate_round-decides round [] lane allocation m turn at = elim m [ ]
    allocate_round-decides round (first ∷ lanes) lane allocation m turn at = elim (In-cons m) [
      | inl same ↦
          allocate_round-keeps (IsDecided handle) (IsDecided-IsStable handle)
            candidate.schedule_index candidate.decision_index round lanes
            (offer_if limits (candidate_of_round first round) allocation)
            (subst (λ offered. Decided (offer_if limits offered allocation).schedules)
              (sym (ap (λ l. candidate_of_round l round) (sym same) ∙ turn))
              (offer-decides allocation at))
      | inr later ↦
          allocate_round-decides round lanes lane
            (offer_if limits (candidate_of_round first round) allocation) later turn
            (waiting (candidate_of_round first round))
    ]
      where
        waiting :
            (offered : Option SchedulingCandidate)
            → Open (offer_if limits offered allocation).schedules
        waiting none = at
        waiting (some other) =
            offer-keeps (IsOn handle) (IsOn-IsStable handle) candidate.schedule_index
              candidate.decision_index other allocation at

    run_rounds-decides :
        (lanes : List Lane) (lane : Lane) (start rounds k : ℕ) (allocation : Allocation)
        → In lane lanes
        → k < rounds
        → candidate_of_round lane (start + k) ≡ some candidate
        → Open allocation.schedules
        → Decided (run_rounds limits lanes start rounds allocation).schedules
    unfolding run_rounds
    run_rounds-decides lanes lane start zero k allocation m less turn at =
        absurd (omega (arith, less))
    run_rounds-decides lanes lane start (suc rounds) zero allocation m less turn at =
        run_rounds-keeps (IsDecided handle) (IsDecided-IsStable handle) candidate.schedule_index
          candidate.decision_index lanes (start + 1) rounds
          (allocate_round limits start lanes allocation)
          (allocate_round-decides start lanes lane allocation m
            (let same : start + 0 ≡ start = omega arith in
              subst (λ round. candidate_of_round lane round ≡ some candidate) same turn)
            at)
    run_rounds-decides lanes lane start (suc rounds) (suc k) allocation m less turn at =
        run_rounds-decides lanes lane (start + 1) rounds k
          (allocate_round limits start lanes allocation) m (omega (arith, less))
          (let same : start + suc k ≡ (start + 1) + k = omega arith in
            subst (λ round. candidate_of_round lane round ≡ some candidate) same turn)
          (allocate_round-keeps (IsOn handle) (IsOn-IsStable handle) candidate.schedule_index
            candidate.decision_index start lanes allocation at)

-- After the allocation every candidate has been decided: where the list of an initiative that takes
-- part has a candidate, and the candidate's two indices are those of a decision on a member, the
-- decision at these indices is then still on that member, and it is launchable or its reason is that
-- the resources are taken.
pub every_candidate-IsDecided :
    (schedules : List InitiativeSchedule) (candidates : List (List SchedulingCandidate))
    (limits : InitiativeSchedulingLimits) (usage : SchedulingUsage) (n : ℕ)
    (schedule : InitiativeSchedule) (row : List SchedulingCandidate)
    (candidate : SchedulingCandidate) (handle : Text)
    → get_elem? schedules n ≡ some schedule
    → get_elem? candidates n ≡ some row
    → In candidate row
    → DecisionAt (IsOn handle) candidate.schedule_index candidate.decision_index schedules
    → DecisionAt
        (IsDecided handle)
        candidate.schedule_index
        candidate.decision_index
        (allocate_initiative_candidates schedules candidates limits usage).schedules
unfolding allocate_initiative_candidates
every_candidate-IsDecided schedules candidates limits usage n schedule row candidate handle h k m
      at =
    let lane : Lane = record {
      offset = initiative_round_offset schedule.tasks;
      candidates = row;
    } in
    let (i, listed) = In-get_elem? row candidate m in
    let inside : In lane (lanes_of schedules candidates) =
      lanes_of-In schedules candidates n schedule row h k in
    run_rounds-decides limits handle candidate (lanes_of schedules candidates) lane 0
      (maximum_round (lanes_of schedules candidates)) (lane.offset + i)
      (record { schedules = schedules; usage = usage }) inside
      (omega (
        arith,
        lane_end-le-maximum (lanes_of schedules candidates) lane inside,
        get_elem?-lt-length row i listed,
      ))
      (let first : 0 + (lane.offset + i) ≡ lane.offset + i = omega arith in
        ap (candidate_of_round lane) first ∙ turn_of_candidate lane i ∙ listed)
      at
