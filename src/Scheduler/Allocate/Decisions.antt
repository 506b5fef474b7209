-- ===== src/Scheduler/Allocate/Decisions.antt =====
-- What a turn does to a decision: `decision := &schedules[…].Tasks[…]` and the two assignments to it
-- in allocateInitiativeCandidates of internal/application/initiative_scheduler.go.
use comis_dev_crew.Base.{
  ℕ, zero, suc, ◌≡◌, refl, ap, ◌⊎◌, inl, inr, true, List, [], ◌∷◌, some, some-injective, get_elem?,
}
use comis_dev_crew.Text.{Text}
use comis_dev_crew.Scheduler.{InitiativeSchedule, InitiativeTaskSchedule, InitiativeScheduleReason}
use comis_dev_crew.Scheduler.Allocate.{SchedulingCandidate, update_at, decide}

-- An element after an update in place is the one before, or its update.
get_elem?-update_at :
    {A : Type 0} (k i : ℕ) (f : A → A) (xs : List A) (x : A)
    → get_elem? xs i ≡ some x
    → (get_elem? (update_at k f xs) i ≡ some x) ⊎ (get_elem? (update_at k f xs) i ≡ some (f x))
unfolding update_at
get_elem?-update_at k i f [] x h = cc
get_elem?-update_at zero zero f (y ∷ ys) x h = inr (ap (λ a. some (f a)) (some-injective h))
get_elem?-update_at zero (suc i) f (y ∷ ys) x h = inl h
get_elem?-update_at (suc k) zero f (y ∷ ys) x h = inl h
get_elem?-update_at (suc k) (suc i) f (y ∷ ys) x h = get_elem?-update_at k i f ys x h

get_elem?-update_at_own :
    {A : Type 0} (i : ℕ) (f : A → A) (xs : List A) (x : A)
    → get_elem? xs i ≡ some x
    → get_elem? (update_at i f xs) i ≡ some (f x)
unfolding update_at
get_elem?-update_at_own i f [] x h = cc
get_elem?-update_at_own zero f (y ∷ ys) x h = ap (λ a. some (f a)) (some-injective h)
get_elem?-update_at_own (suc i) f (y ∷ ys) x h = get_elem?-update_at_own i f ys x h

-- The decision at two indices, with a property.
pub record DecisionAt (P : InitiativeTaskSchedule → Type 0) (i j : ℕ)
    (schedules : List InitiativeSchedule) : Type 0 where
  pub schedule : InitiativeSchedule
  pub decision : InitiativeTaskSchedule
  pub placed : get_elem? schedules i ≡ some schedule
  pub listed : get_elem? schedule.tasks j ≡ some decision
  pub holds : P decision

-- A decision on a member.
abbrev pub IsOn : Text → InitiativeTaskSchedule → Type 0
IsOn handle decision = decision.task_handle ≡ handle

-- The member has been given a slot, or has been told that it waits for one.
pub record IsDecided (handle : Text) (decision : InitiativeTaskSchedule) : Type 0 where
  pub on : IsOn handle decision
  pub outcome :
      (decision.launchable ≡ true) ⊎ (decision.reason ≡ InitiativeScheduleReason.resource_queued)

module _ (P Q : InitiativeTaskSchedule → Type 0) (candidate : SchedulingCandidate)
    (change : InitiativeTaskSchedule → InitiativeTaskSchedule) where
  pub decide-keeps :
      (i j : ℕ) (schedules : List InitiativeSchedule)
      → ((decision : InitiativeTaskSchedule) → P decision → P (change decision))
      → DecisionAt P i j schedules
      → DecisionAt P i j (decide candidate change schedules)
  unfolding decide
  decide-keeps i j schedules kept at =
      let within : InitiativeSchedule → InitiativeSchedule = λ schedule. record schedule {
        tasks = update_at candidate.decision_index change schedule.tasks;
      } in
      elim (get_elem?-update_at candidate.schedule_index i within schedules at.schedule at.placed) [
        | inl same ↦ record {
          schedule = at.schedule;
          decision = at.decision;
          placed = same;
          listed = at.listed;
          holds = at.holds;
        }
        | inr changed ↦
            elim (get_elem?-update_at candidate.decision_index j change at.schedule.tasks
              at.decision at.listed) [
                | inl same ↦ record {
                  schedule = within at.schedule;
                  decision = at.decision;
                  placed = changed;
                  listed = same;
                  holds = at.holds;
                }
                | inr own ↦ record {
                  schedule = within at.schedule;
                  decision = change at.decision;
                  placed = changed;
                  listed = own;
                  holds = kept at.decision at.holds;
                }
              ]
      ]

  pub decide-own :
      (schedules : List InitiativeSchedule)
      → ((decision : InitiativeTaskSchedule) → P decision → Q (change decision))
      → DecisionAt P candidate.schedule_index candidate.decision_index schedules
      → DecisionAt Q candidate.schedule_index candidate.decision_index
          (decide candidate change schedules)
  unfolding decide
  decide-own schedules made at = record {
    schedule = record at.schedule {
      tasks = update_at candidate.decision_index change at.schedule.tasks;
    };
    decision = change at.decision;
    placed = get_elem?-update_at_own candidate.schedule_index _ schedules at.schedule at.placed;
    listed =
        get_elem?-update_at_own candidate.decision_index change at.schedule.tasks at.decision
          at.listed;
    holds = made at.decision at.holds;
  }

-- What every turn keeps.
pub record IsStable (P : InitiativeTaskSchedule → Type 0) : Type 0 where
  pub granted : (d : InitiativeTaskSchedule) → P d → P (record d { launchable = true })
  pub queued :
      (d : InitiativeTaskSchedule)
      → P d
      → P (record d { reason = InitiativeScheduleReason.resource_queued })

pub IsOn-IsStable : (handle : Text) → IsStable (IsOn handle)
IsOn-IsStable handle = record { granted = λ d on. on; queued = λ d on. on }

pub IsDecided-IsStable : (handle : Text) → IsStable (IsDecided handle)
IsDecided-IsStable handle = record {
  granted = λ d p. record { on = p.on; outcome = inl refl };
  queued = λ d p. record { on = p.on; outcome = inr refl };
}
