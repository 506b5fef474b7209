-- ===== src/Scheduler/Derive/Laws.antt =====
-- Lemmas on deriveInitiativeState of internal/application/initiative_scheduler.go.
use comis_dev_crew.Base.{
  ◌≡◌, ◌≢◌, refl, ◌⊎◌, inl, inr, true, false, List, [], ◌∷◌, arith, In, In-cons, all, any,
}
use comis_dev_crew.Text.{text_eq}
use comis_dev_crew.Lifecycle.{TaskState, same_state}
use comis_dev_crew.Initiative.{DevelopmentInitiative, InitiativeState}
use comis_dev_crew.Scheduler.{InitiativeTaskSchedule}
use comis_dev_crew.Scheduler.Derive.{
  all_task_states, is_settled, derive_from_members, derive_initiative_state, finished_states,
}

finished_state :
    (s : TaskState)
    → any (λ state. same_state s state) finished_states ≡ true
    → (s ≡ TaskState.delivered) ⊎ (s ≡ TaskState.cleaned)
unfolding text_eq
finished_state TaskState.delivered h = inl refl
finished_state TaskState.cleaned h = inr refl
finished_state _ h = cc

all_finished :
    (decisions : List InitiativeTaskSchedule)
    → all (λ decision. any (λ state. same_state decision.state state) finished_states) decisions
      ≡ true
    → (decision : InitiativeTaskSchedule) → In decision decisions
    → (decision.state ≡ TaskState.delivered) ⊎ (decision.state ≡ TaskState.cleaned)
all_finished [] h decision m = elim m [ ]
all_finished (d ∷ ds) h decision m = elim (In-cons m) [
  | inl same ↦ rw same (finished_state d.state (ground arith))
  | inr k ↦ all_finished ds (ground arith) decision k
]

members_never_deliver :
    (decisions : List InitiativeTaskSchedule)
    → derive_from_members decisions ≢ InitiativeState.delivered
unfolding derive_from_members
members_never_deliver decisions h = ground arith

-- An initiative that is not settled yet is derived as delivered only where it has members and every
-- member is delivered or cleaned.
pub derived_delivery :
    (initiative : DevelopmentInitiative) (decisions : List InitiativeTaskSchedule)
    → is_settled initiative.state ≡ false
    → derive_initiative_state initiative decisions ≡ InitiativeState.delivered
    → (decisions ≢ [])
      × ((decision : InitiativeTaskSchedule)
          → In decision decisions
          → (decision.state ≡ TaskState.delivered) ⊎ (decision.state ≡ TaskState.cleaned))
unfolding derive_initiative_state all_task_states
derived_delivery initiative decisions open' h =
    let finished : all_task_states decisions finished_states ≡ true =
      ground (arith, members_never_deliver decisions) in
    (λ e. cc (rw e at finished), all_finished decisions (ground (arith, finished)))
