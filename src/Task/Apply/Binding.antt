-- ===== src/Task/Apply/Binding.antt =====
-- Lemmas on AcknowledgeBinding of internal/domain/binding.go.
use comis_dev_crew.Base.{
  ◌≡◌, refl, sym, ◌⊎◌, inl, inr, true, none, some, arith, is_ok, ok, Bool-cases, Time,
  is_ok-eq-true,
}
use comis_dev_crew.Text.{text_eq}
use comis_dev_crew.Text.Laws.{text_eq_refl, text_eq_sound}
use comis_dev_crew.Platform.{Platform}
use comis_dev_crew.Lifecycle.{TaskState, TaskTransition, next_task_state, same_state}
use comis_dev_crew.Task.{Task}
use comis_dev_crew.Task.Apply.{
  TaskBinding, validate_binding, is_binding_replay, is_unbound_preparation, acknowledge_binding,
  apply_transition, bound,
}
use comis_dev_crew.Task.Apply.Laws.{apply_transition-IsStep, outcome_eq}

-- The task is ready and carries exactly the references of the binding.
pub record IsBound (task : Task) (binding : TaskBinding) : Type 0 where
  pub ready : task.state ≡ TaskState.ready
  pub run : task.managed_run_id ≡ binding.managed_run_id
  pub lease : task.workspace_lease_id ≡ binding.workspace_lease_id

bind_enters_ready :
    (s t : TaskState)
    → same_state s TaskState.prepared ≡ true
    → next_task_state s TaskTransition.bind_acknowledged ≡ some t
    → t ≡ TaskState.ready
unfolding next_task_state text_eq
bind_enters_ready s t p h = ground arith

replay-IsBound : (task : Task) (b : TaskBinding) → is_binding_replay task b ≡ true → IsBound task b
unfolding is_binding_replay
replay-IsBound task b h = record {
  ready = ground arith;
  run = text_eq_sound task.managed_run_id b.managed_run_id (ground arith);
  lease = text_eq_sound task.workspace_lease_id b.workspace_lease_id (ground arith);
}

IsBound-replay : (task : Task) (b : TaskBinding) → IsBound task b → is_binding_replay task b ≡ true
unfolding is_binding_replay
IsBound-replay task b h =
    rw (h.ready, h.run, h.lease, text_eq_refl b.managed_run_id, text_eq_refl b.workspace_lease_id)

preparation_state :
    (task : Task)
    → is_unbound_preparation task ≡ true
    → same_state task.state TaskState.prepared ≡ true
unfolding is_unbound_preparation
preparation_state task h = ground arith

module _ (platform : Platform) (task : Task) (b : TaskBinding) (at : Time) where
  -- How an acknowledgement can succeed.
  acknowledge_cases :
      (after : Task)
      → acknowledge_binding platform task b at ≡ (after, none)
      → (validate_binding b ≡ ok tt)
        × (((is_binding_replay task b ≡ true) × (after ≡ task))
            ⊎ ((is_unbound_preparation task ≡ true)
                × (apply_transition platform (bound task b) TaskTransition.bind_acknowledged at
                    ≡ (after, none))))
  unfolding acknowledge_binding
  acknowledge_cases after h = elim (Bool-cases (is_ok (validate_binding b))) [
    | inr bad ↦ cc (outcome_eq {task = task} refl (rw bad at h)).1
    | inl good ↦ (
      is_ok-eq-true (validate_binding b) good,
      elim (Bool-cases (is_binding_replay task b)) [
        | inl again ↦ inl (again, sym (outcome_eq {task = task} refl (rw (good, again) at h)).0)
        | inr first ↦ elim (Bool-cases (is_unbound_preparation task)) [
          | inl unbound ↦ inr (unbound, rw (good, first, unbound) at h)
          | inr taken ↦ cc (outcome_eq {task = task} refl (rw (good, first, taken) at h)).1
        ]
      ],
    )
  ]

  -- After a successful acknowledgement the task is ready with exactly the acknowledged references.
  pub acknowledge_binding-IsBound :
      (after : Task) → acknowledge_binding platform task b at ≡ (after, none) → IsBound after b
  acknowledge_binding-IsBound after h = elim (acknowledge_cases after h).1 [
    | inl again ↦ rw again.1 (replay-IsBound task b again.0)
    | inr first ↦
        let st =
          apply_transition-IsStep platform (bound task b) TaskTransition.bind_acknowledged at after
            first.1 in
        rw st.result (record {
          ready = bind_enters_ready task.state st.next (preparation_state task first.0) st.allowed;
          run = refl;
          lease = refl;
        })
  ]

  -- A successful acknowledgement that is sent again, at any time, changes nothing and succeeds.
  pub acknowledge_replay :
      (after : Task) (later : Time)
      → acknowledge_binding platform task b at ≡ (after, none)
      → acknowledge_binding platform after b later ≡ (after, none)
  unfolding acknowledge_binding
  acknowledge_replay after later h =
      rw (
        (acknowledge_cases after h).0,
        IsBound-replay after b (acknowledge_binding-IsBound after h),
      )
