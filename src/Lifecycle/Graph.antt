-- ===== src/Lifecycle/Graph.antt =====
-- The lifecycle of internal/domain/task_transition.go as a graph of states.
use comis_dev_crew.Base.{◌≡◌, refl, ◌↔◌, true, none, some, arith}
use comis_dev_crew.Lifecycle.{TaskState, TaskTransition, next_task_state, valid_state}

-- Whatever state a task is in, the state after an accepted event is one of the closed set.
next_task_state-valid :
    (s : TaskState) (e : TaskTransition) {t : TaskState}
    → next_task_state s e ≡ some t
    → valid_state t ≡ true
unfolding next_task_state valid_state
next_task_state-valid s TaskTransition.bind_acknowledged h = ground arith
next_task_state-valid s _ h = ground arith

-- No event leaves the cleaned state.
cleaned_is_final : (e : TaskTransition) → next_task_state TaskState.cleaned e ≡ none
unfolding next_task_state
cleaned_is_final TaskTransition.bind_acknowledged = refl
cleaned_is_final _ = refl

-- An unknown task accepts exactly one event, the start of reconciliation: it never becomes a
-- success, a failure or a cleanup by itself.
unknown_only_reconciles :
    (e : TaskTransition) (t : TaskState)
    → (next_task_state TaskState.unknown e ≡ some t)
      ↔ ((e ≡ TaskTransition.reconcile_required) × (t ≡ TaskState.reconciling))
unfolding next_task_state
unknown_only_reconciles TaskTransition.bind_acknowledged t = (λ h. ground arith, λ h. ground arith)
unknown_only_reconciles _ t = (λ h. ground arith, λ h. ground arith)
