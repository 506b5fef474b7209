-- ===== src/Lifecycle/Reach.antt =====
-- Runs of the lifecycle of internal/domain/task_transition.go: sequences of accepted events.
use comis_dev_crew.Base.{
  ℕ, zero, suc, ◌≤◌, ◌≡◌, ◌≢◌, refl, ◌⊎◌, inl, inr, false, List, [], ◌∷◌, some, arith, length, All,
}
use native.Mathlib.Decide.{ℕ_discrete}
use comis_dev_crew.Lifecycle.{TaskState, TaskTransition, next_task_state, is_reconcile_required}

-- The events of the list are accepted one after another, and lead from the first state to the last.
pub data Run : TaskState → List TaskTransition → TaskState → Type 0 where
  stop : {s : TaskState} → Run s [] s
  step :
      {s t u : TaskState} {e : TaskTransition} {es : List TaskTransition}
      → next_task_state s e ≡ some t
      → Run t es u
      → Run s (e ∷ es) u

-- One list of events stands in another in order, possibly with others between.
pub data Embeds : List TaskTransition → List TaskTransition → Type 0 where
  done : {es : List TaskTransition} → Embeds [] es
  take :
      {e : TaskTransition} {ds es : List TaskTransition} → Embeds ds es → Embeds (e ∷ ds) (e ∷ es)
  skip : {e : TaskTransition} {ds es : List TaskTransition} → Embeds ds es → Embeds ds (e ∷ es)

abbrev pub evidence_chain : List TaskTransition
evidence_chain =
    TaskTransition.validation_accepted ∷ TaskTransition.delivery_started
    ∷ TaskTransition.delivery_accepted ∷ []

-- How many of the three events still separate a state from delivery, and which.
abbrev stages_left : TaskState → ℕ
stages_left TaskState.delivered = 0
stages_left TaskState.delivering = 1
stages_left TaskState.candidate_complete = 2
stages_left _ = 3

abbrev next_stage : ℕ → TaskTransition
next_stage zero = TaskTransition.delivery_accepted
next_stage (suc zero) = TaskTransition.delivery_started
next_stage (suc (suc n)) = TaskTransition.validation_accepted

abbrev needed : ℕ → List TaskTransition
needed zero = []
needed (suc n) = next_stage n ∷ needed n

Embeds-tail : {e : TaskTransition} {ds es : List TaskTransition} → Embeds (e ∷ ds) es → Embeds ds es
Embeds-tail (take m) = skip m
Embeds-tail (skip m) = skip (Embeds-tail m)

le-zero : (n : ℕ) → n ≤ 0 → n ≡ 0
le-zero n h = omega arith

-- Fewer stages are needed where more are met.
needed_mono :
    (m n : ℕ) (es : List TaskTransition) → n ≤ m → Embeds (needed m) es → Embeds (needed n) es
needed_mono zero n es h m = rw (le-zero n h) m
needed_mono (suc k) n es h m = elim (ℕ_discrete n (suc k)) [
  | yes same ↦ rw same m
  | no other ↦ needed_mono k n es (omega arith) (Embeds-tail m)
]

-- Outside reconciliation an event either is the next stage, or moves no nearer to delivery.
stage_step :
    (s : TaskState) (e : TaskTransition) {t : TaskState}
    → next_task_state s e ≡ some t
    → is_reconcile_required e ≡ false
    → s ≢ TaskState.reconciling
    → (stages_left s ≤ stages_left t)
      ⊎ (stages_left s ≡ suc (stages_left t)) × (e ≡ next_stage (stages_left t))
unfolding next_task_state
stage_step s TaskTransition.bind_acknowledged h r n = ground arith
stage_step s _ h r n = ground arith

not_reconciling_step :
    (s : TaskState) (e : TaskTransition) {t : TaskState}
    → next_task_state s e ≡ some t
    → is_reconcile_required e ≡ false
    → s ≢ TaskState.reconciling
    → t ≢ TaskState.reconciling
unfolding next_task_state
not_reconciling_step s TaskTransition.bind_acknowledged h r n = ground arith
not_reconciling_step s _ h r n = ground arith

Run-needed :
    {s : TaskState} {es : List TaskTransition}
    → Run s es TaskState.delivered
    → All (λ e. is_reconcile_required e ≡ false) es
    → s ≢ TaskState.reconciling
    → Embeds (needed (stages_left s)) es
Run-needed stop r n = done
Run-needed (step {s = s} {t = t} {e = e} {es = es} h run) r n =
    let later = Run-needed run r.1 (not_reconciling_step s e h r.0 n) in
    elim (stage_step s e h r.0 n) [
      | inl less ↦ skip (needed_mono (stages_left t) (stages_left s) es less later)
      | inr next ↦ rw (next.0, ← next.1) (take later)
    ]

-- A run without reconciliation that takes a prepared task to delivered accepted validation
-- evidence, then started a delivery, then accepted that delivery, in this order.
pub delivered_through_evidence :
    {es : List TaskTransition}
    → Run TaskState.prepared es TaskState.delivered
    → All (λ e. is_reconcile_required e ≡ false) es
    → Embeds evidence_chain es
delivered_through_evidence run r = Run-needed run r (λ e. cc)

abbrev after_reconcile : List TaskTransition
after_reconcile = TaskTransition.reconciled_cleanup_held ∷ TaskTransition.cleanup_accepted ∷ []

reconciling-cleaned : Run TaskState.reconciling after_reconcile TaskState.cleaned
unfolding next_task_state
reconciling-cleaned = step refl (step refl stop)

-- Three events at most clean up any task that is not cleaned yet.
pub cleanup_reachable :
    (s : TaskState)
    → s ≢ TaskState.cleaned
    → (es : List TaskTransition) × Run s es TaskState.cleaned × (length es ≤ 3)
unfolding next_task_state
cleanup_reachable TaskState.reconciling n = (after_reconcile, reconciling-cleaned, omega arith)
cleanup_reachable TaskState.cleaned n = absurd (n refl)
cleanup_reachable _ n = (
  TaskTransition.reconcile_required ∷ after_reconcile,
  step refl reconciling-cleaned,
  omega arith,
)
