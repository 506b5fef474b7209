-- ===== src/Task/Apply/Laws.antt =====
-- Lemmas on ApplyTransition of internal/domain/task_transition.go.
use comis_dev_crew.Base.{
  ◌≤◌, ◌≡◌, sym, ap, ◌∙◌, ◌↔◌, ◌⊎◌, inl, inr, true, false, not, ◌||◌, Option, none, some, arith,
  Time, before, is_ok, is_number, max_int64, ok, Bool-cases, Option-cases, is_ok-eq-true,
}
use comis_dev_crew.Platform.{Platform}
use comis_dev_crew.Lifecycle.{TaskState, TaskTransition, next_task_state}
use comis_dev_crew.Task.{Task, TaskError, transition_failure}
use comis_dev_crew.Task.Validate.{validate_task}
use comis_dev_crew.Task.Apply.{apply_transition, enter_state, moved}

-- One checked step of a task: what has to hold of the task before and after it.
pub record IsStep (platform : Platform) (task : Task) (event : TaskTransition) (at : Time)
    (after : Task) : Type 0 where
  pub next : TaskState
  pub allowed : next_task_state task.state event ≡ some next
  pub result : after ≡ moved task next at
  pub valid_before : validate_task platform task ≡ ok tt
  pub valid_after : validate_task platform after ≡ ok tt
  pub in_utc : at.utc ≡ true
  pub not_earlier : task.updated_at.instant ≤ at.instant
  pub version_left : is_number task.state_version max_int64 ≡ false

-- Splitting an outcome of a transition into its two parts.
pub outcome_eq :
    {p : Task × Option TaskError} {task after : Task} {e o : Option TaskError}
    → p ≡ (task, e)
    → p ≡ (after, o)
    → (task ≡ after) × (e ≡ o)
outcome_eq h k = (
  ap (λ (q : Task × Option TaskError). q.0) (sym h ∙ k),
  ap (λ (q : Task × Option TaskError). q.1) (sym h ∙ k),
)

module _ (platform : Platform) (task : Task) (event : TaskTransition) (at : Time) where
  abbrev Refused : Type 0
  Refused = (e : TaskError) × (apply_transition platform task event at ≡ (task, some e))

  -- The three guards pass, and the event enters a state that makes a valid task.
  record Passed : Type 0 where
    next : TaskState
    allowed : next_task_state task.state event ≡ some next
    entered : apply_transition platform task event at ≡ (moved task next at, none)
    valid_before : validate_task platform task ≡ ok tt
    valid_after : validate_task platform (moved task next at) ≡ ok tt
    on_time : (not at.utc || before at task.updated_at) ≡ false
    version_left : is_number task.state_version max_int64 ≡ false

  apply_cases : Refused ⊎ Passed
  unfolding apply_transition enter_state
  apply_cases = elim (Bool-cases (is_ok (validate_task platform task))) [
    | inr bad ↦ inl (transition_failure task event "current task is invalid", rw bad)
    | inl good ↦ elim (Bool-cases (not at.utc || before at task.updated_at)) [
      | inl late ↦
          inl
            (transition_failure task event "transition time must be monotonic UTC", rw (good, late))
      | inr on_time ↦ elim (Bool-cases (is_number task.state_version max_int64)) [
        | inl full ↦
            inl
              (transition_failure task event "state version is exhausted", rw (good, on_time, full))
        | inr free ↦ elim (Option-cases (next_task_state task.state event)) [
          | inl none' ↦ inl (
            transition_failure task event "transition is not valid from current state",
            rw (good, on_time, free, none', enter_state),
          )
          | inr (next, allowed) ↦
              elim (Bool-cases (is_ok (validate_task platform (moved task next at)))) [
                | inr invalid' ↦ inl (
                  transition_failure task event "transition would create an invalid task",
                  rw (good, on_time, free, allowed, enter_state, invalid'),
                )
                | inl valid ↦ inr (record {
                  next = next;
                  allowed = allowed;
                  entered = rw (good, on_time, free, allowed, enter_state, valid);
                  valid_before = is_ok-eq-true (validate_task platform task) good;
                  valid_after = is_ok-eq-true (validate_task platform (moved task next at)) valid;
                  on_time = on_time;
                  version_left = free;
                })
              ]
        ]
      ]
    ]
  ]

  pub apply_transition-IsStep :
      (after : Task)
      → apply_transition platform task event at ≡ (after, none)
      → IsStep platform task event at after
  apply_transition-IsStep after h = elim apply_cases [
    | inl (e, refused) ↦ cc (outcome_eq refused h).1
    | inr p ↦
        let same = (outcome_eq p.entered h).0 in
        record {
          next = p.next;
          allowed = p.allowed;
          result = sym same;
          valid_before = p.valid_before;
          valid_after = rw same at p.valid_after;
          in_utc = ground (arith, p.on_time);
          not_earlier = ground (arith, p.on_time);
          version_left = p.version_left;
        }
  ]

  IsStep-apply_transition :
      (after : Task)
      → IsStep platform task event at after
      → apply_transition platform task event at ≡ (after, none)
  unfolding apply_transition enter_state
  IsStep-apply_transition after st =
      let on_time : (not at.utc || before at task.updated_at) ≡ false =
        ground (arith, st.in_utc, st.not_earlier) in
      let valid : validate_task platform (moved task st.next at) ≡ ok tt =
        rw (← st.result) st.valid_after in
      rw (st.valid_before, on_time, st.version_left, st.allowed, enter_state, valid, st.result)

  -- A transition succeeds with a record exactly if the event leads from the state of the task to
  -- another, the record is the task in that state at that time, its version counted, the task and
  -- the record are valid, the time is in UTC and not before the last update, and the version is not
  -- the greatest.
  pub apply_transition_iff :
      (after : Task)
      → (apply_transition platform task event at ≡ (after, none))
        ↔ IsStep platform task event at after
  apply_transition_iff after = (apply_transition-IsStep after, IsStep-apply_transition after)

  -- A refused transition returns the task as it was.
  pub refused_transition_unchanged :
      (after : Task) (e : TaskError)
      → apply_transition platform task event at ≡ (after, some e)
      → after ≡ task
  refused_transition_unchanged after e h = elim apply_cases [
    | inl (e', refused) ↦ (outcome_eq h refused).0
    | inr p ↦ cc (outcome_eq p.entered h).1
  ]
