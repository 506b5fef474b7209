-- ===== src/Lifecycle.antt =====
-- The closed vocabularies of internal/domain/task.go and internal/domain/task_transition.go: shapes,
-- delivery modes, task states and lifecycle events, and the transition function. A Go string type
-- is a data type with a constructor for each constant and `other` for any other text.
pub mod Graph
pub mod Reach
use comis_dev_crew.Base.{
  ℕ, Bool, true, false, not, ◌&&◌, ◌||◌, List, [], ◌∷◌, Option, none, some, ◌==◌, any,
  if◌then◌else◌,
}
use comis_dev_crew.Text.{Text, ascii, text_eq}

pub data TaskShape : Type 0 where
  ship scout : TaskShape
  other : Text → TaskShape

unfoldable pub valid_shape : TaskShape → Bool
valid_shape (TaskShape.other t) = false
valid_shape _ = true

unfoldable pub shape_text : TaskShape → Text
shape_text TaskShape.ship = ascii "ship"
shape_text TaskShape.scout = ascii "scout"
shape_text (TaskShape.other t) = t

pub data DeliveryMode : Type 0 where
  pull_request local_branch report merge_after_approval : DeliveryMode
  other : Text → DeliveryMode

unfoldable pub mode_text : DeliveryMode → Text
mode_text DeliveryMode.pull_request = ascii "pull_request"
mode_text DeliveryMode.local_branch = ascii "local_branch"
mode_text DeliveryMode.report = ascii "report"
mode_text DeliveryMode.merge_after_approval = ascii "merge_after_approval"
mode_text (DeliveryMode.other t) = t

unfoldable pub valid_mode : DeliveryMode → Bool
valid_mode DeliveryMode.pull_request = true
valid_mode DeliveryMode.report = true
valid_mode _ = false

abbrev is_report : DeliveryMode → Bool
is_report DeliveryMode.report = true
is_report _ = false

abbrev is_pull_request : DeliveryMode → Bool
is_pull_request DeliveryMode.pull_request = true
is_pull_request _ = false

abbrev pub is_scout : TaskShape → Bool
is_scout TaskShape.scout = true
is_scout _ = false

abbrev pub is_ship : TaskShape → Bool
is_ship TaskShape.ship = true
is_ship _ = false

unfoldable pub valid_for_shape : DeliveryMode → TaskShape → Bool
unfolding valid_mode valid_shape
valid_for_shape mode shape =
    if not (valid_mode mode) || not (valid_shape shape)
    then false
    else if is_scout shape
    then is_report mode
    else is_pull_request mode

-- The receiver is not read: no delivery mode of the release needs the merge credential.
unfoldable pub requires_merge_authority : DeliveryMode → Bool
requires_merge_authority mode = false

pub data TaskState : Type 0 where
  prepared ready launching working awaiting_decision blocked paused reconciling validating :
      TaskState
  candidate_complete delivering delivered failed cancelled unknown cleanup_held cleaned : TaskState
  other : Text → TaskState

unfoldable pub valid_state : TaskState → Bool
valid_state (TaskState.other t) = false
valid_state _ = true

unfoldable pub satisfies_initiative_dependency : TaskState → Bool
satisfies_initiative_dependency TaskState.candidate_complete = true
satisfies_initiative_dependency TaskState.delivering = true
satisfies_initiative_dependency TaskState.delivered = true
satisfies_initiative_dependency TaskState.cleanup_held = true
satisfies_initiative_dependency TaskState.cleaned = true
satisfies_initiative_dependency _ = false

unfoldable pub allows_unbound_preparation : TaskState → Bool
allows_unbound_preparation TaskState.prepared = true
allows_unbound_preparation TaskState.reconciling = true
allows_unbound_preparation TaskState.unknown = true
allows_unbound_preparation TaskState.cancelled = true
allows_unbound_preparation TaskState.cleanup_held = true
allows_unbound_preparation TaskState.cleaned = true
allows_unbound_preparation _ = false

-- A number for each constant; with the text of `other`, equality of states.
abbrev state_code : TaskState → ℕ
state_code TaskState.prepared = 0
state_code TaskState.ready = 1
state_code TaskState.launching = 2
state_code TaskState.working = 3
state_code TaskState.awaiting_decision = 4
state_code TaskState.blocked = 5
state_code TaskState.paused = 6
state_code TaskState.reconciling = 7
state_code TaskState.validating = 8
state_code TaskState.candidate_complete = 9
state_code TaskState.delivering = 10
state_code TaskState.delivered = 11
state_code TaskState.failed = 12
state_code TaskState.cancelled = 13
state_code TaskState.unknown = 14
state_code TaskState.cleanup_held = 15
state_code TaskState.cleaned = 16
state_code (TaskState.other t) = 17

abbrev other_text : TaskState → Text
other_text (TaskState.other t) = t
other_text _ = []

-- `a == b`
abbrev pub same_state : TaskState → TaskState → Bool
same_state a b = state_code a == state_code b && text_eq (other_text a) (other_text b)

pub data TaskTransition : Type 0 where
  bind_acknowledged preparation_preserved preparation_abandoned launch_requested : TaskTransition
  worker_acknowledged terminal_unavailable decision_requested decision_answered : TaskTransition
  blocked resumed paused validation_started validation_accepted : TaskTransition
  evidence_invalidated delivery_started delivery_accepted failure_observed : TaskTransition
  cancel_requested cleanup_started cleanup_accepted reconcile_required : TaskTransition
  reconciliation_unresolved reconciled_prepared reconciled_ready : TaskTransition
  reconciled_launching reconciled_working reconciled_decision reconciled_blocked : TaskTransition
  reconciled_paused reconciled_validating reconciled_candidate : TaskTransition
  reconciled_delivering reconciled_delivered reconciled_failed : TaskTransition
  reconciled_cancelled reconciled_cleanup_held : TaskTransition
  other : Text → TaskTransition

unfoldable pub required_task_state : TaskState → TaskState → TaskState → Option TaskState
unfolding text_eq
required_task_state current required next = if same_state current required then some next else none

unfoldable pub one_of_task_states : TaskState → TaskState → List TaskState → Option TaskState
unfolding text_eq
one_of_task_states current next allowed =
    if any (λ state. same_state current state) allowed then some next else none

-- The map of reconciledTaskState; none is `ok == false`.
unfoldable pub reconciled_task_state : TaskTransition → Option TaskState
reconciled_task_state TaskTransition.reconciliation_unresolved = some TaskState.unknown
reconciled_task_state TaskTransition.reconciled_prepared = some TaskState.prepared
reconciled_task_state TaskTransition.reconciled_ready = some TaskState.ready
reconciled_task_state TaskTransition.reconciled_launching = some TaskState.launching
reconciled_task_state TaskTransition.reconciled_working = some TaskState.working
reconciled_task_state TaskTransition.reconciled_decision = some TaskState.awaiting_decision
reconciled_task_state TaskTransition.reconciled_blocked = some TaskState.blocked
reconciled_task_state TaskTransition.reconciled_paused = some TaskState.paused
reconciled_task_state TaskTransition.reconciled_validating = some TaskState.validating
reconciled_task_state TaskTransition.reconciled_candidate = some TaskState.candidate_complete
reconciled_task_state TaskTransition.reconciled_delivering = some TaskState.delivering
reconciled_task_state TaskTransition.reconciled_delivered = some TaskState.delivered
reconciled_task_state TaskTransition.reconciled_failed = some TaskState.failed
reconciled_task_state TaskTransition.reconciled_cancelled = some TaskState.cancelled
reconciled_task_state TaskTransition.reconciled_cleanup_held = some TaskState.cleanup_held
reconciled_task_state _ = none

-- The switch of nextTaskState, for a task that is not being reconciled.
unfoldable pub switch_task_state : TaskState → TaskTransition → Option TaskState
unfolding required_task_state one_of_task_states
switch_task_state current TaskTransition.bind_acknowledged =
    required_task_state current TaskState.prepared TaskState.ready
switch_task_state current TaskTransition.preparation_preserved =
    required_task_state current TaskState.prepared TaskState.prepared
switch_task_state current TaskTransition.preparation_abandoned =
    required_task_state current TaskState.prepared TaskState.cancelled
switch_task_state current TaskTransition.launch_requested =
    required_task_state current TaskState.ready TaskState.launching
switch_task_state current TaskTransition.worker_acknowledged =
    required_task_state current TaskState.launching TaskState.working
switch_task_state current TaskTransition.terminal_unavailable =
    one_of_task_states current TaskState.unknown (
      TaskState.launching ∷ TaskState.working ∷ TaskState.awaiting_decision ∷ TaskState.blocked
      ∷ TaskState.paused ∷ [])
switch_task_state current TaskTransition.decision_requested =
    required_task_state current TaskState.working TaskState.awaiting_decision
switch_task_state current TaskTransition.decision_answered =
    required_task_state current TaskState.awaiting_decision TaskState.working
switch_task_state current TaskTransition.blocked =
    one_of_task_states current TaskState.blocked
      (TaskState.working ∷ TaskState.awaiting_decision ∷ [])
switch_task_state current TaskTransition.paused =
    one_of_task_states current TaskState.paused
      (TaskState.ready ∷ TaskState.working ∷ TaskState.awaiting_decision ∷ TaskState.blocked ∷ [])
switch_task_state current TaskTransition.resumed =
    required_task_state current TaskState.paused TaskState.ready
switch_task_state current TaskTransition.validation_started =
    one_of_task_states current TaskState.validating (TaskState.working ∷ TaskState.paused ∷ [])
switch_task_state current TaskTransition.validation_accepted =
    required_task_state current TaskState.validating TaskState.candidate_complete
switch_task_state current TaskTransition.evidence_invalidated =
    one_of_task_states current TaskState.validating
      (TaskState.candidate_complete ∷ TaskState.delivered ∷ [])
switch_task_state current TaskTransition.delivery_started =
    required_task_state current TaskState.candidate_complete TaskState.delivering
switch_task_state current TaskTransition.delivery_accepted =
    required_task_state current TaskState.delivering TaskState.delivered
switch_task_state current TaskTransition.failure_observed =
    one_of_task_states current TaskState.failed (
      TaskState.prepared ∷ TaskState.ready ∷ TaskState.launching ∷ TaskState.working
      ∷ TaskState.awaiting_decision ∷ TaskState.blocked ∷ TaskState.paused ∷ TaskState.validating
      ∷ TaskState.candidate_complete ∷ TaskState.delivering ∷ [])
switch_task_state current TaskTransition.cancel_requested =
    one_of_task_states current TaskState.cancelled (
      TaskState.prepared ∷ TaskState.ready ∷ TaskState.launching ∷ TaskState.working
      ∷ TaskState.awaiting_decision ∷ TaskState.blocked ∷ TaskState.paused ∷ TaskState.validating
      ∷ TaskState.candidate_complete ∷ [])
switch_task_state current TaskTransition.cleanup_started =
    one_of_task_states current TaskState.cleanup_held
      (TaskState.delivered ∷ TaskState.failed ∷ TaskState.cancelled ∷ [])
switch_task_state current TaskTransition.cleanup_accepted =
    required_task_state current TaskState.cleanup_held TaskState.cleaned
switch_task_state current _ = none

abbrev pub is_reconcile_required : TaskTransition → Bool
is_reconcile_required TaskTransition.reconcile_required = true
is_reconcile_required _ = false

unfoldable pub next_task_state : TaskState → TaskTransition → Option TaskState
unfolding switch_task_state reconciled_task_state text_eq
next_task_state current transition =
    if is_reconcile_required transition
    then (if not (same_state current TaskState.cleaned)
          && not (same_state current TaskState.reconciling)
        then some TaskState.reconciling
        else none)
    else if same_state current TaskState.reconciling
    then reconciled_task_state transition
    else switch_task_state current transition
