-- ===== src/Task/Report/Laws.antt =====
-- Lemmas on AcceptWorkerReport of internal/domain/report_transition.go.
use comis_dev_crew.Base.{
  ◌≡◌, refl, sym, ap, ◌∙◌, ◌⊎◌, inl, inr, true, not, ◌&&◌, ◌||◌, Option, none, some, arith, is_ok,
  ok, Bool-cases, Time, is_ok-eq-true, increment, int_eq, before, not_utc_time, is_number,
  max_int64, ℤ, pos, negsuc,
}
use comis_dev_crew.Text.{text_eq}
use comis_dev_crew.Text.Laws.{text_eq_sound}
use comis_dev_crew.Platform.{Platform}
use comis_dev_crew.Lifecycle.{TaskState, next_task_state, same_state}
use comis_dev_crew.Field.{invalid}
use comis_dev_crew.Task.{Task, TaskError, transition_failure}
use comis_dev_crew.Task.Validate.{validate_task}
use comis_dev_crew.Task.Apply.Laws.{IsStep, apply_transition-IsStep, outcome_eq}
use comis_dev_crew.Task.Report.{
  WorkerReport, WorkerReportKind, validate_report, report_transition, is_progress,
  is_fixture_launch, touched, counted, move_for_report, finish_report, accept_worker_report,
}

-- How a report may move a task: a step of the lifecycle, or a sign of life of a working task.
pub data Moves (task : Task) (report : WorkerReport) (after : Task) : Type 0 where
  lifecycle :
      next_task_state task.state (report_transition report.kind) ≡ some after.state
      → Moves task report after
  alive :
      report.kind ≡ WorkerReportKind.progress
      → task.state ≡ TaskState.working
      → after.state ≡ task.state
      → Moves task report after

pub record IsAccepted (platform : Platform) (task : Task) (report : WorkerReport) (at : Time)
    (after : Task) : Type 0 where
  pub valid_task : validate_task platform task ≡ ok tt
  pub valid_report : validate_report report ≡ ok tt
  pub revision : report.brief_revision ≡ task.brief_revision
  pub pinned : report.brief_revision_hash ≡ task.brief_revision_hash
  pub moves : Moves task report after
  pub cursor : after.report_cursor ≡ increment task.report_cursor
  pub version : after.state_version ≡ increment task.state_version
  pub updated : after.updated_at ≡ at
  pub valid_after : validate_task platform after ≡ ok tt

int_eq_sound : (a b : ℤ) → int_eq a b ≡ true → a ≡ b
int_eq_sound (pos a) (pos b) h = ap pos (ground arith)
int_eq_sound (negsuc a) (negsuc b) h = ap negsuc (ground arith)
int_eq_sound (pos a) (negsuc b) h = cc
int_eq_sound (negsuc a) (pos b) h = cc

working_state : (s : TaskState) → same_state s TaskState.working ≡ true → s ≡ TaskState.working
unfolding text_eq
working_state s h = ground arith

progress_kind : (k : WorkerReportKind) → is_progress k ≡ true → k ≡ WorkerReportKind.progress
progress_kind k h = ground arith

module _ (platform : Platform) (task : Task) (report : WorkerReport) (at : Time) where
  -- What holds of a task before its cursor is counted.
  record IsMoved (after : Task) : Type 0 where
    moves : Moves task report after
    cursor : after.report_cursor ≡ task.report_cursor
    version : after.state_version ≡ increment task.state_version
    updated : after.updated_at ≡ at

  IsStep-IsMoved :
      (after : Task) → IsStep platform task (report_transition report.kind) at after → IsMoved after
  IsStep-IsMoved after st =
      rw st.result (record {
        moves = Moves.lifecycle st.allowed;
        cursor = refl;
        version = refl;
        updated = refl;
      })

  move_for_report-IsMoved :
      (after : Task) → move_for_report platform task report at ≡ (after, none) → IsMoved after
  unfolding move_for_report
  move_for_report-IsMoved after h =
      elim (Bool-cases (is_progress report.kind && not (is_fixture_launch task))) [
        | inr other ↦ IsStep-IsMoved after (
            apply_transition-IsStep platform task (report_transition report.kind) at after
              (rw other at h))
        | inl sign ↦ elim (Bool-cases (same_state task.state TaskState.working)) [
          | inr idle ↦ cc (outcome_eq {task = task} refl (rw (sign, idle) at h)).1
          | inl working ↦
              rw (sym (outcome_eq {task = touched task at} refl (rw (sign, working) at h)).0)
                (record {
                  moves =
                      Moves.alive (progress_kind report.kind (ground (arith, sign)))
                        (working_state task.state working) refl;
                  cursor = refl;
                  version = refl;
                  updated = refl;
                })
        ]
      ]

  finish_report_inv :
      (p : Task × Option TaskError) (after : Task)
      → finish_report platform task report at p ≡ (after, none)
      → (p ≡ (p.0, none)) × (after ≡ counted p.0) × (validate_task platform (counted p.0) ≡ ok tt)
  unfolding finish_report
  finish_report_inv (updated, some e) after h = cc (outcome_eq {task = task} refl h).1
  finish_report_inv (updated, none) after h =
      elim (Bool-cases (is_ok (validate_task platform (counted updated)))) [
        | inl good ↦ (
          refl,
          sym (outcome_eq {task = counted updated} refl (rw good at h)).0,
          is_ok-eq-true (validate_task platform (counted updated)) good,
        )
        | inr bad ↦ cc (outcome_eq {task = task} refl (rw bad at h)).1
      ]

  finish_report_refused :
      (p : Task × Option TaskError) (after : Task) (e : TaskError)
      → finish_report platform task report at p ≡ (after, some e)
      → after ≡ task
  unfolding finish_report
  finish_report_refused (updated, some e') after e h = sym (outcome_eq {task = task} refl h).0
  finish_report_refused (updated, none) after e h =
      elim (Bool-cases (is_ok (validate_task platform (counted updated)))) [
        | inl good ↦ cc (outcome_eq {task = counted updated} refl (rw good at h)).1
        | inr bad ↦ sym (outcome_eq {task = task} refl (rw bad at h)).0
      ]

  -- Either a guard refuses the report, or all pass and the branches on its kind decide.
  record Passed : Type 0 where
    good_task : validate_task platform task ≡ ok tt
    good_report : validate_report report ≡ ok tt
    revision : int_eq report.brief_revision task.brief_revision ≡ true
    pinned : text_eq report.brief_revision_hash task.brief_revision_hash ≡ true
    decided :
        accept_worker_report platform task report at
        ≡ finish_report platform task report at (move_for_report platform task report at)

  accept_cases :
      ((e : TaskError) × (accept_worker_report platform task report at ≡ (task, some e))) ⊎ Passed
  unfolding accept_worker_report
  accept_cases = elim (Bool-cases (is_ok (validate_task platform task))) [
    | inr bad ↦
        inl (
          transition_failure task (report_transition report.kind) "current task is invalid",
          rw bad,
        )
    | inl good ↦ elim (Bool-cases (is_ok (validate_report report))) [
      | inr bad ↦
          inl (TaskError.validation (invalid "report" "worker report is invalid"), rw (good, bad))
      | inl fine ↦
          elim (Bool-cases (
            not (int_eq report.brief_revision task.brief_revision)
            || not (text_eq report.brief_revision_hash task.brief_revision_hash))) [
              | inl differs ↦ inl (
                TaskError.validation (invalid "reportBrief" "does not match the pinned task brief"),
                rw (good, fine, differs),
              )
              | inr pinned ↦ elim (Bool-cases (not_utc_time at || before at task.updated_at)) [
                | inl late ↦ inl (
                  TaskError.validation (invalid "acceptedAt" "must be monotonic UTC service time"),
                  rw (good, fine, pinned, late),
                )
                | inr on_time ↦
                    elim (Bool-cases (
                      is_number task.report_cursor max_int64
                      || is_number task.state_version max_int64)) [
                        | inl full ↦ inl (
                          transition_failure task (report_transition report.kind)
                              "task report authority is exhausted",
                          rw (good, fine, pinned, on_time, full),
                        )
                        | inr free ↦ inr (record {
                          good_task = is_ok-eq-true (validate_task platform task) good;
                          good_report = is_ok-eq-true (validate_report report) fine;
                          revision = ground (arith, pinned);
                          pinned = ground (arith, pinned);
                          decided = rw (good, fine, pinned, on_time, free);
                        })
                      ]
              ]
            ]
    ]
  ]

  -- A refused report leaves the task as it was.
  pub refused_report_unchanged :
      (after : Task) (e : TaskError)
      → accept_worker_report platform task report at ≡ (after, some e)
      → after ≡ task
  refused_report_unchanged after e h = elim accept_cases [
    | inl (e', refused) ↦ (outcome_eq h refused).0
    | inr p ↦
        finish_report_refused (move_for_report platform task report at) after e (sym p.decided ∙ h)
  ]

  counted-IsAccepted :
      (moved' : Task)
      → Passed
      → IsMoved moved'
      → validate_task platform (counted moved') ≡ ok tt
      → IsAccepted platform task report at (counted moved')
  counted-IsAccepted moved' p m valid = record {
    valid_task = p.good_task;
    valid_report = p.good_report;
    revision = int_eq_sound report.brief_revision task.brief_revision p.revision;
    pinned = text_eq_sound report.brief_revision_hash task.brief_revision_hash p.pinned;
    moves = elim m.moves [
      | Moves.lifecycle step ↦ Moves.lifecycle step
      | Moves.alive kind here same ↦ Moves.alive kind here same
    ];
    cursor = ap increment m.cursor;
    version = m.version;
    updated = m.updated;
    valid_after = valid;
  }

  -- An accepted report matches the revision and the hash of the pinned brief, moves the task along the lifecycle or confirms
  -- that it works, and moves the report cursor and the state version by one; the result is valid.
  pub accept_worker_report-IsAccepted :
      (after : Task)
      → accept_worker_report platform task report at ≡ (after, none)
      → IsAccepted platform task report at after
  accept_worker_report-IsAccepted after h = elim accept_cases [
    | inl (e, refused) ↦ cc (outcome_eq refused h).1
    | inr p ↦
        let m = move_for_report platform task report at in
        let (succeeded, result, valid) = finish_report_inv m after (sym p.decided ∙ h) in
        rw result (counted-IsAccepted m.0 p (move_for_report-IsMoved m.0 succeeded) valid)
  ]
