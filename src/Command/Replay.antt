-- ===== src/Command/Replay.antt =====
-- A command that is sent again through commitTaskMutation of
-- internal/store/sqlite/commit_skeleton.go.
use comis_dev_crew.Base.{
  ◌≡◌, refl, sym, ap, ◌∙◌, inl, inr, Bool, true, false, Bool-cases, List, [], ◌∷◌, ◌++◌, Option,
  none, some, ok, is_empty, any, >>-eq-ok, >>=-eq-ok, ok-injective, refuse-eq-ok, require-eq-ok,
  ◌||◌, arith, is_ok-eq-true,
}
use mathlib.Core.Path.{subst}
use comis_dev_crew.Text.{Text, text_eq, has_shape}
use comis_dev_crew.Text.Laws.{text_eq_refl}
use comis_dev_crew.Field.{validate_opaque_id, opaque_id_pattern}
use comis_dev_crew.Task.{Task}
use comis_dev_crew.Task.Validate.{validate_identity}
use comis_dev_crew.Task.Validate.Laws.{Groups, validate_task-Groups}
use comis_dev_crew.Operation.{OperationRecord, validate_operation}
use comis_dev_crew.Cleanup.Rows.{row_where, some_row}
use comis_dev_crew.Cleanup.Tables.{Database}
use comis_dev_crew.Cleanup.Database.{
  operation_row, replay_of, commands_agree, mutation_replay, next_mutation_state_version,
  completed_mutation_operation, insert_operation,
}
use comis_dev_crew.Cleanup.Write.{StoreContext, update_task_state, get_task}
use comis_dev_crew.Cleanup.Complete.{MutationResult, replay_result}
use comis_dev_crew.Command.{
  command_text, TaskMutationSpec, TaskMutationBody, insert_new_operation, persist, commit_or_replay,
  commit_task_mutation,
}

-- A row that is added finds itself where no row had its key.
row_where-append :
    {A : Type 0} (p : A → Bool) (rows : List A) (new : A)
    → any p rows ≡ false
    → p new ≡ true
    → row_where p (rows ++ (new ∷ [])) ≡ some new
unfolding row_where
row_where-append p [] new unused fits = rw fits
row_where-append p (x ∷ xs) new unused fits = elim (Bool-cases (p x)) [
  | inl found ↦ elim (clash (p x) (any p xs) found unused) [ ]
  | inr other ↦ rw other (row_where-append p xs new (rw other at unused) fits)
]
  where
    clash : (a b : Bool) → a ≡ true → (a || b) ≡ false → ⊥
    clash a b h k = ground arith

named_task : (handle : Text) → validate_opaque_id "handle" handle ≡ ok tt → is_empty handle ≡ false
unfolding validate_opaque_id opaque_id_pattern has_shape
named_task [] h = cc
named_task (c ∷ cs) h = refl

update_task_state-named :
    (context : StoreContext) (db : Database) (task : Task) (stored : Database)
    → update_task_state context db task ≡ ok stored
    → is_empty task.handle ≡ false
unfolding update_task_state validate_identity
update_task_state-named context db task stored h =
    let (valid, rest) = >>-eq-ok _ _ h in
    let groups : Groups context.platform task =
      validate_task-Groups context.platform task (is_ok-eq-true _ (require-eq-ok _ _ valid)) in
    let (schema, fields) = >>-eq-ok _ _ groups.identity in
    let (handle, others) = >>-eq-ok _ _ fields in named_task task.handle handle

-- What the ledger says of an operation once it is inserted.
insert_new_operation-row :
    (db : Database) (operation : OperationRecord) (stored : Database)
    → insert_new_operation db operation ≡ ok stored
    → (operation_row stored operation.id ≡ some operation) × (validate_operation operation ≡ ok tt)
unfolding insert_new_operation insert_operation operation_row some_row
insert_new_operation-row db operation stored h =
    let (valid, h1) = >>-eq-ok _ _ h in
    let (unused, h2) = >>-eq-ok _ _ h1 in
    let (first, h3) = >>-eq-ok _ _ h2 in
    let (second, last) = >>-eq-ok _ _ h3 in
    (
      ap
            (λ (d : Database).
              row_where (λ (o : OperationRecord). text_eq o.id operation.id) d.operations)
            (sym (ok-injective last))
          ∙ row_where-append (λ (o : OperationRecord). text_eq o.id operation.id) db.operations
              operation (refuse-eq-ok _ _ unused) (text_eq_refl operation.id),
      is_ok-eq-true _ (require-eq-ok _ _ valid),
    )

-- A valid operation of the ledger with a reference replays under its own command and digest.
replay_of-own :
    (operation : OperationRecord)
    → validate_operation operation ≡ ok tt
    → is_empty operation.result_ref ≡ false
    → replay_of operation.command operation.subject_digest (some operation) ≡ ok (some operation)
unfolding replay_of commands_agree
replay_of-own operation valid named =
    rw (valid, text_eq_refl operation.command, text_eq_refl operation.subject_digest, named)

module _ (context : StoreContext) where
  persist-ledger :
      (spec : TaskMutationSpec) (db : Database) (updated : Task) (result : MutationResult)
      (after : Database)
      → persist context spec db updated ≡ ok (result, after)
      → mutation_replay after spec.operation_id (command_text spec.command) spec.subject_digest
        ≡ ok (some result.operation)
  unfolding persist mutation_replay completed_mutation_operation
  persist-ledger spec db updated result after h =
      let (version, numbered, h1) = >>=-eq-ok (next_mutation_state_version db) _ h in
      let task : Task = record updated { state_version = version } in
      let (touched, written, h2) = >>=-eq-ok (update_task_state context db task) _ h1 in
      let operation : OperationRecord =
        completed_mutation_operation spec.operation_id (command_text spec.command)
          spec.subject_digest task.handle version spec.at in
      let (stored, entered, last) = >>=-eq-ok (insert_new_operation touched operation) _ h2 in
      let same : (◌≡◌ {A = MutationResult × Database}
          (record { task = task; operation = operation }, stored) (result, after)) =
        ok-injective last in
      let (row, valid) = insert_new_operation-row touched operation stored entered in
      let replayed : replay_of (command_text spec.command) spec.subject_digest
            (operation_row stored spec.operation_id)
          ≡ ok (some operation) =
        ap (replay_of (command_text spec.command) spec.subject_digest) row
        ∙ replay_of-own operation valid (update_task_state-named context db task touched written) in
      subst
        (λ (p : MutationResult × Database).
          replay_of (command_text spec.command) spec.subject_digest
            (operation_row p.1 spec.operation_id)
          ≡ ok (some p.0.operation))
        same replayed

  -- What a replay is answered with, wherever the ledger has the operation.
  replayed_commit :
      (spec : TaskMutationSpec) (body : TaskMutationBody) (db : Database)
      (operation : OperationRecord)
      → spec.at.utc ≡ true
      → mutation_replay db spec.operation_id (command_text spec.command) spec.subject_digest
        ≡ ok (some operation)
      → commit_task_mutation context spec body db ≡ replay_result context db operation
  unfolding commit_task_mutation commit_or_replay
  replayed_commit spec body db operation utc ledger = rw (utc, ledger)

  replay_result-same :
      (db : Database) (operation : OperationRecord) (result : MutationResult) (after : Database)
      → replay_result context db operation ≡ ok (result, after)
      → (db ≡ after) × (operation ≡ result.operation)
  unfolding replay_result
  replay_result-same db operation result after h =
      let (task, read, last) = >>=-eq-ok (get_task context db operation.result_ref) _ h in
      (
        ap (λ (p : MutationResult × Database). p.1) (ok-injective last),
        ap (λ (p : MutationResult × Database). p.0.operation) (ok-injective last),
      )

  commit_or_replay-ledger :
      (spec : TaskMutationSpec) (body : TaskMutationBody) (db : Database)
      (replay : Option OperationRecord) (result : MutationResult) (after : Database)
      → mutation_replay db spec.operation_id (command_text spec.command) spec.subject_digest
        ≡ ok replay
      → commit_or_replay context spec body db replay ≡ ok (result, after)
      → mutation_replay after spec.operation_id (command_text spec.command) spec.subject_digest
        ≡ ok (some result.operation)
  unfolding commit_or_replay
  commit_or_replay-ledger spec body db (some replay) result after ledger h =
      let (kept, same) = replay_result-same db replay result after h in
      ap (λ d. mutation_replay d spec.operation_id (command_text spec.command) spec.subject_digest)
        (sym kept)
      ∙ ledger
      ∙ ap (λ o. ok (some o)) same
  commit_or_replay-ledger spec body db none result after ledger h =
      let (answer, ran, rest) = >>=-eq-ok (body db) _ h in
      persist-ledger spec answer.1 answer.0 result after rest

  -- A command that was committed and is sent again, with whatever body, is answered by its first
  -- operation and the task as it is stored by then, exactly as a replay is: the body is not run, and
  -- nothing is written.
  pub committed_mutation_replays :
      (spec : TaskMutationSpec) (body again : TaskMutationBody) (db : Database)
      (result : MutationResult) (after : Database)
      → commit_task_mutation context spec body db ≡ ok (result, after)
      → commit_task_mutation context spec again after ≡ replay_result context after result.operation
  unfolding commit_task_mutation
  committed_mutation_replays spec body again db result after h =
      let (utc, h1) = >>-eq-ok _ _ h in
      let (replay, ledger, rest) =
        >>=-eq-ok
          (mutation_replay db spec.operation_id (command_text spec.command) spec.subject_digest) _
          h1 in
      replayed_commit spec again after result.operation (require-eq-ok _ _ utc)
        (commit_or_replay-ledger spec body db replay result after ledger rest)
