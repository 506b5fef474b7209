-- ===== src/Cleanup/Store/Kept.antt =====
-- What one write of internal/store/sqlite leaves of the cleanup rows, and which record a query then
-- finds.
use mathlib.Core.Path.{subst}
use comis_dev_crew.Base.{
  ◌≡◌, refl, sym, ap, ◌∙◌, ◌⊎◌, inl, inr, Bool, true, false, ◌&&◌, ◌||◌, List, [], ◌∷◌, none, some,
  In, In-cons, any, ok, >>-eq-ok, ok-injective, refuse-eq-ok, require-eq-ok, arith, Option, there,
  &&-eq-true,
}
use comis_dev_crew.Text.{Text, text_eq}
use comis_dev_crew.Text.Laws.{text_eq_sound, text_eq_refl}
use comis_dev_crew.Cleanup.{TaskCleanupRecord}
use comis_dev_crew.Cleanup.Rows.{
  row_where, update_where, row_where-In, In-update_where, row_where-update_where,
  row_where-update_where_own, row_where-none, some_row, In-update_where_stays,
}
use comis_dev_crew.Cleanup.Tables.{Database}
use comis_dev_crew.Cleanup.Database.{find_task_cleanup_record}
use comis_dev_crew.Cleanup.Proof.{same_stage}
use comis_dev_crew.Cleanup.Store.{update_cleanup, at_stage}
use comis_dev_crew.Cleanup.Begin.{insert_cleanup}

-- A row of the table afterwards is an old one or the returned one, which a query by its operation
-- finds; a query by another operation finds what it found; and every row stays but the replaced
-- one, if there is one.
pub record RowsKept (db after : Database) (old : Option TaskCleanupRecord)
    (result : TaskCleanupRecord) : Type 0 where
  pub each : (x : TaskCleanupRecord) → In x after.cleanups → In x db.cleanups ⊎ (x ≡ result)
  pub own : find_task_cleanup_record after result.operation_id ≡ some result
  pub others :
      (q : Text)
      → text_eq result.operation_id q ≡ false
      → find_task_cleanup_record after q ≡ find_task_cleanup_record db q
  pub stays : (x : TaskCleanupRecord) → In x db.cleanups → In x after.cleanups ⊎ (old ≡ some x)

pub find_by_rows :
    (db after : Database) (q : Text)
    → after.cleanups ≡ db.cleanups
    → find_task_cleanup_record after q ≡ find_task_cleanup_record db q
unfolding find_task_cleanup_record
find_by_rows db after q h = ap (row_where (λ (r : TaskCleanupRecord). text_eq r.operation_id q)) h

pub find_task_cleanup_record-named :
    (db : Database) (operation : Text) (row : TaskCleanupRecord)
    → find_task_cleanup_record db operation ≡ some row
    → row.operation_id ≡ operation
unfolding find_task_cleanup_record
find_task_cleanup_record-named db operation row h =
    text_eq_sound row.operation_id operation
      (row_where-In (λ (r : TaskCleanupRecord). text_eq r.operation_id operation) db.cleanups row
        h).1

-- A write between two writes that leave the rows alone.
pub RowsKept-along :
    {db touched stored after : Database} {old : Option TaskCleanupRecord}
    {new result : TaskCleanupRecord}
    → touched.cleanups ≡ db.cleanups
    → stored ≡ after
    → new ≡ result
    → RowsKept touched stored old new
    → RowsKept db after old result
RowsKept-along {db} {touched} {stored} {after} {old} {new} {result} untouched ended same kept =
    subst (λ r. RowsKept db after old r) same
      (subst (λ d. RowsKept db d old new) ended
        (record {
          each = λ x m. subst (λ rows. In x rows ⊎ (x ≡ new)) untouched (kept.each x m);
          own = kept.own;
          others = λ q apart. kept.others q apart ∙ find_by_rows db touched q untouched;
          stays = λ x m. kept.stays x (subst (In x) (sym untouched) m);
        }))

-- The UPDATE of the record that a query by the operation finds, in the stage that it has.
pub update_cleanup-RowsKept :
    (db : Database) (operation : Text) (row new : TaskCleanupRecord) (after : Database)
    → find_task_cleanup_record db operation ≡ some row
    → new.operation_id ≡ row.operation_id
    → same_stage row.stage row.stage ≡ true
    → update_cleanup db operation row.stage new ≡ ok after
    → RowsKept db after (some row) new
unfolding update_cleanup find_task_cleanup_record at_stage
update_cleanup-RowsKept db operation row new after found renamed staged h =
    let (one, rest) = >>-eq-ok _ _ h in
    let written : update_where (at_stage operation row.stage) new db.cleanups ≡ after.cleanups =
      ap (λ (d : Database). d.cleanups) (ok-injective rest) in
    let named : text_eq row.operation_id operation ≡ true =
      (row_where-In (λ (r : TaskCleanupRecord). text_eq r.operation_id operation) db.cleanups row
        found).1 in
    let same : new.operation_id ≡ operation =
      renamed ∙ text_eq_sound row.operation_id operation named in
    record {
      each = λ x m.
          In-update_where (at_stage operation row.stage) new db.cleanups x
            (subst (In x) (sym written) m);
      own =
          subst
            (λ rows.
              row_where (λ (r : TaskCleanupRecord). text_eq r.operation_id new.operation_id) rows
              ≡ some new)
            written
            (row_where-update_where_own (at_stage operation row.stage)
              (λ (r : TaskCleanupRecord). text_eq r.operation_id new.operation_id) new db.cleanups
              row (text_eq_refl new.operation_id) (both named staged)
              (subst
                (λ name.
                  row_where (λ (r : TaskCleanupRecord). text_eq r.operation_id name) db.cleanups
                  ≡ some row)
                (sym same) found));
      others = λ q apart.
          sym (ap (row_where (λ (r : TaskCleanupRecord). text_eq r.operation_id q)) written)
          ∙ row_where-update_where (at_stage operation row.stage)
              (λ (r : TaskCleanupRecord). text_eq r.operation_id q) new db.cleanups
              (λ x hit. elsewhere x q apart same (&&-eq-true _ _ hit).0) apart;
      stays = λ x m.
          elim (In-update_where_stays (at_stage operation row.stage) new db.cleanups row x
            (require-eq-ok _ _ one)
            (row_where-In (λ (r : TaskCleanupRecord). text_eq r.operation_id operation) db.cleanups
              row found).0
            (both named staged) m) [
              | inl kept ↦ inl (subst (In x) written kept)
              | inr same' ↦ inr (ap some same')
            ];
    }
  where
    both : {a b : Bool} → a ≡ true → b ≡ true → (a && b) ≡ true
    both h k = ground arith

    elsewhere :
        (x : TaskCleanupRecord) (q : Text)
        → text_eq new.operation_id q ≡ false
        → new.operation_id ≡ operation
        → text_eq x.operation_id operation ≡ true
        → text_eq x.operation_id q ≡ false
    elsewhere x q apart same hit =
        subst (λ name. text_eq name q ≡ false)
          (same ∙ sym (text_eq_sound x.operation_id operation hit)) apart

-- The INSERT of a record whose operation no row has.
pub insert_cleanup-RowsKept :
    (db : Database) (row : TaskCleanupRecord) (after : Database)
    → insert_cleanup db row ≡ ok after
    → RowsKept db after none row × (find_task_cleanup_record db row.operation_id ≡ none)
unfolding insert_cleanup find_task_cleanup_record row_where some_row
insert_cleanup-RowsKept db row after h =
    let (unused, last) = >>-eq-ok _ _ h in
    let written : row ∷ db.cleanups ≡ after.cleanups =
      ap (λ (d : Database). d.cleanups) (ok-injective last) in
    (
      record {
        each = λ x m. elim (In-cons (subst (In x) (sym written) m)) [
          | inl new ↦ inr new
          | inr old ↦ inl old
        ];
        own =
            subst
              (λ rows.
                row_where (λ (r : TaskCleanupRecord). text_eq r.operation_id row.operation_id) rows
                ≡ some row)
              written (rw (text_eq_refl row.operation_id));
        others = λ q apart.
            sym (ap (row_where (λ (r : TaskCleanupRecord). text_eq r.operation_id q)) written)
            ∙ rw apart;
        stays = λ x m. inl (subst (In x) written (there m));
      },
      row_where-none (λ (r : TaskCleanupRecord). text_eq r.operation_id row.operation_id)
          db.cleanups (unkeyed db.cleanups (refuse-eq-ok _ _ unused)),
    )
  where
    weaker :
        (a b c x y : Bool)
        → ((a || b || c) || x) ≡ false
        → (x ≡ false → y ≡ false)
        → (a || y) ≡ false
    weaker a b c x y h next = let k : x ≡ false = ground arith in rw (next k) ground arith

    unkeyed :
        (rows : List TaskCleanupRecord)
        → any
            (λ (r : TaskCleanupRecord).
              text_eq r.operation_id row.operation_id
              || text_eq r.task_handle row.task_handle
              || text_eq r.release_operation_id row.release_operation_id)
            rows
          ≡ false
        → any (λ (r : TaskCleanupRecord). text_eq r.operation_id row.operation_id) rows ≡ false
    unkeyed [] h = refl
    unkeyed (r ∷ rows) h = weaker _ _ _ _ _ h (unkeyed rows)
