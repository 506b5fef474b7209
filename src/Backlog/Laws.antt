-- ===== src/Backlog/Laws.antt =====
-- Lemmas on the validator and the promotion of internal/domain/backlog.go.
use comis_dev_crew.Base.{
  ◌≡◌, ◌≢◌, refl, ◌↔◌, inl, inr, Bool, true, false, List, [], ◌∷◌, arith, ok, >>-eq-ok,
  refuse-eq-ok, require-eq-ok, All, In, In-cons, refuse, require,
}
use comis_dev_crew.Text.{Text, text_eq, member}
use comis_dev_crew.Text.Distinct.{IsDistinct, IsFresh, nil-IsFresh, cons-IsFresh}
use comis_dev_crew.Text.Laws.{text_eq_iff}
use comis_dev_crew.Field.{validate_opaque_id, opaque_id_pattern}
use comis_dev_crew.Backlog.{
  is_ready, BacklogItem, BacklogReadiness, dependency_loop, validate_backlog_item, satisfied_loop,
  check_promotable,
}

-- The dependencies are well formed, none is the item itself, and none stands twice.
pub record AreDependencies (handle : Text) (ts : List Text) : Type 0 where
  pub formed : All (λ t. (opaque_id_pattern t ≡ true) × (t ≢ handle)) ts
  pub distinct : IsDistinct ts

not_same : (a b : Text) → text_eq a b ≡ false → a ≢ b
not_same a b h e = ground (arith, text_eq_iff a b)

dependency_loop_facts :
    (handle : Text) (seen ts : List Text)
    → dependency_loop handle seen ts ≡ ok tt
    → All (λ t. (opaque_id_pattern t ≡ true) × (t ≢ handle)) ts × IsFresh seen ts
unfolding dependency_loop validate_opaque_id
dependency_loop_facts handle seen [] h = (tt, nil-IsFresh seen)
dependency_loop_facts handle seen (t ∷ ts) h =
    let (formed, h1) = >>-eq-ok (validate_opaque_id "dependsOn" t) _ h in
    let (other, h2) = >>-eq-ok (refuse (text_eq t handle) _) _ h1 in
    let (new, h3) = >>-eq-ok (refuse (member t seen) _) _ h2 in
    let (rest, fresh) = dependency_loop_facts handle (t ∷ seen) ts h3 in
    (
      (
        (
          require-eq-ok (opaque_id_pattern t) _ formed,
          not_same t handle (refuse-eq-ok (text_eq t handle) _ other),
        ),
        rest,
      ),
      cons-IsFresh t seen ts (refuse-eq-ok (member t seen) _ new) fresh,
    )

satisfied_loop_iff :
    (satisfied : Text → Bool) (ts : List Text)
    → (satisfied_loop satisfied ts ≡ ok tt) ↔ ((t : Text) → In t ts → satisfied t ≡ true)
unfolding satisfied_loop
satisfied_loop_iff satisfied [] = (λ h t m. elim m [ ], λ h. refl)
satisfied_loop_iff satisfied (d ∷ ts) = (
  λ h t m.
      let (here, later) = >>-eq-ok (require (satisfied d) _) _ h in
      elim (In-cons m) [
        | inl e ↦ rw e (require-eq-ok (satisfied d) _ here)
        | inr k ↦ (satisfied_loop_iff satisfied ts).0 later t k
      ],
  λ h. rw (h d In.here, (satisfied_loop_iff satisfied ts).1 (λ t m. h t (In.there m))),
)

module _ (item : BacklogItem) where
  dependencies_checked :
      validate_backlog_item item ≡ ok tt → dependency_loop item.handle [] item.depends_on ≡ ok tt
  unfolding validate_backlog_item
  dependencies_checked h = ground arith

  -- The dependencies of a valid item are well-formed handles of other items, each named once.
  pub valid_item_dependencies :
      validate_backlog_item item ≡ ok tt → AreDependencies item.handle item.depends_on
  valid_item_dependencies h =
      let (formed, fresh) =
        dependency_loop_facts item.handle [] item.depends_on (dependencies_checked h) in
      record { formed = formed; distinct = fresh.distinct }

  ready_iff : (is_ready item.readiness ≡ true) ↔ (item.readiness ≡ BacklogReadiness.ready)
  ready_iff = (λ h. ground arith, λ h. ground arith)

  -- An item may be promoted exactly if it is valid and ready and every dependency is satisfied.
  pub check_promotable_iff :
      (satisfied : Text → Bool)
      → (check_promotable item satisfied ≡ ok tt) ↔ (
          (validate_backlog_item item ≡ ok tt)
          × (item.readiness ≡ BacklogReadiness.ready)
          × ((t : Text) → In t item.depends_on → satisfied t ≡ true))
  unfolding check_promotable
  check_promotable_iff satisfied = (
    λ h.
        let (valid, h1) = >>-eq-ok (validate_backlog_item item) _ h in
        let (ready, h2) = >>-eq-ok (require (is_ready item.readiness) _) _ h1 in
        (
          valid,
          ready_iff.0 (require-eq-ok (is_ready item.readiness) _ ready),
          (satisfied_loop_iff satisfied item.depends_on).0 h2,
        ),
    λ (valid, ready, all_met).
        rw (valid, ready_iff.1 ready, (satisfied_loop_iff satisfied item.depends_on).1 all_met),
  )
