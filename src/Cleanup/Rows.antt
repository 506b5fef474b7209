-- ===== src/Cleanup/Rows.antt =====
-- Queries over the rows of a table by key, and what they find.
use mathlib.Core.Path.{subst}
use comis_dev_crew.Base.{
  ℕ, length, keep, ◌⊎◌, inl, inr, Bool-cases, some-injective, In-cons, In-cons_eq, ◌≡◌, refl, ap,
  ◌∙◌, Bool, true, false, ◌||◌, arith, List, [], ◌∷◌, Option, none, some, if◌then◌else◌, any, In,
  here, there, sym, ◌==◌, In-keep,
}

module _ {ℓ} {A : Type ℓ} where
  -- The row that a query by key gives, if there is one.
  unfoldable pub row_where : (A → Bool) → List A → Option A
  row_where p [] = none
  row_where p (x ∷ xs) = let rest = row_where p xs in if p x then some x else rest

  -- `SELECT COUNT(*) … != 0`, and the count.
  unfoldable pub some_row : (A → Bool) → List A → Bool
  some_row p rows = any p rows

  unfoldable pub count_rows : (A → Bool) → List A → ℕ
  count_rows p rows = length (keep p rows)

  -- UPDATE … WHERE
  unfoldable pub update_where : (A → Bool) → A → List A → List A
  update_where p new [] = []
  update_where p new (x ∷ xs) = (if p x then new else x) ∷ update_where p new xs

  pub row_where-In :
      (p : A → Bool) (xs : List A) (x : A) → row_where p xs ≡ some x → In x xs × (p x ≡ true)
  unfolding row_where
  row_where-In p [] x h = cc
  row_where-In p (y ∷ ys) x h = elim (Bool-cases (p y)) [
    | inl passes ↦
        let same : y ≡ x = some-injective (rw passes at h) in
        subst (λ z. In z (y ∷ ys) × (p z ≡ true)) same (here, passes)
    | inr fails ↦ let (m, q) = row_where-In p ys x (rw fails at h) in (there m, q)
  ]

  -- A row after an update is an old one, or the new one.
  pub In-update_where :
      (p : A → Bool) (new : A) (xs : List A) (x : A)
      → In x (update_where p new xs)
      → In x xs ⊎ (x ≡ new)
  unfolding update_where
  In-update_where p new [] x m = elim m [ ]
  In-update_where p new (y ∷ ys) x m = elim (In-cons m) [
    | inl e ↦ elim (Bool-cases (p y)) [
      | inl passes ↦ inr (rw passes at e)
      | inr fails ↦ inl (In-cons_eq (rw fails at e))
    ]
    | inr later ↦ elim (In-update_where p new ys x later) [
      | inl old ↦ inl (there old)
      | inr e ↦ inr e
    ]
  ]

  -- An update leaves a query alone that finds no row it touches.
  pub row_where-update_where :
      (p q : A → Bool) (new : A) (xs : List A)
      → ((x : A) → p x ≡ true → q x ≡ false)
      → q new ≡ false
      → row_where q (update_where p new xs) ≡ row_where q xs
  unfolding row_where update_where
  row_where-update_where p q new [] apart fresh = refl
  row_where-update_where p q new (y ∷ ys) apart fresh =
      let later = row_where-update_where p q new ys apart fresh in
      elim (Bool-cases (p y)) [
        | inl hit ↦ rw (hit, fresh, apart y hit) later
        | inr miss ↦ elim (Bool-cases (q y)) [
          | inl found ↦ rw (miss, found)
          | inr other ↦ rw (miss, other) later
        ]
      ]

  -- A query that finds a row which the update touches finds the new one.
  pub row_where-update_where_own :
      (p q : A → Bool) (new : A) (xs : List A) (x : A)
      → q new ≡ true
      → p x ≡ true
      → row_where q xs ≡ some x
      → row_where q (update_where p new xs) ≡ some new
  unfolding row_where update_where
  row_where-update_where_own p q new [] x named touched h = cc
  row_where-update_where_own p q new (y ∷ ys) x named touched h = elim (Bool-cases (p y)) [
    | inl hit ↦ rw (hit, named)
    | inr miss ↦ elim (Bool-cases (q y)) [
      | inl found ↦
          let same : y ≡ x = some-injective (rw found at h) in
          elim (true_or_false (p y) (ap p same ∙ touched) miss) [ ]
      | inr other ↦
          rw (miss, other) (row_where-update_where_own p q new ys x named touched (rw other at h))
    ]
  ]
    where
      true_or_false : (b : Bool) → b ≡ true → b ≡ false → ⊥
      true_or_false b h k = cc

  -- A query finds nothing where no row fits.
  pub row_where-none : (q : A → Bool) (xs : List A) → some_row q xs ≡ false → row_where q xs ≡ none
  unfolding row_where some_row
  row_where-none q [] h = refl
  row_where-none q (y ∷ ys) h = elim (Bool-cases (q y)) [
    | inl found ↦ elim (one_fits (q y) (any q ys) found h) [ ]
    | inr other ↦ rw other (row_where-none q ys (rw other at h))
  ]
    where
      one_fits : (a b : Bool) → a ≡ true → (a || b) ≡ false → ⊥
      one_fits a b h k = ground arith

  -- A row that the update does not touch stays.
  In-update_where_other :
      (p : A → Bool) (new : A) (xs : List A) (x : A)
      → In x xs
      → p x ≡ false
      → In x (update_where p new xs)
  unfolding update_where
  In-update_where_other p new [] x m miss = elim m [ ]
  In-update_where_other p new (y ∷ ys) x m miss = elim (In-cons m) [
    | inl e ↦ let kept : p y ≡ false = ap p (sym e) ∙ miss in rw kept (In-cons_eq e)
    | inr later ↦ there (In-update_where_other p new ys x later miss)
  ]

  sole_member : (xs : List A) (x y : A) → (length xs == 1) ≡ true → In x xs → In y xs → x ≡ y
  sole_member [] x y one m n = elim m [ ]
  sole_member (a ∷ []) x y one m n = elim (In-cons m) [
    | inl e ↦ elim (In-cons n) [ inl e' ↦ e ∙ sym e' | inr none' ↦ elim none' [ ] ]
    | inr none' ↦ elim none' [ ]
  ]
  sole_member (a ∷ b ∷ rest) x y one m n = absurd (ground arith)

  -- An update of exactly one row, which is `row`, leaves every other one.
  pub In-update_where_stays :
      (p : A → Bool) (new : A) (xs : List A) (row x : A)
      → (count_rows p xs == 1) ≡ true
      → In row xs
      → p row ≡ true
      → In x xs
      → In x (update_where p new xs) ⊎ (row ≡ x)
  unfolding count_rows
  In-update_where_stays p new xs row x one here' touched m = elim (Bool-cases (p x)) [
    | inl hit ↦ inr (
        sole_member (keep p xs) row x one ((In-keep p row xs).1 (here', touched))
          ((In-keep p x xs).1 (m, hit)))
    | inr miss ↦ inl (In-update_where_other p new xs x m miss)
  ]
