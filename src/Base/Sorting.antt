-- ===== src/Base/Sorting.antt =====
-- Go's sort.Slice as an insertion sort. Elements that the order leaves equal keep their places,
-- where Go leaves their order open; the program sorts by keys that are unique.
use Prim.Native.Nat.{suc}
use mathlib.Core.Path.{◌≡◌, refl, ap, ◌∙◌}
use mathlib.Core.Logic.{◌⊎◌, inl, inr, ◌↔◌}
use mathlib.Core.Bool.{Bool, true, false}
use mathlib.Core.List.{List, [], ◌∷◌}
use native.Mathlib.Omega.{arith}
use comis_dev_crew.Base.Tests.{if◌then◌else◌, Bool-cases}
use comis_dev_crew.Base.Lists.{In, In-cons, In-cons_eq, length}

module _ {ℓ} {A : Type ℓ} (less : A → A → Bool) where
  pub insert_by : A → List A → List A
  insert_by x [] = x ∷ []
  insert_by x (y ∷ ys) = let rest = insert_by x ys in if less x y then x ∷ y ∷ ys else y ∷ rest

  unfoldable pub sort_by : List A → List A
  unfolding insert_by
  sort_by [] = []
  sort_by (x ∷ xs) = insert_by x (sort_by xs)

  pub In-insert_by : (x a : A) (ys : List A) → In a (insert_by x ys) → (a ≡ x) ⊎ In a ys
  unfolding insert_by
  In-insert_by x a [] m = In-cons m
  In-insert_by x a (y ∷ ys) m = elim (Bool-cases (less x y)) [
    | inl first ↦ In-cons (rw first at m)
    | inr later ↦ elim (In-cons (rw later at m)) [
      | inl e ↦ inr (In-cons_eq e)
      | inr k ↦ elim (In-insert_by x a ys k) [ inl e ↦ inl e | inr r ↦ inr (In.there r) ]
    ]
  ]

  insert_by-In_self : (x : A) (ys : List A) → In x (insert_by x ys)
  unfolding insert_by
  insert_by-In_self x [] = In.here
  insert_by-In_self x (y ∷ ys) = elim (Bool-cases (less x y)) [
    | inl first ↦ rw first In.here
    | inr later ↦ rw later (In.there (insert_by-In_self x ys))
  ]

  insert_by-In : (x a : A) (ys : List A) → In a ys → In a (insert_by x ys)
  unfolding insert_by
  insert_by-In x a [] m = elim m [ ]
  insert_by-In x a (y ∷ ys) m = elim (Bool-cases (less x y)) [
    | inl first ↦ rw first (In.there m)
    | inr later ↦
        rw later
          (elim (In-cons m) [ inl e ↦ In-cons_eq e | inr k ↦ In.there (insert_by-In x a ys k) ])
  ]

  -- Sorting keeps the elements.
  pub In-sort_by : (a : A) (xs : List A) → In a (sort_by xs) ↔ In a xs
  unfolding sort_by
  In-sort_by a [] = (λ m. m, λ m. m)
  In-sort_by a (x ∷ xs) = (
    λ m. elim (In-insert_by x a (sort_by xs) m) [
      | inl e ↦ In-cons_eq e
      | inr k ↦ In.there ((In-sort_by a xs).0 k)
    ],
    λ m. elim (In-cons m) [
      | inl e ↦ rw e (insert_by-In_self x (sort_by xs))
      | inr k ↦ insert_by-In x a (sort_by xs) ((In-sort_by a xs).1 k)
    ],
  )

  length-insert_by : (x : A) (ys : List A) → length (insert_by x ys) ≡ suc (length ys)
  unfolding insert_by
  length-insert_by x [] = refl
  length-insert_by x (y ∷ ys) = ground (arith, length-insert_by x ys)

  pub length-sort_by : (xs : List A) → length (sort_by xs) ≡ length xs
  unfolding sort_by
  length-sort_by [] = refl
  length-sort_by (x ∷ xs) = length-insert_by x (sort_by xs) ∙ ap suc (length-sort_by xs)

  -- No element stands behind one that it precedes.
  abbrev pub IsSorted : List A → Type ℓ
  IsSorted [] = Unit
  IsSorted (x ∷ xs) = ((y : A) → In y xs → less y x ≡ false) × IsSorted xs

  module _ (trans : (a b c : A) → less a b ≡ true → less b c ≡ true → less a c ≡ true)
      (irrefl : (a : A) → less a a ≡ false) where
    not_less : (z x y : A) → less x y ≡ true → less z y ≡ false → less z x ≡ false
    not_less z x y h k = elim (Bool-cases (less z x)) [
      | inl bad ↦ cc (trans z x y bad h)
      | inr fine ↦ fine
    ]

    insert_by-IsSorted : (x : A) (ys : List A) → IsSorted ys → IsSorted (insert_by x ys)
    unfolding insert_by
    insert_by-IsSorted x [] h = (λ y m. elim m [ ], tt)
    insert_by-IsSorted x (y ∷ ys) h = elim (Bool-cases (less x y)) [
      | inl first ↦ rw first (
        λ z m. elim (In-cons m) [
          | inl e ↦ rw e (not_less y x y first (irrefl y))
          | inr k ↦ not_less z x y first (h.0 z k)
        ],
        h,
      )
      | inr later ↦ rw later (
        λ z m. elim (In-insert_by x z ys m) [ inl e ↦ rw e later | inr k ↦ h.0 z k ],
        insert_by-IsSorted x ys h.1,
      )
    ]

    pub sort_by-IsSorted : (xs : List A) → IsSorted (sort_by xs)
    unfolding sort_by
    sort_by-IsSorted [] = tt
    sort_by-IsSorted (x ∷ xs) = insert_by-IsSorted x (sort_by xs) (sort_by-IsSorted xs)
