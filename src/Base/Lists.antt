-- ===== src/Base/Lists.antt =====
-- Lists: lengths as native numbers, Boolean tests over the elements, and predicates by recursion.
use Prim.Native.Nat.{ℕ, zero, suc, ◌+◌}
use mathlib.Core.Path.{◌≡◌, refl}
use mathlib.Core.Logic.{◌↔◌, ◌⊎◌, inl, inr}
use mathlib.Core.Bool.{Bool, true, false, ◌&&◌, ◌||◌}
use mathlib.Core.Option.{Option, none, some}
use mathlib.Core.List.{List, [], ◌∷◌, ◌++◌}
use native.Mathlib.Omega.{arith}
use comis_dev_crew.Base.Tests.{if◌then◌else◌, Bool-cases, ||-eq-false}

module _ {ℓ} {A : Type ℓ} where
  abbrev pub length : List A → ℕ
  length [] = 0
  length (x ∷ xs) = suc (length xs)

  abbrev pub is_empty : List A → Bool
  is_empty [] = true
  is_empty (x ∷ xs) = false

  abbrev pub get_elem? : List A → ℕ → Option A
  get_elem? [] i = none
  get_elem? (x ∷ xs) zero = some x
  get_elem? (x ∷ xs) (suc i) = get_elem? xs i

  abbrev pub all : (A → Bool) → List A → Bool
  all p [] = true
  all p (x ∷ xs) = p x && all p xs

  abbrev pub any : (A → Bool) → List A → Bool
  any p [] = false
  any p (x ∷ xs) = p x || any p xs

  -- The elements that pass a test, in their order.
  abbrev pub keep : (A → Bool) → List A → List A
  keep p [] = []
  keep p (x ∷ xs) = let rest = keep p xs in if p x then x ∷ rest else rest

  -- Membership with the position kept, and a property of every element.
  pub data In (a : A) : List A → Type ℓ where
    here : {xs : List A} → In a (a ∷ xs)
    there : {x : A} {xs : List A} → In a xs → In a (x ∷ xs)

module _ {ℓ κ} {A : Type ℓ} where
  abbrev pub All : (A → Type κ) → List A → Type κ
  All P [] = Unit
  All P (x ∷ xs) = P x × All P xs

module _ {ℓ} {A : Type ℓ} where
  pub length-append : (xs ys : List A) → length (xs ++ ys) ≡ length xs + length ys
  length-append [] ys = omega arith
  length-append (x ∷ xs) ys = omega (arith, length-append xs ys)

  pub In-append_left : {a : A} (xs ys : List A) → In a xs → In a (xs ++ ys)
  In-append_left [] ys m = elim m [ ]
  In-append_left (x ∷ xs) ys here = here
  In-append_left (x ∷ xs) ys (there m) = there (In-append_left xs ys m)

  pub In-append_right : {a : A} (xs ys : List A) → In a ys → In a (xs ++ ys)
  In-append_right [] ys m = m
  In-append_right (x ∷ xs) ys m = there (In-append_right xs ys m)

  pub In-append : {a : A} (xs ys : List A) → In a (xs ++ ys) → In a xs ⊎ In a ys
  In-append [] ys m = inr m
  In-append (x ∷ xs) ys here = inl here
  In-append (x ∷ xs) ys (there m) = elim (In-append xs ys m) [
    | inl l ↦ inl (there l)
    | inr r ↦ inr r
  ]

module _ {ℓ} {A : Type ℓ} where
  pub In-cons : {a x : A} {xs : List A} → In a (x ∷ xs) → (a ≡ x) ⊎ In a xs
  In-cons here = inl refl
  In-cons (there m) = inr m

  pub In-cons_eq : {a x : A} {xs : List A} → a ≡ x → In a (x ∷ xs)
  In-cons_eq e = rw e here

  -- The elements that `keep` leaves are those that pass the test.
  pub In-keep : (p : A → Bool) (a : A) (xs : List A) → In a (keep p xs) ↔ (In a xs × (p a ≡ true))
  In-keep p a xs = (into xs, λ m. out xs m.0 m.1)
    where
      into : (ys : List A) → In a (keep p ys) → In a ys × (p a ≡ true)
      into [] m = elim m [ ]
      into (y ∷ ys) m = elim (Bool-cases (p y)) [
        | inl yes' ↦ elim (In-cons (rw yes' at m)) [
          | inl e ↦ (In-cons_eq e, rw e yes')
          | inr k ↦ let r = into ys k in (there r.0, r.1)
        ]
        | inr no' ↦ let r = into ys (rw no' at m) in (there r.0, r.1)
      ]

      out : (ys : List A) → In a ys → p a ≡ true → In a (keep p ys)
      out [] m h = elim m [ ]
      out (y ∷ ys) here h = rw h here
      out (y ∷ ys) (there m) h = elim (Bool-cases (p y)) [
        | inl yes' ↦ rw yes' (there (out ys m h))
        | inr no' ↦ rw no' (out ys m h)
      ]

module _ {ℓ} {A : Type ℓ} (p : A → Bool) where
  pub any-eq-false : (xs : List A) (x : A) → any p xs ≡ false → In x xs → p x ≡ false
  any-eq-false [] x h m = elim m [ ]
  any-eq-false (y ∷ ys) x h m =
      let (head, rest) = ||-eq-false (p y) (any p ys) h in
      elim (In-cons m) [ inl e ↦ rw e head | inr k ↦ any-eq-false ys x rest k ]

module _ {ℓ κ} {A : Type ℓ} (P : A → Type κ) where
  pub All-In : (a : A) (xs : List A) → All P xs → In a xs → P a
  All-In a [] h m = elim m [ ]
  All-In a (x ∷ xs) h here = h.0
  All-In a (x ∷ xs) h (there m) = All-In a xs h.1 m

  pub All-of_In : (xs : List A) → ((a : A) → In a xs → P a) → All P xs
  All-of_In [] h = tt
  All-of_In (x ∷ xs) h = (h x here, All-of_In xs (λ a m. h a (there m)))
