-- ===== src/Text/Laws.antt =====
-- Equality of byte strings decides equality, and the order is strict and total.
use comis_dev_crew.Base.{
  ◌≡◌, refl, ◌↔◌, ◌⊎◌, inl, inr, true, false, List, [], ◌∷◌, arith, Bool-cases, In,
}
use comis_dev_crew.Text.Core.{Text, text_eq, member, text_less}

pub text_eq_refl : (a : Text) → text_eq a a ≡ true
unfolding text_eq
text_eq_refl [] = refl
text_eq_refl (a ∷ xs) = ground (arith, text_eq_refl xs)

pub text_eq_sound : (a b : Text) → text_eq a b ≡ true → a ≡ b
unfolding text_eq
text_eq_sound [] [] h = refl
text_eq_sound [] (b ∷ bs) h = cc
text_eq_sound (a ∷ xs) [] h = cc
text_eq_sound (a ∷ xs) (b ∷ bs) h = ground (arith, text_eq_sound xs bs)

pub text_eq_iff : (a b : Text) → (text_eq a b ≡ true) ↔ (a ≡ b)
text_eq_iff a b = (text_eq_sound a b, λ e. rw e (text_eq_refl b))

pub text_eq_sym : (a b : Text) → text_eq a b ≡ text_eq b a
unfolding text_eq
text_eq_sym [] [] = refl
text_eq_sym [] (b ∷ bs) = refl
text_eq_sym (a ∷ xs) [] = refl
text_eq_sym (a ∷ xs) (b ∷ bs) = ground (arith, text_eq_sym xs bs)

pub member-In : (t : Text) (ts : List Text) → member t ts ≡ true → In t ts
unfolding member
member-In t [] h = cc
member-In t (x ∷ xs) h = elim (Bool-cases (text_eq t x)) [
  | inl same ↦ rw (text_eq_sound t x same) In.here
  | inr other ↦ In.there (member-In t xs (ground (arith, other)))
]

pub In-member : (t : Text) (ts : List Text) → In t ts → member t ts ≡ true
unfolding member
In-member t [] m = elim m [ ]
In-member t (x ∷ xs) In.here = rw (text_eq_refl t)
In-member t (x ∷ xs) (In.there m) = ground (arith, In-member t xs m)

pub text_less_irrefl : (a : Text) → text_less a a ≡ false
unfolding text_less
text_less_irrefl [] = refl
text_less_irrefl (a ∷ xs) = ground (arith, text_less_irrefl xs)

pub text_less_trans :
    (a b c : Text) → text_less a b ≡ true → text_less b c ≡ true → text_less a c ≡ true
unfolding text_less
text_less_trans a [] c h k = ground arith
text_less_trans [] (b ∷ bs) [] h k = cc
text_less_trans [] (b ∷ bs) (c ∷ cs) h k = refl
text_less_trans (a ∷ xs) (b ∷ bs) [] h k = cc
text_less_trans (a ∷ xs) (b ∷ bs) (c ∷ cs) h k = ground (arith, text_less_trans xs bs cs)

pub text_less_total : (a b : Text) → (text_less a b ≡ true) ⊎ ((text_less b a ≡ true) ⊎ (a ≡ b))
unfolding text_less
text_less_total [] [] = inr (inr refl)
text_less_total [] (b ∷ bs) = inl refl
text_less_total (a ∷ xs) [] = inr (inl refl)
text_less_total (a ∷ xs) (b ∷ bs) = ground (arith, text_less_total xs bs)
