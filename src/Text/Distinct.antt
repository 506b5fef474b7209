-- ===== src/Text/Distinct.antt =====
-- Lists of texts with no repetition, as the validation loops check them with a set of those seen.
use comis_dev_crew.Base.{
  ◌↔◌, ◌++◌, In-append, ◌≡◌, ◌⊎◌, inl, inr, false, List, [], ◌∷◌, In, In-cons,
}
use comis_dev_crew.Text.Core.{Text, member}
use comis_dev_crew.Text.Laws.{In-member}

-- No element stands twice.
abbrev pub IsDistinct : List Text → Type 0
IsDistinct [] = Unit
IsDistinct (t ∷ ts) = (¬ In t ts) × IsDistinct ts

-- No element has been seen, and none stands twice.
pub record IsFresh (seen ts : List Text) : Type 0 where
  pub unseen : (t : Text) → In t ts → ¬ In t seen
  pub distinct : IsDistinct ts

pub nil-IsFresh : (seen : List Text) → IsFresh seen []
nil-IsFresh seen = record { unseen = λ t m. elim m [ ]; distinct = tt }

not_member : (t : Text) (ts : List Text) → member t ts ≡ false → ¬ In t ts
not_member t ts h m = cc (In-member t ts m)

-- One round of such a loop.
pub cons-IsFresh :
    (t : Text) (seen ts : List Text)
    → member t seen ≡ false
    → IsFresh (t ∷ seen) ts
    → IsFresh seen (t ∷ ts)
cons-IsFresh t seen ts new f = record {
  unseen = λ u m k. elim (In-cons m) [
    | inl e ↦ not_member t seen new (subst_in e k)
    | inr later ↦ f.unseen u later (In.there k)
  ];
  distinct = (λ m. f.unseen t m In.here, f.distinct);
}
  where
    subst_in : {u : Text} → u ≡ t → In u seen → In t seen
    subst_in e k = rw e at k

IsDistinct-append :
    (xs ys : List Text)
    → IsDistinct xs
    → IsDistinct ys
    → ((t : Text) → In t xs → ¬ In t ys)
    → IsDistinct (xs ++ ys)
IsDistinct-append [] ys dx dy apart = dy
IsDistinct-append (x ∷ xs) ys dx dy apart = (
  λ m. elim (In-append xs ys m) [ inl here' ↦ dx.0 here' | inr there' ↦ apart x In.here there' ],
  IsDistinct-append xs ys dx.1 dy (λ t m. apart t (In.there m)),
)

-- Two batches, the second checked against all that the first left seen.
pub append-IsFresh :
    (seen after xs ys : List Text)
    → IsFresh seen xs
    → ((t : Text) → In t after ↔ (In t seen ⊎ In t xs))
    → IsFresh after ys
    → IsFresh seen (xs ++ ys)
append-IsFresh seen after xs ys fx both fy = record {
  unseen = λ t m k. elim (In-append xs ys m) [
    | inl front ↦ fx.unseen t front k
    | inr back ↦ fy.unseen t back ((both t).1 (inl k))
  ];
  distinct =
      IsDistinct-append xs ys fx.distinct fy.distinct
        (λ t front back. fy.unseen t back ((both t).1 (inr front)));
}
