-- ===== src/Scheduler/Fleet/Updates.antt =====
-- Lists of which one element was changed, as the rounds of
-- internal/application/initiative_scheduler.go change a decision.
use comis_dev_crew.Base.{
  sym, some-injective, ℕ, zero, suc, ◌≡◌, refl, ◌⊎◌, inl, inr, List, [], ◌∷◌, some, In, In-cons,
  get_elem?,
}
use comis_dev_crew.Scheduler.Allocate.{update_at}

pub get_elem?-In : {A : Type 0} (i : ℕ) (xs : List A) {x : A} → get_elem? xs i ≡ some x → In x xs
get_elem?-In i [] h = cc
get_elem?-In zero (y ∷ ys) h = rw (← some-injective h) In.here
get_elem?-In (suc i) (y ∷ ys) h = In.there (get_elem?-In i ys h)

pub In-update_at :
    {A : Type 0} (i : ℕ) (f : A → A) (xs : List A) {y : A}
    → In y (update_at i f xs)
    → In y xs ⊎ ((x : A) × (get_elem? xs i ≡ some x) × (y ≡ f x))
unfolding update_at
In-update_at i f [] m = elim m [ ]
In-update_at zero f (x ∷ xs) m = elim (In-cons m) [
  | inl same ↦ inr (x, refl, same)
  | inr k ↦ inl (In.there k)
]
In-update_at (suc i) f (x ∷ xs) m = elim (In-cons m) [
  | inl same ↦ inl (rw same In.here)
  | inr k ↦ elim (In-update_at i f xs k) [ inl old ↦ inl (In.there old) | inr new ↦ inr new ]
]

pub get_elem?-update_at :
    {A : Type 0} (i j : ℕ) (f : A → A) (xs : List A) {y : A}
    → get_elem? (update_at i f xs) j ≡ some y
    → (x : A) × (get_elem? xs j ≡ some x) × ((y ≡ x) ⊎ (y ≡ f x))
unfolding update_at
get_elem?-update_at i j f [] h = cc
get_elem?-update_at zero zero f (x ∷ xs) h = (x, refl, inr (sym (some-injective h)))
get_elem?-update_at zero (suc j) f (x ∷ xs) {y} h = (y, h, inl refl)
get_elem?-update_at (suc i) zero f (x ∷ xs) h = (x, refl, inl (sym (some-injective h)))
get_elem?-update_at (suc i) (suc j) f (x ∷ xs) h = get_elem?-update_at i j f xs h
