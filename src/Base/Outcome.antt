-- ===== src/Base/Outcome.antt =====
-- The result of a function that may fail, and its monad. The failures are a parameter, so that
-- each part of the program keeps its own error type.
use mathlib.Core.Path.{◌≡◌, refl}
use mathlib.Core.Logic.{◌⊎◌, inl, inr}
use mathlib.Core.Bool.{Bool, true, false}

pub data Result (E A : Type 0) : Type 0 where
  ok : A → Result E A
  err : E → Result E A

infixl 5 ◌>>=◌ ◌>>◌
abbrev pub ◌>>=◌ : {E A B : Type 0} → Result E A → (A → Result E B) → Result E B
err failure >>= next = err failure
ok value >>= next = next value

abbrev pub ◌>>◌ : {E B : Type 0} → Result E (Unit {0}) → Result E B → Result E B
ok a >> k = k
err e >> k = err e

-- `if bad { return e }`
abbrev pub refuse : {E : Type 0} → Bool → E → Result E (Unit {0})
refuse true e = err e
refuse false e = ok tt

-- `if !good { return e }`
abbrev pub require : {E : Type 0} → Bool → E → Result E (Unit {0})
require true e = ok tt
require false e = err e

-- `if b { check }`
abbrev pub when : {E : Type 0} → Bool → Result E (Unit {0}) → Result E (Unit {0})
when true check = check
when false check = ok tt

abbrev pub is_ok : {E A : Type 0} → Result E A → Bool
is_ok (ok a) = true
is_ok (err e) = false

module _ {E : Type 0} where
  pub >>-eq-ok :
      {B : Type 0} (first : Result E (Unit {0})) (rest : Result E B) {out : B}
      → (first >> rest) ≡ ok out
      → (first ≡ ok tt) × (rest ≡ ok out)
  >>-eq-ok (err failure) rest h = cc
  >>-eq-ok (ok tt) rest h = (refl, h)

  pub >>=-eq-ok :
      {A B : Type 0} (first : Result E A) (next : A → Result E B) {out : B}
      → (first >>= next) ≡ ok out
      → (value : A) × (first ≡ ok value) × (next value ≡ ok out)
  >>=-eq-ok (err failure) next h = cc
  >>=-eq-ok (ok value) next h = (value, refl, h)

  pub refuse-eq-ok : (b : Bool) (e : E) → refuse b e ≡ ok tt → b ≡ false
  refuse-eq-ok false e h = refl
  refuse-eq-ok true e h = cc

  pub require-eq-ok : (b : Bool) (e : E) → require b e ≡ ok tt → b ≡ true
  require-eq-ok true e h = refl
  require-eq-ok false e h = cc

  pub Result-cases :
      {A : Type 0} (r : Result E A) → ((a : A) × (r ≡ ok a)) ⊎ ((e : E) × (r ≡ err e))
  Result-cases (ok a) = inl (a, refl)
  Result-cases (err e) = inr (e, refl)

  pub is_ok-eq-true : (r : Result E (Unit {0})) → is_ok r ≡ true → r ≡ ok tt
  is_ok-eq-true (ok tt) h = refl
  is_ok-eq-true (err e) h = cc

pub ok-injective : {E A : Type 0} {a b : A} → ◌≡◌ {A = Result E A} (ok a) (ok b) → a ≡ b
ok-injective h = cc
