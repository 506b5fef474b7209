-- ===== src/Cleanup/Coordinator/Triples.antt =====
-- How an action of the coordinator ends, and the rules for its parts: a postcondition for an
-- answer, and one for an error.
use comis_dev_crew.Base.{◌≡◌, refl, Bool, true, false, List, Result, ok, err}
use comis_dev_crew.Cleanup.{CleanupError}
use comis_dev_crew.Cleanup.Tables.{Database}
use comis_dev_crew.Cleanup.Database.{Stored}
use comis_dev_crew.Cleanup.Begin.{settle}
use comis_dev_crew.Cleanup.Ports.{
  Port, Event, World, Action, ◌>>=◌, ◌>>◌, raise_if, reporting, call, store,
}

pub data Outcome {E A : Type 0} (Q : A → World E → Type 0) (R : World E → Type 0)
    : Result CleanupError A → World E → Type 0 where
  returns : {a : A} {after : World E} → Q a after → Outcome Q R (ok a) after
  fails : {e : CleanupError} {after : World E} → R after → Outcome Q R (err e) after

abbrev pub Ends :
    {E A : Type 0}
    → (A → World E → Type 0)
    → (World E → Type 0)
    → Result CleanupError A × World E
    → Type 0
Ends Q R answer = Outcome Q R answer.0 answer.1

module _ {E A : Type 0} {Q : A → World E → Type 0} {R : World E → Type 0} where
  pub Ends-bind :
      {B : Type 0} {S : B → World E → Type 0} (m : Action E A) (next : A → Action E B) (w : World E)
      → Ends Q R (m w)
      → ((a : A) (after : World E) → Q a after → Ends S R (next a after))
      → Ends S R ((m >>= next) w)
  unfolding ◌>>=◌
  Ends-bind {B} {S} m next w = go (m w)
    where
      go :
          (answer : Result CleanupError A × World E)
          → Ends Q R answer
          → ((a : A) (after : World E) → Q a after → Ends S R (next a after))
          → Ends S R (((λ (v : World E). answer) >>= next) w)
      go (ok a, after) (Outcome.returns q) then_next = then_next a after q
      go (err e, after) (Outcome.fails r) then_next = Outcome.fails r

  pub Ends-mono :
      {Q' : A → World E → Type 0} {R' : World E → Type 0} (answer : Result CleanupError A × World E)
      → ((a : A) (after : World E) → Q a after → Q' a after)
      → ((after : World E) → R after → R' after)
      → Ends Q R answer
      → Ends Q' R' answer
  Ends-mono (ok a, after) f g (Outcome.returns q) = Outcome.returns (f a after q)
  Ends-mono (err e, after) f g (Outcome.fails r) = Outcome.fails (g after r)

  pub Ends-reporting :
      (report : CleanupError → CleanupError) (m : Action E A) (w : World E)
      → Ends Q R (m w)
      → Ends Q R (reporting report m w)
  unfolding reporting
  Ends-reporting report m w = go (m w)
    where
      go :
          (answer : Result CleanupError A × World E)
          → Ends Q R answer
          → Ends Q R (reporting report (λ (v : World E). answer) w)
      go (ok a, after) (Outcome.returns q) = Outcome.returns q
      go (err e, after) (Outcome.fails r) = Outcome.fails r

  -- A guard in front of an action.
  pub Ends-raise_if :
      (bad : Bool) (e : CleanupError) (next : Action E A) (w : World E)
      → R w
      → (bad ≡ false → Ends Q R (next w))
      → Ends Q R ((raise_if bad e >> next) w)
  unfolding ◌>>=◌ raise_if
  Ends-raise_if true e next w refused passed = Outcome.fails refused
  Ends-raise_if false e next w refused passed = passed refl

-- The database is as it was, and the log has this value.
pub record Logs {E : Type 0} (w : World E) (log : List Event) (after : World E) : Type 0 where
  pub database : after.database ≡ w.database
  pub logged : after.log ≡ log

module _ {E : Type 0} where
  pub call-Logs :
      {Request Answer : Type 0} (port : Port E Request Answer)
      (logged : Answer → List Event → List Event) (request : Request) (w : World E)
      → Ends (λ a. Logs w (logged a w.log)) (Logs w w.log) (call port logged request w)
  unfolding call
  call-Logs {Request} {Answer} port logged request w = go (port request w.environment)
    where
      go :
          (answer : Result CleanupError Answer × E)
          → Ends
              (λ a. Logs w (logged a w.log))
              (Logs w w.log)
              (call (λ (r : Request) (e : E). answer) logged request w)
      go (ok a, after) = Outcome.returns (record { database = refl; logged = refl })
      go (err e, after) = Outcome.fails (record { database = refl; logged = refl })

  -- A transaction of the store: its answer and its database, or the old cleanup rows.
  pub store-Ends :
      {A : Type 0} (operation : Database → Stored (A × Database)) (w : World E)
      → Ends
          (λ a after. (operation w.database ≡ ok (a, after.database)) × (after.log ≡ w.log))
          (λ after. (after.database.cleanups ≡ w.database.cleanups) × (after.log ≡ w.log))
          (store (λ db. settle db (operation db)) w)
  unfolding store settle
  store-Ends {A} operation w = go (operation w.database)
    where
      go :
          (answer : Stored (A × Database))
          → Ends
              (λ a after. (answer ≡ ok (a, after.database)) × (after.log ≡ w.log))
              (λ after. (after.database.cleanups ≡ w.database.cleanups) × (after.log ≡ w.log))
              (store (λ db. settle db answer) w)
      go (ok (a, db)) = Outcome.returns (refl, refl)
      go (err refusal) = Outcome.fails (refl, refl)

  -- A call of the store, with a fact about the database that it leaves.
  pub store-leaves :
      {A : Type 0} (T : Database → Type 0) (operation : Database → Result CleanupError A × Database)
      (w : World E)
      → T (operation w.database).1
      → Ends
          (λ (a : A) after. T after.database × (after.log ≡ w.log))
          (λ after. T after.database × (after.log ≡ w.log))
          (store operation w)
  unfolding store
  store-leaves {A} T operation w = go (operation w.database)
    where
      go :
          (answer : Result CleanupError A × Database)
          → T answer.1
          → Ends
              (λ (a : A) after. T after.database × (after.log ≡ w.log))
              (λ after. T after.database × (after.log ≡ w.log))
              (store (λ (db : Database). answer) w)
      go (ok a, db) t = Outcome.returns (t, refl)
      go (err e, db) t = Outcome.fails (t, refl)
