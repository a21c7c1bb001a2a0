-- ===== src/Os/Monad.antt =====
-- Code that calls the system: it takes the world, and gives an outcome and the new world.
use runnc.Base.{List, ◌∷◌, String}
use runnc.Go.{Outcome, ok, err, stop, Reply, done, failed, GoError, Stop, wrap}
use runnc.Os.Calls.{Os, Call, Ret, Answer, Event, called, handed, HandlerCall}

pub record World ⦃os : Os⦄ : Type 0 where
  pub sys : os.Sys
  pub trace : List Event

module _ ⦃os : Os⦄ where
  abbrev pub M : Type 0 → Type 0
  M A = World → Outcome A × World

  abbrev pub pure : {A : Type 0} → A → M A
  pure a w = (ok a, w)

  abbrev pub raise : {A : Type 0} → GoError → M A
  raise e w = (err e, w)

  abbrev pub halt : {A : Type 0} → Stop → M A
  halt s w = (stop s, w)

  abbrev pub continue : {A B : Type 0} → Outcome A → (A → M B) → M B
  continue (ok a) f w = f a w
  continue (err e) f w = (err e, w)
  continue (stop s) f w = (stop s, w)

  infixl 5 ◌>>=◌ ◌>>◌
  abbrev pub ◌>>=◌ : {A B : Type 0} → M A → (A → M B) → M B
  ◌>>=◌ m f w = let (r, w') = m w in continue r f w'

  abbrev pub ◌>>◌ : {A B : Type 0} → M A → M B → M B
  m >> k = m >>= λ _. k

  abbrev pub lift_reply : {A : Type 0} → Reply A → Outcome A
  lift_reply (done a) = ok a
  lift_reply (failed e) = err e

  -- Make a call, and have its answer, an error included, as a value.
  abbrev pub ask : {r : Ret} → Call r → M (Answer r)
  ask c w = let (a, s) = os.answer c w.sys in (ok a, record { sys = s; trace = called c ∷ w.trace })

  -- Return the error of a failed call to the caller: `if err != nil { return err }`.
  abbrev pub must : {A : Type 0} → M (Reply A) → M A
  must m w = let (r, w') = m w in continue r (λ a w''. (lift_reply a, w'')) w'

  -- The same with a text in front of the error.
  abbrev pub explain : {A : Type 0} → String → Outcome A → Outcome A
  explain s (ok a) = ok a
  explain s (err e) = err (wrap s e)
  explain s (stop e) = stop e

  abbrev pub wrapping : {A : Type 0} → String → M A → M A
  wrapping s m w = let (r, w') = m w in (explain s r, w')

  -- Have the error of `m` as a value.
  abbrev pub caught : {A : Type 0} → Outcome A → Outcome (Reply A)
  caught (ok a) = ok (done a)
  caught (err e) = ok (failed e)
  caught (stop e) = stop e

  abbrev pub attempt : {A : Type 0} → M A → M (Reply A)
  attempt m w = let (r, w') = m w in (caught r, w')

  -- Note that a low level handler takes over.
  abbrev pub hand_over : HandlerCall → M (Unit {0})
  hand_over h w = (ok tt, record w { trace = handed h ∷ w.trace })

  -- `if err != nil { return ... }` in a function that returns something beside the error.
  abbrev pub check : {A B : Type 0} → Reply A → (GoError → B) → (A → M B) → M B
  check (done a) give_up k w = k a w
  check (failed e) give_up k w = (ok (give_up e), w)

  -- `defer cleanup()`: it runs when the function returns, with or without an error.
  abbrev pub finally : {A B : Type 0} → Outcome A → M B → M A
  finally (ok a) cleanup w = (ok a, (cleanup w).1)
  finally (err e) cleanup w = (err e, (cleanup w).1)
  finally (stop s) cleanup w = (stop s, w)

  abbrev pub deferring : {A B : Type 0} → M B → M A → M A
  deferring cleanup m w = let (r, w') = m w in finally r cleanup w'
