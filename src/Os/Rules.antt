-- ===== src/Os/Rules.antt =====
-- Reading a `do` block backwards from its outcome.
use runnc.Base.{◌≡◌, refl, ap, arith}
use runnc.Go.{Outcome, ok, err, stop}
use runnc.Os.Calls.{Os}
use runnc.Os.Monad.{World, M, ◌>>=◌, continue}

module _ ⦃os : Os⦄ {A B : Type 0} where
  continue-eq-ok :
      (r : Outcome A) (f : A → M B) (w : World) {b : B}
      → (continue r f w).0 ≡ ok b
      → (a : A) × (r ≡ ok a) × ((f a w).0 ≡ ok b)
  continue-eq-ok (ok a) f w h = (a, refl, h)
  continue-eq-ok (err e) f w h = ground arith
  continue-eq-ok (stop s) f w h = ground arith

  -- A block that returns has gone through its first step.
  pub >>=-eq-ok :
      (m : M A) (f : A → M B) (w : World) {b : B}
      → ((m >>= f) w).0 ≡ ok b
      → (a : A) × ((m w).0 ≡ ok a) × ((f a (m w).1).0 ≡ ok b)
  >>=-eq-ok m f w h = continue-eq-ok (m w).0 f (m w).1 h

  -- A block whose first step returns goes on from there.
  pub >>=-ok :
      (m : M A) (f : A → M B) (w : World) {a : A} → (m w).0 ≡ ok a → (m >>= f) w ≡ f a (m w).1
  >>=-ok m f w h = ap (λ r. continue r f (m w).1) h
