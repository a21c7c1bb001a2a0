-- ===== src/Os/Total.antt =====
-- Code that never returns an error: what it does with one is written into its result.
use runnc.Base.{◌≡◌, ◌≢◌, refl, Option, none, some, Bool, true, false, if◌then◌else◌, arith}
use runnc.Go.{Outcome, ok, err, stop, GoError, Reply, done, failed}
use runnc.Os.Calls.{Os}
use runnc.Os.Monad.{World, M, ◌>>=◌, continue, finally, deferring, attempt, pure}

module _ ⦃os : Os⦄ where
  -- Code that has no error of its own.
  abbrev pub IsTotal : {A : Type 0} → M A → Type 0
  IsTotal m = (w : World) (e : GoError) → (m w).0 ≢ err e

  pub >>=-IsTotal :
      {A B : Type 0} (m : M A) (f : A → M B)
      → IsTotal m
      → ((a : A) → IsTotal (f a))
      → IsTotal (m >>= f)
  >>=-IsTotal {A} {B} m f h k w e x = bound (m w).0 refl x
    where
      bound : (q : Outcome A) → (m w).0 ≡ q → (continue q f (m w).1).0 ≡ err e → ⊥
      bound (ok a) _ y = k a (m w).1 e y
      bound (err d) at _ = h w d at
      bound (stop s) _ y = ground arith

  pub deferring-IsTotal : {A B : Type 0} (c : M B) (m : M A) → IsTotal m → IsTotal (deferring c m)
  deferring-IsTotal {A} {B} c m h w e x = closed (m w).0 refl x
    where
      closed : (q : Outcome A) → (m w).0 ≡ q → (finally q c (m w).1).0 ≡ err e → ⊥
      closed (ok a) _ y = ground arith
      closed (err d) at _ = h w d at
      closed (stop s) _ y = ground arith

  pub attempt-IsTotal : {A : Type 0} (m : M A) → IsTotal (attempt m)
  attempt-IsTotal m w e x = ground arith

  pub pure-IsTotal : {A : Type 0} (a : A) → IsTotal (pure a)
  pure-IsTotal a w e x = ground arith

  pub if-IsTotal :
      {A : Type 0} (b : Bool) (m n : M A) → IsTotal m → IsTotal n → IsTotal (if b then m else n)
  if-IsTotal true m n h k = h
  if-IsTotal false m n h k = k

  pub reply-IsTotal :
      {A B : Type 0} (q : Reply A) (k : A → M B) (f : GoError → M B)
      → ((a : A) → IsTotal (k a))
      → ((e : GoError) → IsTotal (f e))
      → IsTotal (elim q [ done a ↦ k a | failed e ↦ f e ])
  reply-IsTotal (done a) k f h i = h a
  reply-IsTotal (failed e) k f h i = i e

  pub option-IsTotal :
      {A B : Type 0} (o : Option A) (k : M B) (f : A → M B)
      → IsTotal k
      → ((a : A) → IsTotal (f a))
      → IsTotal (elim o [ none ↦ k | some a ↦ f a ])
  option-IsTotal none k f h i = h
  option-IsTotal (some a) k f h i = i a
