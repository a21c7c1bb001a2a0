-- ===== src/Os/Views.antt =====
-- Code that leaves a view of the system as it is, whichever of its steps fails.
use runnc.Base.{◌≡◌, ◌∙◌}
use runnc.Go.{Outcome, ok, err, stop, GoError, Reply, done, failed}
use runnc.Os.Calls.{Os}
use runnc.Os.Monad.{World, M, ◌>>=◌, continue}

module _ ⦃os : Os⦄ {V : Type 0} (view : os.Sys → V) where
  abbrev pub Keeps : {A : Type 0} → M A → Type 0
  Keeps m = (w : World) → view (m w).1.sys ≡ view w.sys

  pub >>=-Keeps :
      {A B : Type 0} (m : M A) (f : A → M B) → Keeps m → ((a : A) → Keeps (f a)) → Keeps (m >>= f)
  >>=-Keeps {A} {B} m f h k w = follow (m w).0
    where
      follow : (q : Outcome A) → view (continue q f (m w).1).1.sys ≡ view w.sys
      follow (ok a) = k a (m w).1 ∙ h w
      follow (err e) = h w
      follow (stop s) = h w

  pub reply-Keeps :
      {A B : Type 0} (q : Reply A) (k : A → M B) (f : GoError → M B)
      → ((a : A) → Keeps (k a))
      → ((e : GoError) → Keeps (f e))
      → Keeps (elim q [ done a ↦ k a | failed e ↦ f e ])
  reply-Keeps (done a) k f h i = h a
  reply-Keeps (failed e) k f h i = i e
