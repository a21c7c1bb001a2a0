-- ===== src/Libcontainer/Container/Mutex.antt =====
-- The mutex of `nablaContainer` (libcontainer/container_nabla.go): goroutines that share a container
-- call the methods that take the lock, in any interleaving of their steps. `Signal`, which takes no
-- lock, is not among them.
use runnc.Base.{
  ℕ, ◌≡◌, ◌≢◌, refl, sym, ◌∙◌, ap, Option, none, some, List, [], ◌∷◌, ◌++◌, ◌==◌, if◌then◌else◌,
  arith,
}
use runnc.Go.{ok}
use runnc.Os.{Os, World, >>=-ok, >>=-eq-ok}
use runnc.Llif.{RunllcHandler}
use runnc.Libcontainer.State.{Container, Codec}
use runnc.Libcontainer.Container.Lifecycle.{Op, perform, perform_all}

-- Where a goroutine is: outside, in a method that has the lock and works on the container that it
-- read when it took it, or about to release the lock.
pub data Phase : Type 0 where
  outside : Phase
  inside : Op → Container → Phase
  leaving : Phase

-- The container and the world that the goroutines share, who has the lock, where each is, and the
-- methods that are done, in order.
pub record System ⦃os : Os⦄ : Type 0 where
  pub container : Container
  pub world : World
  pub holder : Option ℕ
  pub phase : ℕ → Phase
  pub log : List Op

abbrev pub move : (ℕ → Phase) → ℕ → Phase → ℕ → Phase
move f t p u = if u == t then p else f u

module _ ⦃os : Os⦄ ⦃codec : Codec⦄ (llc : RunllcHandler) where
  -- `c.m.Lock()`, which waits for the lock; the method; the deferred `c.m.Unlock()`.
  pub data Step : System → System → Type 0 where
    lock :
        (s : System) (t : ℕ) (o : Op)
        → s.holder ≡ none
        → s.phase t ≡ outside
        → Step s (record s { holder = some t; phase = move s.phase t (inside o s.container) })
    work :
        (s : System) (t : ℕ) (o : Op) (c d : Container)
        → s.phase t ≡ inside o c
        → (perform llc o c s.world).0 ≡ ok d
        → Step s (record s {
          container = d;
          world = (perform llc o c s.world).1;
          phase = move s.phase t leaving;
          log = s.log ++ (o ∷ []);
        })
    unlock :
        (s : System) (t : ℕ)
        → s.phase t ≡ leaving
        → Step s (record s { holder = none; phase = move s.phase t outside })

  pub data Reach (c : Container) (w : World) : System → Type 0 where
    start :
        Reach c w
          (record { container = c; world = w; holder = none; phase = λ t. outside; log = [] })
    step : (s u : System) → Reach c w s → Step s u → Reach c w u

  -- Only the holder of the lock is in a method, and it works on the container as it is; the container
  -- and the world are what the methods that are done make of the first ones.
  record IsSerial (c : Container) (w : World) (s : System) : Type 0 where
    held : (t : ℕ) → s.phase t ≢ outside → s.holder ≡ some t
    fresh : (t : ℕ) (o : Op) (d : Container) → s.phase t ≡ inside o d → d ≡ s.container
    serial : perform_all llc s.log c w ≡ (ok s.container, s.world)

  perform_all-append :
      (ops : List Op) (o : Op) (c d e : Container) (w v : World)
      → perform_all llc ops c w ≡ (ok d, v)
      → (perform llc o d v).0 ≡ ok e
      → perform_all llc (ops ++ (o ∷ [])) c w ≡ (ok e, (perform llc o d v).1)
  unfolding perform_all
  perform_all-append [] o c d e w v h k =
      let at : (perform llc o c w).0 ≡ ok e = ground arith in
      let same : (perform llc o c w).1 ≡ (perform llc o d v).1 = ground arith in
      >>=-ok (perform llc o c) (λ x. perform_all llc [] x) w at ∙ ap (λ u. (ok e, u)) same
  perform_all-append (p ∷ ops) o c d e w v h k =
      let (m, first, rest) = >>=-eq-ok (perform llc p c) _ w (ap (λ r. r.0) h) in
      >>=-ok (perform llc p c) (λ x. perform_all llc (ops ++ (o ∷ [])) x) w first
      ∙ perform_all-append ops o m d e (perform llc p c w).1 v
          (sym (>>=-ok (perform llc p c) (λ x. perform_all llc ops x) w first) ∙ h) k

  Step-IsSerial :
      (c : Container) (w : World) (s u : System) → IsSerial c w s → Step s u → IsSerial c w u
  Step-IsSerial c w _ _ i (lock s t o free out) = record {
    held = λ r n. ground (arith, i.held r);
    fresh = λ r p x h. ground (arith, i.held r, i.fresh r p x);
    serial = i.serial;
  }
  Step-IsSerial c w _ _ i (work s t o d e at done) = record {
    held = λ r n. ground (arith, i.held r, i.held t);
    fresh = λ r p x h. ground (arith, i.held r, i.held t);
    serial =
        perform_all-append s.log o c d e w s.world
          (i.serial ∙ ap (λ x. (ok x, s.world)) (sym (i.fresh t o d at))) done;
  }
  Step-IsSerial c w _ _ i (unlock s t at) = record {
    held = λ r n. ground (arith, i.held r, i.held t);
    fresh = λ r p x h. ground (arith, i.fresh r p x);
    serial = i.serial;
  }

  Reach-IsSerial : (c : Container) (w : World) (s : System) → Reach c w s → IsSerial c w s
  unfolding perform_all
  Reach-IsSerial c w _ start = record {
    held = λ t n. absurd (n refl);
    fresh = λ t o d at. ground arith;
    serial = refl;
  }
  Reach-IsSerial c w _ (step s u reached next) =
      Step-IsSerial c w s u (Reach-IsSerial c w s reached) next

  -- However goroutines interleave, the shared container and the world are those of the methods run
  -- one after the other, in the order in which they came out, and at most one goroutine is in a
  -- method.
  pub Reach-serial :
      (c : Container) (w : World) (s : System)
      → Reach c w s
      → (perform_all llc s.log c w ≡ (ok s.container, s.world))
        × ((t u : ℕ) → s.phase t ≢ outside → s.phase u ≢ outside → t ≡ u)
  Reach-serial c w s r =
      let i = Reach-IsSerial c w s r in
      (i.serial, λ t u m n. ground (arith, i.held t m, i.held u n))
