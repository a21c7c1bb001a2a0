-- ===== src/Llcli/Runner/CleanUp.antt =====
-- What `run` of llcli/util_runner.go does with the container when it fails.
use runnc.Base.{
  ℕ, ◌≡◌, ◌≢◌, refl, sym, ◌⊎◌, inl, inr, ℤ, pos, String, Option, none, some, List, [], ◌∷◌, Bool,
  true, false, str_eq, if◌then◌else◌, arith,
}
use mathlib.Core.Path.{subst}
use runnc.Go.{Outcome, ok, err, stop, Stop, GoError, done, failed}
use runnc.Os.{Os, World, M, >>=-ok, attempt, ◌>>=◌}
use runnc.Llif.{RunllcHandler}
use runnc.Libcontainer.State.{Container, Codec}
use runnc.Libcontainer.Process.{Process, signal_process, wait}
use runnc.Libcontainer.Container.{start}
use runnc.Llcli.Tty.{Tty, close_fds, close_post_start}
use runnc.Llcli.Runner.{
  Runner, create_pid_file, adjust_oom_score, terminate, destroy_container, give_up,
  kill_and_give_up, finish, set_oom_score, after_start,
}

module _ ⦃os : Os⦄ (llc : RunllcHandler) where
  -- A world that `destroy`, run for a container with this id, has left, with an error or without.
  pub record IsDestroyed (id : String) (u : World) : Type 0 where
    pub container : Container
    pub same_id : container.id ≡ id
    pub before : World
    pub destroyed : u ≡ (destroy_container llc container before).1

  -- A runner of `create`, as `startContainer` makes it.
  pub record IsCreator (r : Runner) : Type 0 where
    pub destroys : r.should_destroy ≡ true
    pub creates : r.create ≡ true

  module _ (r : Runner) (creator : IsCreator r) where
    pub give_up-IsDestroyed :
        (c : Container) (e : GoError) (w : World) → IsDestroyed c.id (give_up llc r c e w).1
    unfolding give_up
    give_up-IsDestroyed c e w = record {
      container = c;
      same_id = refl;
      before = w;
      destroyed = rw creator.destroys (ground arith);
    }

    -- A run that succeeds, or ends the process, or ends by giving up this container.
    unfoldable pub IsSafe : String → Outcome (ℤ × Option GoError) × World → Type 0
    IsSafe id x = (x.0 ≡ ok (pos 0, none)) ⊎ (((s : Stop) × (x.0 ≡ stop s)) ⊎ IsDestroyed id x.1)

    terminate-ok : (p : Process) (o : Option ℕ) (w : World) → p.ops ≡ o → (terminate p w).0 ≡ ok tt
    unfolding terminate signal_process wait
    terminate-ok p none w e = rw e refl
    terminate-ok p (some pid) w e = rw e (ground arith)

    kill_and_give_up-IsDestroyed :
        (c : Container) (p : Process) (e : GoError) (w : World)
        → IsDestroyed c.id (kill_and_give_up llc r c p e w).1
    unfolding kill_and_give_up
    kill_and_give_up-IsDestroyed c p e w =
        subst (λ x. IsDestroyed c.id x.1)
          (sym (>>=-ok (terminate p) (λ _. give_up llc r c e) w (terminate-ok p _ w refl)))
          (give_up-IsDestroyed c e (terminate p w).1)

    given_up : (c : Container) (e : GoError) (w : World) → IsSafe c.id (give_up llc r c e w)
    unfolding IsSafe
    given_up c e w = inr (inr (give_up-IsDestroyed c e w))

    stopped :
        (c : Container) (x : Outcome (ℤ × Option GoError) × World) (s : Stop)
        → x.0 ≡ stop s
        → IsSafe c.id x
    unfolding IsSafe
    stopped c x s e = inr (inl (s, e))

    module _ ⦃codec : Codec⦄ (fuel : ℕ) (signals : List ℕ) where
      finish-IsSafe :
          (c : Container) (p : Process) (t : Tty) (w : World)
          → IsSafe c.id (finish llc fuel signals r c p t w)
      unfolding finish IsSafe
      finish-IsSafe c p t w = inl (ground (arith, creator.creates))

      adjusted :
          (c : Container) (p : Process) (t : Tty) (w : World) (i : ℤ) (q : Outcome (Unit {0}))
          → p.oom_score_adj ≡ some i
          → (adjust_oom_score p w).0 ≡ q
          → IsSafe c.id (set_oom_score llc fuel signals r c p t w)
      unfolding set_oom_score IsSafe
      adjusted c p t w i (ok u) e h =
          let v = (adjust_oom_score p w).1 in
          let same : set_oom_score llc fuel signals r c p t w ≡ finish llc fuel signals r c p t v =
            ground arith in
          subst (IsSafe c.id) (sym same) (finish-IsSafe c p t v)
      adjusted c p t w i (err x) e h =
          let v = (adjust_oom_score p w).1 in
          let same : set_oom_score llc fuel signals r c p t w ≡ kill_and_give_up llc r c p x v =
            ground arith in
          subst (IsSafe c.id) (sym same) (inr (inr (kill_and_give_up-IsDestroyed c p x v)))
      adjusted c p t w i (stop s) e h = inr (inl (s, ground arith))

      set_oom_score-IsSafe :
          (c : Container) (p : Process) (t : Tty) (w : World) (o : Option ℤ)
          → p.oom_score_adj ≡ o
          → IsSafe c.id (set_oom_score llc fuel signals r c p t w)
      unfolding set_oom_score
      set_oom_score-IsSafe c p t w none e =
          let same : set_oom_score llc fuel signals r c p t w ≡ finish llc fuel signals r c p t w =
            ground arith in
          subst (IsSafe c.id) (sym same) (finish-IsSafe c p t w)
      set_oom_score-IsSafe c p t w (some i) e = adjusted c p t w i _ e refl

      after_close :
          (c : Container) (p : Process) (t : Tty) (w : World) (b : Bool) (q : Outcome (Unit {0}))
          → str_eq r.pid_file "" ≡ b
          → (create_pid_file r.pid_file p w).0 ≡ q
          → IsSafe c.id (
              (if str_eq r.pid_file "" then set_oom_score llc fuel signals r c p t else do
                written ← attempt (create_pid_file r.pid_file p)
                elim written [
                  | done _ ↦ set_oom_score llc fuel signals r c p t
                  | failed e ↦ kill_and_give_up llc r c p e
                ])
                w)
      unfolding IsSafe
      after_close c p t w true q eb eq = rw eb (set_oom_score-IsSafe c p t w _ refl)
      after_close c p t w false (ok u) eb eq =
          rw (eb, eq) (set_oom_score-IsSafe c p t (create_pid_file r.pid_file p w).1 _ refl)
      after_close c p t w false (err x) eb eq =
          rw (eb, eq)
            (inr (inr (kill_and_give_up-IsDestroyed c p x (create_pid_file r.pid_file p w).1)))
      after_close c p t w false (stop s) eb eq = rw (eb, eq) (inr (inl (s, refl)))

      close_fds-ok : (fds : List ℕ) (w : World) → (close_fds fds w).0 ≡ ok tt
      unfolding close_fds
      close_fds-ok [] w = refl
      close_fds-ok (fd ∷ fds) w = close_fds-ok fds _

      after_start-IsSafe :
          (c : Container) (p : Process) (t : Tty) (w : World)
          → IsSafe c.id (after_start llc fuel signals r c p t w)
      unfolding after_start close_post_start
      after_start-IsSafe c p t w =
          let v = (close_post_start t w).1 in
          subst (IsSafe c.id) (sym (>>=-ok (close_post_start t) _ w (close_fds-ok t.post_start w)))
            (after_close c p t v _ _ refl refl)

      start-id :
          (c : Container) (p : Process) (w : World) {d : Container} {q : Process}
          {e : Option GoError}
          → (start c p w).0 ≡ ok (d, q, e)
          → d.id ≡ c.id
      unfolding start
      start-id c p w h = ground arith

      start-ne-err :
          (c : Container) (p : Process) (w : World) {x : GoError} → (start c p w).0 ≢ err x
      unfolding start
      start-ne-err c p w h = ground arith

      -- What follows the start.
      abbrev pub after : Tty → Container × Process × Option GoError → M (ℤ × Option GoError)
      after t (c, p, e) = elim e [
        | some x ↦ give_up llc r c x
        | none ↦ after_start llc fuel signals r c p t
      ]

      pub started :
          (c : Container) (p : Process) (t : Tty) (w : World)
          (q : Outcome (Container × Process × Option GoError))
          → (start c p w).0 ≡ q
          → IsSafe c.id ((start c p >>= after t) w)
      started c p t w (ok (d, p', none)) e =
          subst (IsSafe c.id) (sym (>>=-ok (start c p) (after t) w e)) (
            subst (λ id. IsSafe id (after_start llc fuel signals r d p' t (start c p w).1))
              (start-id c p w e) (after_start-IsSafe d p' t (start c p w).1))
      started c p t w (ok (d, p', some x)) e =
          subst (IsSafe c.id) (sym (>>=-ok (start c p) (after t) w e)) (
            subst (λ id. IsSafe id (give_up llc r d x (start c p w).1)) (start-id c p w e)
              (given_up d x (start c p w).1))
      started c p t w (err x) e = absurd (start-ne-err c p w e)
      started c p t w (stop s) e = stopped c _ s (ground arith)
