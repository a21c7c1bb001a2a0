-- ===== src/Llcli/Runner/Failure.antt =====
-- How `run` of llcli/util_runner.go ends for a runner of `create`.
use mathlib.Core.Path.{subst}
use runnc.Base.{
  ℕ, ◌≡◌, refl, sym, ◌⊎◌, inl, inr, String, ℤ, pos, Option, none, List, Bool, true, false, ◌||◌,
  arith,
}
use runnc.Go.{Outcome, ok, err, stop, Stop, GoError}
use runnc.Os.{Os, World, M, >>=-ok, deferring, ◌>>=◌}
use runnc.Configs.{SpecProcess, host_uid, host_gid}
use runnc.Llif.{RunllcHandler}
use runnc.Libcontainer.State.{Container, Codec}
use runnc.Libcontainer.Process.{Process}
use runnc.Libcontainer.Container.{start}
use runnc.Llcli.Tty.{Tty, no_tty, setup_io, close_tty, close_fds}
use runnc.Llcli.Signals.{new_signal_handler}
use runnc.Llcli.Runner.{Runner, new_process, pass_listen_fds, give_up, start_fn, with_tty, run}
use runnc.Llcli.Runner.CleanUp.{IsDestroyed, IsCreator, IsSafe, give_up-IsDestroyed, started, after}

module _ ⦃os : Os⦄ (llc : RunllcHandler) where
  -- What is left of a run that failed: `destroy` was run, and the terminal closed.
  pub record IsCleanedUp (id : String) (u : World) : Type 0 where
    pub tty : Tty
    pub before : World
    pub destroyed : IsDestroyed llc id before
    pub closed : u ≡ (close_tty tty before).1

  -- A run that succeeds, ends the process, or has cleaned up.
  IsClean : String → Outcome (ℤ × Option GoError) × World → Type 0
  IsClean id x = (x.0 ≡ ok (pos 0, none)) ⊎ (((s : Stop) × (x.0 ≡ stop s)) ⊎ IsCleanedUp id x.1)

  module _ (r : Runner) (creator : IsCreator llc r) ⦃codec : Codec⦄ (fuel : ℕ)
      (signals : List ℕ) where
    same_outcome :
        (t : Tty) (m : M (ℤ × Option GoError)) (w : World) (q : Outcome (ℤ × Option GoError))
        → (m w).0 ≡ q
        → (deferring (close_tty t) m w).0 ≡ q
    same_outcome t m w (ok a) e = ground arith
    same_outcome t m w (err x) e = ground arith
    same_outcome t m w (stop s) e = ground arith

    closed_after :
        (id : String) (t : Tty) (m : M (ℤ × Option GoError)) (w : World)
        (q : Outcome (ℤ × Option GoError))
        → (m w).0 ≡ q
        → IsDestroyed llc id (m w).1
        → IsClean id (deferring (close_tty t) m w)
    unfolding IsClean
    closed_after id t m w (stop s) e d = inr (inl (s, same_outcome t m w (stop s) e))
    closed_after id t m w (ok a) e d =
        inr (inr (record { tty = t; before = (m w).1; destroyed = d; closed = ground arith }))
    closed_after id t m w (err x) e d =
        inr (inr (record { tty = t; before = (m w).1; destroyed = d; closed = ground arith }))

    close-IsClean :
        (id : String) (t : Tty) (m : M (ℤ × Option GoError)) (w : World)
        → IsSafe llc r creator id (m w)
        → IsClean id (deferring (close_tty t) m w)
    unfolding IsSafe IsClean
    close-IsClean id t m w (inl h) = inl (same_outcome t m w _ h)
    close-IsClean id t m w (inr (inl (s, h))) = inr (inl (s, same_outcome t m w _ h))
    close-IsClean id t m w (inr (inr d)) = closed_after id t m w _ refl d

    start_fn-start : (c : Container) (p : Process) → start_fn llc fuel signals r c p ≡ start c p
    unfolding start_fn
    start_fn-start c p = rw creator.creates refl

    close_no_tty : (w : World) → w ≡ (close_tty no_tty w).1
    unfolding close_tty close_fds
    close_no_tty w = refl

    new_signal_handler-ok : (b : Bool) (w : World) → (new_signal_handler b w).0 ≡ ok tt
    unfolding new_signal_handler
    new_signal_handler-ok true w = refl
    new_signal_handler-ok false w = refl

    with_tty-IsClean :
        (c : Container) (p : Process) (t : Tty) (w : World)
        → IsClean c.id (with_tty llc fuel signals r c p t w)
    unfolding with_tty
    with_tty-IsClean c p t w =
        let v = (new_signal_handler r.enable_subreaper w).1 in
        let ready = new_signal_handler-ok r.enable_subreaper w in
        let m = start_fn llc fuel signals r c p >>= after llc r creator fuel signals t in
        let safe = started llc r creator fuel signals c p t v _ refl in
        subst (IsClean c.id)
          (sym (
            >>=-ok (new_signal_handler r.enable_subreaper) (λ _. deferring (close_tty t) m) w
              ready))
          (close-IsClean c.id t m v (
            subst (λ s. IsSafe llc r creator c.id ((s >>= after llc r creator fuel signals t) v))
              (sym (start_fn-start c p)) safe))

    -- `setupIO` at what `run` gives it.
    abbrev pub io_of : Container → SpecProcess → M (Process × Tty)
    io_of c config =
        setup_io (pass_listen_fds r.listen_fds (new_process config)) (host_uid c.config)
          (host_gid c.config) r.console config.terminal (r.detach || r.create)

    run_cases :
        (c : Container) (config : SpecProcess) (w : World) (q : Outcome (Process × Tty))
        → (io_of c config w).0 ≡ q
        → IsClean c.id (run llc fuel signals r c config w)
    unfolding run IsClean
    run_cases c config w (ok (p, t)) e =
        let v = (io_of c config w).1 in
        let same : run llc fuel signals r c config w ≡ with_tty llc fuel signals r c p t v =
          ground arith in
        subst (IsClean c.id) (sym same) (with_tty-IsClean c p t v)
    run_cases c config w (err x) e =
        let v = (io_of c config w).1 in
        let same : run llc fuel signals r c config w ≡ give_up llc r c x v = ground arith in
        subst (IsClean c.id) (sym same) (
          inr (
            inr (record {
              tty = no_tty;
              before = (give_up llc r c x v).1;
              destroyed = give_up-IsDestroyed llc r creator c x v;
              closed = close_no_tty (give_up llc r c x v).1;
            })))
    run_cases c config w (stop s) e = inr (inl (s, ground arith))

    -- A run of `create` that returns succeeds with status 0, or `destroy` was run last for a
    -- container with its id, and after that at most the terminal was closed: there is no way out with
    -- an error that does not run it. An error of `destroy` itself is dropped.
    pub run-IsClean :
        (c : Container) (config : SpecProcess) (w : World) {status : ℤ} {e : Option GoError}
        → (run llc fuel signals r c config w).0 ≡ ok (status, e)
        → ((status ≡ pos 0) × (e ≡ none)) ⊎ IsCleanedUp c.id (run llc fuel signals r c config w).1
    unfolding IsClean
    run-IsClean c config w h = elim (run_cases c config w _ refl) [
      | inl fine ↦ inl (ground arith)
      | inr (inl (s, gone)) ↦ absurd (ground arith)
      | inr (inr clean) ↦ inr clean
    ]
