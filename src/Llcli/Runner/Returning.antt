-- ===== src/Llcli/Runner/Returning.antt =====
-- `run` of llcli/util_runner.go and `startContainer` of llcli/util_nabla.go hand an error back beside
-- a status; neither has another way to report one.
use runnc.Base.{ℕ, ℤ, Option, List, [], ◌∷◌, arith}
use runnc.Go.{GoError, done, failed}
use runnc.Os.{
  Os, M, ◌>>=◌, attempt, IsTotal, >>=-IsTotal, deferring-IsTotal, attempt-IsTotal, pure-IsTotal,
  if-IsTotal, reply-IsTotal, option-IsTotal,
}
use runnc.Configs.{SpecProcess}
use runnc.Llif.{RunllcHandler}
use runnc.Libcontainer.State.{Container, Codec}
use runnc.Libcontainer.Process.{Process}
use runnc.Libcontainer.Container.{start, destroy}
use runnc.Llcli.Tty.{Tty, close_post_start, close_fds}
use runnc.Llcli.Signals.{new_signal_handler}
use runnc.Llcli.Runner.{
  create_pid_file, adjust_oom_score, Runner, terminate, destroy_container, runner_destroy, give_up,
  kill_and_give_up, finish, set_oom_score, after_start, start_fn, with_tty, run,
}
use runnc.Llcli.Runner.CleanUp.{IsCreator}
use runnc.Llcli.Runner.Failure.{io_of}

module _ ⦃os : Os⦄ where
  terminate-IsTotal : (p : Process) → IsTotal (terminate p)
  unfolding terminate
  terminate-IsTotal p w e x = ground arith

  fds-IsTotal : (fds : List ℕ) → IsTotal (close_fds fds)
  unfolding close_fds
  fds-IsTotal [] w e x = ground arith
  fds-IsTotal (fd ∷ fds) w e x = fds-IsTotal fds _ e x

  module _ (llc : RunllcHandler) where
    destroy_container-IsTotal : (c : Container) → IsTotal (destroy_container llc c)
    unfolding destroy_container destroy
    destroy_container-IsTotal c w e x = ground arith

    give_up-IsTotal : (r : Runner) (c : Container) (e : GoError) → IsTotal (give_up llc r c e)
    unfolding give_up runner_destroy
    give_up-IsTotal r c e =
        >>=-IsTotal _ _
          (if-IsTotal r.should_destroy _ _ (destroy_container-IsTotal c) (pure-IsTotal tt))
          λ _. pure-IsTotal _

    kill_and_give_up-IsTotal :
        (r : Runner) (c : Container) (p : Process) (e : GoError)
        → IsTotal (kill_and_give_up llc r c p e)
    unfolding kill_and_give_up
    kill_and_give_up-IsTotal r c p e =
        >>=-IsTotal _ _ (terminate-IsTotal p) λ _. give_up-IsTotal r c e

    module _ (r : Runner) (creator : IsCreator llc r) ⦃codec : Codec⦄ (fuel : ℕ)
        (signals : List ℕ) where
      finish-IsTotal :
          (c : Container) (p : Process) (t : Tty) → IsTotal (finish llc fuel signals r c p t)
      unfolding finish
      finish-IsTotal c p t w e h = ground (arith, creator.creates)

      -- What follows an attempt of `m`: the end of the run, or giving up.
      attempted-IsTotal :
          (c : Container) (p : Process) (m : M (Unit {0})) (k : M (ℤ × Option GoError))
          → IsTotal k
          → IsTotal (do
            done_or ← attempt m
            elim done_or [ done _ ↦ k | failed e ↦ kill_and_give_up llc r c p e ])
      attempted-IsTotal c p m k h = >>=-IsTotal (attempt m) _ (attempt-IsTotal m) λ q.
          reply-IsTotal q (λ _. k) (kill_and_give_up llc r c p) (λ _. h)
            (kill_and_give_up-IsTotal r c p)

      oom-IsTotal :
          (c : Container) (p : Process) (t : Tty) → IsTotal (set_oom_score llc fuel signals r c p t)
      unfolding set_oom_score
      oom-IsTotal c p t =
          option-IsTotal p.oom_score_adj _ _ (finish-IsTotal c p t)
            λ _. attempted-IsTotal c p (adjust_oom_score p) _ (finish-IsTotal c p t)

      after_start-IsTotal :
          (c : Container) (p : Process) (t : Tty) → IsTotal (after_start llc fuel signals r c p t)
      unfolding after_start close_post_start
      after_start-IsTotal c p t = >>=-IsTotal _ _ (fds-IsTotal t.post_start) λ _.
          if-IsTotal _ _ _ (oom-IsTotal c p t)
            (attempted-IsTotal c p (create_pid_file r.pid_file p) _ (oom-IsTotal c p t))

      start_fn-IsTotal : (c : Container) (p : Process) → IsTotal (start_fn llc fuel signals r c p)
      unfolding start_fn start
      start_fn-IsTotal c p = if-IsTotal r.create _ _ (λ w e x. ground arith) (pure-IsTotal _)

      with_tty-IsTotal :
          (c : Container) (p : Process) (t : Tty) → IsTotal (with_tty llc fuel signals r c p t)
      unfolding with_tty new_signal_handler
      with_tty-IsTotal c p t =
          >>=-IsTotal _ _
            (if-IsTotal r.enable_subreaper _ _ (λ w e x. ground arith) (pure-IsTotal tt))
            λ _. deferring-IsTotal _ _ (
              >>=-IsTotal _ _ (start_fn-IsTotal c p) λ (d, q, e).
                option-IsTotal e (after_start llc fuel signals r d q t) (give_up llc r d)
                  (after_start-IsTotal d q t) (give_up-IsTotal r d))

      -- `run` for a creating runner has no error of its own: an error stands beside a status.
      pub run-IsTotal :
          (c : Container) (config : SpecProcess) → IsTotal (run llc fuel signals r c config)
      unfolding run
      run-IsTotal c config =
          >>=-IsTotal _ _ (attempt-IsTotal (io_of llc r creator fuel signals c config)) λ io.
            reply-IsTotal io (λ (p, t). with_tty llc fuel signals r c p t) (give_up llc r c)
              (λ (p, t). with_tty-IsTotal c p t) (give_up-IsTotal r c)
