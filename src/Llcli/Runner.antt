-- ===== src/Llcli/Runner.antt =====
-- llcli/util_runner.go: `runner`, which starts the process of a new container.
pub mod CleanUp
pub mod Failure
pub mod Returning
pub mod PidFile
use runnc.Base.{
  ℕ, String, ◌<>◌, ℤ, neg, pos, Option, none, some, List, [], ◌∷◌, ◌++◌, map, length, Bool, ◌||◌,
  str_eq, ltb, not, itoa, itoa_ℤ, join, base_name, dir_name, if◌then◌else◌,
}
use runnc.Go.{Reply, done, failed, GoError, text}
use runnc.Os.{
  Os, World, M, ask, must, attempt, deferring, pure, raise, ◌>>=◌, ◌>>◌, create_exclusive, write,
  close, rename, write_file,
}
use runnc.Configs.{SpecProcess, host_uid, host_gid}
use runnc.Llif.{RunllcHandler}
use runnc.Libcontainer.State.{Container, Codec}
use runnc.Libcontainer.Process.{Process, pid_of, signal_process, wait}
use runnc.Libcontainer.Hooks.{sigkill}
use runnc.Libcontainer.Container.{start, destroy}
use runnc.Llcli.Tty.{Tty, setup_io, close_post_start, close_tty}
use runnc.Llcli.Signals.{new_signal_handler, forward}

-- `runner`, without the container, which the functions take and give back.
pub record Runner : Type 0 where
  pub enable_subreaper : Bool
  pub should_destroy : Bool
  pub detach : Bool
  pub listen_fds : List ℕ
  pub pid_file : String
  pub console : String
  pub create : Bool

or_no_args : Option (List String) → List String
or_no_args none = []
or_no_args (some args) = args

-- `newProcess`
unfoldable pub new_process : SpecProcess → Process
unfolding or_no_args
new_process p = record {
  args = or_no_args p.args;
  env = p.env;
  user = itoa p.uid <> (":" <> itoa p.gid);
  additional_groups = map itoa p.additional_gids;
  cwd = p.cwd;
  stdin = none;
  stdout = none;
  stderr = none;
  extra_files = [];
  console_path = "";
  apparmor_profile = p.apparmor_profile;
  label = p.selinux_label;
  no_new_privileges = p.no_new_privileges;
  ops = none;
  oom_score_adj = p.oom_score_adj;
}

-- The descriptors of socket activation.
unfoldable pub pass_listen_fds : List ℕ → Process → Process
pass_listen_fds fds p =
    if ltb 0 (length fds)
    then record p {
      env = p.env ++ (("LISTEN_FDS=" <> itoa (length fds)) ∷ "LISTEN_PID=1" ∷ []);
      extra_files = p.extra_files ++ fds;
    }
    else p

module _ ⦃os : Os⦄ where
  -- `createPidFile`: the file is written under a name with a dot in front, and renamed.
  unfoldable pub create_pid_file : String → Process → M (Unit {0})
  create_pid_file path p = do
    pid ← λ w. (pid_of p, w)
    let tmp_name = join (dir_name path) ("." <> base_name path)
    f ← must (ask (create_exclusive tmp_name))
    written ← ask (write f (itoa pid))
    ask (close f)
    must (pure written)
    must (ask (rename tmp_name path))

  -- `adjustOomScore`
  unfoldable pub adjust_oom_score : Process → M (Unit {0})
  adjust_oom_score p = do
    pid ← λ w. (pid_of p, w)
    elim p.oom_score_adj [
      | none ↦ raise (text "OOMScoreAdj value is nil")
      | some value ↦
          must (ask (write_file (join (join "/proc/" (itoa pid)) "oom_score_adj") (itoa_ℤ value)))
    ]

  -- `terminate`, whose errors are dropped.
  unfoldable pub terminate : Process → M (Unit {0})
  terminate p = do attempt (signal_process p sigkill); attempt (wait p); pure tt

  module _ (llc : RunllcHandler) where
    -- `destroy` of util_nabla.go: the error is logged.
    unfoldable pub destroy_container : Container → M (Unit {0})
    destroy_container c = do destroy llc c; pure tt

    -- The method `destroy`.
    unfoldable pub runner_destroy : Runner → Container → M (Unit {0})
    unfolding destroy_container
    runner_destroy r c = if r.should_destroy then destroy_container c else pure tt

    -- `r.destroy(); return -1, err`
    pub give_up : Runner → Container → GoError → M (ℤ × Option GoError)
    unfolding runner_destroy
    give_up r c e = do runner_destroy r c; pure (neg 1, some e)

    -- The same after `r.terminate(process)`.
    kill_and_give_up : Runner → Container → Process → GoError → M (ℤ × Option GoError)
    unfolding give_up
    kill_and_give_up r c p e = do terminate p; give_up r c e

    module _ ⦃codec : Codec⦄ (fuel : ℕ) (signals : List ℕ) where
      -- The forwarding, for a runner that stays.
      stay : Runner → Container → Process → Tty → M (ℤ × Option GoError)
      stay r c p t = do
        (status, e) ← forward fuel t p signals
        elim e [ some _ ↦ terminate p | none ↦ pure tt ]
        runner_destroy r c
        pure (status, e)

      finish : Runner → Container → Process → Tty → M (ℤ × Option GoError)
      unfolding stay
      finish r c p t = if r.detach || r.create then pure (pos 0, none) else stay r c p t

      set_oom_score : Runner → Container → Process → Tty → M (ℤ × Option GoError)
      unfolding finish kill_and_give_up
      set_oom_score r c p t = elim p.oom_score_adj [
        | none ↦ finish r c p t
        | some _ ↦ do
          adjusted ← attempt (adjust_oom_score p)
          elim adjusted [ done _ ↦ finish r c p t | failed e ↦ kill_and_give_up r c p e ]
      ]

      -- What follows a successful start.
      pub after_start : Runner → Container → Process → Tty → M (ℤ × Option GoError)
      unfolding set_oom_score
      after_start r c p t = do
        close_post_start t
        if str_eq r.pid_file "" then set_oom_score r c p t else do
          written ← attempt (create_pid_file r.pid_file p)
          elim written [ done _ ↦ set_oom_score r c p t | failed e ↦ kill_and_give_up r c p e ]

      -- `Start` for a runner that creates; `Run` is not implemented.
      start_fn : Runner → Container → Process → M (Container × Process × Option GoError)
      start_fn r c p =
          if r.create
          then start c p
          else pure (c, p, some (text "NablaContainer.Run not implemented"))

      with_tty : Runner → Container → Process → Tty → M (ℤ × Option GoError)
      unfolding start_fn after_start
      with_tty r c p t = do
        new_signal_handler r.enable_subreaper
        deferring (close_tty t) (do
          (c', p', e) ← start_fn r c p
          elim e [ some e ↦ give_up r c' e | none ↦ after_start r c' p' t ])

      -- `run`
      unfoldable pub run : Runner → Container → SpecProcess → M (ℤ × Option GoError)
      unfolding with_tty
      run r c config = do
        let p = pass_listen_fds r.listen_fds (new_process config)
        io ← attempt (
            setup_io p (host_uid c.config) (host_gid c.config) r.console config.terminal
              (r.detach || r.create))
        elim io [ failed e ↦ give_up r c e | done (p', t) ↦ with_tty r c p' t ]
