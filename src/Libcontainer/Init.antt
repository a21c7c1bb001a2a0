-- ===== src/Libcontainer/Init.antt =====
-- libcontainer/init_nabla.go: `initNabla`, the init process of a container.
pub mod Handover
pub mod Marks
pub mod Order
pub mod Arrival
use runnc.Base.{
  ℕ, ◌-◌, ◌^◌, suc, String, ◌<>◌, ℤ, pos, negsuc, Option, none, some, List, [], ◌∷◌, Bool, false,
  str_eq, if◌then◌else◌, atoi,
}
use runnc.Go.{Reply, GoError, text, wrap, Outcome, stop, panicked, blocked}
use runnc.Os.{
  Os, World, M, ask, must, wrapping, attempt, deferring, pure, raise, halt, ◌>>=◌, ◌>>◌, hand_over,
  getenv, clearenv, read_all, open_at, write, close, netns_from_path, netns_new, netns_set, fs_run,
  network_run, exec_run,
}
use runnc.Configs.{Hook, Hooks}
use runnc.Llif.{LlState, GenericInput, RunllcHandler}
use runnc.Libcontainer.Errors.{new_system_error_with_cause}
use runnc.Libcontainer.State.{InitConfig, Codec, exec_fifo_filename, pause_nabla_name}
use runnc.Libcontainer.Hooks.{run_hook}

-- `uintptr(pipefd)`
abbrev descriptor : ℤ → ℕ
descriptor (pos n) = n
descriptor (negsuc n) = 2 ^ 64 - suc n

-- `len(config.Args) == 1 && config.Args[0] == pauseNablaName`
abbrev pub is_paused_args : List String → Bool
is_paused_args [] = false
is_paused_args (a ∷ []) = str_eq a pause_nabla_name
is_paused_args (a ∷ b ∷ rest) = false

abbrev run_input : InitConfig → Option LlState → Option LlState → GenericInput
run_input config fs network = record {
  container_id = config.id;
  container_root = config.root;
  config = config.config;
  fs_state = fs;
  network_state = network;
  exec_state = some config.exec_state;
}

module _ ⦃os : Os⦄ where
  -- `newSystemErrorWithCause` on the error of `m`.
  abbrev caused : {A : Type 0} → String → M A → M A
  caused cause m = do
    r ← attempt m
    elim r [ Reply.done a ↦ pure a | Reply.failed e ↦ raise (new_system_error_with_cause e cause) ]

  -- The descriptor that an environment variable names.
  env_descriptor : String → String → M ℕ
  env_descriptor name value = elim (atoi value) [
    | none ↦ raise (text ("unable to convert " <> (name <> ("=" <> (value <> " to int")))))
    | some n ↦ pure (descriptor n)
  ]

  -- The network namespace: the one that the configuration names, or a new one.
  enter_netns : String → M (Unit {0})
  enter_netns path =
      if str_eq path ""
      then (do
        h ← caused "unable to create netns handle" (must (ask netns_new))
        caused "unable to get set netns" (must (ask (netns_set h))))
      else do
        h ← caused "unable to get netns handle" (must (ask (netns_from_path path)))
        caused "unable to get set netns" (must (ask (netns_set h)))

  -- Wait for the reader of the fifo, write to it, and close it and the directory.
  unfoldable pub announce : ℕ → M (Unit {0})
  announce root_fd = do
    fd ← caused "openat exec fifo" (must (ask (open_at root_fd exec_fifo_filename)))
    caused "write 0 exec fifo" (must (ask (write fd "0")))
    ask (close fd)
    ask (close root_fd)
    pure tt

  module _ (marshal : ℕ → String → String → String) where
    run_prestart : InitConfig → List Hook → M (Unit {0})
    run_prestart config [] = pure tt
    run_prestart config (h ∷ hs) = do
      caused "unable to run prestart hook" (run_hook marshal h config.id config.bundle_path)
      run_prestart config hs

    run_hooks : InitConfig → Option Hooks → M (Unit {0})
    unfolding run_prestart
    run_hooks config none = pure tt
    run_hooks config (some h) = run_prestart config h.prestart

    module _ (llc : RunllcHandler) where
      run_exec : InitConfig → Option LlState → Option LlState → M (Unit {0})
      run_exec config fs network =
          if is_paused_args config.args
          then halt blocked
          else do hand_over exec_run; llc.exec_h.exec_run_func (run_input config fs network)

      -- Everything after the environment is cleared.
      unfoldable pub run_container : InitConfig → ℕ → M (Unit {0})
      unfolding run_hooks run_exec enter_netns announce
      run_container config root_fd = do
        hand_over fs_run
        fs ← wrapping "Error running llc Fs handler" (
            llc.fs_h.fs_run_func
              (run_input config (some config.fs_state) (some config.network_state)))
        enter_netns config.netns_path
        run_hooks config config.hooks
        hand_over network_run
        network ←
            wrapping "Error running llc Network handler"
              (llc.network_h.network_run_func (run_input config fs (some config.network_state)))
        announce root_fd
        run_exec config fs network

      module _ ⦃codec : Codec⦄ where
        -- A message that holds `null` leaves a nil pointer.
        decoded_config : Option InitConfig → M InitConfig
        decoded_config none = halt (panicked "invalid memory address or nil pointer dereference")
        decoded_config (some config) = pure config

        with_pipe : ℕ → String → M (Unit {0})
        unfolding decoded_config env_descriptor
        with_pipe pipe_fd state_dir = do
          message ← must (ask (read_all pipe_fd))
          decoded ← must (pure (codec.decode_init message))
          root_fd ← env_descriptor "_LIBCONTAINER_STATEDIR" state_dir
          ask clearenv
          config ← decoded_config decoded
          run_container config root_fd

        -- `initNabla`
        unfoldable pub init_nabla : M (Unit {0})
        unfolding with_pipe
        init_nabla = do
          init_pipe ← ask (getenv "_LIBCONTAINER_INITPIPE")
          state_dir ← ask (getenv "_LIBCONTAINER_STATEDIR")
          pipe_fd ← env_descriptor "_LIBCONTAINER_INITPIPE" init_pipe
          deferring (ask (close pipe_fd)) (with_pipe pipe_fd state_dir)
