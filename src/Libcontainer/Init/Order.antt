-- ===== src/Libcontainer/Init/Order.antt =====
-- The order in which the init process of libcontainer/init_nabla.go hands over to the handlers and
-- opens the fifo, whichever of its steps fails.
use runnc.Base.{ℕ, ◌≡◌, refl, ◌∙◌, String, Option, none, some, List, [], ◌∷◌, ◌++◌, false, arith}
use runnc.Go.{ok}
use runnc.Os.{
  Os, World, M, fs_run, network_run, exec_run, hand_over, ◌>>=◌, wrapping, Leaves, quiet, chain,
  explained,
}
use runnc.Configs.{Hook, Hooks}
use runnc.Llif.{LlState, GenericInput, RunllcHandler}
use runnc.Libcontainer.State.{InitConfig}
use runnc.Libcontainer.Hooks.{run_hook, await_hook, hook_timeout}
use runnc.Libcontainer.Init.Marks.{Mark, hands, opens, marks, hands_over}
use runnc.Libcontainer.Init.{
  is_paused_args, enter_netns, announce, run_prestart, run_hooks, run_exec, run_input,
  run_container, caused,
}

module _ ⦃os : Os⦄ where
  caused_trace :
      {A : Type 0} (cause : String) (m : M A) (w : World)
      → marks (caused cause m w).1.trace ≡ marks (m w).1.trace
  caused_trace cause m w = ground arith

  enters_netns : (path : String) (w : World) → Leaves marks (enter_netns path) [] w
  unfolding enter_netns
  enters_netns path w = quiet marks _ w (ground arith)

  announces : (root_fd : ℕ) (w : World) → Leaves marks (announce root_fd) (opens ∷ []) w
  unfolding announce
  announces root_fd w = record {
    left = opens ∷ [];
    missed = [];
    trace_is = ground arith;
    parts = refl;
    whole = λ d. refl;
  }

  module _ (marshal : ℕ → String → String → String) where
    hook_quiet :
        (h : Hook) (id bundle : String) (w : World)
        → marks (run_hook marshal h id bundle w).1.trace ≡ marks w.trace
    unfolding run_hook await_hook hook_timeout
    hook_quiet h id bundle w = ground arith

    prestart_quiet :
        (config : InitConfig) (hs : List Hook) (w : World)
        → Leaves marks (run_prestart marshal config hs) [] w
    unfolding run_prestart
    prestart_quiet config [] w = quiet marks _ w refl
    prestart_quiet config (h ∷ hs) w =
        let hook = run_hook marshal h config.id config.bundle_path in
        let m = caused "unable to run prestart hook" hook in
        chain marks m (λ _. run_prestart marshal config hs) [] [] w
          (quiet marks m w (
            caused_trace "unable to run prestart hook" hook w
            ∙ hook_quiet h config.id config.bundle_path w))
          (λ _ _. prestart_quiet config hs (m w).1)

    hooks_quiet :
        (config : InitConfig) (hooks : Option Hooks) (w : World)
        → Leaves marks (run_hooks marshal config hooks) [] w
    unfolding run_hooks
    hooks_quiet config none w = quiet marks _ w refl
    hooks_quiet config (some h) w = prestart_quiet config h.prestart w

    module _ (llc : RunllcHandler) where
      -- Handlers that open no file in a directory and hand over to no other handler.
      pub record IsUnmarked : Type 0 where
        pub fs_unmarked :
            (i : GenericInput) (w : World)
            → marks (llc.fs_h.fs_run_func i w).1.trace ≡ marks w.trace
        pub network_unmarked :
            (i : GenericInput) (w : World)
            → marks (llc.network_h.network_run_func i w).1.trace ≡ marks w.trace
        pub exec_unmarked :
            (i : GenericInput) (w : World)
            → marks (llc.exec_h.exec_run_func i w).1.trace ≡ marks w.trace

      module _ (unmarked : IsUnmarked) where
        -- The rest of `run_container`, from each of its steps on.
        module _ (config : InitConfig) (root_fd : ℕ) (n : is_paused_args config.args ≡ false) where
          abbrev exec_with : Option LlState → Option LlState → M (Unit {0})
          exec_with fs network = llc.exec_h.exec_run_func (run_input config fs network)

          abbrev from_announce : Option LlState → Option LlState → M (Unit {0})
          from_announce fs network =
              announce root_fd >>= λ _. run_exec marshal llc config fs network

          abbrev network_with : Option LlState → M (Option LlState)
          network_with fs =
              llc.network_h.network_run_func (run_input config fs (some config.network_state))

          abbrev network_step : Option LlState → M (Option LlState)
          network_step fs = wrapping "Error running llc Network handler" (network_with fs)

          abbrev from_network : Option LlState → M (Unit {0})
          from_network fs = network_step fs >>= from_announce fs

          abbrev from_handover : Option LlState → M (Unit {0})
          from_handover fs = hand_over network_run >>= λ _. from_network fs

          abbrev from_hooks : Option LlState → M (Unit {0})
          from_hooks fs = run_hooks marshal config config.hooks >>= λ _. from_handover fs

          abbrev from_netns : Option LlState → M (Unit {0})
          from_netns fs = enter_netns config.netns_path >>= λ _. from_hooks fs

          abbrev fs_with : M (Option LlState)
          fs_with =
              llc.fs_h.fs_run_func
                (run_input config (some config.fs_state) (some config.network_state))

          abbrev fs_step : M (Option LlState)
          fs_step = wrapping "Error running llc Fs handler" fs_with

          runs_exec :
              (fs network : Option LlState) (w : World)
              → Leaves marks (run_exec marshal llc config fs network) (hands exec_run ∷ []) w
          unfolding run_exec
          runs_exec fs network w = rw n (
              chain marks (hand_over exec_run) (λ _. exec_with fs network) (hands exec_run ∷ []) []
                w (hands_over exec_run w)
                λ _ _.
                  quiet marks (exec_with fs network) (hand_over exec_run w).1
                    (unmarked.exec_unmarked (run_input config fs network) (hand_over exec_run w).1))

          runs_announce :
              (fs network : Option LlState) (w : World)
              → Leaves marks (from_announce fs network) (hands exec_run ∷ opens ∷ []) w
          runs_announce fs network w =
              chain marks (announce root_fd) (λ _. run_exec marshal llc config fs network)
                (opens ∷ []) (hands exec_run ∷ []) w (announces root_fd w)
                λ _ _. runs_exec fs network (announce root_fd w).1

          runs_network :
              (fs : Option LlState) (w : World)
              → Leaves marks (from_network fs) (hands exec_run ∷ opens ∷ []) w
          runs_network fs w =
              chain marks (network_step fs) (from_announce fs) [] (hands exec_run ∷ opens ∷ []) w
                (explained marks "Error running llc Network handler" (network_with fs) [] w (
                  quiet marks (network_with fs) w (
                    unmarked.network_unmarked (run_input config fs (some config.network_state)) w)))
                λ network _. runs_announce fs network (network_step fs w).1

          runs_handover :
              (fs : Option LlState) (w : World)
              → Leaves marks (from_handover fs) (hands exec_run ∷ opens ∷ hands network_run ∷ []) w
          runs_handover fs w =
              chain marks (hand_over network_run) (λ _. from_network fs) (hands network_run ∷ [])
                (hands exec_run ∷ opens ∷ []) w (hands_over network_run w)
                λ _ _. runs_network fs (hand_over network_run w).1

          runs_hooks :
              (fs : Option LlState) (w : World)
              → Leaves marks (from_hooks fs) (hands exec_run ∷ opens ∷ hands network_run ∷ []) w
          runs_hooks fs w =
              chain marks (run_hooks marshal config config.hooks) (λ _. from_handover fs) []
                (hands exec_run ∷ opens ∷ hands network_run ∷ []) w
                (hooks_quiet config config.hooks w)
                λ _ _. runs_handover fs (run_hooks marshal config config.hooks w).1

          runs_netns :
              (fs : Option LlState) (w : World)
              → Leaves marks (from_netns fs) (hands exec_run ∷ opens ∷ hands network_run ∷ []) w
          runs_netns fs w =
              chain marks (enter_netns config.netns_path) (λ _. from_hooks fs) []
                (hands exec_run ∷ opens ∷ hands network_run ∷ []) w
                (enters_netns config.netns_path w)
                λ _ _. runs_hooks fs (enter_netns config.netns_path w).1

          runs_fs :
              (w : World)
              → Leaves marks
                  (fs_step >>= from_netns)
                  (hands exec_run ∷ opens ∷ hands network_run ∷ [])
                  w
          runs_fs w =
              chain marks fs_step from_netns [] (hands exec_run ∷ opens ∷ hands network_run ∷ []) w
                (explained marks "Error running llc Fs handler" fs_with [] w
                  (quiet marks fs_with w (unmarked.fs_unmarked _ w)))
                λ fs _. runs_netns fs (fs_step w).1

        -- With handlers that open no file of a directory and hand over to no other: at whichever step
        -- the init process of a container that is no pause container stops, what it has done is a
        -- beginning of the handover to the file system, then to the network, then the opening of the
        -- fifo, then the handover to the execution, and it is all of these where it returns without
        -- an error.
        pub run_container_order :
            (config : InitConfig) (root_fd : ℕ) (w : World)
            → is_paused_args config.args ≡ false
            → let r = run_container marshal llc config root_fd w in
              let all = hands exec_run ∷ opens ∷ hands network_run ∷ hands fs_run ∷ [] in
              (left missed : List Mark) × (marks r.1.trace ≡ left ++ marks w.trace)
              × (missed ++ left ≡ all)
              × (r.0 ≡ ok tt → left ≡ all)
        unfolding run_container
        run_container_order config root_fd w n =
            let l : Leaves marks (run_container marshal llc config root_fd)
                (hands exec_run ∷ opens ∷ hands network_run ∷ hands fs_run ∷ []) w =
              chain marks (hand_over fs_run)
                (λ _. fs_step config root_fd n >>= from_netns config root_fd n) (hands fs_run ∷ [])
                (hands exec_run ∷ opens ∷ hands network_run ∷ []) w (hands_over fs_run w)
                (λ _ _. runs_fs config root_fd n (hand_over fs_run w).1) in
            (l.left, l.missed, l.trace_is, l.parts, l.whole)
