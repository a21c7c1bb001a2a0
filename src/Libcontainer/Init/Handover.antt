-- ===== src/Libcontainer/Init/Handover.antt =====
-- When the init process of libcontainer/init_nabla.go hands over to the execution handler.
use runnc.Base.{ℕ, ◌≡◌, ◌≢◌, refl, String, ◌∷◌, true, arith}
use runnc.Go.{ok, Reply, done, failed}
use runnc.Os.{Os, World, called, open_at, write, close}
use runnc.Llif.{RunllcHandler}
use runnc.Libcontainer.State.{InitConfig, exec_fifo_filename}
use runnc.Libcontainer.Init.{is_paused_args, announce, run_container}

module _ ⦃os : Os⦄ where
  opened :
      (root_fd : ℕ) (w : World) (q : Reply ℕ × os.Sys)
      → os.answer (open_at root_fd exec_fifo_filename) w.sys ≡ q
      → (announce root_fd w).0 ≡ ok tt
      → (fd : ℕ) × ((announce root_fd w).1.trace
          ≡ called (close root_fd)
            ∷ called (close fd)
            ∷ called (write fd "0")
            ∷ called (open_at root_fd exec_fifo_filename)
            ∷ w.trace)
  unfolding announce
  opened root_fd w (done fd, s) e h = (fd, ground arith)
  opened root_fd w (failed x, s) e h = ground arith

  -- Where the container is announced, the fifo was opened in the state directory and written to,
  -- and then both were closed, with no other call between.
  announce_trace :
      (root_fd : ℕ) (w : World)
      → (announce root_fd w).0 ≡ ok tt
      → (fd : ℕ) × ((announce root_fd w).1.trace
          ≡ called (close root_fd)
            ∷ called (close fd)
            ∷ called (write fd "0")
            ∷ called (open_at root_fd exec_fifo_filename)
            ∷ w.trace)
  announce_trace root_fd w h = opened root_fd w _ refl h

  module _ (marshal : ℕ → String → String → String) (llc : RunllcHandler) where
    -- The init process of a pause container never returns without an error: at best it blocks.
    run_container_paused :
        (config : InitConfig) (root_fd : ℕ) (w : World)
        → is_paused_args config.args ≡ true
        → (run_container marshal llc config root_fd w).0 ≢ ok tt
    unfolding run_container
    run_container_paused config root_fd w p h = ground arith
