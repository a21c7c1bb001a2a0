-- ===== src/Libcontainer/Container/Lifecycle.antt =====
-- How the methods of libcontainer/container_nabla.go move a container's status.
use runnc.Base.{ℕ, ◌≡◌, String, none, some, List, [], ◌∷◌, str_eq, if◌then◌else◌, join, arith}
use runnc.Go.{ok, GoError, text, done, failed}
use runnc.Os.{Os, World, M, pure, ◌>>=◌, called, open_read, read_all, signal_process}
use runnc.Llif.{RunllcHandler}
use runnc.Libcontainer.Process.{Process}
use runnc.Libcontainer.State.{running, stopped, Container, Codec, exec_fifo_filename}
use runnc.Libcontainer.Container.{with_state, start, exec, current_state, save_state, destroy}

abbrev pub as_running : Container → Container
as_running c = with_state c (record c.state { status = running })

abbrev pub as_stopped : Container → Container
as_stopped c = with_state c (record c.state { status = stopped })

module _ ⦃os : Os⦄ ⦃codec : Codec⦄ where
  -- `exec`, once the fifo is open and read: with nothing to read the container is left as it is and
  -- the call fails; otherwise the container is running, whether or not its state could be saved.
  exec_lem :
      (c : Container) (w : World) {f : ℕ} {content : String} {s t : os.Sys}
      → os.answer (open_read (join c.root exec_fifo_filename)) w.sys ≡ (done f, s)
      → os.answer (read_all f) s ≡ (done content, t)
      → (exec c w).0
        ≡ ok (
            if str_eq content ""
            then (c, some (text "cannot start an already running container"))
            else (as_running c, none))
  unfolding exec save_state
  exec_lem c w p q = ground arith

  exec_error_kept :
      (c : Container) (w : World) {d : Container} {e : GoError}
      → (exec c w).0 ≡ ok (d, some e)
      → d ≡ c
  unfolding exec save_state
  exec_error_kept c w h = ground arith

  -- `currentState`: a container whose process answers signal 0 is given back as it is, with no other
  -- call made; one whose process does not is stopped, whether or not its state could be saved.
  current_state_lem :
      (c : Container) (w : World) {s : os.Sys}
      → let probe = signal_process c.state.init_process_pid 0 in
        (os.answer probe w.sys ≡ (done tt, s)
          → current_state c w ≡ (ok c, record { sys = s; trace = called probe ∷ w.trace }))
        × ((e : GoError)
            → os.answer probe w.sys ≡ (failed e, s)
            → (current_state c w).0 ≡ ok (as_stopped c))
  unfolding current_state save_state
  current_state_lem c w = (λ h. ground arith, λ e h. ground arith)

-- A call of one of the methods that change a container, by any number of commands in any order.
pub data Op : Type 0 where
  start_op : Process → Op
  exec_op : Op
  state_op : Op
  destroy_op : Op

module _ ⦃os : Os⦄ ⦃codec : Codec⦄ (llc : RunllcHandler) where
  unfoldable pub perform : Op → Container → M Container
  perform (start_op p) c = do (d, q, e) ← start c p; pure d
  perform exec_op c = do (d, e) ← exec c; pure d
  perform state_op c = current_state c
  perform destroy_op c = do (d, e) ← destroy llc c; pure d

  unfoldable pub perform_all : List Op → Container → M Container
  unfolding perform
  perform_all [] c = pure c
  perform_all (o ∷ ops) c = do d ← perform o c; perform_all ops d
