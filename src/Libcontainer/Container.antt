-- ===== src/Libcontainer/Container.antt =====
-- libcontainer/container_nabla.go: the methods of `nablaContainer`. A method that changes the
-- container gives it back; where the source returns an error after a change, the error stands
-- beside the container.
pub mod Destroy
pub mod Lifecycle
pub mod Launch
pub mod Methods
pub mod Mutex
pub mod Persistence
pub mod Transitions
pub mod Unsaved
use runnc.Base.{
  ℕ, ◌+◌, ◌-◌, String, ◌<>◌, ℤ, pos, neg, Option, none, some, List, [], ◌∷◌, ◌++◌, length, Bool,
  true, false, str_eq, if◌then◌else◌, itoa, join,
}
use runnc.Go.{Reply, done, failed, GoError, text}
use runnc.Os.{
  Os, World, M, ask, must, attempt, deferring, pure, raise, ◌>>=◌, ◌>>◌, check, hand_over, Command,
  socketpair, open_read, read_all, create, write, close, remove, start_command, start_time, now,
  kill, signal_process, exec_destroy, fs_destroy, network_destroy,
}
use runnc.Llif.{LlState, GenericInput, RunllcHandler}
use runnc.Libcontainer.Errors.{new_system_error_with_cause}
use runnc.Libcontainer.Process.{Process}
use runnc.Libcontainer.State.{
  Status, created, running, stopped, State, Container, InitConfig, Codec, state_filename,
  exec_fifo_filename,
}

abbrev pub stdio_fd_count : ℕ
stdio_fd_count = 3

abbrev pub with_state : Container → State → Container
with_state c s = record c { state = s }

-- `ll.LLState{}`, and what a nil pointer is replaced by.
abbrev pub empty_state : LlState
empty_state = record { options = []; in_memory_objects = [] }

abbrev pub or_empty : Option LlState → LlState
or_empty none = empty_state
or_empty (some s) = s

-- `initConfig{...}` of `start`
unfoldable pub init_config : Container → InitConfig
init_config c = record {
  id = c.id;
  bundle_path = c.root;
  root = c.config.rootfs;
  args = c.config.args;
  cwd = c.config.cwd;
  env = c.config.env;
  netns_path = c.config.netns_path;
  hooks = c.config.hooks;
  memory = c.config.memory;
  mounts = c.config.mounts;
  config = c.config;
  fs_state = c.state.fs_state;
  network_state = c.state.network_state;
  exec_state = c.state.exec_state;
}

-- The number under which the last of the extra files is open in the child.
last_fd : List ℕ → ℕ
last_fd files = stdio_fd_count + length files - 1

-- `commandTemplate`, in a process group of its own; the input of the command is what `start` writes to the other end of the pipe.
unfoldable pub command_template : Container → Process → ℕ → Command
unfolding last_fd
command_template c p child_pipe =
    let files = p.extra_files ++ (child_pipe ∷ []) in
    record {
      path = "/proc/self/exe";
      args = "init" ∷ [];
      env = ("_LIBCONTAINER_INITPIPE=" <> itoa (last_fd files)) ∷ [];
      dir = c.config.rootfs;
      stdin = p.stdin;
      stdout = p.stdout;
      stderr = p.stderr;
      new_group = true;
      extra_files = files;
      input = "";
    }

-- `cmd.ExtraFiles = append(cmd.ExtraFiles, rootDir)` and the variable that names it.
unfoldable pub add_state_dir : Command → ℕ → Command
unfolding last_fd
add_state_dir cmd root_dir =
    let files = cmd.extra_files ++ (root_dir ∷ []) in
    record cmd {
      extra_files = files;
      env = cmd.env ++ (("_LIBCONTAINER_STATEDIR=" <> itoa (last_fd files)) ∷ []);
    }

module _ ⦃os : Os⦄ ⦃codec : Codec⦄ where
  -- `saveState`
  unfoldable pub save_state : Container → M (Unit {0})
  save_state c = do
    f ← must (ask (create (join c.root state_filename)))
    deferring (ask (close f)) (must (ask (write f (codec.encode_state c.state))))

  -- The end of `start`, after the command runs: the new state, and its saving, whose error is
  -- dropped.
  record_start : Container → Process → ℕ → M (Container × Process × Option GoError)
  unfolding save_state
  record_start c p pid = do
    time ← ask now
    let begun =
        with_state c
          (record c.state { init_process_pid = pid; created_at = time; status = created })
    let p' = record p { ops = some pid }
    started ← ask (start_time pid)
    check started
        (λ e. (with_state begun (record begun.state { init_process_start_time = "" }), p', some e))
        λ t. do
          let c' = with_state begun (record begun.state { init_process_start_time = t })
          attempt (save_state c')
          pure (c', p', none)

  -- `enc.Encode(config)` and `cmd.Start()`. Where the command is not started, the source leaves an
  -- `ops` without a process, which no caller reads; here it stays as it was.
  launch : Container → Process → Command → ℕ → M (Container × Process × Option GoError)
  unfolding record_start
  launch c p cmd parent_pipe = do
    let message = codec.encode_init (init_config c)
    written ← ask (write parent_pipe message)
    check written (λ e. (c, p, some e))
        λ _. do
          r ← ask (start_command (record cmd { input = message }))
          check r (λ e. (c, p, some e)) λ pid. record_start c p pid

  -- `start`
  unfoldable pub start : Container → Process → M (Container × Process × Option GoError)
  unfolding launch
  start c p = do
    pipes ← ask socketpair
    check pipes (λ e. (c, p, some (new_system_error_with_cause e "creating new init pipe")))
        λ (child_pipe, parent_pipe). do
          dir ← ask (open_read c.root)
          check dir (λ e. (c, p, some e))
              λ root_dir.
                deferring (ask (close parent_pipe)) (
                  launch c p (add_state_dir (command_template c p child_pipe) root_dir) parent_pipe)

  -- What `exec` does with what it has read.
  exec_read : Container → String → Reply String → M (Container × Option GoError)
  unfolding save_state
  exec_read c path (failed e) = pure (c, some e)
  exec_read c path (done content) =
      if str_eq content ""
      then pure (c, some (text "cannot start an already running container"))
      else do
        let c' = with_state c (record c.state { status = running })
        attempt (save_state c')
        ask (remove path)
        pure (c', none)

  -- `exec`
  unfoldable pub exec : Container → M (Container × Option GoError)
  unfolding exec_read
  exec c = do
    let path = join c.root exec_fifo_filename
    opened ← ask (open_read path)
    check opened (λ e. (c, some (new_system_error_with_cause e "open exec fifo for reading")))
        λ f. deferring (ask (close f)) (do content ← ask (read_all f); exec_read c path content)

  -- `currentState`: signal 0 asks whether the process is there.
  unfoldable pub current_state : Container → M Container
  unfolding save_state
  current_state c = do
    alive ← ask (signal_process c.state.init_process_pid 0)
    elim alive [
      | done _ ↦ pure c
      | failed e ↦ do
        let c' = with_state c (record c.state { status = stopped })
        attempt (save_state c')
        pure c'
    ]

  -- `Signal`
  unfoldable pub signal : Container → ℕ → Bool → M (Unit {0})
  signal c sig all =
      let pid = c.state.init_process_pid in must (ask (kill (if all then neg pid else pos pid) sig))

-- The input of a destroy handler. The source passes pointers to the configuration and to the states,
-- through which a handler is taken to change nothing.
abbrev pub destroy_input :
    Container → Option LlState → Option LlState → Option LlState → GenericInput
destroy_input c fs network exec_s = record {
  container_id = c.id;
  container_root = c.root;
  config = c.config;
  fs_state = fs;
  network_state = network;
  exec_state = exec_s;
}

-- The state that `destroy` sets before any handler runs.
abbrev pub marked_stopped : Container → Container
marked_stopped c = with_state c (record c.state { init_process_pid = 0; status = stopped })

module _ ⦃os : Os⦄ (llc : RunllcHandler) where
  pub destroy_network : Container → Option LlState → Option LlState → M (Container × Option GoError)
  destroy_network c fs exec_s = do
    hand_over network_destroy
    r ← attempt (
        llc.network_h.network_destroy_func (destroy_input c fs (some c.state.network_state) exec_s))
    check r (λ e. (c, some e))
        λ network. pure (with_state c (record c.state { network_state = or_empty network }), none)

  pub destroy_fs : Container → Option LlState → M (Container × Option GoError)
  unfolding destroy_network
  destroy_fs c exec_s = do
    hand_over fs_destroy
    r ← attempt (
        llc.fs_h.fs_destroy_func
          (destroy_input c (some c.state.fs_state) (some c.state.network_state) exec_s))
    check r (λ e. (c, some e))
        λ fs. destroy_network (with_state c (record c.state { fs_state = or_empty fs })) fs exec_s

  pub destroy_exec : Container → M (Container × Option GoError)
  unfolding destroy_fs
  destroy_exec c = do
    hand_over exec_destroy
    r ← attempt (
        llc.exec_h.exec_destroy_func (
          destroy_input c (some c.state.fs_state) (some c.state.network_state)
            (some c.state.exec_state)))
    check r (λ e. (c, some e))
        λ exec_s. destroy_fs (with_state c (record c.state { exec_state = or_empty exec_s })) exec_s

  -- `destroy`: the handlers of execution, file system and network, in this order.
  unfoldable pub destroy : Container → M (Container × Option GoError)
  unfolding destroy_exec
  destroy c = destroy_exec (marked_stopped c)
