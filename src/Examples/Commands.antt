-- ===== src/Examples/Commands.antt =====
-- The theorems about the commands, at concrete inputs.
use runnc.Base.{
  ◌<>◌, List, ℕ, ◌≡◌, refl, ◌<◌, ◌⊎◌, String, pos, neg, none, some, [], ◌∷◌, true, false, join,
}
use runnc.Go.{err, GoError, text, errno, enoent, generic, container_not_exists}
use runnc.Os.{open_read, World, called, remove_all}
use runnc.Libcontainer.State.{state_filename, Container, created, running, stopped}
use runnc.Libcontainer.Hooks.{sigkill}
use runnc.Libcontainer.Container.{signal, start, destroy}
use runnc.Libcontainer.Factory.{new_factory}
use runnc.Llcli.Tty.{setup_io, dup_stdio}
use runnc.Llcli.Signals.{new_signal_handler, Exit}
use runnc.Llcli.Containers.{load_factory}
use runnc.Configs.{Spec}
use runnc.Llcli.Runner.{Runner, run, destroy_container}
use runnc.Llcli.Runner.Failure.{IsCleanedUp, run-IsClean}
use runnc.Llcli.Delete.{kill_container, delete_cmd}
use runnc.Llcli.Delete.Polling.{poll, Alive, after_polls, kill_container_lem, delete_cmd_missing}
use runnc.Llcli.Commands.{ContainerState}
use runnc.Examples.Machine.{differ, machine, world_of}
use runnc.Examples.Data.{status_codec, box, quiet_handler, app_process, context}

abbrev creator : Runner
creator = record {
  enable_subreaper = true;
  should_destroy = true;
  detach = false;
  listen_fds = [];
  pid_file = "";
  console = "";
  create = true;
}

abbrev start_world : World
start_world = world_of [] true

run-IsClean_example :
    ((neg 1 ≡ pos 0) × (some (errno enoent) ≡ none))
    ⊎ IsCleanedUp quiet_handler "box"
        (run quiet_handler 9 [] creator (box stopped) app_process start_world).1
unfolding run setup_io dup_stdio new_signal_handler start destroy
run-IsClean_example =
    run-IsClean quiet_handler creator (record { destroys = refl; creates = refl }) 9 []
      (box stopped) app_process start_world refl

abbrev dead : World
dead = world_of [] false

kill_container_lem_example :
    let c = box created in
    let v = (signal c sigkill false dead).1 in
    ((k : ℕ) (e : GoError)
      → k < 100
      → Alive k c v
      → (poll c (after_polls k c v)).0 ≡ err e
      → kill_container quiet_handler c dead
        ≡ destroy_container quiet_handler c (poll c (after_polls k c v)).1)
    × (Alive 100 c v
        → kill_container quiet_handler c dead
          ≡ (err (text "container init still running"), after_polls 100 c v))
kill_container_lem_example = kill_container_lem quiet_handler (box created) dead

-- The root is absolute, and holds the state of a running or a created container.
abbrev running_world : World
running_world =
    world_of (("//box/state.json", "running") ∷ ("/box/state.json", "running") ∷ []) true

abbrev created_world : World
created_world = world_of (("/box/state.json", "created") ∷ []) true

abbrev loaded_box : String → Container
loaded_box root = record (box running) { root = root }

delete_cmd_missing_example :
    ((delete_cmd quiet_handler context start_world).0
      ≡ err (generic container_not_exists "" (text ("container " <> ("box" <> " does not exist")))))
    × ((delete_cmd quiet_handler context start_world).1.trace
        ≡ called (remove_all (join "/run/runnc" "box"))
          ∷ called (open_read (join (join "/" "box") state_filename))
          ∷ (load_factory context start_world).1.trace)
unfolding load_factory new_factory
delete_cmd_missing_example =
    delete_cmd_missing quiet_handler context start_world {root = "/"} {e = errno enoent}
      (differ "box" "" refl) refl (differ "/" "" refl) refl refl

-- Two children have exited, the second one the container's process.
abbrev exited_world : World
exited_world = record start_world {
  sys = record start_world.sys { zombies = (pos 12, pos 0) ∷ (pos 77, pos 3) ∷ [] };
}

abbrev exits : List Exit
exits = record { pid = pos 12; status = pos 0 } ∷ record { pid = pos 77; status = pos 3 } ∷ []

abbrev spec : Spec
spec = record {
  version = "1.0.0";
  process = some app_process;
  root = some "/rootfs";
  mounts = [];
  hooks = none;
  annotations = [];
  linux = none;
}

-- The root file system is there, but the container's directory cannot be opened.
abbrev rootfs_world : World
rootfs_world = world_of (("/rootfs", "") ∷ []) true

abbrev shown : ContainerState
shown = record {
  version = "1.0.0";
  id = "box";
  init_process_pid = 77;
  status = "running";
  bundle = "";
  rootfs = "/rootfs";
  created_at = 5;
}
