-- ===== src/Examples/Runs.antt =====
-- The theorems about whole runs of the program, and about goroutines, at concrete inputs.
use runnc.Base.{ℕ, ◌≡◌, ◌≢◌, refl, none, some, [], ◌∷◌, true, join}
use runnc.Go.{ok, done}
use runnc.Os.{World}
use runnc.Libcontainer.State.{created, stopped, exec_fifo_filename, status_string, Container, Codec}
use runnc.Libcontainer.Console.{LinuxConsole}
use runnc.Libcontainer.Container.{exec, save_state, start, init_config}
use runnc.Libcontainer.Container.Lifecycle.{exec_op, state_op, perform_all, as_running}
use runnc.Libcontainer.Container.Mutex.{
  System, lock, work, unlock, Reach, step, Reach-serial, move, inside, outside, leaving,
}
use runnc.Libcontainer.Container.Persistence.{start-load, reloaded}
use runnc.Libcontainer.Factory.{load}
use runnc.Llcli.Signals.Relaying.{relayed, sent, forward_loop-relays}
use runnc.Llcli.Signals.{forward_loop}
use runnc.Llcli.Tty.{no_tty}
use runnc.Libcontainer.Init.{run_container}
use runnc.Libcontainer.Init.Marks.{Mark, hands, opens, marks}
use runnc.Libcontainer.Init.Order.{IsUnmarked, run_container_order}
use runnc.Os.{exec_run, network_run, fs_run}
use runnc.Base.{List, ◌++◌, ◌+◌, ◌≤◌}
use runnc.Libcontainer.Container.Transitions.{Runs, HasExec, perform_all-Runs}
use runnc.Llcli.Runner.PidFile.{Written, create_pid_file_lem}
use runnc.Libcontainer.Container.{current_state}
use runnc.Libcontainer.Container.Lifecycle.{perform}
use runnc.Libcontainer.State.{running}
use runnc.Llcli.Tty.Copying
use runnc.Llcli.Tty.Copying.{
  Copies, Routine, Closing, copying, draining, still_open, waiting, all_closed, start_copies,
}
use runnc.Llcli.Tty.Copying.Waits.{unfinished, open_ends, work_left, Run, close_waits}
use runnc.Examples.Machine.{machine-IsKept, Machine, machine, machine_storage, world_of, differ}
use runnc.Examples.Data.{init_of, state_of, status_codec, box, quiet_handler, app}

abbrev start_world : World
start_world = world_of [] true

abbrev console : LinuxConsole
console = record { master = none; slave_path = "/dev/pts/4" }

abbrev fifo_world : World
fifo_world = world_of ((join "/run/runnc/box" exec_fifo_filename, "0") ∷ []) true

-- Two goroutines: the second waits for the lock until the first is done.
abbrev first_system : System
first_system = record {
  container = box created;
  world = fifo_world;
  holder = none;
  phase = λ t. outside;
  log = [];
}

abbrev locked : System
locked = record first_system {
  holder = some 1;
  phase = move first_system.phase 1 (inside exec_op (box created));
}

abbrev worked : System
worked = record locked {
  container = as_running (box created);
  world = (exec (box created) fifo_world).1;
  phase = move locked.phase 1 leaving;
  log = exec_op ∷ [];
}

abbrev released : System
released = record worked { holder = none; phase = move worked.phase 1 outside }

abbrev taken : System
taken = record released {
  holder = some 2;
  phase = move released.phase 2 (inside state_op released.container);
}

Reach-serial_example :
    (perform_all quiet_handler (exec_op ∷ []) (box created) fifo_world
      ≡ (ok taken.container, taken.world))
    × ((t u : ℕ) → taken.phase t ≢ outside → taken.phase u ≢ outside → t ≡ u)
unfolding perform_all exec join
Reach-serial_example = Reach-serial quiet_handler (box created) fifo_world taken (
    step released taken
      (step worked released
        (step locked worked
          (step first_system locked Reach.start (lock first_system 1 exec_op refl refl))
          (work locked 1 exec_op (box created) (as_running (box created)) refl refl))
        (unlock worked 1 refl))
      (lock released 2 state_op refl refl))

abbrev opened : Machine
opened = record fifo_world.sys { current = join "/run/runnc/box" exec_fifo_filename }

forward_loop-relays_example :
    let p = record app { ops = some 77 } in
    let v = relayed 77 (15 ∷ 10 ∷ []) start_world in
    (forward_loop 3 no_tty p 77 (15 ∷ 10 ∷ 17 ∷ []) start_world
      ≡ forward_loop 3 no_tty p 77 (17 ∷ []) v)
    × (v.trace ≡ sent 77 (15 ∷ 10 ∷ []) [])
forward_loop-relays_example =
    forward_loop-relays 3 no_tty (record app { ops = some 77 }) 77 (15 ∷ 10 ∷ []) (17 ∷ [])
      start_world refl

abbrev dir_world : World
dir_world = world_of (("/run/runnc/box", "") ∷ []) true

abbrev in_dir : Machine
in_dir = record dir_world.sys { current = "/run/runnc/box" }

abbrev sent_config : Machine
sent_config = record in_dir { files = ("/run/runnc/box", "box") ∷ ("/run/runnc/box", "") ∷ [] }

abbrev begun : Container
begun = record (box stopped) {
  state = record (state_of "box" stopped) {
    init_process_pid = 3;
    init_process_start_time = "/";
    created_at = 18;
    status = created;
  };
}

-- A codec that keeps every state of this container.
abbrev begun_codec : Codec
begun_codec = record status_codec { decode_state = λ s. done (some begun.state) }

start-load_example :
    (load ⦃codec = begun_codec⦄ "/run/runnc" "box"
      (start ⦃codec = begun_codec⦄ (box stopped) app dir_world).1).0
    ≡ ok (reloaded begun)
unfolding join status_string save_state init_config
start-load_example =
    start-load ⦃codec = begun_codec⦄ machine_storage machine-IsKept "/run/runnc" (box stopped) app
      dir_world {child = 10} {parent = 200} {dir = 3} {pid = 3} {time = 18} {t = "/"}
      {s₁ = dir_world.sys} {s₂ = in_dir} {s₃ = sent_config} {s₄ = sent_config} {s₅ = sent_config}
      {s₆ = sent_config} (differ "/run/runnc" "" refl) refl refl refl refl refl refl refl refl refl

quiet_handler-IsUnmarked : IsUnmarked (λ n s t. "") quiet_handler
quiet_handler-IsUnmarked = record {
  fs_unmarked = λ i w. refl;
  network_unmarked = λ i w. refl;
  exec_unmarked = λ i w. refl;
}

run_container_order_example :
    let r = run_container (λ n s t. "") quiet_handler (init_of "box") 4 start_world in
    let all = hands exec_run ∷ opens ∷ hands network_run ∷ hands fs_run ∷ [] in
    (left missed : List Mark) × (marks r.1.trace ≡ left ++ marks [])
    × (missed ++ left ≡ all)
    × (r.0 ≡ ok tt → left ≡ all)
run_container_order_example =
    run_container_order (λ n s t. "") quiet_handler quiet_handler-IsUnmarked (init_of "box") 4
      start_world refl

perform_all-Runs_example :
    Runs (exec_op ∷ state_op ∷ []) created running
    × (running ≡ running → created ≢ running → HasExec (exec_op ∷ state_op ∷ []))
unfolding perform_all perform exec current_state join
perform_all-Runs_example =
    perform_all-Runs quiet_handler (exec_op ∷ state_op ∷ []) (box created) fifo_world
      {d = as_running (box created)} refl

create_pid_file_lem_example : Written "/run/box.pid" (record app { ops = some 77 }) start_world
create_pid_file_lem_example =
    create_pid_file_lem "/run/box.pid" (record app { ops = some 77 }) start_world

-- Two copies whose sources are closed, and the wait for them.
abbrev two_copies : Routine → Routine → Closing → Copies
two_copies r q c = record { routines = r ∷ q ∷ []; count = 2; closing = c }

two_copies-Reach : Copying.Reach 2 (two_copies draining draining waiting)
unfolding start_copies
two_copies-Reach =
    Copying.Reach.step {s = two_copies draining copying waiting}
      (Copying.Reach.step {s = two_copies copying copying waiting}
        (Copying.Reach.step {s = two_copies copying copying still_open} Copying.Reach.start
          Copying.close_begins)
        (Copying.container_closes Copying.here))
      (Copying.container_closes (Copying.there Copying.here))

close_waits_example :
    let s = two_copies draining draining waiting in
    (s.closing ≡ all_closed → unfinished s ≡ 0)
    × ((k : ℕ) (t : Copies)
        → open_ends s ≡ 0
        → Run k s t
        → (k + work_left t ≤ work_left s)
          × (t.closing ≢ all_closed → (u : Copies) × Copying.CopyStep t u))
close_waits_example = close_waits 2 (two_copies draining draining waiting) two_copies-Reach
