-- ===== src/Examples/Containers.antt =====
-- The theorems about containers and their factory, at concrete inputs.
use runnc.Base.{arith, ℕ, ◌≡◌, refl, String, none, [], ◌∷◌, true, join}
use runnc.Go.{err, text, done, failed}
use runnc.Os.{World, called, pipe, exec_destroy, fs_destroy, network_destroy}
use runnc.Libcontainer.State.{running, stopped, exec_fifo_filename}
use runnc.Libcontainer.Process.{initialize_io}
use runnc.Libcontainer.Process.Pipes.{closing, initialize_io_undo}
use runnc.Libcontainer.Container.{destroy}
use runnc.Libcontainer.Container.Destroy.{
  IsStopped, IsDutiful, Hands, hands, destroy-IsStopped, destroy_order,
}
use runnc.Libcontainer.Factory.{is_pause_container, make_fifo, validate_id, create_container}
use runnc.Libcontainer.Factory.Create.{IsNew, create_container-IsNew}
use runnc.Llif.{RunllcHandler}
use runnc.Main.{nabla_llc_handler}
use runnc.Llmodules.Iso.{iso_destroy}
use runnc.Llmodules.TapBridge.{tap_destroy}
use runnc.NablaLib.Network.{remove_tap_device}
use runnc.Examples.Machine.{Machine, machine, world_of}
use runnc.Examples.Data.{
  no_llstate, small_config, state_of, status_codec, box, small_net, quiet_handler, app,
}

abbrev start_world : World
start_world = world_of [] true

destroy-IsStopped_example :
    IsStopped
      (box running)
      (record (box stopped) { state = record (state_of "box" stopped) { init_process_pid = 0 } })
unfolding destroy
destroy-IsStopped_example =
    destroy-IsStopped quiet_handler (box running) start_world {e = none} refl

-- The handlers of the program: they remove a directory and a device, and hand over to no other.
abbrev handlers : RunllcHandler
handlers = nabla_llc_handler 9 (record { quote = λ s. s; valid = λ s. true }) small_net

handlers-IsDutiful : IsDutiful handlers
unfolding iso_destroy tap_destroy remove_tap_device
handlers-IsDutiful = record {
  exec_dutiful = λ i w. refl;
  fs_dutiful = λ i w. ground arith;
  network_dutiful = λ i w. ground arith;
}

destroy_order_example :
    Hands handlers
      (destroy handlers (box running))
      (hands network_destroy ∷ hands fs_destroy ∷ hands exec_destroy ∷ [])
      start_world
destroy_order_example = destroy_order handlers handlers-IsDutiful (box running) start_world

abbrev fifo_world : World
fifo_world = world_of ((join "/run/runnc/box" exec_fifo_filename, "0") ∷ []) true

abbrev dir_world : World
dir_world = world_of (("/run/runnc/box", "") ∷ []) true

abbrev in_dir : Machine
in_dir = record dir_world.sys { current = "/run/runnc/box" }

abbrev sent : Machine
sent = record in_dir { files = ("/run/runnc/box", "box") ∷ ("/run/runnc/box", "") ∷ [] }

create_container-IsNew_example : IsNew "/run/runnc" "box" small_config (record (box stopped) {
  root = join "/run/runnc" "box";
  state = record {
    id = "box";
    init_process_pid = 0;
    init_process_start_time = "";
    created_at = 0;
    config = small_config;
    fs_state = no_llstate;
    network_state = no_llstate;
    exec_state = no_llstate;
    status = stopped;
  };
})
unfolding create_container validate_id make_fifo is_pause_container join
create_container-IsNew_example =
    create_container-IsNew quiet_handler "/run/runnc" "box" small_config start_world refl

initialize_io_undo_example :
    let one : Machine = record start_world.sys { pipes = 1 } in
    ((machine.answer pipe one
        ≡ (failed (text "too many open files"), record start_world.sys { pipes = 0 }))
      → ((initialize_io app 0 0 start_world).0 ≡ err (text "too many open files"))
        × ((initialize_io app 0 0 start_world).1.trace
            ≡ closing 6 ∷ closing 5 ∷ called pipe ∷ called pipe ∷ []))
    × ((r1 w1 : ℕ) (s3 : Machine)
        → machine.answer pipe one ≡ (done (r1, w1), record start_world.sys { pipes = 0 })
        → machine.answer pipe (record start_world.sys { pipes = 0 })
          ≡ (failed (text "too many open files"), s3)
        → ((initialize_io app 0 0 start_world).0 ≡ err (text "too many open files"))
          × ((initialize_io app 0 0 start_world).1.trace
              ≡ closing w1
                ∷ closing r1
                ∷ closing 6
                ∷ closing 5
                ∷ called pipe
                ∷ called pipe
                ∷ called pipe
                ∷ []))
initialize_io_undo_example =
    initialize_io_undo app 0 0 start_world {s1 = record start_world.sys { pipes = 1 }}
      {s2 = record start_world.sys { pipes = 0 }} {e = text "too many open files"} refl

abbrev marshal : ℕ → String → String → String
marshal pid bundle id = id
