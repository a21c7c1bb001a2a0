-- ===== src/Examples/Arrival.antt =====
-- The theorems about numbers that pass as text, at concrete inputs: what the init process takes up, and
-- the device of a macvtap.
use runnc.Base.{◌≡◌, refl, ◌<>◌, some, [], ◌∷◌, true, str_eq, if◌then◌else◌, itoa, arith}
use runnc.Go.{done}
use runnc.NablaLib.Macvtap.{Macvtap, make_tap_node}
use runnc.NablaLib.Macvtap.Numbers.{make_tap_node-device_text}
use runnc.Os.{must, read_file, mknod}
use runnc.Os.{
  pure, Os, World, Call, Ret, Answer, ask, finally, called, getenv, read_all, clearenv, close,
}
use runnc.Llif.{RunllcHandler}
use runnc.Llmodules.Noop.{noop_fs_handler, noop_network_handler}
use runnc.Libcontainer.State.{created, Codec}
use runnc.Libcontainer.Init.{run_container, init_nabla}
use runnc.Libcontainer.Init.Arrival.{received, init_nabla-init_command}
use runnc.Libcontainer.Container.{init_config}
use runnc.Libcontainer.Container.Launch.{init_command, child_file}
use runnc.Examples.Machine.{Machine, answer, world_of}
use runnc.Examples.Data.{status_codec, box, app}

-- The new process: it has one extra file, so that its pipe is the descriptor 4.
abbrev in_child : {r : Ret} → Call r → Machine → Answer r × Machine
in_child (getenv name) m = (if str_eq name "_LIBCONTAINER_INITPIPE" then "4" else "5", m)
in_child (read_all f) m = (done "box", m)
in_child clearenv m = (tt, m)
in_child c m = answer c m

instance abbrev child : Os
child = record { Sys = Machine; answer = in_child }

abbrev child_world : World
child_world = record { sys = (world_of [] true).sys; trace = [] }

abbrev box_codec : Codec
box_codec = record status_codec { decode_init = λ s. done (some (received (box created))) }

abbrev handler : RunllcHandler
handler = record {
  fs_h = noop_fs_handler;
  network_h = noop_network_handler;
  exec_h = record {
    exec_create_func = λ i. pure i.exec_state;
    exec_run_func = λ i. pure tt;
    exec_destroy_func = λ i. pure i.exec_state;
  };
}

init_nabla-init_command_example :
    let cmd = init_command (box created) app 7 8 in
    let r =
      run_container
        (λ k s t. "")
        handler
        (received (box created))
        5
        (record {
          sys = child_world.sys;
          trace =
              called clearenv
              ∷ called (read_all 4)
              ∷ called (getenv "_LIBCONTAINER_STATEDIR")
              ∷ called (getenv "_LIBCONTAINER_INITPIPE")
              ∷ [];
        }) in
    (cmd.env ≡ ("_LIBCONTAINER_INITPIPE=" <> itoa 4) ∷ ("_LIBCONTAINER_STATEDIR=" <> itoa 5) ∷ [])
    × (child_file cmd 4 ≡ some 7)
    × (child_file cmd 5 ≡ some 8)
    × (init_nabla (λ k s t. "") handler ⦃codec = box_codec⦄ child_world
        ≡ finally r.0 (ask (close 4)) r.1)
unfolding itoa init_config
init_nabla-init_command_example =
    init_nabla-init_command (λ k s t. "") handler ⦃codec = box_codec⦄ (box created) app 7 8
      child_world {s₁ = child_world.sys} {s₂ = child_world.sys} {s₃ = child_world.sys}
      {s₄ = child_world.sys} (omega arith) refl refl refl refl refl

-- A machine whose sysfs shows one device.
abbrev with_device : {r : Ret} → Call r → Machine → Answer r × Machine
with_device (read_file p) m = (done "240:3\n", m)
with_device c m = answer c m

abbrev sysfs : Os
sysfs = record { Sys = Machine; answer = with_device }

abbrev sysfs_world : World ⦃os = sysfs⦄
sysfs_world = record { sys = (world_of [] true).sys; trace = [] }

abbrev tap9 : Macvtap
tap9 = record { index = 9; name = "macvtap8200"; dev = "/dev/tap9" }

make_tap_node-device_text_example :
    let file = "/sys/devices/virtual/net/" <> ("macvtap8200" <> ("/tap" <> (itoa 9 <> "/dev"))) in
    make_tap_node ⦃os = sysfs⦄ tap9 sysfs_world
    ≡ must ⦃os = sysfs⦄
        (ask ⦃os = sysfs⦄ (mknod "/dev/tap9" 8576 240 3))
        (record { sys = sysfs_world.sys; trace = called (read_file file) ∷ [] })
unfolding itoa
make_tap_node-device_text_example =
    make_tap_node-device_text ⦃os = sysfs⦄ tap9 240 3 sysfs_world {s = sysfs_world.sys}
      (omega arith) (omega arith) refl
