-- ===== src/Examples/Modules.antt =====
-- The theorems about the network and file system modules, at concrete inputs.
use runnc.Base.{
  ◌≡◌, ◌≢◌, refl, ◌≤◌, ◌<>◌, pos, some, List, [], ◌∷◌, true, text_take, text_len, itoa, arith,
}
use runnc.Go.{ok}
use runnc.Os.{World, pure, ◌>>=◌}
use runnc.Configs.{Mount}
use runnc.Llif.{GenericInput}
use runnc.NablaLib.Network.{
  TapNetwork, create_tap_interface, create_tap_interface_docker, remove_tap_device,
}
use runnc.Llmodules.TapName.{nabla_tap_name}
use runnc.Llmodules.TapBridge.{with_options, tap_create, tap_destroy, tap_run}
use runnc.Llmodules.TapBridge.Device.{tap_create-tap_destroy, tap_run_lem}
use runnc.Nabla.Rumprun.{Json}
use runnc.Nabla.RunncCont.{RunncCont, run_cont}
use runnc.Nabla.RunncCont.Environment.{run_cont-ne-ok, run_cont_ignores_mac}
use runnc.Examples.Machine.{machine, world_of, eth0, eth0_addr}
use runnc.Examples.Data.{no_llstate, small_config, small_net}

abbrev start_world : World
start_world = world_of [] true

abbrev bridged : TapNetwork
bridged = record {
  ip = eth0_addr.ip;
  gateway = 172 ∷ 17 ∷ 0 ∷ 1 ∷ [];
  mask = eth0_addr.mask;
  mac = eth0.hardware_addr;
}

abbrev input : GenericInput
input = record {
  container_id = "0123456789abcdef";
  container_root = "/run/runnc/0123456789abcdef";
  config = small_config;
  fs_state = some no_llstate;
  network_state = some (with_options (("TapName", "tap0123456789ab") ∷ []));
  exec_state = some no_llstate;
}

tap_create-tap_destroy_example :
    let tap = "tap" <> text_take 12 "0123456789abcdef" in
    let s = some (with_options (("TapName", "tap0123456789ab") ∷ [])) in
    (12 ≤ text_len "0123456789abcdef")
    × (s ≡ some (with_options (("TapName", tap) ∷ [])))
    × ((v : World)
        → tap_destroy small_net (record input { network_state = s }) v
          ≡ (remove_tap_device tap >>= λ _. pure s) v)
unfolding tap_create nabla_tap_name create_tap_interface
tap_create-tap_destroy_example =
    tap_create-tap_destroy small_net input start_world
      {s = some (with_options (("TapName", "tap0123456789ab") ∷ []))} refl

tap_run_lem_example :
    (tap_run small_net input start_world).0
    ≡ ok (
        some (
          with_options (
            ("IPAddress", "172.17.0.2")
            ∷ ("Gateway", "172.17.0.1")
            ∷ ("IPMask", itoa 16)
            ∷ ("Mac", eth0.hardware_addr)
            ∷ ("TapName", "tap0123456789ab")
            ∷ [])))
unfolding create_tap_interface_docker
tap_run_lem_example =
    tap_run_lem small_net input start_world {n = 16} {t = bridged}
      {st = with_options (("TapName", "tap0123456789ab") ∷ [])} refl refl (omega arith) refl refl
      (omega arith)

abbrev mounts : List Mount
mounts =
    record { destination = "/proc"; kind = "proc"; source = "proc"; options = [] }
    ∷ record { destination = "/etc/hosts"; kind = "bind"; source = "/h"; options = [] }
    ∷ []

abbrev cont : RunncCont
cont = record {
  nabla_run_bin = "/opt/runnc/bin/nabla-run";
  nabla_run_args = [];
  unikernel_bin = "/rootfs/app.nabla";
  tap = "tap0123456789ab";
  ip_address = eth0_addr.ip;
  ip_mask = eth0_addr.mask;
  gateway = [];
  mac = "";
  memory = pos 512;
  disk = "";
  working_dir = "/";
  env = [];
  mounts = [];
}

abbrev quoted : Json
quoted = record { quote = λ s. "'" <> (s <> "'"); valid = λ s. true }

run_cont-ne-ok_example : (run_cont quoted small_net cont start_world).0 ≢ ok tt
run_cont-ne-ok_example = run_cont-ne-ok quoted small_net cont start_world

run_cont_ignores_mac_example :
    run_cont quoted small_net (record cont { mac = eth0.hardware_addr }) start_world
    ≡ run_cont quoted small_net cont start_world
run_cont_ignores_mac_example =
    run_cont_ignores_mac quoted small_net cont eth0.hardware_addr start_world
