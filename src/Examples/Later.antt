-- ===== src/Examples/Later.antt =====
-- The theorems about what a failed step leaves, and about later runs, at concrete inputs.
use runnc.Main.{nabla_llc_handler}
use runnc.Nabla.Rumprun.{Json}
use runnc.Main.Gone.{IsRemoval, destroy-load}
use runnc.Libcontainer.Container.{destroy}
use runnc.Go.{generic, container_not_exists, errno, enoent}
use runnc.Os.{remove_all}
use runnc.Examples.Machine.{content_of}
use runnc.Examples.Data.{small_net}
use runnc.Base.{◌<>◌, Option, Bool, false}
use runnc.Base.{
  ℕ, ◌≡◌, refl, String, none, some, List, [], ◌∷◌, ◌++◌, true, join, arith, if◌then◌else◌, ◌==◌,
  str_eq,
}
use runnc.Go.{ok, err, GoError, text, done, failed, system_error}
use runnc.Os.{Os, World, Call, Ret, Answer, create, write, close, open_read, read_all}
use runnc.NablaLib.Network.{TapNetwork, create_tap_interface_docker}
use runnc.NablaLib.Network.Changes.{
  Change, changes, bridged_tap, create_tap_interface_docker-changes,
}
use runnc.Libcontainer.Errors.{new_generic_error}
use runnc.Libcontainer.State.{created, running, stopped, Container, Codec, status_string}
use runnc.Libcontainer.Container.{exec, start, current_state, init_config, save_state}
use runnc.Libcontainer.Container.Lifecycle.{as_running}
use runnc.Libcontainer.Container.Persistence.{IsKept, reloaded}
use runnc.Libcontainer.Container.Unsaved.{IsTorn, start_unsaved}
use runnc.Libcontainer.Factory.{create_container, load, is_pause_container, new_factory}
use runnc.Libcontainer.Factory.Load.{IsStorage}
use runnc.Libcontainer.Factory.Abandoned.{
  Footprint, footprints, all_footprints, IsKeeping, create_container_steps,
}
use runnc.Llcli.Containers.{get_container, load_factory}
use runnc.Llcli.Commands.{start_cmd, state_cmd}
use runnc.Llcli.Commands.Later.{start_cmd-start_cmd, start_cmd-state_cmd}
use runnc.Llcli.Delete.{delete_cmd}
use runnc.Llcli.Delete.Torn.{delete_cmd_torn}
use runnc.Examples.Machine.{
  machine-IsKept, held, Machine, machine, machine_storage, world_of, differ, answer, eth0,
  eth0_addr,
}
use runnc.Examples.Data.{
  status_codec, small_config, box, state_of, status_named, quiet_handler, app, context,
}

abbrev start_world : World
start_world = world_of [] true

create_tap_interface_docker-changes_example :
    let r = create_tap_interface_docker "tap0" "eth0" start_world in
    (left missed : List Change) × (changes r.1.trace ≡ left ++ changes [])
    × (missed ++ left ≡ bridged_tap "tap0" eth0 eth0_addr)
    × ((n : TapNetwork) → r.0 ≡ ok n → left ≡ bridged_tap "tap0" eth0 eth0_addr)
create_tap_interface_docker-changes_example =
    create_tap_interface_docker-changes "tap0" "eth0" start_world {link = eth0} {a = eth0_addr}
      {more = []} {s = start_world.sys} {t = start_world.sys} refl refl

quiet_handler-IsKeeping : IsKeeping quiet_handler
quiet_handler-IsKeeping = record {
  fs_keeps = λ i w. refl;
  network_keeps = λ i w. refl;
  exec_keeps = λ i w. refl;
}

create_container_steps_example :
    let r = create_container quiet_handler "/run/runnc" "box" small_config start_world in
    let all = all_footprints (is_pause_container small_config) in
    (left missed : List Footprint) × (footprints r.1.trace ≡ left ++ footprints [])
    × (missed ++ left ≡ all)
    × ((c : Container) → r.0 ≡ ok c → left ≡ all)
create_container_steps_example =
    create_container_steps quiet_handler quiet_handler-IsKeeping "/run/runnc" "box" small_config
      start_world

-- A container that is created, with its fifo, and the run of `start` that finds it.
abbrev ready : World
ready = world_of (("/box/state.json", "created") ∷ ("/box/exec.fifo", "0") ∷ []) true

abbrev ready_box : Container
ready_box = record (box created) { root = "/box" }

abbrev later : World
later = record { sys = (start_cmd context ready).1.sys; trace = [] }

start_cmd-start_cmd_example :
    (e : GoError) × (start_cmd context later ≡ (
      err e,
      (current_state (reloaded (as_running ready_box)) (get_container context later).1).1,
    ))
unfolding get_container new_factory load join current_state status_string start_cmd exec
start_cmd-start_cmd_example =
    start_cmd-start_cmd machine_storage machine-IsKept context ready later {c = ready_box}
      {d = ready_box} refl refl (differ _ _ refl) (λ u. refl) refl refl refl refl

start_cmd-state_cmd_example :
    (state_cmd (λ l s. "") context later).0
    ≡ ok (record {
      version = "1.0.0";
      id = "box";
      init_process_pid = 77;
      status = status_string running;
      bundle = "";
      rootfs = "/rootfs";
      created_at = 5;
    })
unfolding get_container new_factory load join current_state status_string start_cmd exec
start_cmd-state_cmd_example =
    start_cmd-state_cmd machine_storage machine-IsKept context ready later {c = ready_box}
      {d = ready_box} refl refl (differ _ _ refl) (λ u. refl) refl refl refl refl (λ l s. "") refl
      refl

-- A machine whose disk is full: a file that is created is empty, and writing to it fails.
abbrev no_space : {r : Ret} → Call r → Machine → Answer r × Machine
no_space (create path) m = (done 3, record m { current = path; files = (path, "") ∷ m.files })
no_space (write f s) m = (if f == 3 then failed (text "no space left on device") else done tt, m)
no_space c m = answer c m

abbrev full : Os
full = record { Sys = Machine; answer = no_space }

full_write :
    (path s : String) (t u v : Machine) (f : ℕ)
    → no_space (create path) t ≡ (done f, u)
    → no_space (write f s) u ≡ (done tt, v)
    → held path (no_space (close f) v).1 ≡ some s
full_write path s t u v f h k = ground arith

full_open :
    (path s : String) (t : Machine)
    → held path t ≡ some s
    → (f : ℕ) × (u v : Machine) × (no_space (open_read path) t ≡ (done f, u))
      × (no_space (read_all f) u ≡ (done s, v))
full_open path s t h =
    (3, record t { current = path }, record t { current = path }, ground arith, ground arith)

full_storage : IsStorage full
full_storage = record { content = held; create_write = full_write; open_succeeds = full_open }

full-IsKept : IsKept full full_storage
unfolding full_storage
full-IsKept = record { close_keeps = λ path f s. refl; remove_keeps = λ path other s d. refl }

-- The empty text is no state.
abbrev strict_codec : Codec
strict_codec = record status_codec {
  decode_state = λ s.
      if str_eq s "" then failed (text "EOF") else done (some (state_of "box" (status_named s)));
}

abbrev dir_world : World ⦃os = full⦄
dir_world = record { sys = (world_of (("/run/runnc/box", "") ∷ []) true).sys; trace = [] }

abbrev in_dir : Machine
in_dir = record dir_world.sys { current = "/run/runnc/box" }

abbrev begun : Container
begun = record (box stopped) {
  state = record (state_of "box" stopped) {
    init_process_pid = 3;
    init_process_start_time = "/";
    created_at = 18;
    status = created;
  };
}

abbrev truncated : Machine
truncated = record in_dir {
  current = "/run/runnc/box/state.json";
  files = ("/run/runnc/box/state.json", "") ∷ in_dir.files;
}

begun-IsTorn :
    IsTorn ⦃os = full⦄ ⦃codec = strict_codec⦄ full_storage "/run/runnc"
      (box stopped)
      (text "EOF")
      truncated
unfolding full_storage join
begun-IsTorn = record { text = ""; held = refl; undecodable = refl }

start_unsaved_example :
    ((start ⦃os = full⦄ ⦃codec = strict_codec⦄ (box stopped) app dir_world).0
      ≡ ok (begun, record app { ops = some 3 }, none))
    × ((load ⦃os = full⦄ ⦃codec = strict_codec⦄ "/run/runnc" "box"
          (start ⦃os = full⦄ ⦃codec = strict_codec⦄ (box stopped) app dir_world).1).0
        ≡ err (new_generic_error (text "EOF") system_error))
unfolding join save_state init_config
start_unsaved_example =
    start_unsaved ⦃os = full⦄ ⦃codec = strict_codec⦄ full_storage "/run/runnc" full-IsKept
      (box stopped) app dir_world {child = 10} {parent = 200} {dir = 3} {pid = 3} {time = 18}
      {t = "/"} {s₁ = dir_world.sys} {s₂ = in_dir} {s₃ = in_dir} {s₄ = in_dir} {s₅ = in_dir}
      {s₆ = in_dir} (differ "/run/runnc" "" refl) refl refl refl refl refl refl refl refl
      begun-IsTorn

abbrev emptied : World
emptied = world_of (("/box/state.json", "") ∷ []) true

emptied-IsTorn :
    IsTorn ⦃codec = strict_codec⦄ machine_storage "/" ready_box (text "EOF") emptied.sys
unfolding join machine_storage
emptied-IsTorn = record { text = ""; held = refl; undecodable = refl }

delete_cmd_torn_example : delete_cmd quiet_handler ⦃codec = strict_codec⦄ context emptied ≡ (
  err (new_generic_error (text "EOF") system_error),
  (get_container ⦃codec = strict_codec⦄ context emptied).1,
)
unfolding load_factory new_factory join
delete_cmd_torn_example =
    delete_cmd_torn ⦃codec = strict_codec⦄ machine_storage quiet_handler ready_box context emptied
      {root = "/"} {m = "EOF"} refl (differ "box" "" refl) (differ "/" "" refl) refl refl
      emptied-IsTorn

-- A machine on which removing a directory removes every file.
abbrev sweeping : {r : Ret} → Call r → Machine → Answer r × Machine
sweeping (remove_all path) m = (done tt, record m { files = [] })
sweeping c m = answer c m

abbrev swept : Os
swept = record { Sys = Machine; answer = sweeping }

abbrev is_absent : Option String → Bool
is_absent none = true
is_absent (some s) = false

swept-IsRemoval : IsRemoval swept "/run/runnc/box" "/run/runnc/box/state.json"
swept-IsRemoval = record {
  absent = λ m. is_absent (content_of "/run/runnc/box/state.json" m.files);
  missing = λ s h. (errno enoent, s, ground arith, refl);
  removes = λ s t h. ground arith;
  stat_keeps = λ p s. refl;
  rdev_keeps = λ p s. refl;
  mkdir_keeps = λ s. refl;
  mknod_keeps = λ s. refl;
  link_keeps = λ p s. refl;
}

abbrev swept_world : World ⦃os = swept⦄
swept_world = record {
  sys = (world_of (("/run/runnc/box/state.json", "running") ∷ []) true).sys;
  trace = [];
}

abbrev plain_json : Json
plain_json = record { quote = λ s. s; valid = λ s. true }

destroy-load_example :
    (load ⦃os = swept⦄ "/run/runnc" "box"
      (destroy ⦃os = swept⦄
        (nabla_llc_handler ⦃os = swept⦄ 9 plain_json small_net)
        (box running)
        swept_world).1).0
    ≡ err (generic container_not_exists "" (text ("container " <> ("box" <> " does not exist"))))
unfolding join
destroy-load_example =
    destroy-load ⦃os = swept⦄ 9 plain_json small_net "/run/runnc" (box running) swept_world
      {s = record swept_world.sys { files = [] }} swept-IsRemoval (differ "/run/runnc" "" refl) refl
      refl
