-- ===== src/Examples/Data.antt =====
-- Containers, handlers and addresses for the examples.
use runnc.Base.{
  ℕ, String, pos, Option, none, some, List, [], ◌∷◌, Bool, false, ◌==◌, str_eq, if◌then◌else◌,
}
use runnc.Go.{done, text}
use runnc.Os.{M, pure, raise}
use runnc.Configs.{Config, SpecProcess}
use runnc.Llif.{LlState, GenericInput, RunllcHandler}
use runnc.Libcontainer.State.{
  State, InitConfig, Codec, Container, Status, created, running, stopped, status_string,
}
use runnc.Libcontainer.Process.{Process}
use runnc.Llcli.Context.{Context}
use runnc.NablaLib.Mask.{Net}
use runnc.Examples.Machine.{machine, eth0_addr}

abbrev pub no_llstate : LlState
no_llstate = record { options = []; in_memory_objects = [] }

abbrev pub small_config : Config
small_config = record {
  args = "app.nabla" ∷ "-v" ∷ [];
  rootfs = "/rootfs";
  env = "A=1" ∷ [];
  cwd = "/";
  version = "1.0.0";
  labels = [];
  netns_path = "";
  hooks = none;
  memory = pos 512;
  mounts = [];
}

abbrev pub state_of : String → Status → State
state_of id status = record {
  id = id;
  init_process_pid = 77;
  init_process_start_time = "1";
  created_at = 5;
  config = small_config;
  fs_state = no_llstate;
  network_state = no_llstate;
  exec_state = no_llstate;
  status = status;
}

abbrev pub init_of : String → InitConfig
init_of id = record {
  id = id;
  bundle_path = "/run/runnc/box";
  root = "/rootfs";
  args = small_config.args;
  cwd = "/";
  env = [];
  netns_path = "";
  hooks = none;
  memory = pos 512;
  mounts = [];
  config = small_config;
  fs_state = no_llstate;
  network_state = no_llstate;
  exec_state = no_llstate;
}

abbrev pub status_named : String → Status
status_named s =
    if str_eq s "created" then created else if str_eq s "running" then running else stopped

abbrev pub app : Process
app = record {
  args = [];
  env = [];
  user = "0:0";
  additional_groups = [];
  cwd = "/";
  stdin = none;
  stdout = none;
  stderr = none;
  extra_files = 9 ∷ [];
  console_path = "";
  apparmor_profile = "";
  label = "";
  no_new_privileges = false;
  ops = none;
  oom_score_adj = none;
}

abbrev pub app_process : SpecProcess
app_process = record {
  terminal = false;
  uid = 0;
  gid = 0;
  additional_gids = [];
  args = some ("app.nabla" ∷ "-v" ∷ []);
  env = "A=1" ∷ [];
  cwd = "/";
  no_new_privileges = false;
  apparmor_profile = "";
  oom_score_adj = none;
  selinux_label = "";
}

-- States are written as their status.
instance abbrev pub status_codec : Codec
status_codec = record {
  encode_state = λ s. status_string s.status;
  decode_state = λ s. done (some (state_of "box" (status_named s)));
  encode_init = λ c. c.id;
  decode_init = λ s. done (some (init_of s));
}

abbrev pub box : Status → Container
box status = record {
  id = "box";
  root = "/run/runnc/box";
  config = small_config;
  state = state_of "box" status;
}

abbrev pub quiet : GenericInput → M (Option LlState)
quiet i = pure (some no_llstate)

-- Handlers that succeed without a call, and handlers of which two fail.
abbrev pub quiet_handler : RunllcHandler
quiet_handler = record {
  fs_h = record { fs_create_func = quiet; fs_run_func = quiet; fs_destroy_func = quiet };
  network_h = record {
    network_create_func = quiet;
    network_run_func = quiet;
    network_destroy_func = quiet;
  };
  exec_h = record {
    exec_create_func = quiet;
    exec_run_func = λ i. pure tt;
    exec_destroy_func = quiet;
  };
}

abbrev pub broken : GenericInput → M (Option LlState)
broken i = raise (text "broken")

abbrev pub broken_handler : RunllcHandler
broken_handler = record quiet_handler {
  network_h = record {
    network_create_func = broken;
    network_run_func = quiet;
    network_destroy_func = quiet;
  };
  exec_h = record {
    exec_create_func = quiet;
    exec_run_func = λ i. pure tt;
    exec_destroy_func = broken;
  };
}

abbrev is_gateway : List ℕ → Bool
is_gateway (a ∷ b ∷ c ∷ d ∷ rest) = d == 1
is_gateway _ = false

-- Addresses of which only two have a text.
abbrev pub small_net : Net
small_net = record {
  ip_string = λ ip. if is_gateway ip then "172.17.0.1" else "172.17.0.2";
  parse_ip = λ s. some (172 ∷ 17 ∷ 0 ∷ 1 ∷ []);
  parse_cidr = λ s. done (eth0_addr.ip, eth0_addr.mask);
  parse_mac = λ s. done (2 ∷ 66 ∷ []);
  parse_addr = λ s. done eth0_addr;
}

abbrev pub context : Context
context = record {
  args = "box" ∷ [];
  root = "/run/runnc";
  bundle = "";
  pid_file = "";
  console = "";
  force = false;
  all = false;
  detach = false;
  no_subreaper = false;
}
