-- ===== src/Libcontainer/State.antt =====
-- The data of libcontainer: `Status` and `BaseState` (container.go), `State` and
-- `nablaContainer` (container_nabla.go), `initConfig` (init_nabla.go).
use runnc.Base.{ℕ, String, ℤ, Option, List}
use runnc.Go.{Reply}
use runnc.Configs.{Config, Hooks, Mount}
use runnc.Llif.{LlState}

pub data Status : Type 0 where
  created running pausing paused stopped : Status

Status-discrete : Discrete Status
Status-discrete = hlevel

unfoldable pub status_string : Status → String
status_string created = "created"
status_string running = "running"
status_string pausing = "pausing"
status_string paused = "paused"
status_string stopped = "stopped"

-- `State`, with the fields of the embedded `BaseState`. A zero time is 0.
pub record State : Type 0 where
  pub id : String
  pub init_process_pid : ℕ
  pub init_process_start_time : String
  pub created_at : ℕ
  pub config : Config
  pub fs_state : LlState
  pub network_state : LlState
  pub exec_state : LlState
  pub status : Status

-- `nablaContainer`, without its mutex, which is in Container/Mutex, its unused `created`, and
-- `llcHandler`, which never changes and is a parameter of the methods.
pub record Container : Type 0 where
  pub id : String
  pub root : String
  pub config : Config
  pub state : State

-- `initConfig`. The field `TapName` is never set.
pub record InitConfig : Type 0 where
  pub id : String
  pub bundle_path : String
  pub root : String
  pub args : List String
  pub cwd : String
  pub env : List String
  pub netns_path : String
  pub hooks : Option Hooks
  pub memory : ℤ
  pub mounts : List Mount
  pub config : Config
  pub fs_state : LlState
  pub network_state : LlState
  pub exec_state : LlState

-- `encoding/json` at the three types that the program writes or reads; `null` decodes to `none`.
pub record Codec : Type 0 where
  pub encode_state : State → String
  pub decode_state : String → Reply (Option State)
  pub encode_init : InitConfig → String
  pub decode_init : String → Reply (Option InitConfig)

abbrev pub state_filename : String
state_filename = "state.json"

abbrev pub exec_fifo_filename : String
exec_fifo_filename = "exec.fifo"

abbrev pub pause_nabla_name : String
pause_nabla_name = "pause.nabla"
