-- ===== src/Llif.antt =====
-- llif: the interface between the runtime and the low level handlers for the file system, the
-- network and the execution.
use runnc.Base.{String, Option, List, ℕ}
use runnc.Configs.{Config}
use runnc.Os.{Os, M}

-- `LLState`. The values of `InMemoryObjects` are never looked at, and stand as numbers.
pub record LlState : Type 0 where
  pub options : List (String × String)
  pub in_memory_objects : List (String × ℕ)

-- `FsGenericInput`, `NetworkGenericInput` and `ExecGenericInput`, which have the same fields, and
-- the nine inputs that embed one of them. A nil pointer is `none`.
pub record GenericInput : Type 0 where
  pub container_id : String
  pub container_root : String
  pub config : Config
  pub fs_state : Option LlState
  pub network_state : Option LlState
  pub exec_state : Option LlState

abbrev pub FsGenericInput : Type 0
FsGenericInput = GenericInput

abbrev pub NetworkGenericInput : Type 0
NetworkGenericInput = GenericInput

abbrev pub ExecGenericInput : Type 0
ExecGenericInput = GenericInput

module _ ⦃os : Os⦄ where
  pub record FsHandler : Type 0 where
    pub fs_create_func : FsGenericInput → M (Option LlState)
    pub fs_run_func : FsGenericInput → M (Option LlState)
    pub fs_destroy_func : FsGenericInput → M (Option LlState)

  pub record NetworkHandler : Type 0 where
    pub network_create_func : NetworkGenericInput → M (Option LlState)
    pub network_run_func : NetworkGenericInput → M (Option LlState)
    pub network_destroy_func : NetworkGenericInput → M (Option LlState)

  pub record ExecHandler : Type 0 where
    pub exec_create_func : ExecGenericInput → M (Option LlState)
    pub exec_run_func : ExecGenericInput → M (Unit {0})
    pub exec_destroy_func : ExecGenericInput → M (Option LlState)

  pub record RunllcHandler : Type 0 where
    pub fs_h : FsHandler
    pub network_h : NetworkHandler
    pub exec_h : ExecHandler
