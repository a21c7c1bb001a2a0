-- ===== src/Nabla/Exec.antt =====
-- llruntimes/nabla/exec_handler.go: the execution handler.
pub mod Handover
use runnc.Base.{
  ℕ, String, ◌<>◌, ℤ, Option, none, some, List, [], ◌∷◌, Bool, str_eq, has_suffix, if◌then◌else◌,
  atoi, join,
}
use runnc.Go.{GoError, text, wrap, Outcome, ok, err, panicked}
use runnc.Os.{Os, World, M, wrapping, pure, raise, halt, ◌>>=◌, ◌>>◌}
use runnc.Configs.{Config}
use runnc.Llif.{LlState, GenericInput, ExecHandler}
use runnc.NablaLib.Mask.{Net}
use runnc.Llmodules.TapBridge.{option_at}
use runnc.Nabla.Rumprun.{Json}
use runnc.Nabla.RunncCont.{ContConfig, RunncCont, new_runnc_cont, run_cont}

abbrev pub nabla_run_bin : String
nabla_run_bin = "/opt/runnc/bin/nabla-run"

-- A missing key reads as the empty text.
unfoldable pub or_blank : Option String → String
or_blank none = ""
or_blank (some v) = v

-- `m[key]`
abbrev option_or_blank : List (String × String) → String → String
option_or_blank m key = or_blank (option_at key m)

cont_config :
    String
    → Config
    → String
    → List String
    → List (String × String)
    → List (String × String)
    → ℤ
    → ContConfig
unfolding or_blank
cont_config root cfg entry args network fs cidr = record {
  nabla_run_bin = nabla_run_bin;
  nabla_run_args = args;
  unikernel_bin = join root entry;
  tap = option_or_blank network "TapName";
  ip_address = option_or_blank network "IPAddress";
  ip_mask = cidr;
  gateway = option_or_blank network "Gateway";
  mac = option_or_blank network "Mac";
  memory = cfg.memory;
  disk = option_or_blank fs "FsPath" ∷ [];
  working_dir = cfg.cwd;
  env = cfg.env;
  mounts = cfg.mounts;
}

module _ (net : Net) where
  from_args :
      String
      → Config
      → List (String × String)
      → List (String × String)
      → List String
      → Outcome RunncCont
  unfolding cont_config
  from_args root cfg network fs [] = err (text "OCI process args are empty")
  from_args root cfg network fs (entry ∷ args) =
      if has_suffix entry ".nabla"
      then elim (atoi (option_or_blank network "IPMask")) [
        | none ↦ err (text "Unablae to parse IPMask: 0")
        | some cidr ↦ new_runnc_cont net (cont_config root cfg entry args network fs cidr)
      ]
      else err (text "entrypoint is not a .nabla file")

  -- `newRunncCont`
  unfoldable pub cont_of_options :
      String → Config → List (String × String) → List (String × String) → Outcome RunncCont
  unfolding from_args
  cont_of_options root cfg network fs = from_args root cfg network fs cfg.args

module _ ⦃os : Os⦄ (json : Json) (net : Net) where
  abbrev nil_pointer : {A : Type 0} → M A
  nil_pointer = halt (panicked "invalid memory address or nil pointer dereference")

  state_options : Option LlState → M (List (String × String))
  state_options none = nil_pointer
  state_options (some s) = pure s.options

  -- `ExecRunFunc`
  unfoldable pub nabla_exec_run : GenericInput → M (Unit {0})
  unfolding state_options
  nabla_exec_run i = do
    network ← state_options i.network_state
    fs ← state_options i.fs_state
    cont ←
        wrapping "Unable to construct nabla run args"
          (λ w. (cont_of_options net i.container_root i.config network fs, w))
    run_cont json net cont

  -- `nablaExecHandler`; `ExecCreateFunc` and `ExecDestroyFunc` give an empty state.
  abbrev pub nabla_exec_handler : ExecHandler
  nabla_exec_handler = record {
    exec_create_func = λ i. pure (some (record { options = []; in_memory_objects = [] }));
    exec_run_func = nabla_exec_run;
    exec_destroy_func = λ i. pure (some (record { options = []; in_memory_objects = [] }));
  }
