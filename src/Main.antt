-- ===== src/Main.antt =====
-- runnc.go: the low level handlers that the program chooses, its root directory, and its run.
pub mod Gone
use runnc.Base.{ℕ, String, Option, List}
use runnc.Go.{GoError, Reply}
use runnc.Os.{Os, M}
use runnc.Configs.{Spec}
use runnc.Llif.{RunllcHandler}
use runnc.Libcontainer.State.{Codec}
use runnc.Llcli.App.{App, Parsed, app_of, run_llc}
use runnc.Llcli.Commands.{ContainerState}
use runnc.NablaLib.Mask.{Net}
use runnc.Llmodules.Iso.{iso_handler}
use runnc.Llmodules.TapBridge.{tap_bridge_handler}
use runnc.Nabla.Rumprun.{Json}
use runnc.Nabla.Exec.{nabla_exec_handler}

abbrev pub root_dir : String
root_dir = "/run/runnc"

-- `nablaLLCHandler`; the fuel bounds the depth of the directories that are copied.
abbrev pub nabla_llc_handler : ⦃os : Os⦄ → ℕ → Json → Net → RunllcHandler
nabla_llc_handler fuel json net = record {
  fs_h = iso_handler fuel;
  network_h = tap_bridge_handler net;
  exec_h = nabla_exec_handler json net;
}

-- What the library for command lines does: it reads the arguments, and acts where no command has the
-- name that is given.
pub record CommandLine ⦃os : Os⦄ : Type 0 where
  pub parse : App → Parsed
  pub no_command : Parsed → M (Unit {0})

module _ ⦃os : Os⦄ ⦃codec : Codec⦄ (fuel : ℕ) (json : Json) (net : Net) where
  -- `main`: the constructors of the three handlers never fail.
  unfoldable pub main :
      (GoError → String)
      → (String → Reply (Option Spec))
      → (ℕ → String → String → String)
      → (List String → String → String)
      → (ContainerState → String)
      → List ℕ
      → CommandLine
      → String
      → M (Unit {0})
  main error_text decode_spec marshal search_labels print_state signals line version =
      run_llc error_text (nabla_llc_handler fuel json net) decode_spec marshal search_labels
        print_state fuel signals line.no_command (line.parse (app_of "runnc" root_dir version))
