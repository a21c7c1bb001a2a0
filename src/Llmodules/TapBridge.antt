-- ===== src/Llmodules/TapBridge.antt =====
-- llmodules/network/tap_bridge.go: the handler that gives a container a tap device, which the
-- network namespace of the container bridges to its interface.
pub mod Device
use runnc.Base.{ℕ, String, Option, none, some, List, [], ◌∷◌, ◌==◌, str_eq, if◌then◌else◌, itoa}
use runnc.Go.{GoError, text, Outcome, panicked}
use runnc.Os.{Os, World, M, wrapping, pure, raise, halt, ◌>>=◌, ◌>>◌}
use runnc.Llif.{LlState, GenericInput, NetworkHandler}
use runnc.NablaLib.Mask.{Net, mask_size}
use runnc.NablaLib.Network.{
  TapNetwork, create_tap_interface, create_tap_interface_docker, remove_tap_device,
}
use runnc.Llmodules.TapName.{nabla_tap_name}

-- `m[key]` of a map of texts; the keys of the maps that the program builds are distinct.
abbrev pub option_at : String → List (String × String) → Option String
option_at key [] = none
option_at key ((k, v) ∷ rest) = if str_eq k key then some v else option_at key rest

-- The options of a state behind a pointer; a nil pointer has none, and the read panics.
abbrev pub options_of : Option LlState → Option (List (String × String))
options_of none = none
options_of (some s) = some s.options

abbrev pub with_options : List (String × String) → LlState
with_options options = record { options = options; in_memory_objects = [] }

-- The options that `NetworkRunFunc` returns.
unfoldable pub run_options : Net → TapNetwork → ℕ → String → List (String × String)
run_options net t cidr tap =
    ("IPAddress", net.ip_string t.ip)
    ∷ ("Gateway", net.ip_string t.gateway)
    ∷ ("IPMask", itoa cidr)
    ∷ ("Mac", t.mac)
    ∷ ("TapName", tap)
    ∷ []

module _ ⦃os : Os⦄ (net : Net) where
  abbrev outcome_of : {A : Type 0} → Outcome A → M A
  outcome_of r w = (r, w)

  -- `i.NetworkState.Options["TapName"]`
  tap_option : Option LlState → M String
  tap_option none = halt (panicked "invalid memory address or nil pointer dereference")
  tap_option (some s) = elim (option_at "TapName" s.options) [
    | none ↦ raise (text "Unable to get tap name")
    | some tap ↦ pure tap
  ]

  -- `NetworkCreateFunc`
  unfoldable pub tap_create : GenericInput → M (Option LlState)
  tap_create i = do
    tap ← outcome_of (nabla_tap_name i.container_id)
    wrapping "Unable to create tap in NetworkCreate" (create_tap_interface net tap none none)
    pure (some (with_options (("TapName", tap) ∷ [])))

  -- `NetworkRunFunc`
  unfoldable pub tap_run : GenericInput → M (Option LlState)
  unfolding tap_option run_options
  tap_run i = do
    tap ← tap_option i.network_state
    own_tap ← outcome_of (nabla_tap_name i.container_id)
    t ← wrapping "Unable to configure network runtime" (create_tap_interface_docker own_tap "eth0")
    let (cidr, total_bits) = mask_size t.mask
    if total_bits == 32
        then pure (some (with_options (run_options net t cidr tap)))
        else raise (text "Unexpected IP address number of bits")

  -- `NetworkDestroyFunc`
  unfoldable pub tap_destroy : GenericInput → M (Option LlState)
  unfolding tap_option
  tap_destroy i = do tap ← tap_option i.network_state; remove_tap_device tap; pure i.network_state

  -- `tapBrNetworkHandler`
  abbrev pub tap_bridge_handler : NetworkHandler
  tap_bridge_handler = record {
    network_create_func = tap_create;
    network_run_func = tap_run;
    network_destroy_func = tap_destroy;
  }
