-- ===== src/Nabla/Exec/Handover.antt =====
-- What the network handler hands to the execution handler (llmodules/network/tap_bridge.go and
-- llruntimes/nabla/exec_handler.go).
use runnc.Base.{
  ℕ, ◌≤◌, ◌≡◌, ◌≢◌, String, ◌<>◌, some, List, ◌∷◌, true, str_eq_iff, has_suffix, itoa, itoa_ℤ,
  atoi-itoa, arith, join,
}
use runnc.Go.{ok, done}
use runnc.Configs.{Config}
use runnc.NablaLib.Mask.{Net}
use runnc.NablaLib.Network.{TapNetwork}
use runnc.Llmodules.TapBridge.{run_options, option_at}
use runnc.Nabla.RunncCont.{new_runnc_cont, checked_mac}
use runnc.Nabla.Exec.{nabla_run_bin, cont_of_options, or_blank}

-- The parts of package net that the two handlers rely on: a printed address reads back, alone and
-- with the length of its mask, as does the hardware address that the system gave.
pub record ReadsBack (net : Net) (t : TapNetwork) (cidr : ℕ) : Type 0 where
  pub ip_given : net.ip_string t.ip ≢ ""
  pub gateway_given : net.ip_string t.gateway ≢ ""
  pub parse_gateway : net.parse_ip (net.ip_string t.gateway) ≡ some t.gateway
  pub parse_cidr : net.parse_cidr (net.ip_string t.ip <> ("/" <> itoa cidr)) ≡ done (t.ip, t.mask)
  pub parse_mac : (m : List ℕ) × (net.parse_mac t.mac ≡ done m)

checked_mac-eq :
    (net : Net) (mac : String) {m : List ℕ}
    → net.parse_mac mac ≡ done m
    → checked_mac net mac ≡ ok mac
unfolding checked_mac
checked_mac-eq net mac h = ground (arith, str_eq_iff mac "")

-- From the options that the network handler gives for a network, the execution handler builds a
-- `RunncCont` with that network's address, mask, gateway and hardware address, the tap device, the
-- memory and the arguments of the configuration, and the disk of the file system options.
pub cont_of_options-run_options :
    (net : Net) (t : TapNetwork) (cidr : ℕ) (tap root entry : String) (args : List String)
    (cfg : Config) (fs : List (String × String))
    → ReadsBack net t cidr
    → cidr ≤ 32
    → tap ≢ ""
    → cfg.args ≡ entry ∷ args
    → has_suffix entry ".nabla" ≡ true
    → cont_of_options net root cfg (run_options net t cidr tap) fs
      ≡ ok (record {
        nabla_run_bin = nabla_run_bin;
        nabla_run_args = args;
        unikernel_bin = join root entry;
        tap = tap;
        ip_address = t.ip;
        ip_mask = t.mask;
        gateway = t.gateway;
        mac = t.mac;
        memory = cfg.memory;
        disk = or_blank (option_at "FsPath" fs);
        working_dir = cfg.cwd;
        env = cfg.env;
        mounts = cfg.mounts;
      })
unfolding cont_of_options run_options new_runnc_cont itoa_ℤ
cont_of_options-run_options net t cidr tap root entry args cfg fs r small named ea ends = ground (
  arith,
  atoi-itoa cidr (omega arith),
  checked_mac-eq net t.mac r.parse_mac.1,
  str_eq_iff (net.ip_string t.ip) "",
  str_eq_iff (net.ip_string t.gateway) "",
  str_eq_iff tap "",
)
