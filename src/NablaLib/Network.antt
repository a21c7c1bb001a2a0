-- ===== src/NablaLib/Network.antt =====
-- nabla-lib/network/network_linux.go: tap devices, the bridge to the container's interface, and
-- the tun device. A link stands as its name.
pub mod Changes
pub mod Order
use runnc.Base.{
  ℕ, String, ◌<>◌, Option, none, some, List, [], ◌∷◌, Bool, true, false, ◌&&◌, not, ◌==◌,
  if◌then◌else◌, itoa,
}
use runnc.Go.{Reply, done, failed, GoError, text, wrap, is_not_exist}
use runnc.Os.{
  Os, World, M, ask, must, attempt, wrapping, pure, raise, ◌>>=◌, ◌>>◌, Link, Addr, bridge, tuntap,
  FileInfo, stat, stat_rdev, mkdir, mknod, link_by_name, link_add, link_del, link_set_up, addr_list,
  route_list, addr_add, addr_del, set_hardware_addr, set_master,
}
use runnc.NablaLib.Mask.{Net, mask_cidr}

-- `getMasterDetails`: address, gateway and hardware address of the master.
pub record MasterDetails : Type 0 where
  pub addr : Addr
  pub gateway : List ℕ
  pub mac : String

-- What `CreateTapInterfaceDocker` returns.
pub record TapNetwork : Type 0 where
  pub ip : List ℕ
  pub gateway : List ℕ
  pub mask : List ℕ
  pub mac : String

module _ ⦃os : Os⦄ where
  -- `verifyTunDevice`: the device must be 10/200.
  unfoldable pub verify_tun_device : M (Unit {0})
  verify_tun_device = do
    (maj, min) ← must (ask (stat_rdev "/dev/net/tun"))
    if maj == 10 && min == 200
        then pure tt
        else raise (
            text
              ("Expected /dev/net/tun to have M/m 10/200, got " <> (itoa maj <> ("/" <> itoa min))))

  -- The directory /dev/net, which is made if it is missing.
  require_dev_net : M (Unit {0})
  require_dev_net = do
    r ← ask (stat "/dev/net")
    elim r [
      | done info ↦ if info.is_dir then pure tt else raise (text "/dev/net is not a directory")
      | failed e ↦ if is_not_exist e then must (ask (mkdir "/dev/net" 493)) else raise e
    ]

  -- `createTunDevice`: mode S_IFCHR|0666.
  unfoldable pub create_tun_device : M (Unit {0})
  unfolding require_dev_net
  create_tun_device = do require_dev_net; must (ask (mknod "/dev/net/tun" 8630 10 200))

  -- `SetupTunDev`
  unfoldable pub setup_tun_dev : M (Unit {0})
  unfolding verify_tun_device create_tun_device
  setup_tun_dev = do
    r ← attempt verify_tun_device
    elim r [
      | done _ ↦ pure tt
      | failed _ ↦ do wrapping "Unable to create /dev/net/tun" create_tun_device; verify_tun_device
    ]

  -- `CreateBridge`
  unfoldable pub create_bridge : String → M String
  create_bridge name = do
    wrapping ("could not add " <> name) (must (ask (link_add name bridge)))
    pure name

  -- The address of a tap device; an error of adding it is dropped.
  set_address : Net → String → Option (List ℕ) → Option (List ℕ) → M (Unit {0})
  set_address net tap (some ip) (some mask) = do
    addr ←
        wrapping "Unable to add ip/mask to link"
          (must (pure (net.parse_addr (net.ip_string ip <> ("/" <> itoa (mask_cidr mask))))))
    ask (addr_add tap addr)
    pure tt
  set_address net tap _ _ = pure tt

  -- `CreateTapInterface`
  unfoldable pub create_tap_interface :
      Net → String → Option (List ℕ) → Option (List ℕ) → M (Unit {0})
  unfolding setup_tun_dev set_address
  create_tap_interface net tap ip mask = do
    wrapping "Unable to get tun device ready" setup_tun_dev
    wrapping "Unable to add link" (must (ask (link_add tap tuntap)))
    set_address net tap ip mask
    wrapping "Unable to set tap to up" (must (ask (link_set_up tap)))

  -- `RemoveTapDevice`
  unfoldable pub remove_tap_device : String → M (Unit {0})
  unfolding setup_tun_dev
  remove_tap_device tap = do setup_tun_dev; must (ask (link_del tap))

  first_addr : List Addr → M Addr
  first_addr [] = raise (text "master should have an IP")
  first_addr (a ∷ rest) = pure a

  first_gateway : List (List ℕ) → M (List ℕ)
  first_gateway [] = raise (text "master should have at least one route")
  first_gateway (g ∷ rest) = pure g

  -- `getMasterDetails`
  unfoldable pub get_master_details : Link → M MasterDetails
  unfolding first_addr first_gateway
  get_master_details master = do
    addrs ← must (ask (addr_list master.name))
    addr ← first_addr addrs
    routes ← must (ask (route_list master.name))
    gateway ← first_gateway routes
    pure (record { addr = addr; gateway = gateway; mac = master.hardware_addr })

  -- `CreateTapInterfaceDocker`; the errors of joining the bridge are dropped, and the constant
  -- hardware address always parses.
  unfoldable pub create_tap_interface_docker : String → String → M TapNetwork
  unfolding get_master_details setup_tun_dev create_bridge
  create_tap_interface_docker tap master = do
    link ← wrapping "no master interface" (must (ask (link_by_name master)))
    d ← get_master_details link
    setup_tun_dev
    must (ask (link_add tap tuntap))
    must (ask (link_set_up tap))
    must (ask (addr_del link.name d.addr))
    must (ask (set_hardware_addr link.name "aa:aa:aa:aa:bb:cc"))
    br0 ← create_bridge "br0"
    ask (set_master link.name br0)
    ask (set_master tap br0)
    must (ask (link_set_up br0))
    pure (record { ip = d.addr.ip; gateway = d.gateway; mask = d.addr.mask; mac = d.mac })
