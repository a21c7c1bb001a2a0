-- ===== src/NablaLib/Macvtap.antt =====
-- The macvtap interfaces of nabla-lib/network/network_linux.go, which no handler uses now.
pub mod Numbers
use mathlib.Core.List.{reverse}
use runnc.Base.{
  ℕ, zero, suc, ◌+◌, ◌-◌, ◌%◌, String, ◌<>◌, ℤ, pos, negsuc, lt_ℤ, ◌^◌, none, some, List, [], ◌∷◌,
  ◌||◌, ◌==◌, Bool, if◌then◌else◌, itoa, atoi_codes, codes,
}
use runnc.Go.{text, panicked}
use runnc.Os.{
  Os, M, ask, must, wrapping, pure, raise, halt, ◌>>=◌, ◌>>◌, Link, Addr, macvtap, mknod,
  netlink_handle, link_by_name, link_add, link_set_up, addr_list, route_list, addr_del, random,
  read_file,
}
use runnc.NablaLib.Network.{setup_tun_dev}

pub record Macvtap : Type 0 where
  pub index : ℕ
  pub name : String
  pub dev : String

pub record MacvtapNetwork : Type 0 where
  pub ip : List ℕ
  pub gateway : List ℕ
  pub mask : List ℕ
  pub mac : String
  pub dev : String

-- The queue length of the master, or 1000 if that is not positive.
queue_length : ℤ → ℤ
queue_length qlen = if lt_ℤ (pos 0) qlen then qlen else pos 1000

add_code : ℕ → List (List ℕ) → List (List ℕ)
add_code c [] = (c ∷ []) ∷ []
add_code c (part ∷ rest) = if c == b':' then [] ∷ part ∷ rest else (c ∷ part) ∷ rest

-- `strings.Split(s, ":")`
split_colon : List ℕ → List (List ℕ)
unfolding add_code
split_colon [] = [] ∷ []
split_colon (c ∷ s) = add_code c (split_colon s)

is_space : ℕ → Bool
is_space c = c == 32 || c == 10 || c == 9 || c == 13 || c == 11 || c == 12

trim_left : List ℕ → List ℕ
unfolding is_space
trim_left [] = []
trim_left (c ∷ s) = let rest = trim_left s in if is_space c then rest else c ∷ s

-- `strings.TrimSpace`
trim_space : List ℕ → List ℕ
unfolding trim_left
trim_space s = reverse (trim_left (reverse (trim_left s)))

-- `uint32(n)`
abbrev uint32 : ℤ → ℕ
uint32 (pos n) = n % 2 ^ 32
uint32 (negsuc n) = 2 ^ 32 - suc (n % 2 ^ 32)

module _ ⦃os : Os⦄ where
  -- `createMacvtapInterface`; the system may give the link another index.
  unfoldable pub create_macvtap_interface : Link → M Macvtap
  unfolding queue_length
  create_macvtap_interface master = do
    r ← ask (random 1024)
    let name = "macvtap" <> itoa (8192 + r)
    index ←
        wrapping "Couldn't add newlink" (
          must
            (ask (link_add name (macvtap (8192 + r) master.index (queue_length master.tx_qlen)))))
    pure (record { index = index; name = name; dev = "/dev/tap" <> itoa index })

  part_number : List (List ℕ) → ℕ → M ℕ
  part_number [] i = halt (panicked "index out of range")
  part_number (p ∷ rest) zero = elim (atoi_codes (trim_space p)) [
    | none ↦ raise (text "invalid syntax")
    | some n ↦ pure (uint32 n)
  ]
  part_number (p ∷ rest) (suc i) = part_number rest i

  -- The device node of the tap, from the numbers that sysfs shows; mode S_IFCHR|0600.
  unfoldable pub make_tap_node : Macvtap → M (Unit {0})
  unfolding part_number split_colon trim_space
  make_tap_node m = do
    content ← must (
        ask (
          read_file
            ("/sys/devices/virtual/net/" <> (m.name <> ("/tap" <> (itoa m.index <> "/dev"))))))
    let parts = split_colon (codes content)
    major ← part_number parts 0
    minor ← part_number parts 1
    must (ask (mknod m.dev 8576 major minor))

  first_address : List Addr → M Addr
  first_address [] = raise (text "master should have an IP")
  first_address (a ∷ rest) = pure a

  first_route : List (List ℕ) → M (List ℕ)
  first_route [] = raise (text "master should have at least one route")
  first_route (g ∷ rest) = pure g

  -- `CreateMacvtapInterfaceDocker`
  unfoldable pub create_macvtap_interface_docker : String → M MacvtapNetwork
  unfolding create_macvtap_interface make_tap_node first_address first_route
  create_macvtap_interface_docker master = do
    wrapping "Unable to create netlink handler" (must (ask netlink_handle))
    wrapping "Unable to setup tun dev" setup_tun_dev
    link ← wrapping "no master interface: %v" (must (ask (link_by_name master)))
    m ← wrapping "Unable to create Macvtapint" (create_macvtap_interface link)
    addrs ← wrapping "Unable to get address list" (must (ask (addr_list link.name)))
    addr ← first_address addrs
    routes ← wrapping "Unable to get route list" (must (ask (route_list link.name)))
    gateway ← first_route routes
    wrapping "Unable to delete address of master" (must (ask (addr_del link.name addr)))
    wrapping "Unable to set up tap link" (must (ask (link_set_up m.name)))
    wrapping "Unable to set up master link" (must (ask (link_set_up link.name)))
    made ← must (ask (link_by_name m.name))
    make_tap_node m
    pure (record {
      ip = addr.ip;
      gateway = gateway;
      mask = addr.mask;
      mac = made.hardware_addr;
      dev = m.dev;
    })
