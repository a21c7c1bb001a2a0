-- ===== src/NablaLib/Network/Changes.antt =====
-- What a set-up of the links by nabla-lib/network/network_linux.go has asked for, at whichever step
-- it stops.
use runnc.Base.{◌≡◌, refl, sym, String, List, [], ◌∷◌, ◌++◌, arith}
use mathlib.Core.Path.{subst}
use runnc.Go.{ok, done}
use runnc.Os.{
  Os, World, M, ask, must, wrapping, pure, ◌>>=◌, ◌>>◌, Event, called, handed, Call, Ret, Link,
  Addr, LinkKind, bridge, tuntap, link_by_name, link_add, link_del, link_set_up, addr_list,
  addr_add, addr_del, set_hardware_addr, set_master, Leaves, quiet, single, chain,
}
use runnc.NablaLib.Network.{
  MasterDetails, TapNetwork, setup_tun_dev, verify_tun_device, create_tun_device,
  get_master_details, create_bridge, create_tap_interface_docker,
}

-- A change to the links of the system.
pub data Change : Type 0 where
  adds : String → LinkKind → Change
  deletes sets_up : String → Change
  gives_addr drops_addr : String → Addr → Change
  sets_mac joins : String → String → Change

abbrev change : {r : Ret} → Call r → List Change → List Change
change (link_add name kind) rest = adds name kind ∷ rest
change (link_del name) rest = deletes name ∷ rest
change (link_set_up name) rest = sets_up name ∷ rest
change (addr_add name a) rest = gives_addr name a ∷ rest
change (addr_del name a) rest = drops_addr name a ∷ rest
change (set_hardware_addr name mac) rest = sets_mac name mac ∷ rest
change (set_master name master) rest = joins name master ∷ rest
change _ rest = rest

-- The changes asked for, the newest first.
abbrev pub changes : List Event → List Change
changes [] = []
changes (called c ∷ events) = change c (changes events)
changes (handed h ∷ events) = changes events

-- What bridges a tap device to a link, the newest first: the end of it, all after the address is
-- dropped, and all of it.
module _ (tap : String) (link : Link) where
  abbrev joining : List Change
  joining = sets_up "br0" ∷ joins tap "br0" ∷ joins link.name "br0" ∷ []

  abbrev bridging : List Change
  bridging = joining ++ (adds "br0" bridge ∷ sets_mac link.name "aa:aa:aa:aa:bb:cc" ∷ [])

  abbrev pub bridged_tap : Addr → List Change
  bridged_tap a = bridging ++ (drops_addr link.name a ∷ sets_up tap ∷ adds tap tuntap ∷ [])

module _ ⦃os : Os⦄ where
  setup_quiet : (w : World) → Leaves changes setup_tun_dev [] w
  unfolding setup_tun_dev verify_tun_device create_tun_device
  setup_quiet w = quiet changes _ w (ground arith)

  details_quiet : (link : Link) (w : World) → Leaves changes (get_master_details link) [] w
  unfolding get_master_details
  details_quiet link w = quiet changes _ w (ground arith)

  makes_bridge : (w : World) → Leaves changes (create_bridge "br0") (adds "br0" bridge ∷ []) w
  unfolding create_bridge
  makes_bridge w = single changes _ _ w (ground arith)

  bridge_name : (w : World) {b : String} → (create_bridge "br0" w).0 ≡ ok b → b ≡ "br0"
  unfolding create_bridge
  bridge_name w h = ground arith

  -- The rest of the set-up, from each of its steps on.
  module _ (tap : String) (link : Link) (d : MasterDetails) where
    abbrev finish : String → M TapNetwork
    finish br0 = do
      must (ask (link_set_up br0))
      pure (record { ip = d.addr.ip; gateway = d.gateway; mask = d.addr.mask; mac = d.mac })

    abbrev from_joining : String → M TapNetwork
    from_joining br0 = do ask (set_master link.name br0); ask (set_master tap br0); finish br0

    abbrev from_mac : M TapNetwork
    from_mac = do
      must (ask (set_hardware_addr link.name "aa:aa:aa:aa:bb:cc"))
      br0 ← create_bridge "br0"
      from_joining br0

    abbrev from_tap : M TapNetwork
    from_tap = do
      must (ask (link_add tap tuntap))
      must (ask (link_set_up tap))
      must (ask (addr_del link.name d.addr))
      from_mac

    joins_bridge :
        (br0 : String) (w : World)
        → Leaves changes
            (from_joining br0)
            (sets_up br0 ∷ joins tap br0 ∷ joins link.name br0 ∷ [])
            w
    joins_bridge br0 w =
        let one = ask (set_master link.name br0) in
        let two = ask (set_master tap br0) in
        chain changes one (λ _. two >>= λ _. finish br0) (joins link.name br0 ∷ [])
          (sets_up br0 ∷ joins tap br0 ∷ []) w (single changes one _ w refl)
          λ _ _.
            chain changes two (λ _. finish br0) (joins tap br0 ∷ []) (sets_up br0 ∷ []) (one w).1
              (single changes two _ (one w).1 refl)
              λ _ _. single changes (finish br0) _ (two (one w).1).1 (ground arith)

    changes_mac : (w : World) → Leaves changes from_mac (bridging tap link) w
    changes_mac w =
        let mac = must (ask (set_hardware_addr link.name "aa:aa:aa:aa:bb:cc")) in
        let made = create_bridge "br0" in
        chain changes mac (λ _. made >>= from_joining) (sets_mac link.name "aa:aa:aa:aa:bb:cc" ∷ [])
          (joining tap link ++ (adds "br0" bridge ∷ [])) w (single changes mac _ w (ground arith))
          λ _ _.
            chain changes made from_joining (adds "br0" bridge ∷ []) (joining tap link) (mac w).1
              (makes_bridge (mac w).1)
              λ b e.
                subst
                  (λ n.
                    Leaves changes (from_joining b)
                      (sets_up n ∷ joins tap n ∷ joins link.name n ∷ []) (made (mac w).1).1)
                  (bridge_name (mac w).1 e) (joins_bridge b (made (mac w).1).1)

    adds_tap : (w : World) → Leaves changes from_tap (bridged_tap tap link d.addr) w
    adds_tap w =
        let add = must (ask (link_add tap tuntap)) in
        let up = must (ask (link_set_up tap)) in
        let drop = must (ask (addr_del link.name d.addr)) in
        chain changes add (λ _. up >>= λ _. drop >>= λ _. from_mac) (adds tap tuntap ∷ [])
          (bridging tap link ++ (drops_addr link.name d.addr ∷ sets_up tap ∷ [])) w
          (single changes add _ w (ground arith))
          λ _ _.
            chain changes up (λ _. drop >>= λ _. from_mac) (sets_up tap ∷ [])
              (bridging tap link ++ (drops_addr link.name d.addr ∷ [])) (add w).1
              (single changes up _ (add w).1 (ground arith))
              λ _ _.
                chain changes drop (λ _. from_mac) (drops_addr link.name d.addr ∷ [])
                  (bridging tap link) (up (add w).1).1
                  (single changes drop _ (up (add w).1).1 (ground arith))
                  λ _ _. changes_mac (drop (up (add w).1).1).1

  module _ (tap master : String) (w : World) {link : Link} {a : Addr} {more : List Addr}
      {s t : os.Sys} (found : os.answer (link_by_name master) w.sys ≡ (done link, s))
      (held : os.answer (addr_list link.name) s ≡ (done (a ∷ more), t)) where
    abbrev find : M Link
    find = wrapping "no master interface" (must (ask (link_by_name master)))

    found_link : {l : Link} → (find w).0 ≡ ok l → l ≡ link
    found_link e = ground arith

    found_at : (find w).1.sys ≡ s
    found_at = ground arith

    found_addr :
        (v : World) {d : MasterDetails}
        → v.sys ≡ s
        → (get_master_details link v).0 ≡ ok d
        → d.addr ≡ a
    unfolding get_master_details
    found_addr v at e = ground arith

    abbrev from_setup : Link → MasterDetails → M TapNetwork
    from_setup l d = setup_tun_dev >>= λ _. from_tap tap l d

    sets_up_tap :
        (d : MasterDetails) (v : World)
        → d.addr ≡ a
        → Leaves changes (from_setup link d) (bridged_tap tap link a) v
    sets_up_tap d v at =
        chain changes setup_tun_dev (λ _. from_tap tap link d) [] (bridged_tap tap link a) v
          (setup_quiet v)
          λ _ _.
            subst
              (λ x.
                Leaves changes (from_tap tap link d) (bridged_tap tap link x) (setup_tun_dev v).1)
              at (adds_tap tap link d (setup_tun_dev v).1)

    abbrev from_details : Link → M TapNetwork
    from_details l = get_master_details l >>= from_setup l

    reads_details :
        (v : World) → v.sys ≡ s → Leaves changes (from_details link) (bridged_tap tap link a) v
    reads_details v at =
        chain changes (get_master_details link) (from_setup link) [] (bridged_tap tap link a) v
          (details_quiet link v)
          λ d e. sets_up_tap d (get_master_details link v).1 (found_addr v at e)

    -- With the master's link and its first address as they are found: at whichever step the set-up
    -- of the bridged tap stops, the changes that it has asked for are a beginning of one sequence,
    -- which ends with the bridge being up, and all of it where it succeeds. None of these takes a
    -- link away or gives an address back.
    pub create_tap_interface_docker-changes :
        let r = create_tap_interface_docker tap master w in
        (left missed : List Change) × (changes r.1.trace ≡ left ++ changes w.trace)
        × (missed ++ left ≡ bridged_tap tap link a)
        × ((n : TapNetwork) → r.0 ≡ ok n → left ≡ bridged_tap tap link a)
    unfolding create_tap_interface_docker
    create_tap_interface_docker-changes =
        let l : Leaves changes (create_tap_interface_docker tap master) (bridged_tap tap link a) w =
          chain changes find from_details [] (bridged_tap tap link a) w
            (quiet changes find w (ground arith))
            λ l e.
              subst (λ x. Leaves changes (from_details x) (bridged_tap tap link a) (find w).1)
                (sym (found_link e)) (reads_details (find w).1 found_at) in
        (l.left, l.missed, l.trace_is, l.parts, λ n. l.whole)
