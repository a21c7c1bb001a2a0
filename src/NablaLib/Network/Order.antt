-- ===== src/NablaLib/Network/Order.antt =====
-- The tun device and the bridged tap of nabla-lib/network/network_linux.go.
use runnc.Base.{ℕ, ◌≡◌, refl, sym, ap, ◌∙◌, ◌⊎◌, inl, inr, String, List, ◌∷◌, arith}
use mathlib.Core.Path.{subst}
use runnc.Go.{Outcome, ok, err, stop, done}
use runnc.Os.{
  Os, World, M, >>=-eq-ok, >>=-ok, wrapping, ◌>>◌, Link, Addr, stat_rdev, link_by_name, addr_list,
  route_list,
}
use runnc.NablaLib.Network.{
  TapNetwork, verify_tun_device, create_tun_device, setup_tun_dev, create_tap_interface_docker,
}

abbrev pub tun_device : String
tun_device = "/dev/net/tun"

module _ ⦃os : Os⦄ where
  -- The world of which the last call found the tun device with the numbers 10 and 200.
  pub record IsVerified (w : World) : Type 0 where
    pub before : os.Sys
    pub found : os.answer (stat_rdev tun_device) before ≡ (done (10, 200), w.sys)

  verify-IsVerified :
      (w : World) → (verify_tun_device w).0 ≡ ok tt → IsVerified (verify_tun_device w).1
  unfolding verify_tun_device
  verify-IsVerified w h = record { before = w.sys; found = ground arith }

  -- What follows the first test of the device.
  retry : M (Unit {0})
  retry = do wrapping "Unable to create /dev/net/tun" create_tun_device; verify_tun_device

  retry-IsVerified : (w : World) → (retry w).0 ≡ ok tt → IsVerified (retry w).1
  unfolding retry
  retry-IsVerified w h =
      let make = wrapping "Unable to create /dev/net/tun" create_tun_device in
      let again : Unit {0} → M (Unit {0}) = λ _. verify_tun_device in
      let (u, made, g) = >>=-eq-ok make again w h in
      subst (λ r. IsVerified r.1) (sym (>>=-ok make again w made)) (verify-IsVerified (make w).1 g)

  setup_cases :
      (w : World) (r : Outcome (Unit {0}))
      → (verify_tun_device w).0 ≡ r
      → (setup_tun_dev w).0 ≡ ok tt
      → (((verify_tun_device w).0 ≡ ok tt) × ((setup_tun_dev w).1 ≡ (verify_tun_device w).1))
        ⊎ (setup_tun_dev w ≡ retry (verify_tun_device w).1)
  unfolding setup_tun_dev retry
  setup_cases w (ok u) e h = inl (e, ground arith)
  setup_cases w (err x) e h = inr (ground arith)
  setup_cases w (stop s) e h = ground arith

  -- `SetupTunDev` succeeds only if its last call found the tun device to be 10/200, whether the
  -- device was there or had to be made.
  setup_tun_dev-IsVerified :
      (w : World) → (setup_tun_dev w).0 ≡ ok tt → IsVerified (setup_tun_dev w).1
  setup_tun_dev-IsVerified w h = elim (setup_cases w _ refl h) [
    | inl (e, same) ↦ subst IsVerified (sym same) (verify-IsVerified w e)
    | inr again ↦
        subst (λ r. IsVerified r.1) (sym again)
          (retry-IsVerified (verify_tun_device w).1 (ap (λ r. r.0) (sym again) ∙ h))
  ]

  -- When the tap device is bridged to the master, what is returned is the master's first address and
  -- mask, the gateway of its first route, and the hardware address that it had before.
  create_tap_interface_docker_lem :
      (tap master : String) (w : World) {t : TapNetwork} {link : Link} {a : Addr} {g : List ℕ}
      {more : List Addr} {gs : List (List ℕ)} {s₁ s₂ s₃ : os.Sys}
      → os.answer (link_by_name master) w.sys ≡ (done link, s₁)
      → os.answer (addr_list link.name) s₁ ≡ (done (a ∷ more), s₂)
      → os.answer (route_list link.name) s₂ ≡ (done (g ∷ gs), s₃)
      → (create_tap_interface_docker tap master w).0 ≡ ok t
      → t ≡ record { ip = a.ip; gateway = g; mask = a.mask; mac = link.hardware_addr }
  unfolding create_tap_interface_docker
  create_tap_interface_docker_lem tap master w h₁ h₂ h₃ h = ground arith
