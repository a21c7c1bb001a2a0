-- ===== src/Llmodules/TapBridge/Device.antt =====
-- The tap device of a container, from its making to its removal (llmodules/network/tap_bridge.go).
use runnc.Base.{
  ℕ, ◌≡◌, refl, ◌≤◌, ◌*◌, String, ◌<>◌, Option, some, [], ◌∷◌, text_len, text_take, itoa, arith,
  ltb, Bool-cases, inl, inr,
}
use runnc.Go.{ok}
use runnc.Os.{Os, World, pure, ◌>>=◌, >>=-eq-ok}
use runnc.Llif.{LlState, GenericInput}
use runnc.NablaLib.Mask.{Net, mask_size}
use runnc.NablaLib.Mask.RoundTrip.{cidr_mask, mask_size-cidr_mask}
use runnc.NablaLib.Network.{TapNetwork, create_tap_interface_docker, remove_tap_device}
use runnc.Llmodules.TapName.{nabla_tap_name}
use runnc.Llmodules.TapName.Length.{nabla_tap_name_lem}
use runnc.Llmodules.TapBridge.{
  option_at, with_options, run_options, outcome_of, tap_option, tap_create, tap_run, tap_destroy,
}

named_ok :
    (id : String) {name : String}
    → nabla_tap_name id ≡ ok name
    → (12 ≤ text_len id) × (name ≡ "tap" <> text_take 12 id)
named_ok id h =
    let (fine, short, tiny) = nabla_tap_name_lem id in
    elim (Bool-cases (ltb (text_len id) 12)) [
      | inl less ↦ elim (Bool-cases (ltb (text_len id) 8)) [
        | inl few ↦ ground (arith, tiny)
        | inr many ↦ ground (arith, short)
      ]
      | inr enough ↦ ground (arith, fine)
    ]

module _ ⦃os : Os⦄ (net : Net) where
  -- If the network handler's create succeeds, the id has twelve characters or more, and the state
  -- names the device after its first twelve; given this state, the handler's destroy removes exactly
  -- this device, and gives the state back if that succeeds.
  pub tap_create-tap_destroy :
      (i : GenericInput) (w : World) {s : Option LlState}
      → (tap_create net i w).0 ≡ ok s
      → let tap = "tap" <> text_take 12 i.container_id in
        (12 ≤ text_len i.container_id)
        × (s ≡ some (with_options (("TapName", tap) ∷ [])))
        × ((v : World)
            → tap_destroy net (record i { network_state = s }) v
              ≡ (remove_tap_device tap >>= λ _. pure s) v)
  unfolding tap_create tap_destroy tap_option
  tap_create-tap_destroy i w {s} h =
      let (name, named, rest) = >>=-eq-ok (outcome_of net (nabla_tap_name i.container_id)) _ w h in
      let (long, full) = named_ok i.container_id named in
      let made : s ≡ some (with_options (("TapName", "tap" <> text_take 12 i.container_id) ∷ [])) =
        ground arith in
      (long, made, λ v. rw made refl)

  -- If the tap device is bridged to an interface with an IPv4 mask of n ones, the run of the network
  -- handler passes on, under these keys and in this order, the address and the gateway as texts, n in
  -- decimal, the hardware address, and the tap's name from the create.
  pub tap_run_lem :
      (i : GenericInput) (w : World) {tap : String} {n : ℕ} {t : TapNetwork} {st : LlState}
      → i.network_state ≡ some st
      → option_at "TapName" st.options ≡ some tap
      → 12 ≤ text_len i.container_id
      → (create_tap_interface_docker ("tap" <> text_take 12 i.container_id) "eth0" w).0 ≡ ok t
      → t.mask ≡ cidr_mask 4 n
      → n ≤ 32
      → (tap_run net i w).0
        ≡ ok (
            some (
              with_options (
                ("IPAddress", net.ip_string t.ip)
                ∷ ("Gateway", net.ip_string t.gateway)
                ∷ ("IPMask", itoa n)
                ∷ ("Mac", t.mac)
                ∷ ("TapName", tap)
                ∷ [])))
  unfolding tap_run run_options
  tap_run_lem i w {tap} {n} {t} {st} given named long made masked small =
      let size : mask_size t.mask ≡ (n, 8 * 4) = rw masked (mask_size-cidr_mask 4 n small) in
      let own = (nabla_tap_name_lem i.container_id).0 long in ground arith
