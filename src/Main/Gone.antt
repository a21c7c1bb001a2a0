-- ===== src/Main/Gone.antt =====
-- What `destroy` of libcontainer/container_nabla.go does with the handlers that runnc.go chooses, and
-- what a later run finds.
use mathlib.Core.Path.{subst}
use runnc.Base.{ℕ, ◌≡◌, ◌≢◌, refl, ap, ◌∙◌, String, ◌<>◌, some, [], ◌∷◌, Bool, true, join, arith}
use runnc.Go.{err, GoError, text, generic, container_not_exists, failed, done, is_not_exist}
use runnc.Os.{
  Os, World, M, Keeps, >>=-Keeps, reply-Keeps, must, attempt, wrapping, pure, ◌>>=◌, ask, called,
  handed, remove_all, open_read, stat, stat_rdev, mkdir, mknod, link_del, exec_destroy, fs_destroy,
  network_destroy,
}
use runnc.Libcontainer.State.{Container, Codec, state_filename}
use runnc.Libcontainer.Container.{destroy}
use runnc.Libcontainer.Factory.{load}
use runnc.Libcontainer.Factory.Load.{load_missing}
use runnc.Llif.{GenericInput}
use runnc.NablaLib.Mask.{Net}
use runnc.NablaLib.Network.{remove_tap_device, setup_tun_dev, verify_tun_device, create_tun_device}
use runnc.NablaLib.Network.Order.{tun_device}
use runnc.Llmodules.Iso.{iso_destroy}
use runnc.Llmodules.TapBridge.{tap_destroy}
use runnc.Nabla.Rumprun.{Json}
use runnc.Main.{nabla_llc_handler}

-- A file system in which a directory can be removed with the file in it, and in which the calls on the
-- tun device and on links make no such file.
pub record IsRemoval (os : Os) (dir path : String) : Type 0 where
  pub absent : os.Sys → Bool
  pub missing :
      (s : os.Sys)
      → absent s ≡ true
      → (e : GoError) × (t : os.Sys) × (os.answer (open_read path) s ≡ (failed e, t))
        × (is_not_exist e ≡ true)
  pub removes : (s t : os.Sys) → os.answer (remove_all dir) s ≡ (done tt, t) → absent t ≡ true
  pub stat_keeps : (p : String) (s : os.Sys) → absent (os.answer (stat p) s).1 ≡ absent s
  pub rdev_keeps : (p : String) (s : os.Sys) → absent (os.answer (stat_rdev p) s).1 ≡ absent s
  pub mkdir_keeps : (s : os.Sys) → absent (os.answer (mkdir "/dev/net" 493) s).1 ≡ absent s
  pub mknod_keeps :
      (s : os.Sys) → absent (os.answer (mknod "/dev/net/tun" 8630 10 200) s).1 ≡ absent s
  pub link_keeps : (p : String) (s : os.Sys) → absent (os.answer (link_del p) s).1 ≡ absent s

module _ ⦃os : Os⦄ (dir path : String) (removal : IsRemoval os dir path) where
  verify-Keeps : Keeps removal.absent verify_tun_device
  unfolding verify_tun_device
  verify-Keeps w = grind (arith, removal.rdev_keeps tun_device w.sys)

  make-Keeps : Keeps removal.absent create_tun_device
  unfolding create_tun_device
  make-Keeps w =
      grind (arith, removal.stat_keeps "/dev/net" w.sys, removal.mkdir_keeps, removal.mknod_keeps)

  setup-Keeps : Keeps removal.absent setup_tun_dev
  unfolding setup_tun_dev
  setup-Keeps =
      let make = wrapping "Unable to create /dev/net/tun" create_tun_device in
      let retry : M (Unit {0}) = make >>= λ _. verify_tun_device in
      >>=-Keeps removal.absent (attempt verify_tun_device) _ verify-Keeps λ r.
        reply-Keeps removal.absent r (λ _. pure tt) (λ _. retry) (λ _ w. refl)
          λ _. >>=-Keeps removal.absent make (λ _. verify_tun_device) make-Keeps λ _. verify-Keeps

  unlink-Keeps : (tap : String) → Keeps removal.absent (must (ask (link_del tap)))
  unlink-Keeps tap w = grind (arith, removal.link_keeps tap w.sys)

  remove-Keeps : (tap : String) → Keeps removal.absent (remove_tap_device tap)
  unfolding remove_tap_device
  remove-Keeps tap =
      >>=-Keeps removal.absent setup_tun_dev (λ _. must (ask (link_del tap))) setup-Keeps
        λ _. unlink-Keeps tap

  tap-Keeps : (net : Net) (i : GenericInput) → Keeps removal.absent (tap_destroy net i)
  unfolding tap_destroy
  tap-Keeps net i w = grind (arith, remove-Keeps)

module _ ⦃os : Os⦄ ⦃codec : Codec⦄ (fuel : ℕ) (json : Json) (net : Net) where
  gone :
      (c : Container) (w : World) {s : os.Sys}
      (removal : IsRemoval os c.root (join c.root state_filename))
      → os.answer (remove_all c.root) w.sys ≡ (done tt, s)
      → removal.absent (destroy (nabla_llc_handler fuel json net) c w).1.sys ≡ true
  unfolding destroy iso_destroy
  gone c w {s} removal h =
      let there : removal.absent s ≡ true = removal.removes w.sys s h in
      let input : GenericInput = record {
        container_id = c.id;
        container_root = c.root;
        config = c.config;
        fs_state = some c.state.fs_state;
        network_state = some c.state.network_state;
        exec_state = some (record { options = []; in_memory_objects = [] });
      } in
      let v : World = record {
        sys = s;
        trace =
            handed network_destroy
            ∷ called (remove_all c.root)
            ∷ handed fs_destroy
            ∷ handed exec_destroy
            ∷ w.trace;
      } in
      let ends : (destroy (nabla_llc_handler fuel json net) c w).1.sys
          ≡ (tap_destroy net input v).1.sys =
        ground arith in
      ap removal.absent ends
      ∙ tap-Keeps c.root (join c.root state_filename) removal net input v
      ∙ there

  -- With the handlers of `runnc`, on a root that is given, where the calls on the tun device and on
  -- links make no state file: once the directory of the container has been removed, and whether or not
  -- `destroy` then removes the tap device, no later run that finds the files as it leaves them finds
  -- the container, which is reported as one that does not exist.
  pub destroy-load :
      (root : String) (c : Container) (w : World) {s : os.Sys}
      (removal : IsRemoval os c.root (join c.root state_filename))
      → root ≢ ""
      → c.root ≡ join root c.id
      → os.answer (remove_all c.root) w.sys ≡ (done tt, s)
      → (load root c.id (destroy (nabla_llc_handler fuel json net) c w).1).0
        ≡ err (generic container_not_exists "" (text ("container " <> (c.id <> " does not exist"))))
  destroy-load root c w removal given at h =
      let v = (destroy (nabla_llc_handler fuel json net) c w).1 in
      let (e, t, opened, not_there) = removal.missing v.sys (gone c w removal h) in
      load_missing root c.id v given
        (subst (λ d. os.answer (open_read (join d state_filename)) v.sys ≡ (failed e, t)) at opened)
        not_there
