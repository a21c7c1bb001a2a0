-- ===== src/Llmodules/Iso.antt =====
-- llmodules/fs/iso_storage.go: the handler that packs the root file system into an ISO image.
pub mod Selection
use runnc.Base.{
  ℕ, String, ◌<>◌, Option, none, some, List, [], ◌∷◌, Bool, ◌||◌, str_eq, if◌then◌else◌, join,
}
use runnc.Os.{Os, World, M, ask, must, wrapping, pure, ◌>>=◌, ◌>>◌, mkdir_all, remove_all}
use runnc.Configs.{Config, Mount}
use runnc.Llif.{LlState, GenericInput, FsHandler}
use runnc.NablaLib.Storage.{create_iso}
use runnc.Utils.{copy_path}

abbrev pub iso_name : String
iso_name = "rootfs.iso"

-- The mounts that are copied into the root file system.
unfoldable pub is_network_file : Mount → Bool
is_network_file m =
    str_eq m.destination "/etc/resolv.conf"
    || str_eq m.destination "/etc/hosts"
    || str_eq m.destination "/etc/hostname"

module _ ⦃os : Os⦄ (fuel : ℕ) where
  copy_mount : String → Mount → M (Unit {0})
  copy_mount rootfs m =
      if is_network_file m
      then wrapping ("Unable to copy " <> (m.source <> (" to " <> join rootfs m.destination)))
          (copy_path fuel (join rootfs m.destination) m.source)
      else pure tt

  pub copy_mounts : String → List Mount → M (Unit {0})
  unfolding copy_mount
  copy_mounts rootfs [] = pure tt
  copy_mounts rootfs (m ∷ ms) = do copy_mount rootfs m; copy_mounts rootfs ms

  -- `createRootfsISO`
  unfoldable pub create_rootfs_iso : Config → String → M String
  unfolding copy_mounts
  create_rootfs_iso config container_root = do
    wrapping ("Unable to create " <> join config.rootfs "/etc")
        (must (ask (mkdir_all (join config.rootfs "/etc") 493)))
    copy_mounts config.rootfs config.mounts
    wrapping "Error creating iso from rootfs"
        (create_iso config.rootfs (some (join container_root iso_name)))
    pure (join container_root iso_name)

  -- `FsCreateFunc`
  unfoldable pub iso_create : GenericInput → M (Option LlState)
  iso_create i = do
    fs_path ← wrapping "Unable to create rootfs ISO" (create_rootfs_iso i.config i.container_root)
    pure (some (record { options = ("FsPath", fs_path) ∷ []; in_memory_objects = [] }))

  -- `FsRunFunc`
  unfoldable pub iso_run : GenericInput → M (Option LlState)
  iso_run i = pure i.fs_state

  -- `FsDestroyFunc`
  unfoldable pub iso_destroy : GenericInput → M (Option LlState)
  iso_destroy i = do must (ask (remove_all i.container_root)); pure i.fs_state

  -- `iSOFsHandler`
  abbrev pub iso_handler : FsHandler
  iso_handler = record {
    fs_create_func = iso_create;
    fs_run_func = iso_run;
    fs_destroy_func = iso_destroy;
  }
